-- ===== src/Tests/Metrics.antt =====
-- The counters of an event.
use http_governance_client.Common.{◌≡◌, refl, true, none, some, pos, [], ◌∷◌}
use http_governance_client.Common.Text.{codes}
use http_governance_client.Types.Policy.{internal_read}
use http_governance_client.Types.Message.{Response}
use http_governance_client.Transport.RoundTrip.{RequestResultEvent, request_result_event}
use http_governance_client.Metrics.{LabelValues, new_observer, observe_all}
use http_governance_client.Tests.Policy.{get_orders, read_orders, empty_header}
use http_governance_client.Metrics.Consistent.{IsConsistent, value, total, observe_all-IsConsistent}

abbrev fine : Response
fine = record { status_code = pos 200; header = empty_header; has_body = true }

-- A request that succeeded at the third attempt.
retried : RequestResultEvent
unfolding request_result_event
retried =
    request_result_event get_orders read_orders internal_read (pos 2) 3 (pos 5) (some fine) none []

abbrev orders_labels : LabelValues
orders_labels = codes "web" ∷ codes "orders" ∷ [] ∷ codes "GET" ∷ internal_read ∷ []

observe_all_example :
    IsConsistent (observe_all (retried ∷ []) new_observer) orders_labels
    × (value (observe_all (retried ∷ []) new_observer).requests orders_labels
        ≡ total orders_labels (λ _. 1) (retried ∷ []))
    × (value (observe_all (retried ∷ []) new_observer).retries orders_labels
        ≡ total orders_labels (λ e. e.retry_count) (retried ∷ []))
unfolding retried
observe_all_example =
    observe_all-IsConsistent (retried ∷ []) orders_labels
      ((get_orders, read_orders, internal_read, pos 2, 3, pos 5, some fine, none, [], refl), tt)
