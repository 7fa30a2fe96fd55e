-- ===== src/Tests/Transport.antt =====
-- transport.go on a request, a policy and a service that fails.
use http_governance_client.Common.{
  inr, if◌then◌else◌, ℕ, ◌≤◌, ◌≡◌, refl, true, false, Option, none, some, arith, pos, negsuc, ◌<ℤ◌,
  ◌≤ℤ◌, ◌+ℤ◌, ◌-ℤ◌, ◌*ℤ◌, wrap64, add64, sub64, mul64, sub_saturated, ◌⊎◌, inl, [], ◌∷◌,
}
use http_governance_client.Common.Text.{to_lower, codes, text_eq, trim_space, equal_fold}
use http_governance_client.Common.Number.{parse_int, format_int}
use http_governance_client.Types.Policy.{RetryPolicy}
use http_governance_client.Types.Message.{
  Request, Response, GoError, get, header_retry_attempt, header_no_more_retry, header_retry_reason,
}
use http_governance_client.Policy.Backoff.{retry_delay, backoff, parse_retry_after, grow}
use http_governance_client.Policy.Deadline.{
  format_bool, no_more_retry_from_context, parse_bool_header, parse_request_deadline,
}
use http_governance_client.Budget.Ops.{normalize_retry_budget_key, Entries, reserve, take, entry}
use http_governance_client.Budget.Config.{disabled}
use http_governance_client.Transport.Attempt.{
  attempt_header, attempt_timeout, prepare_attempt_request,
}
use http_governance_client.Middleware.{governance_middleware, round_trip-governance_middleware}
use http_governance_client.Transport.Retryable.{should_retry, is_retryable_request}
use http_governance_client.Transport.Resolve.{
  ConfigProvider, absent, custom, CustomProvider, Globals, resolve,
}
use http_governance_client.Transport.Loop.{
  Fixed, Moment, run, rounds_of, loop, round, prepared, attempted, answered, schedule,
  reserved_or_denied, round_trip_once,
}
use http_governance_client.Transport.RoundTrip.{
  Transport, Outside, governed, round_trip, prepare_skipped_request, original_no_more_retry,
}
use http_governance_client.Transport.Attempts.{count_sends, sent_of, run-attempts}
use http_governance_client.Transport.Cancels.{Released, run-releases}
use http_governance_client.Transport.Skipped.{round_trip-once, prepare_skipped_request-reads}
use http_governance_client.Policy.Deadline.{resolve_overall_deadline}
use http_governance_client.Transport.Charges.{IsQuiet, IsCharged, run-IsCharged}
use http_governance_client.Transport.Settled.{run-pending, Answers}
use http_governance_client.Transport.Governed.{governed-negative}
use http_governance_client.Transport.Headers.{Carries, attempt_header-reads, attempt_timeout-bounds}
use http_governance_client.Tests.Policy.{
  get_orders, thrice, no_jitter, same_text, empty_header, strict,
}

abbrev unavailable : Response
unavailable = record { status_code = pos 503; header = empty_header; has_body = true }

abbrev fails : Request → Option Response × Option GoError
fails req = (some unavailable, none)

abbrev moment : ℕ → Moment
moment n = record {
  prepared_at = pos n;
  started_at = pos n;
  round_trip = fails;
  checked_at = pos n;
  chance = no_jitter;
  delayed_at = pos n;
  before_reserve = λ b. b;
  while_waiting = λ b. b;
  interrupted = none;
}

abbrev moment-Answers : Answers moment
moment-Answers n req = tt

abbrev outside : Outside
outside = record {
  resolved_at = pos 0;
  moments = moment;
  duration = pos 5;
  before_success = λ b. b;
  round_trip = fails;
}

abbrev no_entries : Entries
no_entries k = none

abbrev globals : Globals
globals = record { extension = none; caller_service_name = codes "web" }

abbrev provider : CustomProvider
provider = record {
  resolve_retry_policy = λ ctx scope policy. thrice;
  class_resolver = none;
  scope_resolver = none;
}

abbrev transport : ConfigProvider → RetryPolicy → Transport
transport p policy = record {
  skipper = none;
  resolve_policy = some (λ req. policy);
  config_provider = p;
  observed = true;
  result_observed = true;
}

-- The caller of this request has retried already.
abbrev last_chance : Request
last_chance = record get_orders { header = strict }

round_trip-once_example :
    count_sends
      (round_trip same_text globals
        (transport (custom provider) thrice)
        outside
        last_chance
        no_entries).trace
    ≤ 1
unfolding parse_bool_header equal_fold trim_space no_more_retry_from_context text_eq
round_trip-once_example =
    round_trip-once same_text globals (transport (custom provider) thrice) outside last_chance
      no_entries (inr (inl refl))

skipped_example :
    (parse_bool_header
        (get (prepare_skipped_request (pos 0) get_orders).header header_no_more_retry)
      ≡ original_no_more_retry get_orders)
    × Carries get_orders.header
        (some (pos 7_000_000_000))
        (prepare_skipped_request (pos 0) get_orders).header
    × ((prepare_skipped_request (pos 0) get_orders).header header_retry_attempt ≡ codes "0" ∷ [])
    × ((prepare_skipped_request (pos 0) get_orders).header header_retry_reason ≡ [])
unfolding resolve_overall_deadline parse_request_deadline trim_space text_eq parse_int ◌*ℤ◌
skipped_example = prepare_skipped_request-reads (pos 0) get_orders (λ d e. ground arith)

governed-negative_example :
    (count_sends
        (governed same_text globals
          (transport absent (record thrice { max_retries = negsuc 0 }))
          outside
          get_orders
          no_entries).trace
      ≡ 0)
    × ((governed same_text globals
          (transport absent (record thrice { max_retries = negsuc 0 }))
          outside
          get_orders
          no_entries).response
        ≡ none)
    × ((governed same_text globals
          (transport absent (record thrice { max_retries = negsuc 0 }))
          outside
          get_orders
          no_entries).error
        ≡ none)
unfolding parse_bool_header equal_fold trim_space no_more_retry_from_context text_eq resolve
governed-negative_example =
    governed-negative same_text globals
      (transport absent (record thrice { max_retries = negsuc 0 })) outside get_orders no_entries
      (omega arith) refl

abbrev fixed : Fixed
fixed = record {
  request = get_orders;
  policy = thrice;
  class = codes "internal_read";
  downstream = codes "orders";
  budget = disabled;
  deadline = none;
  original_no_more_retry = false;
  max_retries = pos 3;
  observed = true;
}

-- Four attempts, and the last answer.
run_fails : (run fixed moment no_entries).total_attempts ≡ 4
unfolding run loop round prepared attempted answered schedule reserved_or_denied should_retry
    is_retryable_request prepare_attempt_request attempt_timeout round_trip_once reserve retry_delay
    backoff parse_retry_after grow parse_bool_header attempt_header format_bool sub64 wrap64 ◌-ℤ◌
    add64 ◌+ℤ◌ mul64 ◌*ℤ◌
run_fails = refl

run-attempts_example :
    (count_sends (run fixed moment no_entries).trace
      ≡ sent_of get_orders.url (run fixed moment no_entries).total_attempts)
    × ((run fixed moment no_entries).total_attempts ≤ rounds_of (pos 3))
run-attempts_example = run-attempts fixed moment no_entries

run-releases_example : Released 2 (run fixed moment no_entries)
run-releases_example = run-releases fixed moment no_entries 2 (rw run_fails (omega arith))

run-pending_example : (run fixed moment no_entries).pending ≡ none
run-pending_example = run-pending fixed moment no_entries

attempt_header_example :
    (parse_bool_header (
        get
          (attempt_header empty_header 2 true (some (pos 5_000_000)) (codes "5xx"))
          header_no_more_retry)
      ≡ true)
    × Carries empty_header
        (some (pos 5_000_000))
        (attempt_header empty_header 2 true (some (pos 5_000_000)) (codes "5xx"))
    × (attempt_header empty_header 2 true (some (pos 5_000_000)) (codes "5xx") header_retry_attempt
        ≡ format_int (pos 2) ∷ [])
    × (attempt_header empty_header 2 true (some (pos 5_000_000)) (codes "5xx") header_retry_reason
        ≡ codes "5xx" ∷ [])
attempt_header_example =
    attempt_header-reads empty_header 2 true (some (pos 5_000_000)) (codes "5xx")
      (λ d e. ground arith)

attempt_timeout_example :
    (pos 3 <ℤ pos 10)
    × (pos 0 <ℤ pos 7)
    × (pos 7 ≤ℤ pos 10 -ℤ pos 3)
    × ((pos 9 ≤ℤ pos 0) ⊎ (pos 7 ≤ℤ pos 9))
unfolding attempt_timeout sub_saturated ◌-ℤ◌
attempt_timeout_example = attempt_timeout-bounds (pos 3) (pos 9) (pos 10) refl

abbrev paid : Fixed
paid = record fixed {
  budget = record {
    enabled = true;
    capacity = pos 10;
    retry_cost = pos 2;
    success_increment = pos 1;
  };
}

paid-IsQuiet : IsQuiet paid moment 2 10
paid-IsQuiet = record {
  enabled = refl;
  valid = record {
    capacity_pos = omega arith;
    cost_pos = omega arith;
    increment_pos = omega arith;
  };
  cost_is = refl;
  capacity_is = refl;
  cost_fits = omega arith;
  capacity_fits = omega arith;
  alone_before = λ n b. refl;
  alone_after = λ n b. refl;
}

run-IsCharged_example :
    IsCharged paid moment 2 10 paid-IsQuiet none 10 refl (run paid moment no_entries)
run-IsCharged_example = run-IsCharged paid moment 2 10 paid-IsQuiet none 10 refl no_entries refl

-- A balance above the capacity counts as the capacity: three retries leave 4 of 10.
abbrev full_orders : Entries
full_orders k = if text_eq (codes "orders") k then some (pos 90) else none

charged_above : (run paid moment full_orders).entries (codes "orders") ≡ some (pos 4)
unfolding run loop round prepared attempted answered schedule reserved_or_denied should_retry
    is_retryable_request prepare_attempt_request attempt_timeout round_trip_once reserve retry_delay
    backoff parse_retry_after grow parse_bool_header attempt_header format_bool sub64 wrap64 ◌-ℤ◌
    add64 ◌+ℤ◌ mul64 ◌*ℤ◌ normalize_retry_budget_key text_eq trim_space to_lower take entry
charged_above = refl

-- What a handler sends on for a caller that has retried already.
abbrev sent_on : Request
sent_on = record get_orders { context = (governance_middleware last_chance).context }

middleware_example :
    count_sends
      (round_trip same_text globals
        (transport (custom provider) thrice)
        outside
        sent_on
        no_entries).trace
    ≤ 1
unfolding parse_bool_header equal_fold trim_space text_eq
middleware_example =
    round_trip-governance_middleware same_text globals (transport (custom provider) thrice) outside
      last_chance sent_on no_entries refl refl
