-- ===== src/Metrics/Consistent.antt =====
-- metrics/prometheus/observer.go and transport.go: how the counters relate.
use http_governance_client.Common.{
  ℕ, ◌+◌, ◌≤◌, ◌≡◌, refl, true, not, ◌&&◌, Option, none, some, arith, ℤ, if◌then◌else◌, inl, inr,
  List, [], ◌∷◌, All, Bool-cases, ltb,
}
use http_governance_client.Common.Text.{Text, text_eq, text_eq_sound}
use http_governance_client.Types.Policy.{RequestClass}
use http_governance_client.Types.Message.{Request, Response, GoError}
use http_governance_client.Transport.RoundTrip.{RequestResultEvent, request_result_event}
use http_governance_client.Policy.Reason.{is_final_failure}
use http_governance_client.Types.Policy.{RetryConfigScope}
use http_governance_client.Policy.Reason.{is_timeout_error}
use http_governance_client.Metrics.{
  LabelValues, labels_eq, CounterVec, or_zero, add_to, one_if, Observer, new_observer, labels_of,
  observe_request_result, observe_all,
}

-- What a series counts; none counts as 0.
abbrev pub value : CounterVec → LabelValues → ℕ
value c labels = or_zero (c labels)

-- What the counters of the same labels say of each other.
pub record IsConsistent (o : Observer) (labels : LabelValues) : Type 0 where
  pub retried : value o.retried_requests labels ≤ value o.requests labels
  pub succeeded : value o.retry_succeeded_requests labels ≤ value o.retried_requests labels
  pub retries : value o.retried_requests labels ≤ value o.retries labels
  pub ended :
      value o.retry_succeeded_requests labels + value o.request_failures labels
      ≤ value o.requests labels
  pub timeouts : value o.request_timeouts labels ≤ value o.request_failures labels

-- An event that says the same of a request in all its fields.
pub record IsEvent (e : RequestResultEvent) : Type 0 where
  pub retried : e.retried ≡ ltb 0 e.retry_count
  pub succeeded : e.retry_succeeded ≡ e.retried && not e.final_failed
  pub timeout : e.timed_out ≡ true → e.final_failed ≡ true

labels_eq_sound : (xs ys : LabelValues) → labels_eq xs ys ≡ true → xs ≡ ys
labels_eq_sound [] [] h = refl
labels_eq_sound [] (y ∷ ys) h = cc
labels_eq_sound (x ∷ xs) [] h = cc
labels_eq_sound (x ∷ xs) (y ∷ ys) h = elim (Bool-cases (text_eq x y)) [
  | inr e ↦ absurd (ground arith)
  | inl e ↦ elim (Bool-cases (labels_eq xs ys)) [
    | inr f ↦ absurd (ground arith)
    | inl f ↦ rw (text_eq_sound x y e, labels_eq_sound xs ys f) refl
  ]
]

-- Whether the labels are the same decides how much is added.
added : LabelValues → ℕ → LabelValues → ℕ
added at n labels = if labels_eq at labels then n else 0

value-add_to :
    (at : LabelValues) (n : ℕ) (c : CounterVec) (labels : LabelValues)
    → value (add_to at n c) labels ≡ value c labels + added at n labels
unfolding add_to added
value-add_to at n c labels = elim (Bool-cases (labels_eq at labels)) [
  | inl e ↦ rw (e, labels_eq_sound at labels e) refl
  | inr e ↦ rw e (ground arith)
]

-- What holds of the numbers of an event holds of what it adds to any series.
added_le : (at labels : LabelValues) (m n : ℕ) → m ≤ n → added at m labels ≤ added at n labels
unfolding added
added_le at labels m n h = elim (Bool-cases (labels_eq at labels)) [
  | inl e ↦ rw e h
  | inr e ↦ rw e (ground arith)
]

added_sum :
    (at labels : LabelValues) (l m n : ℕ)
    → l + m ≤ n
    → added at l labels + added at m labels ≤ added at n labels
unfolding added
added_sum at labels l m n h = elim (Bool-cases (labels_eq at labels)) [
  | inl e ↦ rw e h
  | inr e ↦ rw e (ground arith)
]

le_add : (a b c d : ℕ) → a ≤ b → c ≤ d → a + c ≤ b + d
le_add a b c d h k = omega arith

sum_le : (a b c x y z : ℕ) → a + b ≤ c → x + y ≤ z → (a + x) + (b + y) ≤ c + z
sum_le a b c x y z h k = omega arith

-- The numbers that an event adds.
event-numbers :
    (e : RequestResultEvent)
    → IsEvent e
    → (one_if e.retry_succeeded ≤ one_if e.retried)
      × (one_if e.retried ≤ e.retry_count)
      × (one_if e.retried ≤ 1)
      × (one_if e.retry_succeeded + one_if e.final_failed ≤ 1)
      × (one_if e.timed_out ≤ one_if e.final_failed)
event-numbers e h =
    let retried = h.retried in
    let succeeded = h.succeeded in
    let timeout = h.timeout in
    elim (Bool-cases e.retried) [
      | inl r ↦ elim (Bool-cases e.final_failed) [
        | inl f ↦ elim (Bool-cases e.timed_out) [ inl t ↦ ground arith | inr t ↦ ground arith ]
        | inr f ↦ elim (Bool-cases e.timed_out) [
          | inl t ↦ absurd (cc (timeout t, f))
          | inr t ↦ ground arith
        ]
      ]
      | inr r ↦ elim (Bool-cases e.final_failed) [
        | inl f ↦ elim (Bool-cases e.timed_out) [ inl t ↦ ground arith | inr t ↦ ground arith ]
        | inr f ↦ elim (Bool-cases e.timed_out) [
          | inl t ↦ absurd (cc (timeout t, f))
          | inr t ↦ ground arith
        ]
      ]
    ]

observe-IsConsistent :
    (e : RequestResultEvent) (o : Observer) (labels : LabelValues)
    → IsEvent e
    → IsConsistent o labels
    → IsConsistent (observe_request_result e o) labels
unfolding observe_request_result
observe-IsConsistent e o labels h k =
    let (succeeded, retries, once, ended, timeouts) = event-numbers e h in
    let at = labels_of e in
    let requests = value-add_to at 1 o.requests labels in
    let retried = value-add_to at (one_if e.retried) o.retried_requests labels in
    let done = value-add_to at (one_if e.retry_succeeded) o.retry_succeeded_requests labels in
    let failed = value-add_to at (one_if e.final_failed) o.request_failures labels in
    let timed_out = value-add_to at (one_if e.timed_out) o.request_timeouts labels in
    let counted = value-add_to at e.retry_count o.retries labels in
    record {
      retried = rw (requests, retried) (le_add _ _ _ _ k.retried (added_le at labels _ _ once));
      succeeded =
          rw (done, retried) (le_add _ _ _ _ k.succeeded (added_le at labels _ _ succeeded));
      retries = rw (counted, retried) (le_add _ _ _ _ k.retries (added_le at labels _ _ retries));
      ended =
          rw (done, failed, requests)
            (sum_le _ _ _ _ _ _ k.ended (added_sum at labels _ _ _ ended));
      timeouts =
          rw (timed_out, failed) (le_add _ _ _ _ k.timeouts (added_le at labels _ _ timeouts));
    }

request_result_event-IsEvent :
    (req : Request) (scope : RetryConfigScope) (class : RequestClass) (max_retries : ℤ)
    (total_attempts : ℕ) (duration : ℤ) (resp : Option Response) (error : Option GoError)
    (reason : Text)
    → IsEvent
        (request_result_event req scope class max_retries total_attempts duration resp error reason)
unfolding request_result_event is_final_failure is_timeout_error
request_result_event-IsEvent req scope class max_retries total_attempts duration none none reason =
    record { retried = refl; succeeded = refl; timeout = λ t. absurd (cc) }
request_result_event-IsEvent req scope class max_retries total_attempts duration (some resp) none
      reason =
    record { retried = refl; succeeded = refl; timeout = λ t. ground arith }
request_result_event-IsEvent req scope class max_retries total_attempts duration resp (some error)
      reason =
    record { retried = refl; succeeded = refl; timeout = λ t. refl }

-- An event of the transport.
abbrev pub IsObserved : RequestResultEvent → Type 0
IsObserved e =
    (req : Request) × (scope : RetryConfigScope) × (class : RequestClass) × (max_retries : ℤ)
    × (total_attempts : ℕ) × (duration : ℤ) × (resp : Option Response) × (error : Option GoError)
    × (reason : Text) × (e
        ≡ request_result_event req scope class max_retries total_attempts duration resp error
            reason)

IsObserved-IsEvent : (e : RequestResultEvent) → IsObserved e → IsEvent e
IsObserved-IsEvent e (req, scope, class, m, n, d, resp, error, reason, same) =
    rw same (request_result_event-IsEvent req scope class m n d resp error reason)

-- How much the events with the labels add up to.
abbrev pub total : LabelValues → (RequestResultEvent → ℕ) → List RequestResultEvent → ℕ
total labels number [] = 0
total labels number (e ∷ events) =
    (if labels_eq (labels_of e) labels then number e else 0) + total labels number events

add_chain : (x b c d t : ℕ) → x ≡ b + t → b ≡ c + d → x ≡ c + (d + t)
add_chain x b c d t h k = omega arith

observe_all-from :
    (events : List RequestResultEvent) (o : Observer) (labels : LabelValues)
    → All IsObserved events
    → IsConsistent o labels
    → IsConsistent (observe_all events o) labels
      × (value (observe_all events o).requests labels
          ≡ value o.requests labels + total labels (λ _. 1) events)
      × (value (observe_all events o).retries labels
          ≡ value o.retries labels + total labels (λ e. e.retry_count) events)
unfolding observe_all observe_request_result added
observe_all-from [] o labels h k = (k, ground arith, ground arith)
observe_all-from (e ∷ events) o labels h k =
    let o' = observe_request_result e o in
    let one = IsObserved-IsEvent e h.0 in
    let (later, requests, retries) =
      observe_all-from events o' labels h.1 (observe-IsConsistent e o labels one k) in
    let r = value-add_to (labels_of e) 1 o.requests labels in
    let s = value-add_to (labels_of e) e.retry_count o.retries labels in
    (later, add_chain _ _ _ _ _ requests r, add_chain _ _ _ _ _ retries s)

-- Whatever requests were observed, each series counts the requests with its labels and their retries,
-- and the series agree: the retried are among the requests and at most as many as the retries, those
-- that succeeded after a retry are among the retried, they and the failures are different requests,
-- and the timeouts are failures.
pub observe_all-IsConsistent :
    (events : List RequestResultEvent) (labels : LabelValues)
    → All IsObserved events
    → IsConsistent (observe_all events new_observer) labels
      × (value (observe_all events new_observer).requests labels ≡ total labels (λ _. 1) events)
      × (value (observe_all events new_observer).retries labels
          ≡ total labels (λ e. e.retry_count) events)
observe_all-IsConsistent events labels h =
    let at_first : IsConsistent new_observer labels = record {
      retried = omega arith;
      succeeded = omega arith;
      retries = omega arith;
      ended = omega arith;
      timeouts = omega arith;
    } in
    let (all, requests, retries) = observe_all-from events new_observer labels h at_first in
    (all, omega (arith, requests), omega (arith, retries))
