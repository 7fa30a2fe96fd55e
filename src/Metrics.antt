-- ===== src/Metrics.antt =====
-- metrics/prometheus/observer.go: the counters of the results. A vector of counters is a function of
-- its labels; a series that was never asked for is none, and a float64 that counts is a natural number.
use http_governance_client.Common.{
  ℕ, zero, suc, ◌+◌, ◌-◌, ◌*◌, ◌/◌, ◌%◌, ◌^◌, ◌≤◌, ◌<◌, ◌≡◌, ◌≢◌, ◌↔◌, refl, sym, ap, ◌∙◌, Bool,
  true, false, not, ◌&&◌, ◌||◌, Option, none, some, arith, ℤ, pos, negsuc, pos_part, neg_part, ◌<ℤ◌,
  ◌≤ℤ◌, ◌+ℤ◌, ◌-ℤ◌, ◌*ℤ◌, leb_ℤ, ltb_ℤ, eqb_ℤ, eqb_ℤ_iff, IsInt64, max_int64, min_int64, wrap64,
  wrap64_eq, add64, sub64, mul64, add64_eq, sub64_eq, mul64_eq, sub_saturated, +ℤ_parts, -ℤ_parts,
  eq_of_parts, if◌then◌else◌, ◌⊎◌, inl, inr, List, [], ◌∷◌, ◌++◌, map, any, All, length, is_empty,
  Bool-cases, Option-cases, ltb, leb, ◌==◌, Result, ok, err, ◌>>=◌, ◌>>◌, fail_if, dec_lt,
  Result-cases, value_or, IsOk, IsOk-first,
}
use http_governance_client.Common.Text.{
  Text, codes, text_eq, text_eq_iff, text_eq_refl, text_eq_sound, trim_space, trim_space_idem,
  to_lower, to_upper, to_upper_idem, to_lower_idem, equal_fold,
}
use http_governance_client.Common.Number.{
  parse_int, format_int, parse_int-format_int, trim_space-format_int, is_empty-format_int,
}
pub mod Consistent
use http_governance_client.Transport.RoundTrip.{RequestResultEvent}

-- The values of the labels of a series.
abbrev pub LabelValues : Type 0
LabelValues = List Text

abbrev pub labels_eq : LabelValues → LabelValues → Bool
labels_eq [] [] = true
labels_eq [] (y ∷ ys) = false
labels_eq (x ∷ xs) [] = false
labels_eq (x ∷ xs) (y ∷ ys) = text_eq x y && labels_eq xs ys

abbrev pub CounterVec : Type 0
CounterVec = LabelValues → Option ℕ

abbrev pub or_zero : Option ℕ → ℕ
or_zero none = 0
or_zero (some n) = n

-- WithLabelValues makes the series, and Add adds to it.
unfoldable pub add_to : LabelValues → ℕ → CounterVec → CounterVec
add_to labels n c other = if labels_eq labels other then some (or_zero (c labels) + n) else c other

-- The number that is added where the test holds.
abbrev pub one_if : Bool → ℕ
one_if true = 1
one_if false = 0

pub record Observer : Type 0 where
  pub requests : CounterVec
  pub retried_requests : CounterVec
  pub retries : CounterVec
  pub retries_suppressed : CounterVec
  pub retry_succeeded_requests : CounterVec
  pub request_failures : CounterVec
  pub request_timeouts : CounterVec
  pub request_duration : LabelValues → List ℤ  -- what Observe was called with, in nanoseconds

abbrev pub new_observer : Observer
new_observer = record {
  requests = λ _. none;
  retried_requests = λ _. none;
  retries = λ _. none;
  retries_suppressed = λ _. none;
  retry_succeeded_requests = λ _. none;
  request_failures = λ _. none;
  request_timeouts = λ _. none;
  request_duration = λ _. [];
}

unfoldable pub labels_of : RequestResultEvent → LabelValues
labels_of e = e.caller ∷ e.downstream ∷ e.operation ∷ e.method ∷ e.class ∷ []

-- The counter of suppressed retries is asked for only where there is a reason.
suppressed : RequestResultEvent → CounterVec → CounterVec
unfolding labels_of add_to
suppressed e c =
    if is_empty e.retry_suppressed_reason
    then c
    else add_to (labels_of e ++ e.retry_suppressed_reason ∷ []) 1 c

unfoldable pub observe_request_result : RequestResultEvent → Observer → Observer
unfolding labels_of add_to suppressed
observe_request_result e o =
    let labels = labels_of e in
    record {
      requests = add_to labels 1 o.requests;
      retried_requests = add_to labels (one_if e.retried) o.retried_requests;
      retries = add_to labels e.retry_count o.retries;
      retries_suppressed = suppressed e o.retries_suppressed;
      retry_succeeded_requests =
          add_to labels (one_if e.retry_succeeded) o.retry_succeeded_requests;
      request_failures = add_to labels (one_if e.final_failed) o.request_failures;
      request_timeouts = add_to labels (one_if e.timed_out) o.request_timeouts;
      request_duration = λ other.
          if labels_eq labels other
          then e.duration ∷ o.request_duration labels
          else o.request_duration other;
    }

unfoldable pub observe_all : List RequestResultEvent → Observer → Observer
unfolding observe_request_result
observe_all [] o = o
observe_all (e ∷ events) o = observe_all events (observe_request_result e o)
