-- ===== src/Policy/Normal.antt =====
-- retry.go: defaults fill what a policy leaves open.
use http_governance_client.Common.{
  ◌≡◌, ◌≢◌, Option, none, some, arith, ℤ, pos, ◌<ℤ◌, ◌≤ℤ◌, leb_ℤ, ltb_ℤ, if◌then◌else◌, List, [],
  ◌∷◌,
}
use http_governance_client.Types.Policy.{
  RetryPolicy, default_per_attempt_timeout, default_initial_backoff, default_max_backoff,
}

abbrev pub default_retry_status_set : List ℤ
default_retry_status_set = pos 408 ∷ pos 429 ∷ pos 500 ∷ pos 502 ∷ pos 503 ∷ pos 504 ∷ []

-- `if value <= 0 { value = fallback }`
abbrev pub positive_or : ℤ → ℤ → ℤ
positive_or value fallback = if leb_ℤ value (pos 0) then fallback else value

abbrev pub statuses_or_default : Option (List ℤ) → Option (List ℤ)
statuses_or_default none = some default_retry_status_set
statuses_or_default (some xs) = some xs

unfoldable pub normalize_retry_policy : RetryPolicy → RetryPolicy
normalize_retry_policy p = record p {
  max_retries = if ltb_ℤ p.max_retries (pos 0) then pos 0 else p.max_retries;
  per_attempt_timeout = positive_or p.per_attempt_timeout default_per_attempt_timeout;
  initial_backoff = positive_or p.initial_backoff default_initial_backoff;
  max_backoff = positive_or p.max_backoff default_max_backoff;
  retry_on_statuses = statuses_or_default p.retry_on_statuses;
}

-- What every policy that governs a request promises.
pub record IsNormal (p : RetryPolicy) : Type 0 where
  pub retries : pos 0 ≤ℤ p.max_retries
  pub timeout : pos 0 <ℤ p.per_attempt_timeout
  pub initial : pos 0 <ℤ p.initial_backoff
  pub cap : pos 0 <ℤ p.max_backoff
  pub statuses : p.retry_on_statuses ≢ none

-- A normalized policy has no negative retry count, positive durations, and a status set.
pub normalize_retry_policy-IsNormal : (p : RetryPolicy) → IsNormal (normalize_retry_policy p)
unfolding normalize_retry_policy
normalize_retry_policy-IsNormal p = record {
  retries = ground arith;
  timeout = ground arith;
  initial = ground arith;
  cap = ground arith;
  statuses = ground arith;
}

-- Normalizing changes no policy that keeps the promises, so it changes nothing the second time.
pub normalize_retry_policy-fixes : (p : RetryPolicy) → IsNormal p → normalize_retry_policy p ≡ p
unfolding normalize_retry_policy
normalize_retry_policy-fixes p n = ground arith

pub normalize_retry_policy_idem :
    (p : RetryPolicy) → normalize_retry_policy (normalize_retry_policy p) ≡ normalize_retry_policy p
normalize_retry_policy_idem p =
    normalize_retry_policy-fixes (normalize_retry_policy p) (normalize_retry_policy-IsNormal p)
