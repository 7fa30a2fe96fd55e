-- ===== src/Policy/Patch.antt =====
-- dynamic_config.go: a patch overrides the fields that it sets.
use http_governance_client.Common.{
  ◌≡◌, Bool, false, Option, none, some, arith, ℤ, pos, ◌<ℤ◌, ◌≤ℤ◌, if◌then◌else◌, ◌⊎◌, List,
}
use http_governance_client.Types.Policy.{RetryPolicy, RetryPolicyPatch}
use http_governance_client.Policy.Normal.{
  normalize_retry_policy, normalize_retry_policy-IsNormal, IsNormal,
}

-- `if p != nil { value = *p }`
abbrev pub override {ℓ} : {A : Type ℓ} → Option A → A → A
override none value = value
override (some x) value = x

abbrev pub override_statuses : Option (List ℤ) → Option (List ℤ) → Option (List ℤ)
override_statuses none statuses = statuses
override_statuses (some xs) statuses = some xs

-- `p.DisableRetry != nil && *p.DisableRetry`
abbrev pub is_set : Option Bool → Bool
is_set none = false
is_set (some b) = b

-- A copy of the policy has a status set of its own; values here share nothing to begin with.
unfoldable pub clone_retry_policy : RetryPolicy → RetryPolicy
clone_retry_policy p = p

unfoldable pub apply : RetryPolicyPatch → RetryPolicy → RetryPolicy
unfolding clone_retry_policy
apply p base =
    let policy = clone_retry_policy base in
    normalize_retry_policy (record {
      max_retries =
          override p.max_retries (if is_set p.disable_retry then pos 0 else policy.max_retries);
      per_attempt_timeout = override p.per_attempt_timeout policy.per_attempt_timeout;
      max_elapsed_time = override p.max_elapsed_time policy.max_elapsed_time;
      initial_backoff = override p.initial_backoff policy.initial_backoff;
      max_backoff = override p.max_backoff policy.max_backoff;
      retry_on_statuses = override_statuses p.retry_on_statuses policy.retry_on_statuses;
      retry_on_429 = override p.retry_on_429 policy.retry_on_429;
    })

pub apply-IsNormal : (p : RetryPolicyPatch) (base : RetryPolicy) → IsNormal (apply p base)
unfolding apply
apply-IsNormal p base = normalize_retry_policy-IsNormal _

-- Applying a patch a second time changes nothing.
pub apply_idem : (p : RetryPolicyPatch) (base : RetryPolicy) → apply p (apply p base) ≡ apply p base
unfolding apply normalize_retry_policy
apply_idem p base = ground arith

abbrev pub IsPositive : Option ℤ → Type 0
IsPositive none = Unit
IsPositive (some d) = pos 0 <ℤ d

abbrev pub IsNatural : Option ℤ → Type 0
IsNatural none = Unit
IsNatural (some n) = pos 0 ≤ℤ n

-- The patches that the loader of a configuration file accepts: see Config.
pub record IsPatch (p : RetryPolicyPatch) : Type 0 where
  pub retries : IsNatural p.max_retries
  pub timeout : IsPositive p.per_attempt_timeout
  pub elapsed : IsPositive p.max_elapsed_time
  pub initial : IsPositive p.initial_backoff
  pub cap : IsPositive p.max_backoff
  pub exclusive : (is_set p.disable_retry ≡ false) ⊎ (p.max_retries ≡ none)

-- A patch of the loader, applied to a normal policy, sets exactly the fields that it names, and
-- turns retries off if it disables them.
pub apply-exact :
    (p : RetryPolicyPatch) (base : RetryPolicy)
    → IsPatch p
    → IsNormal base
    → apply p base ≡ record {
      max_retries =
          if is_set p.disable_retry then pos 0 else override p.max_retries base.max_retries;
      per_attempt_timeout = override p.per_attempt_timeout base.per_attempt_timeout;
      max_elapsed_time = override p.max_elapsed_time base.max_elapsed_time;
      initial_backoff = override p.initial_backoff base.initial_backoff;
      max_backoff = override p.max_backoff base.max_backoff;
      retry_on_statuses = override_statuses p.retry_on_statuses base.retry_on_statuses;
      retry_on_429 = override p.retry_on_429 base.retry_on_429;
    }
unfolding apply normalize_retry_policy
apply-exact p base h n = ground arith
