-- ===== src/Config/Update/Layers.antt =====
-- retry_config_file.go: what a loaded provider makes of a policy.
use http_governance_client.Common.{
  ◌≡◌, refl, ap, ◌∙◌, Option, none, some, pos, if◌then◌else◌, inl, inr, List, [], ◌∷◌, All,
  Bool-cases,
}
use http_governance_client.Policy.Patch.{
  is_set, override, override_statuses, clone_retry_policy, apply-exact,
}
use http_governance_client.Types.Policy.{RetryPolicy, RetryPolicyPatch, RetryConfigScope}
use http_governance_client.Policy.Patch.{apply-IsNormal}
use http_governance_client.Policy.Normal.{IsNormal}
use http_governance_client.Config.Match.{PathMatch, match}
use http_governance_client.Config.Provider.{
  ManagedRetryConfigProvider, CompiledRetryConfigRule, first_rule, resolve_retry_policy, patch_of,
}
use http_governance_client.Policy.Patch.{apply-IsNormal}
use http_governance_client.Config.Provider.{apply_optional}
use http_governance_client.Config.Update.Loaded.{IsLoaded, IsRule, IsClassPatch}

-- The fields that a patch names, without normalization; a patch that disables retries sets their
-- number to 0.
unfoldable pub overlay : RetryPolicyPatch → RetryPolicy → RetryPolicy
overlay p base = record {
  max_retries = if is_set p.disable_retry then pos 0 else override p.max_retries base.max_retries;
  per_attempt_timeout = override p.per_attempt_timeout base.per_attempt_timeout;
  max_elapsed_time = override p.max_elapsed_time base.max_elapsed_time;
  initial_backoff = override p.initial_backoff base.initial_backoff;
  max_backoff = override p.max_backoff base.max_backoff;
  retry_on_statuses = override_statuses p.retry_on_statuses base.retry_on_statuses;
  retry_on_429 = override p.retry_on_429 base.retry_on_429;
}

abbrev pub overlay_optional : Option RetryPolicyPatch → RetryPolicy → RetryPolicy
overlay_optional none base = base
overlay_optional (some p) base = overlay p base

apply_optional-IsNormal :
    (o : Option RetryPolicyPatch) (base : RetryPolicy)
    → IsNormal base
    → IsNormal (apply_optional o base)
apply_optional-IsNormal none base h = h
apply_optional-IsNormal (some p) base h = apply-IsNormal p base

apply_optional-overlay :
    (o : Option RetryPolicyPatch) (base : RetryPolicy)
    → IsClassPatch o
    → IsNormal base
    → apply_optional o base ≡ overlay_optional o base
unfolding overlay
apply_optional-overlay none base h n = refl
apply_optional-overlay (some p) base h n = apply-exact p base h n

first_rule-IsClassPatch :
    (glob : PathMatch) (rs : List CompiledRetryConfigRule) (scope : RetryConfigScope)
    → All IsRule rs
    → IsClassPatch (patch_of (first_rule glob rs scope))
unfolding first_rule
first_rule-IsClassPatch glob [] scope h = tt
first_rule-IsClassPatch glob (r ∷ rs) scope h = elim (Bool-cases (match glob r.match scope)) [
  | inl e ↦ rw e h.0.0
  | inr e ↦ rw e (first_rule-IsClassPatch glob rs scope h.1)
]

-- A loaded provider makes of a normal policy a normal one: it sets the fields that the patch of the
-- class names, then those that the patch of the first matching rule names, and no other.
pub resolve_retry_policy-overlay :
    (glob : PathMatch) (p : ManagedRetryConfigProvider) (scope : RetryConfigScope)
    (base : RetryPolicy)
    → IsLoaded p
    → IsNormal base
    → (resolve_retry_policy glob p scope base
        ≡ overlay_optional
            (patch_of (first_rule glob p.rules scope))
            (overlay_optional (p.class_patches scope.class) base))
      × IsNormal (resolve_retry_policy glob p scope base)
unfolding resolve_retry_policy clone_retry_policy
resolve_retry_policy-overlay glob p scope base l n =
    let class = p.class_patches scope.class in
    let by_class = apply_optional-IsNormal class base n in
    (
      apply_optional-overlay (patch_of (first_rule glob p.rules scope)) (apply_optional class base)
            (first_rule-IsClassPatch glob p.rules scope l.rule_by_rule) by_class
          ∙ ap (overlay_optional (patch_of (first_rule glob p.rules scope)))
              (apply_optional-overlay class base (l.class_by_class scope.class) n),
      apply_optional-IsNormal (patch_of (first_rule glob p.rules scope)) (apply_optional class base)
          by_class,
    )
