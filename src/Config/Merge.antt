-- ===== src/Config/Merge.antt =====
-- retry_consul.go: how the file of an application overrides the common one. Slices and pointers are
-- values here, so the copies that the code makes of them are the same values.
use http_governance_client.Common.{
  ℕ, zero, suc, ◌+◌, ◌-◌, ◌*◌, ◌/◌, ◌%◌, ◌^◌, ◌≤◌, ◌<◌, ◌≡◌, ◌≢◌, ◌↔◌, refl, sym, ap, ◌∙◌, Bool,
  true, false, not, ◌&&◌, ◌||◌, Option, none, some, arith, ℤ, pos, negsuc, pos_part, neg_part, ◌<ℤ◌,
  ◌≤ℤ◌, ◌+ℤ◌, ◌-ℤ◌, ◌*ℤ◌, leb_ℤ, ltb_ℤ, eqb_ℤ, eqb_ℤ_iff, IsInt64, max_int64, min_int64, wrap64,
  wrap64_eq, add64, sub64, mul64, add64_eq, sub64_eq, mul64_eq, sub_saturated, +ℤ_parts, -ℤ_parts,
  eq_of_parts, if◌then◌else◌, ◌⊎◌, inl, inr, List, [], ◌∷◌, ◌++◌, map, any, All, length, is_empty,
  Bool-cases, Option-cases, ltb, leb, ◌==◌, Result, ok, err, ◌>>=◌, ◌>>◌, fail_if, dec_lt,
}
use http_governance_client.Common.Text.{
  Text, codes, text_eq, text_eq_iff, text_eq_refl, trim_space, trim_space_idem, to_lower, to_upper,
  to_upper_idem, to_lower_idem, equal_fold,
}
use http_governance_client.Common.Number.{
  parse_int, format_int, parse_int-format_int, trim_space-format_int, is_empty-format_int,
}
pub mod Named
pub mod Valid
pub mod Accepted
pub mod Fresh
pub mod Sections
pub mod Rules
pub mod Hosts
pub mod Policies
pub mod Whole
use http_governance_client.Policy.Patch.{override, is_set}
use http_governance_client.Budget.Config.{RetryBudgetFile}
use http_governance_client.Config.Patches.{is_some}
use http_governance_client.Config.File.{RetryConfigFile, RetryClassPolicyFile, RetryPolicyPatchFile}

unfoldable pub retry_config_lookup_paths : Text → List Text
unfolding trim_space
retry_config_lookup_paths app_name =
    let trimmed = trim_space app_name in
    let common = codes "config/go/application/retry" in
    if is_empty trimmed
    then common ∷ []
    else common ∷ (codes "config/go/" ++ trimmed ++ codes "/retry") ∷ []

unfoldable pub first_non_blank : List Text → Text
first_non_blank [] = []
first_non_blank (v ∷ vs) =
    let rest = first_non_blank vs in if is_empty (trim_space v) then rest else trim_space v

-- `if override.X != nil { merged.X = override.X }`
abbrev pub override_option {ℓ} : {A : Type ℓ} → Option A → Option A → Option A
override_option (some a) base = some a
override_option none base = base

-- The same for texts, where the empty one says nothing.
abbrev pub override_text : Text → Text → Text
override_text [] base = base
override_text (c ∷ s) base = c ∷ s

unfoldable pub merge_retry_budget_files :
    Option RetryBudgetFile → Option RetryBudgetFile → Option RetryBudgetFile
merge_retry_budget_files none none = none
merge_retry_budget_files (some base) none = some base
merge_retry_budget_files none (some o) = some o
merge_retry_budget_files (some base) (some o) = some (record {
  enabled = override_option o.enabled base.enabled;
  capacity = override_option o.capacity base.capacity;
  retry_cost = override_option o.retry_cost base.retry_cost;
  success_increment = override_option o.success_increment base.success_increment;
})

-- Retries that are newly disabled lose their number, and a new number enables them.
abbrev merged_disable_retry : RetryPolicyPatchFile → RetryPolicyPatchFile → Option Bool
merged_disable_retry base o =
    if is_some o.max_retries && not (is_some o.disable_retry)
    then none
    else override_option o.disable_retry base.disable_retry

abbrev merged_max_retries : RetryPolicyPatchFile → RetryPolicyPatchFile → Option ℤ
merged_max_retries base o =
    if is_set o.disable_retry && not (is_some o.max_retries)
    then none
    else override_option o.max_retries base.max_retries

unfoldable pub merge_retry_policy_patch_files :
    Option RetryPolicyPatchFile → Option RetryPolicyPatchFile → Option RetryPolicyPatchFile
merge_retry_policy_patch_files none o = o
merge_retry_policy_patch_files (some base) none = some base
merge_retry_policy_patch_files (some base) (some o) = some (record {
  disable_retry = merged_disable_retry base o;
  max_retries = merged_max_retries base o;
  per_attempt_timeout = override_text o.per_attempt_timeout base.per_attempt_timeout;
  max_elapsed_time = override_text o.max_elapsed_time base.max_elapsed_time;
  initial_backoff = override_text o.initial_backoff base.initial_backoff;
  max_backoff = override_text o.max_backoff base.max_backoff;
  retry_on_statuses = override_option o.retry_on_statuses base.retry_on_statuses;
  retry_on_429 = override_option o.retry_on_429 base.retry_on_429;
})

unfoldable pub merge_retry_class_policy_files :
    RetryClassPolicyFile → RetryClassPolicyFile → RetryClassPolicyFile
unfolding merge_retry_policy_patch_files
merge_retry_class_policy_files base o = record {
  internal_read_policy =
      merge_retry_policy_patch_files base.internal_read_policy o.internal_read_policy;
  internal_write_policy =
      merge_retry_policy_patch_files base.internal_write_policy o.internal_write_policy;
  external_read_policy =
      merge_retry_policy_patch_files base.external_read_policy o.external_read_policy;
  external_write_policy =
      merge_retry_policy_patch_files base.external_write_policy o.external_write_policy;
}

-- The loops of mergeNamedItems and mergeStringLists run over one list and then over the other with
-- the same map of keys: that is one loop over both.
unfoldable pub unseen_items {ℓ} : {A : Type ℓ} → (A → Text) → List Text → List A → List A
unseen_items key seen [] = []
unseen_items key seen (a ∷ items) =
    let old = unseen_items key seen items in
    let new = unseen_items key (key a ∷ seen) items in
    if is_empty (key a) then a ∷ old else if any (text_eq (key a)) seen then old else a ∷ new

-- The key of a name.
unfoldable pub name_key : Text → Text
unfolding to_lower trim_space
name_key name = to_lower (trim_space name)

unfoldable pub merge_named_items {ℓ} : {A : Type ℓ} → (A → Text) → List A → List A → List A
unfolding unseen_items name_key
merge_named_items name base o = unseen_items (λ a. name_key (name a)) [] (o ++ base)

unfoldable pub unseen_texts : List Text → List Text → List Text
unseen_texts seen [] = []
unseen_texts seen (item ∷ items) =
    let trimmed = trim_space item in
    let old = unseen_texts seen items in
    let new = unseen_texts (trimmed ∷ seen) items in
    if is_empty trimmed || any (text_eq trimmed) seen then old else trimmed ∷ new

unfoldable pub merge_string_lists : List Text → List Text → List Text
unfolding unseen_texts
merge_string_lists base o = unseen_texts [] (base ++ o)

unfoldable pub merge_retry_config_files : RetryConfigFile → RetryConfigFile → RetryConfigFile
unfolding first_non_blank merge_retry_budget_files merge_retry_class_policy_files merge_named_items
    merge_string_lists
merge_retry_config_files base o = record {
  version = first_non_blank (o.version ∷ base.version ∷ []);
  retry_budget = merge_retry_budget_files base.retry_budget o.retry_budget;
  internal_hosts = merge_string_lists base.internal_hosts o.internal_hosts;
  downstreams = merge_named_items (λ d. d.name) base.downstreams o.downstreams;
  operations = merge_named_items (λ d. d.name) base.operations o.operations;
  policies = merge_retry_class_policy_files base.policies o.policies;
  rules = merge_named_items (λ d. d.name) base.rules o.rules;
}
