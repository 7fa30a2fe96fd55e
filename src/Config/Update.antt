-- ===== src/Config/Update.antt =====
-- retry_config_file.go: a file compiled as a whole, and Update, which replaces the configuration of a
-- provider or leaves it as it is.
pub mod Loaded
pub mod Best
pub mod Layers
use http_governance_client.Common.{
  ℕ, zero, suc, ◌+◌, ◌-◌, ◌*◌, ◌/◌, ◌%◌, ◌^◌, ◌≤◌, ◌<◌, ◌≡◌, ◌≢◌, ◌↔◌, refl, sym, ap, ◌∙◌, Bool,
  true, false, not, ◌&&◌, ◌||◌, Option, none, some, arith, ℤ, pos, negsuc, pos_part, neg_part, ◌<ℤ◌,
  ◌≤ℤ◌, ◌+ℤ◌, ◌-ℤ◌, ◌*ℤ◌, leb_ℤ, ltb_ℤ, eqb_ℤ, eqb_ℤ_iff, IsInt64, max_int64, min_int64, wrap64,
  wrap64_eq, add64, sub64, mul64, add64_eq, sub64_eq, mul64_eq, sub_saturated, +ℤ_parts, -ℤ_parts,
  eq_of_parts, if◌then◌else◌, ◌⊎◌, inl, inr, List, [], ◌∷◌, ◌++◌, map, any, All, length, is_empty,
  Bool-cases, Option-cases, ltb, leb, ◌==◌, Result, ok, err, ◌>>=◌, ◌>>◌, fail_if, dec_lt,
}
use http_governance_client.Common.Text.{
  Text, codes, text_eq, text_eq_iff, text_eq_refl, trim_space, trim_space_idem, to_lower, to_upper,
  to_upper_idem, to_lower_idem, equal_fold,
}
use http_governance_client.Common.Number.{
  parse_int, format_int, parse_int-format_int, trim_space-format_int, is_empty-format_int,
}
use http_governance_client.Types.Policy.{
  RetryPolicy, RetryPolicyPatch, RetryConfigScope, RequestClass, internal_read, internal_write,
  external_read, external_write,
}
use http_governance_client.Policy.Patch.{IsPatch, apply, apply-IsNormal}
use http_governance_client.Policy.Normal.{IsNormal}
use http_governance_client.Budget.Config.{
  RetryBudgetConfig, BudgetError, to_config, validate_retry_budget_file_layer, IsValid,
  to_config-IsValid, disabled,
}
use http_governance_client.Config.Match.{PathMatch, CompiledRetryConfigMatch, match, specificity}
use http_governance_client.Config.Infer.{CompiledDownstream, CompiledOperationRule}
use http_governance_client.Config.Provider.{
  ManagedRetryConfigProvider, CompiledRetryConfigRule, ClassPatches, first_rule,
  resolve_retry_policy, patch_of,
}
use http_governance_client.Config.Patches.{ParseDuration, to_patch, to_patch-IsPatch}
use http_governance_client.Config.Order.{
  sort_stable, best_match, first_match, first_match-sort_stable, All-sort_stable,
}
use http_governance_client.Config.Compile.{
  validate_config_version, normalize_patterns, validate_glob_patterns, compile_downstreams,
  compile_operation_rules, rules_of, compile_rule, wrap,
}
use http_governance_client.Config.File.{
  RetryPolicyPatchFile, RetryConfigRuleFile, RetryConfigFile, internal_hosts, ConfigError,
  class_policy_invalid, budget_invalid,
}

-- addClassPatch: a class without a policy stays without a patch.
unfoldable pub add_class_patch :
    ParseDuration
    → RequestClass
    → Option RetryPolicyPatchFile
    → ClassPatches
    → Result ConfigError ClassPatches
add_class_patch parse class none patches = ok patches
add_class_patch parse class (some f) patches = do
  patch ← wrap (class_policy_invalid class) (to_patch parse f)
  ok (λ c. if text_eq class c then some patch else patches c)

unfoldable pub class_patches_of : ParseDuration → RetryConfigFile → Result ConfigError ClassPatches
unfolding add_class_patch
class_patches_of parse file = do
  a ← add_class_patch parse internal_read file.policies.internal_read_policy (λ _. none)
  b ← add_class_patch parse internal_write file.policies.internal_write_policy a
  c ← add_class_patch parse external_read file.policies.external_read_policy b
  add_class_patch parse external_write file.policies.external_write_policy c

abbrev pub sort_rules : List CompiledRetryConfigRule → List CompiledRetryConfigRule
sort_rules rules = sort_stable (λ r. r.priority) (λ r. r.specificity) rules

-- The budget is compiled before, by Update.
unfoldable pub compile_retry_config_file :
    ParseDuration
    → PathMatch
    → RetryBudgetConfig
    → RetryConfigFile
    → Result ConfigError ManagedRetryConfigProvider
unfolding class_patches_of
compile_retry_config_file parse glob budget file = do
  validate_config_version file.version
  let hosts = normalize_patterns file.internal_hosts
  validate_glob_patterns glob internal_hosts hosts
  downstreams ← compile_downstreams glob 0 [] file.downstreams
  operations ← compile_operation_rules glob file.operations
  patches ← class_patches_of parse file
  rules ← rules_of parse glob 0 [] file.rules
  ok (record {
    class_patches = patches;
    rules = sort_rules rules;
    internal_hosts = hosts;
    downstreams = downstreams;
    operations = operations;
    retry_budget = budget;
  })

abbrev wrap_budget {ℓ} : {A : Type ℓ} → Result BudgetError A → Result ConfigError A
wrap_budget (ok a) = ok a
wrap_budget (err e) = err (budget_invalid e)

unfoldable pub load :
    ParseDuration → PathMatch → RetryConfigFile → Result ConfigError ManagedRetryConfigProvider
unfolding compile_retry_config_file
load parse glob file = do
  wrap_budget (validate_retry_budget_file_layer file.retry_budget)
  budget ← wrap_budget (to_config file.retry_budget)
  compile_retry_config_file parse glob budget file

-- The provider afterwards, and the error.
abbrev replaced :
    ManagedRetryConfigProvider
    → Result ConfigError ManagedRetryConfigProvider
    → ManagedRetryConfigProvider × Option ConfigError
replaced old (ok new) = (new, none)
replaced old (err e) = (old, some e)

unfoldable pub update_provider :
    ParseDuration
    → PathMatch
    → ManagedRetryConfigProvider
    → RetryConfigFile
    → ManagedRetryConfigProvider × Option ConfigError
unfolding load
update_provider parse glob old file = replaced old (load parse glob file)
