-- ===== src/Tests/Config.antt =====
-- retry_config_file.go on a file with two rules.
use http_governance_client.Common.{
  ◌≡◌, refl, true, false, Option, none, some, pos, if◌then◌else◌, ◌⊎◌, [], ◌∷◌, value_or, ok,
}
use http_governance_client.Common.Text.{Text, codes, text_eq, trim_space, to_lower, equal_fold}
use http_governance_client.Common.Number.{format_int}
use http_governance_client.Types.Policy.{RetryPolicyPatch}
use http_governance_client.Policy.Normal.{IsNormal}
use http_governance_client.Config.Match.{
  match, specificity, match_exact_values, match_host_patterns, match_path_patterns,
}
use http_governance_client.Config.Provider.{
  ManagedRetryConfigProvider, CompiledRetryConfigRule, new_managed_retry_config_provider,
  first_rule, resolve_retry_policy, patch_of,
}
use http_governance_client.Config.Patches.{
  ParseDuration, to_patch, to_patch-IsPatch, AreStatuses, empty, parse_positive_retry_duration,
  distinct_statuses,
}
use http_governance_client.Config.Order.{sort_stable, insert, ranks_before}
use http_governance_client.Config.Compile.{
  validate_config_version, normalize_patterns, validate_glob_patterns, compile_downstreams,
  compile_operation_rules, operations_of, rules_of, compile_rule, compile_retry_config_match,
  classes_of, default_rule_name,
}
use http_governance_client.Config.Update.{
  load, update_provider, compile_retry_config_file, class_patches_of, add_class_patch,
}
use http_governance_client.Config.Update.Loaded.{
  IsLoaded, load-IsLoaded, update_provider-IsLoaded, new-IsLoaded,
}
use http_governance_client.Config.Update.Layers.{overlay_optional, resolve_retry_policy-overlay}
use http_governance_client.Config.File.{
  RetryPolicyPatchFile, RetryConfigRuleFile, RetryConfigMatchFile, RetryConfigFile,
}
use http_governance_client.Tests.Policy.{same_text, thrice, thrice-IsNormal, read_orders}
use http_governance_client.Policy.Patch.{IsPatch}
use http_governance_client.Budget.Config.{to_config, validate_retry_budget_file_layer}

-- A parser of durations that knows one text.
abbrev pub parse : ParseDuration
parse value = if text_eq value (codes "7ns") then some (pos 7) else none

abbrev pub no_policy : RetryPolicyPatchFile
no_policy = record {
  disable_retry = none;
  max_retries = none;
  per_attempt_timeout = [];
  max_elapsed_time = [];
  initial_backoff = [];
  max_backoff = [];
  retry_on_statuses = none;
  retry_on_429 = none;
}

abbrev pub short : RetryPolicyPatchFile
short = record no_policy {
  max_retries = some (pos 2);
  per_attempt_timeout = codes "7ns";
  retry_on_statuses = some (pos 503 ∷ pos 503 ∷ []);
}

abbrev everywhere : RetryConfigMatchFile
everywhere = record {
  callers = [];
  downstreams = [];
  operations = [];
  methods = [];
  hosts = [];
  paths = [];
  classes = [];
}

abbrev for_reads : RetryConfigRuleFile
for_reads = record {
  name = codes "reads";
  priority = pos 0;
  disabled = false;
  match = record everywhere { classes = codes "internal_read" ∷ [] };
  policy = short;
}

abbrev pub for_orders : RetryConfigRuleFile
for_orders = record {
  name = [];
  priority = pos 5;
  disabled = false;
  match = record everywhere { downstreams = codes " Orders" ∷ [] };
  policy = record no_policy { disable_retry = some true };
}

abbrev pub config_file : RetryConfigFile
config_file = record {
  version = codes "v1";
  retry_budget = none;
  internal_hosts = [];
  downstreams = [];
  operations = [];
  policies = record {
    internal_read_policy = some short;
    internal_write_policy = none;
    external_read_policy = none;
    external_write_policy = none;
  };
  rules = for_reads ∷ for_orders ∷ [];
}

provider : ManagedRetryConfigProvider
provider = value_or new_managed_retry_config_provider (load parse same_text config_file)

config_file-load : load parse same_text config_file ≡ ok provider
unfolding provider load compile_retry_config_file validate_retry_budget_file_layer to_config
    validate_config_version normalize_patterns validate_glob_patterns compile_downstreams
    compile_operation_rules operations_of class_patches_of add_class_patch to_patch
    parse_positive_retry_duration distinct_statuses rules_of compile_rule compile_retry_config_match
    classes_of empty specificity text_eq trim_space to_lower default_rule_name
config_file-load = refl

load-IsLoaded_example : IsLoaded provider
load-IsLoaded_example = load-IsLoaded parse same_text config_file provider config_file-load

-- The second rule of the file has the higher priority.
abbrev name_of : Option CompiledRetryConfigRule → Text
name_of none = []
name_of (some r) = r.name

orders_first : name_of (first_rule same_text provider.rules read_orders) ≡ codes "rule-1"
unfolding provider load compile_retry_config_file validate_retry_budget_file_layer to_config
    validate_config_version normalize_patterns validate_glob_patterns compile_downstreams
    compile_operation_rules operations_of class_patches_of add_class_patch to_patch
    parse_positive_retry_duration distinct_statuses rules_of compile_rule compile_retry_config_match
    classes_of empty specificity text_eq trim_space to_lower default_rule_name first_rule match
    sort_stable insert ranks_before match_exact_values match_host_patterns match_path_patterns
    equal_fold format_int
orders_first = refl

abbrev pub short_patch : RetryPolicyPatch
short_patch = record {
  disable_retry = none;
  max_retries = some (pos 2);
  per_attempt_timeout = some (pos 7);
  max_elapsed_time = none;
  initial_backoff = none;
  max_backoff = none;
  retry_on_statuses = some (pos 503 ∷ []);
  retry_on_429 = none;
}

pub short-to_patch : to_patch parse short ≡ ok short_patch
unfolding to_patch parse_positive_retry_duration distinct_statuses text_eq
short-to_patch = refl

to_patch_example :
    IsPatch short_patch
    × AreStatuses short_patch.retry_on_statuses
    × (short_patch.disable_retry ≡ short.disable_retry)
    × (short_patch.max_retries ≡ short.max_retries)
    × (short_patch.retry_on_429 ≡ short.retry_on_429)
to_patch_example = to_patch-IsPatch parse short short_patch short-to_patch

update_provider_example :
    IsLoaded (update_provider parse same_text new_managed_retry_config_provider config_file).0
    × (((update_provider parse same_text new_managed_retry_config_provider config_file).1 ≡ none)
        ⊎ ((update_provider parse same_text new_managed_retry_config_provider config_file).0
            ≡ new_managed_retry_config_provider))
update_provider_example =
    update_provider-IsLoaded parse same_text new_managed_retry_config_provider config_file
      new-IsLoaded

overlay_example :
    (resolve_retry_policy same_text provider read_orders thrice
      ≡ overlay_optional
          (patch_of (first_rule same_text provider.rules read_orders))
          (overlay_optional (provider.class_patches read_orders.class) thrice))
    × IsNormal (resolve_retry_policy same_text provider read_orders thrice)
overlay_example =
    resolve_retry_policy-overlay same_text provider read_orders thrice
      (load-IsLoaded parse same_text config_file provider config_file-load) thrice-IsNormal
