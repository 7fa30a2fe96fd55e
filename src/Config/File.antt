-- ===== src/Config/File.antt =====
-- retry_config_file.go: a configuration file as it is decoded, and the errors of its validation.
use http_governance_client.Common.{Bool, Option, ℕ, ℤ, List}
use http_governance_client.Common.Text.{Text}
use http_governance_client.Types.Policy.{RequestClass}
use http_governance_client.Budget.Config.{RetryBudgetFile, BudgetError}

pub record RetryDownstreamFile : Type 0 where
  pub name : Text
  pub hosts : List Text

pub record RetryOperationRuleFile : Type 0 where
  pub name : Text
  pub priority : ℤ
  pub methods : List Text
  pub hosts : List Text
  pub paths : List Text
  pub downstreams : List Text

-- A nil pointer, and the nil slice of statuses, is `none`.
pub record RetryPolicyPatchFile : Type 0 where
  pub disable_retry : Option Bool
  pub max_retries : Option ℤ
  pub per_attempt_timeout : Text
  pub max_elapsed_time : Text
  pub initial_backoff : Text
  pub max_backoff : Text
  pub retry_on_statuses : Option (List ℤ)
  pub retry_on_429 : Option Bool

pub record RetryClassPolicyFile : Type 0 where
  pub internal_read_policy : Option RetryPolicyPatchFile
  pub internal_write_policy : Option RetryPolicyPatchFile
  pub external_read_policy : Option RetryPolicyPatchFile
  pub external_write_policy : Option RetryPolicyPatchFile

pub record RetryConfigMatchFile : Type 0 where
  pub callers : List Text
  pub downstreams : List Text
  pub operations : List Text
  pub methods : List Text
  pub hosts : List Text
  pub paths : List Text
  pub classes : List Text

pub record RetryConfigRuleFile : Type 0 where
  pub name : Text
  pub priority : ℤ
  pub disabled : Bool
  pub match : RetryConfigMatchFile
  pub policy : RetryPolicyPatchFile

pub record RetryConfigFile : Type 0 where
  pub version : Text
  pub retry_budget : Option RetryBudgetFile
  pub internal_hosts : List Text
  pub downstreams : List RetryDownstreamFile
  pub operations : List RetryOperationRuleFile
  pub policies : RetryClassPolicyFile
  pub rules : List RetryConfigRuleFile

pub data PatchField : Type 0 where
  per_attempt_timeout max_elapsed_time initial_backoff max_backoff : PatchField

pub data PatternField : Type 0 where
  internal_hosts hosts paths : PatternField

pub data Section : Type 0 where
  downstream operation rule : Section

-- The messages, with what they name.
pub data ConfigError : Type 0 where
  unsupported_config_version : Text → ConfigError
  invalid_pattern : PatternField → Text → ConfigError
  name_must_not_be_empty : Section → ℕ → ConfigError
  name_is_duplicated : Section → Text → ConfigError
  hosts_must_contain_a_value : Text → ConfigError
  in_item : Section → Text → ConfigError → ConfigError
  max_retries_must_not_be_negative : ConfigError
  disable_retry_and_max_retries : ConfigError
  status_out_of_range : ℤ → ConfigError
  invalid_duration : PatchField → ConfigError
  duration_must_be_positive : PatchField → ConfigError
  unsupported_class : Text → ConfigError
  class_policy_invalid : RequestClass → ConfigError → ConfigError
  policy_must_contain_a_field : ConfigError
  match_must_contain_a_value : ConfigError
  budget_invalid : BudgetError → ConfigError
