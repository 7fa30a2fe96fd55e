-- ===== src/Config/Store.antt =====
-- retry_consul.go and retry_config_file.go: how the layers of the configuration are read from a store.
-- The store answers each path of one load once.
use http_governance_client.Common.{
  ℕ, zero, suc, ◌+◌, ◌-◌, ◌*◌, ◌/◌, ◌%◌, ◌^◌, ◌≤◌, ◌<◌, ◌≡◌, ◌≢◌, ◌↔◌, refl, sym, ap, ◌∙◌, Bool,
  true, false, not, ◌&&◌, ◌||◌, Option, none, some, arith, ℤ, pos, negsuc, pos_part, neg_part, ◌<ℤ◌,
  ◌≤ℤ◌, ◌+ℤ◌, ◌-ℤ◌, ◌*ℤ◌, leb_ℤ, ltb_ℤ, eqb_ℤ, eqb_ℤ_iff, IsInt64, max_int64, min_int64, wrap64,
  wrap64_eq, add64, sub64, mul64, add64_eq, sub64_eq, mul64_eq, sub_saturated, +ℤ_parts, -ℤ_parts,
  eq_of_parts, if◌then◌else◌, ◌⊎◌, inl, inr, List, [], ◌∷◌, ◌++◌, map, any, All, length, is_empty,
  Bool-cases, Option-cases, ltb, leb, ◌==◌, Result, ok, err, ◌>>=◌, ◌>>◌, fail_if, dec_lt,
  Result-cases, value_or, IsOk, IsOk-first,
}
use http_governance_client.Common.Text.{
  contains, Text, codes, text_eq, text_eq_iff, text_eq_refl, text_eq_sound, trim_space,
  trim_space_idem, to_lower, to_upper, to_upper_idem, to_lower_idem, equal_fold,
}
use http_governance_client.Common.Number.{
  parse_int, format_int, parse_int-format_int, trim_space-format_int, is_empty-format_int,
}
pub mod Yaml
pub mod Reload
pub mod Layered
pub mod Messages
pub mod Consul
use http_governance_client.Budget.Config.{
  BudgetError, RetryBudgetConfig, to_config, validate_retry_budget_file_layer, disabled,
}
use http_governance_client.Config.Match.{PathMatch}
use http_governance_client.Config.Patches.{ParseDuration}
use http_governance_client.Config.Provider.{
  ManagedRetryConfigProvider, new_managed_retry_config_provider,
}
use http_governance_client.Config.File.{RetryConfigFile, ConfigError, budget_invalid}
use http_governance_client.Config.Update.{compile_retry_config_file, update_provider}
use http_governance_client.Config.Merge.{retry_config_lookup_paths, merge_retry_config_files}

-- The message of an error of the store.
abbrev pub StoreError : Type 0
StoreError = Text

-- retryConfigStore, and retryConfigStoreNotFound where the store has it.
pub record RetryConfigStore : Type 0 where
  pub get : Text → Result StoreError Text
  pub not_found : Option (Text → StoreError → Bool)

-- The decoder of a file: what is not under the repository.
abbrev pub DecodeYaml : Type 0
DecodeYaml = Text → Result Text RetryConfigFile

pub data LoadError : Type 0 where
  load_failed : Text → StoreError → LoadError
  unmarshal_failed : Text → Text → LoadError
  validate_failed : Text → ConfigError → LoadError
  merged_invalid : BudgetError → LoadError

not_found_by : Option (Text → StoreError → Bool) → Text → StoreError → Bool
unfolding contains to_lower
not_found_by (some checker) path e = checker path e
not_found_by none path e = contains (to_lower e) (codes "not found")

unfoldable pub is_retry_config_path_not_found : RetryConfigStore → Text → StoreError → Bool
unfolding not_found_by
is_retry_config_path_not_found store path e = not_found_by store.not_found path e

-- The zero value of RetryConfigFile.
abbrev pub empty_file : RetryConfigFile
empty_file = record {
  version = [];
  retry_budget = none;
  internal_hosts = [];
  downstreams = [];
  operations = [];
  policies = record {
    internal_read_policy = none;
    internal_write_policy = none;
    external_read_policy = none;
    external_write_policy = none;
  };
  rules = [];
}

-- `fmt.Errorf("...: %w", err)`
abbrev pub wrap_error {ℓ} : {E F : Type 0} {A : Type ℓ} → (E → F) → Result E A → Result F A
wrap_error f (ok a) = ok a
wrap_error f (err e) = err (f e)

abbrev pub merged_with : RetryConfigFile → Option RetryConfigFile → RetryConfigFile
merged_with merged none = merged
merged_with merged (some file) = merge_retry_config_files merged file

module _ (decode : DecodeYaml) (parse : ParseDuration) (glob : PathMatch) where
  -- Data that is there: decoded, validated and compiled, where compiling has no use for the budget.
  unfoldable pub layer_of : Text → Text → Result LoadError RetryConfigFile
  unfolding validate_retry_budget_file_layer compile_retry_config_file
  layer_of path contents = do
    file ← wrap_error (unmarshal_failed path) (decode contents)
    wrap_error (λ e. validate_failed path (budget_invalid e))
        (validate_retry_budget_file_layer file.retry_budget)
    compiled ←
        wrap_error (validate_failed path) (compile_retry_config_file parse glob disabled file)
    ok file

  -- One turn of the loop: none is `continue`.
  unfoldable pub read_layer :
      RetryConfigStore → Text → Result StoreError Text → Result LoadError (Option RetryConfigFile)
  unfolding layer_of is_retry_config_path_not_found
  read_layer store path (err e) =
      if is_retry_config_path_not_found store path e then ok none else err (load_failed path e)
  read_layer store path (ok []) = ok none
  read_layer store path (ok (c ∷ contents)) = do file ← layer_of path (c ∷ contents); ok (some file)

  unfoldable pub load_layers :
      RetryConfigStore → RetryConfigFile → List Text → Result LoadError RetryConfigFile
  unfolding read_layer
  load_layers store merged [] = ok merged
  load_layers store merged (path ∷ paths) = do
    layer ← read_layer store path (store.get path)
    load_layers store (merged_with merged layer) paths

  unfoldable pub load_retry_config_file_from_store :
      RetryConfigStore → Text → Result LoadError RetryConfigFile
  unfolding load_layers to_config retry_config_lookup_paths
  load_retry_config_file_from_store store app_name = do
    merged ← load_layers store empty_file (retry_config_lookup_paths app_name)
    budget ← wrap_error merged_invalid (to_config merged.retry_budget)
    ok merged

pub data ReloadError : Type 0 where
  not_loaded : LoadError → ReloadError
  not_updated : ConfigError → ReloadError

abbrev updated :
    ManagedRetryConfigProvider × Option ConfigError
    → ManagedRetryConfigProvider × Option ReloadError
updated (p, none) = (p, none)
updated (p, some e) = (p, some (not_updated e))

created :
    ManagedRetryConfigProvider × Option ReloadError → Result ReloadError ManagedRetryConfigProvider
created (p, none) = ok p
created (p, some e) = err e

module _ (decode : DecodeYaml) (parse : ParseDuration) (glob : PathMatch) where
  update_from_file :
      ManagedRetryConfigProvider
      → Result LoadError RetryConfigFile
      → ManagedRetryConfigProvider × Option ReloadError
  unfolding update_provider
  update_from_file p (err e) = (p, some (not_loaded e))
  update_from_file p (ok file) = updated (update_provider parse glob p file)

  -- updateFromStore and reloadRetryConfigFromStore.
  unfoldable pub update_from_store :
      ManagedRetryConfigProvider
      → RetryConfigStore
      → Text
      → ManagedRetryConfigProvider × Option ReloadError
  unfolding update_from_file load_retry_config_file_from_store
  update_from_store p store app_name =
      update_from_file p (load_retry_config_file_from_store decode parse glob store app_name)

  unfoldable pub new_managed_retry_config_provider_from_store :
      RetryConfigStore → Text → Result ReloadError ManagedRetryConfigProvider
  unfolding update_from_store created new_managed_retry_config_provider
  new_managed_retry_config_provider_from_store store app_name =
      created (update_from_store new_managed_retry_config_provider store app_name)
