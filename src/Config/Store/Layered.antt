-- ===== src/Config/Store/Layered.antt =====
-- retry_consul.go: layers that are not in the store say nothing.
use http_governance_client.Common.{
  ◌≡◌, refl, true, none, ◌⊎◌, inl, inr, List, [], ◌∷◌, All, ok, err,
}
use http_governance_client.Common.Text.{Text, trim_space}
use http_governance_client.Budget.Config.{to_config, validate_retry_budget_file_layer}
use http_governance_client.Config.Match.{PathMatch}
use http_governance_client.Config.Patches.{ParseDuration}
use http_governance_client.Config.Provider.{
  ManagedRetryConfigProvider, new_managed_retry_config_provider,
}
use http_governance_client.Config.File.{RetryConfigFile}
use http_governance_client.Config.Compile.{
  validate_config_version, validate_glob_patterns, normalize_patterns, compile_downstreams,
  compile_operation_rules, rules_of,
}
use http_governance_client.Config.Order.{sort_stable}
use http_governance_client.Config.Update.{compile_retry_config_file, load, update_provider}
use http_governance_client.Config.Merge.{retry_config_lookup_paths}
use http_governance_client.Config.Store.{
  RetryConfigStore, StoreError, DecodeYaml, empty_file, read_layer, load_layers,
  load_retry_config_file_from_store, update_from_store, is_retry_config_path_not_found,
}

-- The store has no such path, or an empty value.
abbrev pub IsAbsent : RetryConfigStore → Text → Type 0
IsAbsent store path =
    (store.get path ≡ ok [])
    ⊎ ((e : StoreError) × (store.get path ≡ err e)
        × (is_retry_config_path_not_found store path e ≡ true))

module _ (decode : DecodeYaml) (parse : ParseDuration) (glob : PathMatch) where
  read_layer-IsAbsent :
      (store : RetryConfigStore) (path : Text)
      → IsAbsent store path
      → read_layer decode parse glob store path (store.get path) ≡ ok none
  unfolding read_layer
  read_layer-IsAbsent store path (inl e) = rw e refl
  read_layer-IsAbsent store path (inr (e, there, missing)) = rw (there, missing) refl

  load_layers-IsAbsent :
      (store : RetryConfigStore) (merged : RetryConfigFile) (paths : List Text)
      → All (IsAbsent store) paths
      → load_layers decode parse glob store merged paths ≡ ok merged
  unfolding load_layers
  load_layers-IsAbsent store merged [] h = refl
  load_layers-IsAbsent store merged (path ∷ paths) h =
      rw (read_layer-IsAbsent store path h.0) (load_layers-IsAbsent store merged paths h.1)

  -- Where the store has neither layer, an update succeeds and the provider is as a new one, whatever
  -- it had before: a deleted configuration falls back to the policy of the caller.
  pub update_from_store-IsAbsent :
      (p : ManagedRetryConfigProvider) (store : RetryConfigStore) (app_name : Text)
      → All (IsAbsent store) (retry_config_lookup_paths app_name)
      → update_from_store decode parse glob p store app_name
        ≡ (new_managed_retry_config_provider, none)
  unfolding update_from_store load_retry_config_file_from_store update_provider load
      compile_retry_config_file new_managed_retry_config_provider validate_config_version trim_space
      to_config validate_retry_budget_file_layer validate_glob_patterns normalize_patterns
      compile_downstreams compile_operation_rules rules_of sort_stable
  update_from_store-IsAbsent p store app_name h =
      rw (load_layers-IsAbsent store empty_file (retry_config_lookup_paths app_name) h) refl
