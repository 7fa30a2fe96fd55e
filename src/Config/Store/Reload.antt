-- ===== src/Config/Store/Reload.antt =====
-- retry_consul.go: what a load from the store gives, Update takes.
use http_governance_client.Common.{
  ◌≡◌, refl, Option, none, some, arith, ◌⊎◌, inl, inr, List, [], ◌∷◌, Result, ok, err, Result-cases,
  IsOk,
}
use http_governance_client.Common.Text.{Text, trim_space}
use http_governance_client.Budget.Config.{to_config, validate_retry_budget_file_layer, disabled}
use http_governance_client.Config.Match.{PathMatch}
use http_governance_client.Config.Patches.{ParseDuration}
use http_governance_client.Config.Provider.{ManagedRetryConfigProvider}
use http_governance_client.Config.File.{RetryConfigFile}
use http_governance_client.Config.Compile.{validate_config_version}
use http_governance_client.Config.Update.{compile_retry_config_file, load, update_provider}
use http_governance_client.Config.Merge.{retry_config_lookup_paths}
use http_governance_client.Config.Merge.Whole.{
  IsLayer, AreFresh, compile-IsLayer, IsLayer-compile, merge-IsLayer, merge-AreFresh,
}
use http_governance_client.Config.Store.{
  RetryConfigStore, StoreError, DecodeYaml, LoadError, not_loaded, empty_file, layer_of, read_layer,
  merged_with, load_layers, load_retry_config_file_from_store, update_from_store,
}

module _ (decode : DecodeYaml) (parse : ParseDuration) (glob : PathMatch) where
  abbrev IsMerged : RetryConfigFile → Type 0
  IsMerged file = IsLayer parse glob file × AreFresh file

  empty-IsMerged : IsMerged empty_file
  unfolding validate_config_version validate_retry_budget_file_layer trim_space
  empty-IsMerged = (
    record {
      version = (tt, refl);
      budget = refl;
      hosts = tt;
      downstreams = tt;
      operations = tt;
      policies = record { reads = tt; writes = tt; external_reads = tt; external_writes = tt };
      rules = tt;
    },
    record { downstreams = tt; operations = tt; rules = tt },
  )

  layer_of-IsLayer :
      (path contents : Text) (file : RetryConfigFile)
      → layer_of decode parse glob path contents ≡ ok file
      → IsLayer parse glob file
  unfolding layer_of
  layer_of-IsLayer path contents file e = elim (Result-cases (decode contents)) [
    | inr (x, bad) ↦ absurd (ground arith)
    | inl (f, ef) ↦ elim (Result-cases (validate_retry_budget_file_layer f.retry_budget)) [
      | inr (x, bad) ↦ absurd (ground arith)
      | inl (u, eu) ↦ elim (Result-cases (compile_retry_config_file parse glob disabled f)) [
        | inr (x, bad) ↦ absurd (ground arith)
        | inl good ↦
            let same : f ≡ file = ground arith in
            rw (← same) (compile-IsLayer parse glob disabled f eu good)
      ]
    ]
  ]

  merged_with-IsMerged :
      (store : RetryConfigStore) (path : Text) (answer : Result StoreError Text)
      (merged : RetryConfigFile) (layer : Option RetryConfigFile)
      → read_layer decode parse glob store path answer ≡ ok layer
      → IsMerged merged
      → IsMerged (merged_with merged layer)
  unfolding read_layer
  merged_with-IsMerged store path answer merged none e h = h
  merged_with-IsMerged store path (err x) merged (some f) e h = absurd (ground arith)
  merged_with-IsMerged store path (ok []) merged (some f) e h = absurd (ground arith)
  merged_with-IsMerged store path (ok (c ∷ s)) merged (some f) e h =
      elim (Result-cases (layer_of decode parse glob path (c ∷ s))) [
        | inr (x, bad) ↦ absurd (ground arith)
        | inl (g, eg) ↦
            let same : g ≡ f = ground arith in
            (
              merge-IsLayer parse glob merged f h.0
                  (rw (← same) (layer_of-IsLayer path (c ∷ s) g eg)),
              merge-AreFresh merged f,
            )
      ]

  load_layers-IsMerged :
      (store : RetryConfigStore) (merged : RetryConfigFile) (paths : List Text)
      (file : RetryConfigFile)
      → load_layers decode parse glob store merged paths ≡ ok file
      → IsMerged merged
      → IsMerged file
  unfolding load_layers
  load_layers-IsMerged store merged [] file e h =
      let same : merged ≡ file = ground arith in rw (← same) h
  load_layers-IsMerged store merged (path ∷ paths) file e h =
      elim (Result-cases (read_layer decode parse glob store path (store.get path))) [
        | inr (x, bad) ↦ absurd (ground arith)
        | inl (layer, el) ↦
            load_layers-IsMerged store (merged_with merged layer) paths file (rw el at e)
              (merged_with-IsMerged store path (store.get path) merged layer el h)
      ]

  load-parts :
      (store : RetryConfigStore) (app_name : Text) (file : RetryConfigFile)
      → load_retry_config_file_from_store decode parse glob store app_name ≡ ok file
      → IsMerged file × IsOk (to_config file.retry_budget)
  unfolding load_retry_config_file_from_store
  load-parts store app_name file e =
      elim (Result-cases
        (load_layers decode parse glob store empty_file (retry_config_lookup_paths app_name))) [
          | inr (x, bad) ↦ absurd (ground arith)
          | inl (merged, em) ↦ elim (Result-cases (to_config merged.retry_budget)) [
            | inr (x, bad) ↦ absurd (ground arith)
            | inl good ↦
                let same : merged ≡ file = ground arith in
                rw (← same) (
                  load_layers-IsMerged store empty_file (retry_config_lookup_paths app_name) merged
                      em empty-IsMerged,
                  good,
                )
          ]
        ]

  -- A file that was loaded from the store is accepted by Update, whatever the layers and however
  -- they overlap: no valid layers make an invalid file.
  pub load_from_store-load :
      (store : RetryConfigStore) (app_name : Text) (file : RetryConfigFile)
      → load_retry_config_file_from_store decode parse glob store app_name ≡ ok file
      → IsOk (load parse glob file)
  unfolding load
  load_from_store-load store app_name file e =
      let ((layer, fresh), (b, eb)) = load-parts store app_name file e in
      rw (layer.budget, eb) (IsLayer-compile parse glob b file layer fresh)

  -- updateFromStore fails exactly where the load from the store does, with its error, and then
  -- leaves the provider as it was; otherwise the provider is the one that load makes of the file.
  pub update_from_store-cases :
      (p : ManagedRetryConfigProvider) (store : RetryConfigStore) (app_name : Text)
      → ((x : LoadError) × (load_retry_config_file_from_store decode parse glob store app_name
            ≡ err x)
          × (update_from_store decode parse glob p store app_name ≡ (p, some (not_loaded x))))
        ⊎ ((file : RetryConfigFile) × (q : ManagedRetryConfigProvider)
            × (load_retry_config_file_from_store decode parse glob store app_name ≡ ok file)
            × (load parse glob file ≡ ok q)
            × (update_from_store decode parse glob p store app_name ≡ (q, none)))
  unfolding update_from_store update_provider
  update_from_store-cases p store app_name =
      elim (Result-cases (load_retry_config_file_from_store decode parse glob store app_name)) [
        | inr (x, bad) ↦ inl (x, bad, rw bad refl)
        | inl (file, e) ↦
            let (q, good) = load_from_store-load store app_name file e in
            inr (file, q, e, good, rw (e, good) refl)
      ]
