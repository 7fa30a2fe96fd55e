-- ===== src/Config/Watch/Pending.antt =====
-- retry_consul.go: the loop of the watch over many turns.
use http_governance_client.Common.{
  true, false, ◌≡◌, refl, ap, ◌∙◌, not, arith, ℤ, inl, inr, List, [], ◌∷◌, ◌++◌, any, All, ok, err,
}
use http_governance_client.Common.Text.{Text}
use http_governance_client.Config.Match.{PathMatch}
use http_governance_client.Config.Patches.{ParseDuration}
use http_governance_client.Config.Provider.{ManagedRetryConfigProvider}
use http_governance_client.Config.File.{RetryConfigFile}
use http_governance_client.Config.Update.{load}
use http_governance_client.Config.Merge.{retry_config_lookup_paths}
use http_governance_client.Config.Store.{DecodeYaml, LoadError, load_retry_config_file_from_store}
use http_governance_client.Config.Store.Reload.{update_from_store-cases}
use http_governance_client.Config.Watch.{States, wait_for_retry_config_change}
use http_governance_client.Config.Watch.Loop.{
  Turn, going_on, sleep_with_context, blocking_turn, run_retry_config_blocking_reload_loop,
  watched-change,
}
use http_governance_client.Config.Watch.Changes.{
  Versions, Answers, AreKnown, same_version, wait-reports,
}

module _ (decode : DecodeYaml) (parse : ParseDuration) (glob : PathMatch) (app_name : Text)
    (interval : ℤ) where
  -- A turn of a pending loop whose reload fails, and which is not told to stop.
  abbrev pub Fails : Turn → Type 0
  Fails t =
      (t.cancelled ≡ false)
      × (sleep_with_context interval t ≡ true)
      × (x : LoadError) × (load_retry_config_file_from_store decode parse glob t.store app_name
          ≡ err x)

  failed_turn :
      (t : Turn) (p : ManagedRetryConfigProvider) (states : States)
      → Fails t
      → blocking_turn decode parse glob app_name interval t (going_on p states true)
        ≡ going_on p states true
  unfolding blocking_turn
  failed_turn t p states (there, awake, x, bad) =
      elim (update_from_store-cases decode parse glob p t.store app_name) [
        | inl (y, worse, same) ↦ rw (same, there, awake) refl
        | inr (file, q, good, e, same) ↦ absurd (cc (good, bad))
      ]

  loading_turn :
      (t : Turn) (p : ManagedRetryConfigProvider) (states : States) (file : RetryConfigFile)
      → load_retry_config_file_from_store decode parse glob t.store app_name ≡ ok file
      → (q : ManagedRetryConfigProvider) × (load parse glob file ≡ ok q)
        × (blocking_turn decode parse glob app_name interval t (going_on p states true)
            ≡ going_on q states false)
  unfolding blocking_turn
  loading_turn t p states file good =
      elim (update_from_store-cases decode parse glob p t.store app_name) [
        | inl (y, bad, same) ↦ absurd (cc (good, bad))
        | inr (other, q, there, e, same) ↦
            let one : other ≡ file = ground arith in (q, rw (← one) e, rw same refl)
      ]

  failed_turns :
      (failing : List Turn) (t : Turn) (p : ManagedRetryConfigProvider) (states : States)
      → All Fails failing
      → run_retry_config_blocking_reload_loop decode parse glob app_name interval
          (failing ++ t ∷ [])
          (going_on p states true)
        ≡ blocking_turn decode parse glob app_name interval t (going_on p states true)
  unfolding run_retry_config_blocking_reload_loop
  failed_turns [] t p states h = refl
  failed_turns (f ∷ failing) t p states h =
      ap
        (run_retry_config_blocking_reload_loop decode parse glob app_name interval
          (failing ++ t ∷ []))
        (failed_turn f p states h.0)
      ∙ failed_turns failing t p states h.1

  reported_turn :
      (t : Turn) (p : ManagedRetryConfigProvider) (states : States)
      → (wait_for_retry_config_change t.store t.get_with_index app_name states).1 ≡ ok true
      → blocking_turn decode parse glob app_name interval t (going_on p states false)
        ≡ going_on p (wait_for_retry_config_change t.store t.get_with_index app_name states).0 true
  unfolding blocking_turn
  reported_turn t p states e =
      watched-change interval t app_name (going_on p states false)
        (wait_for_retry_config_change t.store t.get_with_index app_name states) e

  -- Where the watch knows earlier versions of both paths, and the answers of the store give another
  -- version of one, then in the following turns the provider is updated with the first
  -- configuration that can be loaded: turns before whose load fails, and that are not told to stop,
  -- leave the change pending.
  pub run-change_taken :
      (p : ManagedRetryConfigProvider) (states : States) (old versions : Versions) (watching : Turn)
      (failing : List Turn) (loading : Turn) (file : RetryConfigFile)
      → AreKnown states old (retry_config_lookup_paths app_name)
      → Answers watching.store watching.get_with_index versions
      → any
          (λ path. not (same_version (old path) (versions path)))
          (retry_config_lookup_paths app_name)
        ≡ true
      → All Fails failing
      → load_retry_config_file_from_store decode parse glob loading.store app_name ≡ ok file
      → (q : ManagedRetryConfigProvider) × (load parse glob file ≡ ok q)
        × (run_retry_config_blocking_reload_loop decode parse glob app_name interval
              (watching ∷ failing ++ loading ∷ [])
              (going_on p states false)
            ≡ going_on q
                (wait_for_retry_config_change watching.store watching.get_with_index app_name
                  states).0
                false)
  unfolding run_retry_config_blocking_reload_loop
  run-change_taken p states old versions watching failing loading file known answers changed fails
        good =
      let later =
        (wait_for_retry_config_change watching.store watching.get_with_index app_name states).0 in
      let reported =
        (wait-reports watching.store watching.get_with_index old versions states app_name answers
          known).0 in
      let (q, e, done) = loading_turn loading p later file good in
      (
        q,
        e,
        ap
              (run_retry_config_blocking_reload_loop decode parse glob app_name interval
                (failing ++ loading ∷ []))
              (reported_turn watching p states (rw changed at reported))
            ∙ failed_turns failing loading p later fails
            ∙ done,
      )
