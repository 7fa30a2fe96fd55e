-- ===== src/Config/Watch/Origin.antt =====
-- retry_consul.go: where the provider that the loops keep up to date comes from.
use mathlib.Core.Path.{subst⁻¹}
use http_governance_client.Common.{
  Bool, true, false, ◌≡◌, refl, ◌∙◌, not, Bool-cases, ℤ, ◌⊎◌, inl, inr, List, [], ◌∷◌, Any, ok, err,
}
use http_governance_client.Common.Text.{Text}
use http_governance_client.Config.Match.{PathMatch}
use http_governance_client.Config.Patches.{ParseDuration}
use http_governance_client.Config.Provider.{ManagedRetryConfigProvider}
use http_governance_client.Config.File.{RetryConfigFile}
use http_governance_client.Config.Update.{load}
use http_governance_client.Config.Store.{
  DecodeYaml, LoadError, not_loaded, load_retry_config_file_from_store, update_from_store,
}
use http_governance_client.Config.Store.Reload.{update_from_store-cases}
use http_governance_client.Config.Watch.Loop.{
  run_polling_loop, polling_turn, polling_turn-provider, polling_turn-loaded, polling_turn-failed,
  Loop, Turn, blocking_turn, blocking_turn-provider, run_retry_config_blocking_reload_loop,
}

module _ (decode : DecodeYaml) (parse : ParseDuration) (glob : PathMatch) (app_name : Text)
    (interval : ℤ) where
  -- The store of a turn has a configuration that loads, and the provider is the one it is loaded to.
  abbrev pub Loads : ManagedRetryConfigProvider → Turn → Type 0
  Loads q t =
      (file : RetryConfigFile) × (load_retry_config_file_from_store decode parse glob t.store
          app_name
        ≡ ok file)
      × (load parse glob file ≡ ok q)

  abbrev pub FromStore :
      List Turn → ManagedRetryConfigProvider → ManagedRetryConfigProvider → Type 0
  FromStore ts p q = (q ≡ p) ⊎ Any (Loads q) ts

  updated :
      (p q : ManagedRetryConfigProvider) (t : Turn)
      → (q ≡ p) ⊎ (q ≡ (update_from_store decode parse glob p t.store app_name).0)
      → (q ≡ p) ⊎ Loads q t
  updated p q t (inl same) = inl same
  updated p q t (inr new) = elim (update_from_store-cases decode parse glob p t.store app_name) [
    | inl (x, bad, same) ↦ inl (rw (new, same) refl)
    | inr (file, r, good, e, same) ↦
        let one : q ≡ r = rw (new, same) refl in inr (file, good, rw one e)
  ]

  FromStore-next :
      (t : Turn) (ts : List Turn) (p q r : ManagedRetryConfigProvider)
      → (q ≡ p) ⊎ Loads q t
      → FromStore ts q r
      → FromStore (t ∷ ts) p r
  FromStore-next t ts p q r (inl same) (inl last) = inl (last ∙ same)
  FromStore-next t ts p q r (inr new) (inl last) = inr (inl (rw last new))
  FromStore-next t ts p q r h (inr later) = inr (inr later)

  watching-FromStore :
      (ts : List Turn) (l : Loop)
      → FromStore ts l.provider
          (run_retry_config_blocking_reload_loop decode parse glob app_name interval ts l).provider
  unfolding run_retry_config_blocking_reload_loop
  watching-FromStore [] l = inl refl
  watching-FromStore (t ∷ ts) l =
      let next = blocking_turn decode parse glob app_name interval t l in
      FromStore-next t ts l.provider next.provider _
        (updated l.provider next.provider t
          (blocking_turn-provider decode parse glob app_name interval t l))
        (watching-FromStore ts next)

  polling-FromStore :
      (ts : List Turn) (p : ManagedRetryConfigProvider) (running : Bool)
      → FromStore ts p (run_polling_loop decode parse glob app_name interval ts (p, running)).0
  unfolding run_polling_loop
  polling-FromStore [] p running = inl refl
  polling-FromStore (t ∷ ts) p running =
      let next = polling_turn decode parse glob app_name interval t (p, running) in
      FromStore-next t ts p next.0 _
        (updated p next.0 t (polling_turn-provider decode parse glob app_name interval t p running))
        (polling-FromStore ts next.0 next.1)

  -- What a turn of the polling makes of the provider: it stays where the load fails, and otherwise it
  -- is the one that is loaded.
  abbrev pub Polls : ManagedRetryConfigProvider → Turn → ManagedRetryConfigProvider → Type 0
  Polls p t q =
      ((x : LoadError) × (load_retry_config_file_from_store decode parse glob t.store app_name
          ≡ err x)
        × (q ≡ p))
      ⊎ Loads q t

  -- One turn after the other, from the first provider to the last.
  abbrev pub PollsEach :
      List Turn → ManagedRetryConfigProvider → ManagedRetryConfigProvider → Type 0
  PollsEach [] p q = q ≡ p
  PollsEach (t ∷ ts) p q = (r : ManagedRetryConfigProvider) × Polls p t r × PollsEach ts r q

  stopped :
      (ts : List Turn) (p : ManagedRetryConfigProvider)
      → (run_polling_loop decode parse glob app_name interval ts (p, false)).1 ≡ false
  unfolding run_polling_loop polling_turn
  stopped [] p = refl
  stopped (t ∷ ts) p = stopped ts p

  -- From a state of the polling on: it has stopped, or each turn from the first provider polled.
  abbrev After :
      List Turn
      → List Turn
      → ManagedRetryConfigProvider
      → ManagedRetryConfigProvider × Bool
      → Type 0
  After done ts p s =
      ((run_polling_loop decode parse glob app_name interval ts s).1 ≡ false)
      ⊎ PollsEach done p (run_polling_loop decode parse glob app_name interval ts s).0

  After-next :
      (t : Turn) (ts : List Turn) (p q : ManagedRetryConfigProvider) (running : Bool)
      → Polls p t q
      → polling_turn decode parse glob app_name interval t (p, true) ≡ (q, running)
      → After ts ts q (q, true)
      → After (t ∷ ts) (t ∷ ts) p (p, true)
  unfolding run_polling_loop
  After-next t ts p q false polls turn h = subst⁻¹ (After (t ∷ ts) ts p) turn (inl (stopped ts q))
  After-next t ts p q true polls turn (inl s) = subst⁻¹ (After (t ∷ ts) ts p) turn (inl s)
  After-next t ts p q true polls turn (inr each) =
      subst⁻¹ (After (t ∷ ts) ts p) turn (inr (q, polls, each))

  late-After :
      (t : Turn) (ts : List Turn) (p : ManagedRetryConfigProvider)
      → t.timer_fired ≡ false
      → After (t ∷ ts) (t ∷ ts) p (p, true)
  unfolding run_polling_loop polling_turn
  late-After t ts p e = rw e (inl (stopped ts p))

  polling-After : (ts : List Turn) (p : ManagedRetryConfigProvider) → After ts ts p (p, true)
  unfolding run_polling_loop
  polling-After [] p = inr refl
  polling-After (t ∷ ts) p = elim (Bool-cases t.timer_fired) [
    | inr e ↦ late-After t ts p e
    | inl e ↦ elim (update_from_store-cases decode parse glob p t.store app_name) [
      | inr (file, q, good, l, same) ↦
          After-next t ts p q true (inr (file, good, l))
            (polling_turn-loaded decode parse glob app_name interval t p q e same)
            (polling-After ts q)
      | inl (x, bad, same) ↦
          After-next t ts p p (not t.cancelled) (inl (x, bad, refl))
            (polling_turn-failed decode parse glob app_name interval t p p (not_loaded x) e same)
            (polling-After ts p)
    ]
  ]

  -- Whatever the store answers and whenever the context is done, the provider that the watch or the
  -- polling keeps up to date is the one it began with, or exactly the one that is loaded from the
  -- configuration that the store had in one of the turns: a reload that fails changes nothing of it.
  -- Unless the polling has stopped, each of its turns in order left the provider as it was where the
  -- load failed, and otherwise replaced it with what was loaded.
  pub run-FromStore :
      (ts : List Turn) (l : Loop) (p : ManagedRetryConfigProvider)
      → FromStore ts l.provider
          (run_retry_config_blocking_reload_loop decode parse glob app_name interval ts l).provider
        × FromStore ts p (run_polling_loop decode parse glob app_name interval ts (p, true)).0
        × (((run_polling_loop decode parse glob app_name interval ts (p, true)).1 ≡ false)
            ⊎ PollsEach ts p (run_polling_loop decode parse glob app_name interval ts (p, true)).0)
  run-FromStore ts l p = (watching-FromStore ts l, polling-FromStore ts p true, polling-After ts p)
