-- ===== src/Config/Watch/Loop.antt =====
-- retry_consul.go: the loop of the watch and the loop that polls, one turn at a time.
use http_governance_client.Common.{
  ◌≡◌, refl, ap, Bool, true, false, not, ◌&&◌, ◌||◌, Option, none, some, ℤ, pos, leb_ℤ,
  if◌then◌else◌, ◌⊎◌, inl, inr, List, [], ◌∷◌, Bool-cases, Result, ok, err,
}
use http_governance_client.Common.Text.{Text}
use http_governance_client.Config.Match.{PathMatch}
use http_governance_client.Config.Patches.{ParseDuration}
use http_governance_client.Config.Provider.{ManagedRetryConfigProvider}
use http_governance_client.Config.Store.{
  RetryConfigStore, StoreError, DecodeYaml, ReloadError, update_from_store,
}
use http_governance_client.Config.Watch.{
  States, GetWithIndex, unseen, wait_for_retry_config_change, all_retry_config_watch_paths_missing,
}

-- The variables of the loop and the provider, which it shares. It is not running once it has
-- returned.
pub record Loop : Type 0 where
  pub provider : ManagedRetryConfigProvider
  pub states : States
  pub pending_reload : Bool
  pub running : Bool

-- What a turn of the loop finds: what the store answers, whether the context is done where the loop
-- asks, and whether a sleep ends by its timer.
pub record Turn : Type 0 where
  pub store : RetryConfigStore
  pub get_with_index : GetWithIndex
  pub cancelled : Bool
  pub timer_fired : Bool

unfoldable pub sleep_with_context : ℤ → Turn → Bool
sleep_with_context interval t = if leb_ℤ interval (pos 0) then true else t.timer_fired

-- A loop that goes on.
abbrev pub going_on : ManagedRetryConfigProvider → States → Bool → Loop
going_on p states pending = record {
  provider = p;
  states = states;
  pending_reload = pending;
  running = true;
}

abbrev pub returned : Loop → Loop
returned l = record {
  provider = l.provider;
  states = l.states;
  pending_reload = l.pending_reload;
  running = false;
}

-- A goroutine that has been started.
abbrev pub started : ManagedRetryConfigProvider → Loop
started p = going_on p unseen false

module _ (interval : ℤ) (t : Turn) where
  -- After reloadRetryConfigFromStore.
  pub reloaded : Loop → ManagedRetryConfigProvider × Option ReloadError → Loop
  unfolding sleep_with_context
  reloaded l (p, none) = going_on p l.states false
  reloaded l (p, some e) =
      if t.cancelled || not (sleep_with_context interval t)
      then returned (going_on p l.states true)
      else going_on p l.states true

  -- After waitForRetryConfigChange.
  pub watched : Text → Loop → States × Result StoreError Bool → Loop
  unfolding sleep_with_context all_retry_config_watch_paths_missing
  watched app_name l (states, err e) =
      if t.cancelled
      then returned (going_on l.provider states false)
      else going_on l.provider states true
  watched app_name l (states, ok true) = going_on l.provider states true
  watched app_name l (states, ok false) =
      if all_retry_config_watch_paths_missing app_name states && not (sleep_with_context interval t)
      then returned (going_on l.provider states false)
      else going_on l.provider states false

  reloaded-provider :
      (l : Loop) (r : ManagedRetryConfigProvider × Option ReloadError)
      → (reloaded l r).provider ≡ r.0
  unfolding reloaded
  reloaded-provider l (p, none) = refl
  reloaded-provider l (p, some e) =
      elim (Bool-cases (t.cancelled || not (sleep_with_context interval t))) [
        | inl e ↦ rw e refl
        | inr e ↦ rw e refl
      ]

  watched-provider :
      (app_name : Text) (l : Loop) (w : States × Result StoreError Bool)
      → (watched app_name l w).provider ≡ l.provider
  unfolding watched
  watched-provider app_name l (states, err x) = elim (Bool-cases t.cancelled) [
    | inl e ↦ rw e refl
    | inr e ↦ rw e refl
  ]
  watched-provider app_name l (states, ok true) = refl
  watched-provider app_name l (states, ok false) =
      elim (Bool-cases (
        all_retry_config_watch_paths_missing app_name states
        && not (sleep_with_context interval t))) [ inl e ↦ rw e refl | inr e ↦ rw e refl ]

  pub watched-change :
      (app_name : Text) (l : Loop) (w : States × Result StoreError Bool)
      → w.1 ≡ ok true
      → watched app_name l w ≡ going_on l.provider w.0 true
  unfolding watched
  watched-change app_name l (states, ok true) h = refl
  watched-change app_name l (states, ok false) h = absurd (cc)
  watched-change app_name l (states, err x) h = absurd (cc)

module _ (decode : DecodeYaml) (parse : ParseDuration) (glob : PathMatch) (app_name : Text)
    (interval : ℤ) where
  -- One turn of runRetryConfigBlockingReloadLoop.
  unfoldable pub blocking_turn : Turn → Loop → Loop
  unfolding reloaded watched update_from_store wait_for_retry_config_change
  blocking_turn t l =
      if not l.running
      then l
      else if l.pending_reload
      then reloaded interval t l (update_from_store decode parse glob l.provider t.store app_name)
      else watched interval t app_name l
          (wait_for_retry_config_change t.store t.get_with_index app_name l.states)

  -- A turn leaves the provider or updates it from the store.
  pub blocking_turn-provider :
      (t : Turn) (l : Loop)
      → ((blocking_turn t l).provider ≡ l.provider)
        ⊎ ((blocking_turn t l).provider
            ≡ (update_from_store decode parse glob l.provider t.store app_name).0)
  unfolding blocking_turn
  blocking_turn-provider t l = elim (Bool-cases l.running) [
    | inr e ↦ rw e (inl refl)
    | inl e ↦ elim (Bool-cases l.pending_reload) [
      | inl p ↦
          rw (e, p)
            (inr (
              reloaded-provider interval t l
                (update_from_store decode parse glob l.provider t.store app_name)))
      | inr p ↦
          rw (e, p)
            (inl (
              watched-provider interval t app_name l
                (wait_for_retry_config_change t.store t.get_with_index app_name l.states)))
    ]
  ]

  unfoldable pub run_retry_config_blocking_reload_loop : List Turn → Loop → Loop
  unfolding blocking_turn
  run_retry_config_blocking_reload_loop [] l = l
  run_retry_config_blocking_reload_loop (t ∷ ts) l =
      run_retry_config_blocking_reload_loop ts (blocking_turn t l)

  polled :
      Turn → ManagedRetryConfigProvider × Option ReloadError → ManagedRetryConfigProvider × Bool
  polled t (p, none) = (p, true)
  polled t (p, some e) = (p, not t.cancelled)

  -- One turn of the loop that polls: the provider and whether the loop is running.
  unfoldable pub polling_turn :
      Turn → ManagedRetryConfigProvider × Bool → ManagedRetryConfigProvider × Bool
  unfolding polled update_from_store
  polling_turn t (p, running) =
      if not running
      then (p, false)
      else if t.timer_fired
      then polled t (update_from_store decode parse glob p t.store app_name)
      else (p, false)

  polled-provider :
      (t : Turn) (r : ManagedRetryConfigProvider × Option ReloadError) → (polled t r).0 ≡ r.0
  unfolding polled
  polled-provider t (p, none) = refl
  polled-provider t (p, some e) = refl

  pub polling_turn-provider :
      (t : Turn) (p : ManagedRetryConfigProvider) (running : Bool)
      → ((polling_turn t (p, running)).0 ≡ p)
        ⊎ ((polling_turn t (p, running)).0
            ≡ (update_from_store decode parse glob p t.store app_name).0)
  unfolding polling_turn
  polling_turn-provider t p false = inl refl
  polling_turn-provider t p true = elim (Bool-cases t.timer_fired) [
    | inr e ↦ rw e (inl refl)
    | inl e ↦
        rw e (inr (polled-provider t (update_from_store decode parse glob p t.store app_name)))
  ]

  pub polling_turn-loaded :
      (t : Turn) (p q : ManagedRetryConfigProvider)
      → t.timer_fired ≡ true
      → update_from_store decode parse glob p t.store app_name ≡ (q, none)
      → polling_turn t (p, true) ≡ (q, true)
  unfolding polling_turn polled
  polling_turn-loaded t p q e same = rw e (ap (polled t) same)

  pub polling_turn-failed :
      (t : Turn) (p q : ManagedRetryConfigProvider) (x : ReloadError)
      → t.timer_fired ≡ true
      → update_from_store decode parse glob p t.store app_name ≡ (q, some x)
      → polling_turn t (p, true) ≡ (q, not t.cancelled)
  unfolding polling_turn polled
  polling_turn-failed t p q x e same = rw e (ap (polled t) same)

  -- The branch of runRetryConfigAutoReloadLoop without a blocking store.
  unfoldable pub run_polling_loop :
      List Turn → ManagedRetryConfigProvider × Bool → ManagedRetryConfigProvider × Bool
  unfolding polling_turn
  run_polling_loop [] s = s
  run_polling_loop (t ∷ ts) s = run_polling_loop ts (polling_turn t s)
