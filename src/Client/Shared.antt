-- ===== src/Client/Shared.antt =====
-- http.go and retry_consul.go: after Setup the transport, the classifier and the watch share one
-- provider.
use http_governance_client.Common.{
  ℕ, ◌≡◌, refl, sym, ap, ◌∙◌, true, Option, none, some, arith, pos, leb_ℤ, if◌then◌else◌, ◌⊎◌, inl,
  inr, List, [], ◌∷◌, is_empty, Bool-cases, Option-cases, ◌==◌, ok, err, Result-cases,
}
use http_governance_client.Common.Text.{Text}
use http_governance_client.Config.Match.{PathMatch}
use http_governance_client.Config.Patches.{ParseDuration}
use http_governance_client.Config.File.{RetryConfigFile}
use http_governance_client.Config.Update.{load}
use http_governance_client.Config.Provider.{
  ManagedRetryConfigProvider, new_managed_retry_config_provider, resolve_request_class,
}
use http_governance_client.Transport.Resolve.{managed}
use http_governance_client.Config.Store.{
  RetryConfigStore, DecodeYaml, ReloadError, not_loaded, load_retry_config_file_from_store,
  new_managed_retry_config_provider_from_store,
}
use http_governance_client.Config.Store.Reload.{update_from_store-cases}
use http_governance_client.Client.{
  Client, ClientTransport, Watcher, Heap, store_at, provider_of, extension_of,
}
use http_governance_client.Client.Setup.{
  NewStore, SetupError, installed, named, without_newest, start_retry_config_auto_reload_from_store,
  stop_retry_config_auto_reload, set_retry_config_provider_from_consul, setup_with_options,
}
use http_governance_client.Client.Args.{SetupOptions}

-- The transport and the classifier have the provider of this number, and see what is stored there.
pub record Shares (glob : PathMatch) (c : Client) (id : ℕ) : Type 0 where
  pub fields : ClientTransport
  pub transport : c.transport ≡ some fields
  pub resolves :
      (p : ManagedRetryConfigProvider)
      → provider_of (store_at id p c.heap) fields.config_provider ≡ managed p
  pub classifies :
      (p : ManagedRetryConfigProvider)
      → extension_of glob (store_at id p c.heap) c.class_resolver
        ≡ some (resolve_request_class glob p)

abbrev pub watcher_list : Option Watcher → List Watcher
watcher_list none = []
watcher_list (some w) = w ∷ []

-- At most the goroutine runs that the next stop waits for.
abbrev pub IsSingle : Client → Type 0
IsSingle c = c.watchers ≡ watcher_list c.auto_reload

-- The goroutines that run where one was started for a provider: none where the interval disables it.
abbrev pub expected : ℕ → Text → Client → List Watcher
expected id app_name c =
    if leb_ℤ c.auto_reload_interval (pos 0)
    then []
    else record { provider = id; app_name = app_name; interval = c.auto_reload_interval } ∷ []

stop-none :
    (c : Client)
    → IsSingle c
    → ((stop_retry_config_auto_reload c).watchers ≡ [])
      × ((stop_retry_config_auto_reload c).auto_reload ≡ none)
unfolding stop_retry_config_auto_reload
stop-none c h = elim (Option-cases c.auto_reload) [
  | inl e ↦ rw e ((h ∙ ap watcher_list e), refl)
  | inr (w, e) ↦ rw e (ap without_newest (h ∙ ap watcher_list e), refl)
]

-- Stopping and starting leave alone what a request meets.
abbrev Meets : Client → Client → Type 0
Meets c d = (c.heap ≡ d.heap) × (c.transport ≡ d.transport) × (c.class_resolver ≡ d.class_resolver)

stop-Meets : (c : Client) → Meets (stop_retry_config_auto_reload c) c
unfolding stop_retry_config_auto_reload
stop-Meets c = elim (Option-cases c.auto_reload) [
  | inl e ↦ rw e (refl, refl, refl)
  | inr (w, e) ↦ rw e (refl, refl, refl)
]

start-Meets :
    (id : ℕ) (app_name : Text) (c : Client)
    → Meets (start_retry_config_auto_reload_from_store id app_name c) c
unfolding start_retry_config_auto_reload_from_store
start-Meets id app_name c = elim (Bool-cases (leb_ℤ c.auto_reload_interval (pos 0))) [
  | inl e ↦ rw e (stop-Meets c)
  | inr e ↦ rw e (stop-Meets c)
]

start-IsSingle :
    (id : ℕ) (app_name : Text) (c : Client)
    → IsSingle c
    → IsSingle (start_retry_config_auto_reload_from_store id app_name c)
      × ((start_retry_config_auto_reload_from_store id app_name c).watchers
          ≡ expected id app_name c)
unfolding start_retry_config_auto_reload_from_store
start-IsSingle id app_name c h =
    let (none_running, stopped) = stop-none c h in
    elim (Bool-cases (leb_ℤ c.auto_reload_interval (pos 0))) [
      | inl e ↦ rw e ((none_running ∙ sym (ap watcher_list stopped)), none_running)
      | inr e ↦
          let w : Watcher = record {
            provider = id;
            app_name = app_name;
            interval = c.auto_reload_interval;
          } in
          rw e (ap (λ ws. w ∷ ws) none_running, ap (λ ws. w ∷ ws) none_running)
    ]

store_at_here : (id : ℕ) (p : ManagedRetryConfigProvider) (heap : Heap) → store_at id p heap id ≡ p
unfolding store_at
store_at_here id p heap = let same : (id == id) ≡ true = ground arith in rw same refl

installed-Shares :
    (glob : PathMatch) (p : ManagedRetryConfigProvider) (c : Client)
    → Shares glob (installed p c) c.next
unfolding installed provider_of extension_of
installed-Shares glob p c = record {
  fields = _;
  transport = refl;
  resolves = λ q. ap managed (store_at_here c.next q (installed p c).heap);
  classifies = λ q.
      ap (λ r. some (resolve_request_class glob r)) (store_at_here c.next q (installed p c).heap);
}

Shares-Meets :
    (glob : PathMatch) (c d : Client) (id : ℕ) → Meets c d → Shares glob d id → Shares glob c id
Shares-Meets glob c d id (heap, transport, resolver) h = record {
  fields = h.fields;
  transport = transport ∙ h.transport;
  resolves = λ p. rw heap (h.resolves p);
  classifies = λ p. rw (heap, resolver) (h.classifies p);
}

named_keeps :
    (name : Text) (c : Client)
    → ((named name c).watchers ≡ c.watchers)
      × ((named name c).auto_reload ≡ c.auto_reload)
      × ((named name c).next ≡ c.next)
      × ((named name c).auto_reload_interval ≡ c.auto_reload_interval)
unfolding named
named_keeps name c = elim (Bool-cases (is_empty name)) [
  | inl e ↦ rw e (refl, refl, refl, refl)
  | inr e ↦ rw e (refl, refl, refl, refl)
]

-- The configuration of the store is in use: in the provider that the transport and the classifier have
-- and that the goroutine, if any, keeps up to date.
pub record InUse (glob : PathMatch) (app_name : Text) (old : Client)
    (q : ManagedRetryConfigProvider) (c : Client) : Type 0 where
  pub shared : Shares glob c old.next
  pub current : c.heap old.next ≡ q
  pub watched : c.watchers ≡ expected old.next app_name old

started-InUse :
    (glob : PathMatch) (app_name : Text) (c : Client) (q : ManagedRetryConfigProvider)
    → IsSingle c
    → IsSingle (start_retry_config_auto_reload_from_store c.next app_name (installed q c))
      × InUse glob app_name c q
          (start_retry_config_auto_reload_from_store c.next app_name (installed q c))
unfolding installed
started-InUse glob app_name c q h =
    let d = installed q c in
    let (single, watched) = start-IsSingle c.next app_name d h in
    let meets = start-Meets c.next app_name d in
    (
      single,
      record {
        shared =
            Shares-Meets glob (start_retry_config_auto_reload_from_store c.next app_name d) d c.next
              meets (installed-Shares glob q c);
        current = ap (λ heap. heap c.next) meets.0 ∙ store_at_here c.next q c.heap;
        watched = watched;
      },
    )

module _ (new_store : NewStore) (decode : DecodeYaml) (parse : ParseDuration)
    (glob : PathMatch) where
  -- The results of setting the configuration from a store: an error that changes nothing, or the
  -- configuration of the store in use.
  abbrev pub IsConfigured : Text → Text → Text → Client → Client × Option SetupError → Type 0
  IsConfigured env app_name endpoint c result =
      ((e : SetupError) × (result ≡ (c, some e)))
      ⊎ ((store : RetryConfigStore) × (file : RetryConfigFile) × (q : ManagedRetryConfigProvider)
          × (new_store env endpoint ≡ ok store)
          × (load_retry_config_file_from_store decode parse glob store app_name ≡ ok file)
          × (load parse glob file ≡ ok q)
          × (result.1 ≡ none)
          × InUse glob app_name c q result.0)

  created-cases :
      (store : RetryConfigStore) (app_name : Text)
      → ((e : ReloadError) × (new_managed_retry_config_provider_from_store decode parse glob store
              app_name
            ≡ err e))
        ⊎ ((file : RetryConfigFile) × (q : ManagedRetryConfigProvider)
            × (load_retry_config_file_from_store decode parse glob store app_name ≡ ok file)
            × (load parse glob file ≡ ok q)
            × (new_managed_retry_config_provider_from_store decode parse glob store app_name
                ≡ ok q))
  unfolding new_managed_retry_config_provider_from_store
  created-cases store app_name =
      elim (update_from_store-cases decode parse glob new_managed_retry_config_provider store
        app_name) [
          | inl (x, bad, same) ↦ inl (not_loaded x, rw same refl)
          | inr (file, q, good, e, same) ↦ inr (file, q, good, e, rw same refl)
        ]

  set_from_consul-IsConfigured :
      (env app_name endpoint : Text) (c : Client)
      → IsSingle c
      → IsSingle
          (set_retry_config_provider_from_consul new_store decode parse glob env app_name endpoint
            c).0
        × IsConfigured env app_name endpoint c (
            set_retry_config_provider_from_consul new_store decode parse glob env app_name endpoint
              c)
  unfolding set_retry_config_provider_from_consul
  set_from_consul-IsConfigured env app_name endpoint c h =
      elim (Result-cases (new_store env endpoint)) [
        | inr (x, bad) ↦ rw bad (h, inl (_, refl))
        | inl (store, es) ↦ elim (created-cases store app_name) [
          | inl (x, bad) ↦ rw (es, bad) (h, inl (_, refl))
          | inr (file, q, good, e, made) ↦
              let (single, used) = started-InUse glob app_name c q h in
              rw (es, made) (single, inr (store, file, q, refl, good, e, refl, used))
        ]
      ]

  -- Where no goroutine runs but the one that the next stop waits for, this stays so, and Setup with
  -- options stores a name that is given. Then it is done where no endpoint is given, or it fails
  -- and leaves the rest of the client as it was, or the configuration of the store is in use: the
  -- transport and the classifier share one provider, which has it, and the one goroutine that runs,
  -- where the interval allows one, watches this provider.
  pub setup_with_options-cases :
      (o : SetupOptions) (c : Client)
      → IsSingle c
      → IsSingle (setup_with_options new_store decode parse glob o c).0
        × (((is_empty o.consul ≡ true)
              × (setup_with_options new_store decode parse glob o c ≡ (named o.name c, none)))
            ⊎ IsConfigured o.env o.name o.consul
                (named o.name c)
                (setup_with_options new_store decode parse glob o c))
  unfolding setup_with_options
  setup_with_options-cases o c h =
      let (watchers, reload, next, interval) = named_keeps o.name c in
      let single : IsSingle (named o.name c) = watchers ∙ h ∙ ap watcher_list (sym reload) in
      elim (Bool-cases (is_empty o.consul)) [
        | inl e ↦ rw e (single, inl (refl, refl))
        | inr e ↦
            let (kept, set) =
              set_from_consul-IsConfigured o.env o.name o.consul (named o.name c) single in
            rw e (kept, inr set)
      ]
