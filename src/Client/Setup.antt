-- ===== src/Client/Setup.antt =====
-- retry_consul.go and http.go: the configuration of the shared client from a store, and the goroutine
-- that keeps it up to date.
use http_governance_client.Common.{
  ℕ, ◌+◌, Option, none, some, ℤ, pos, leb_ℤ, if◌then◌else◌, List, [], ◌∷◌, is_empty, Result, ok,
  err,
}
use http_governance_client.Common.Text.{Text}
use http_governance_client.Config.Match.{PathMatch}
use http_governance_client.Config.Patches.{ParseDuration}
use http_governance_client.Config.Provider.{ManagedRetryConfigProvider}
use http_governance_client.Config.Store.{
  RetryConfigStore, StoreError, DecodeYaml, ReloadError,
  new_managed_retry_config_provider_from_store, update_from_store,
}
use http_governance_client.Config.Store.Yaml.{
  YamlDecoder, YamlError, new_managed_retry_config_provider_from_yaml,
}
use http_governance_client.Client.{
  Client, Watcher, managed_at, store_at, set_retry_config_provider, set_caller_service_name,
}
use http_governance_client.Client.Args.{SetupOptions, parse_setup_args}

-- newRetryConfigStore on an environment and an endpoint.
abbrev pub NewStore : Type 0
NewStore = Text → Text → Result StoreError RetryConfigStore

pub data SetupError : Type 0 where
  no_store : StoreError → SetupError
  not_created : ReloadError → SetupError

-- NewManagedRetryConfigProvider and its like: a pointer to a new provider.
unfoldable pub allocate : ManagedRetryConfigProvider → Client → Client × ℕ
unfolding store_at
allocate p c = (record c { heap = store_at c.next p c.heap; next = c.next + 1 }, c.next)

unfoldable pub set_retry_config_auto_reload_interval : ℤ → Client → Client
set_retry_config_auto_reload_interval interval c = record c { auto_reload_interval = interval }

-- The goroutine that is cancelled and waited for is the newest one that runs.
abbrev pub without_newest : List Watcher → List Watcher
without_newest [] = []
without_newest (w ∷ ws) = ws

-- Cancels the watch and waits until its goroutine has returned.
stop_locked : Option Watcher → Client → Client
stop_locked none c = c
stop_locked (some w) c = record c { auto_reload = none; watchers = without_newest c.watchers }

unfoldable pub stop_retry_config_auto_reload : Client → Client
unfolding stop_locked
stop_retry_config_auto_reload c = stop_locked c.auto_reload c

run_watcher : Watcher → Client → Client
run_watcher w c = record c { auto_reload = some w; watchers = w ∷ c.watchers }

-- A provider and a store are there in every call.
unfoldable pub start_retry_config_auto_reload_from_store : ℕ → Text → Client → Client
unfolding stop_retry_config_auto_reload run_watcher
start_retry_config_auto_reload_from_store id app_name c =
    let stopped = stop_retry_config_auto_reload c in
    if leb_ℤ c.auto_reload_interval (pos 0)
    then stopped
    else run_watcher
        (record { provider = id; app_name = app_name; interval = c.auto_reload_interval }) stopped

-- What SetRetryConfigProvider makes of a provider that was just created.
unfoldable pub installed : ManagedRetryConfigProvider → Client → Client
unfolding allocate set_retry_config_provider
installed p c = let (d, id) = allocate p c in set_retry_config_provider (managed_at id) d

set_from_yaml : Client → Result YamlError ManagedRetryConfigProvider → Client × Option YamlError
unfolding installed
set_from_yaml c (err e) = (c, some e)
set_from_yaml c (ok p) = (installed p c, none)

unfoldable pub set_retry_config_provider_from_yaml :
    YamlDecoder → ParseDuration → PathMatch → Text → Client → Client × Option YamlError
unfolding set_from_yaml new_managed_retry_config_provider_from_yaml
set_retry_config_provider_from_yaml decoder parse glob contents c =
    set_from_yaml c (new_managed_retry_config_provider_from_yaml decoder parse glob contents)

-- `if options.Name != "" { SetCallerServiceName(options.Name) }`
unfoldable pub named : Text → Client → Client
unfolding set_caller_service_name
named name c = if is_empty name then c else set_caller_service_name name c

abbrev failure : Option ReloadError → Option SetupError
failure none = none
failure (some e) = some (not_created e)

module _ (new_store : NewStore) (decode : DecodeYaml) (parse : ParseDuration)
    (glob : PathMatch) where
  set_loaded :
      Text → Client → Result ReloadError ManagedRetryConfigProvider → Client × Option SetupError
  unfolding installed start_retry_config_auto_reload_from_store
  set_loaded app_name c (err e) = (c, some (not_created e))
  set_loaded app_name c (ok p) =
      (start_retry_config_auto_reload_from_store c.next app_name (installed p c), none)

  set_with_store : Text → Client → Result StoreError RetryConfigStore → Client × Option SetupError
  unfolding set_loaded new_managed_retry_config_provider_from_store
  set_with_store app_name c (err e) = (c, some (no_store e))
  set_with_store app_name c (ok store) =
      set_loaded app_name c
        (new_managed_retry_config_provider_from_store decode parse glob store app_name)

  unfoldable pub set_retry_config_provider_from_consul :
      Text → Text → Text → Client → Client × Option SetupError
  unfolding set_with_store
  set_retry_config_provider_from_consul env app_name endpoint c =
      set_with_store app_name c (new_store env endpoint)

  unfoldable pub setup_with_options : SetupOptions → Client → Client × Option SetupError
  unfolding named set_retry_config_provider_from_consul
  setup_with_options o c =
      if is_empty o.consul
      then (named o.name c, none)
      else set_retry_config_provider_from_consul o.env o.name o.consul (named o.name c)

  -- UpdateFromConsul on the provider of this number.
  updated_at : ℕ → Text → Client → Result StoreError RetryConfigStore → Client × Option SetupError
  unfolding store_at update_from_store
  updated_at id app_name c (err e) = (c, some (no_store e))
  updated_at id app_name c (ok store) =
      let (p, e) = update_from_store decode parse glob (c.heap id) store app_name in
      (record c { heap = store_at id p c.heap }, failure e)

  unfoldable pub update_from_consul : ℕ → Text → Text → Text → Client → Client × Option SetupError
  unfolding updated_at
  update_from_consul id env app_name endpoint c = updated_at id app_name c (new_store env endpoint)

  started_from : ℕ → Text → Client → Result StoreError RetryConfigStore → Client × Option SetupError
  unfolding start_retry_config_auto_reload_from_store
  started_from id app_name c (err e) = (c, some (no_store e))
  started_from id app_name c (ok store) =
      (start_retry_config_auto_reload_from_store id app_name c, none)

  unfoldable pub start_retry_config_auto_reload_from_consul :
      ℕ → Text → Text → Text → Client → Client × Option SetupError
  unfolding started_from
  start_retry_config_auto_reload_from_consul id env app_name endpoint c =
      started_from id app_name c (new_store env endpoint)

  -- os.Args[1:] is the argument.
  unfoldable pub setup : List Text → Client → Client × Option SetupError
  unfolding setup_with_options parse_setup_args
  setup args c = setup_with_options (parse_setup_args args) c
