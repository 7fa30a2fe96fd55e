-- ===== src/Client.antt =====
-- http.go, request_classification.go and service_identity.go: the shared client and the package
-- variables that its helpers set. A pointer to a managed provider is its number in the heap, so that
-- what the transport, the classifier and the watch share is one provider.
use http_governance_client.Common.{
  ℕ, zero, suc, ◌+◌, ◌-◌, ◌*◌, ◌/◌, ◌%◌, ◌^◌, ◌≤◌, ◌<◌, ◌≡◌, ◌≢◌, ◌↔◌, refl, sym, ap, ◌∙◌, Bool,
  true, false, not, ◌&&◌, ◌||◌, Option, none, some, arith, ℤ, pos, negsuc, pos_part, neg_part, ◌<ℤ◌,
  ◌≤ℤ◌, ◌+ℤ◌, ◌-ℤ◌, ◌*ℤ◌, leb_ℤ, ltb_ℤ, eqb_ℤ, eqb_ℤ_iff, IsInt64, max_int64, min_int64, wrap64,
  wrap64_eq, add64, sub64, mul64, add64_eq, sub64_eq, mul64_eq, sub_saturated, +ℤ_parts, -ℤ_parts,
  eq_of_parts, if◌then◌else◌, ◌⊎◌, inl, inr, List, [], ◌∷◌, ◌++◌, map, any, All, length, is_empty,
  Bool-cases, Option-cases, ltb, leb, ◌==◌, Result, ok, err, ◌>>=◌, ◌>>◌, fail_if, dec_lt,
  Result-cases, value_or, IsOk, IsOk-first,
}
use http_governance_client.Common.Text.{
  Text, codes, text_eq, text_eq_iff, text_eq_refl, text_eq_sound, trim_space, trim_space_idem,
  to_lower, to_upper, to_upper_idem, to_lower_idem, equal_fold,
}
use http_governance_client.Common.Number.{
  parse_int, format_int, parse_int-format_int, trim_space-format_int, is_empty-format_int,
}
pub mod Args
pub mod Setup
pub mod Shared
pub mod Sending
use http_governance_client.Common.Text.{contains}
use http_governance_client.Types.Policy.{
  RetryPolicy, RequestClass, internal_read, internal_write, external_read, external_write,
}
use http_governance_client.Types.Message.{Request, Url, Context}
use http_governance_client.Classify.{ClassResolver, default_retry_policy_resolver}
use http_governance_client.Config.Match.{PathMatch}
use http_governance_client.Config.Provider.{ManagedRetryConfigProvider, resolve_request_class}
use http_governance_client.Transport.Resolve.{
  ConfigProvider, absent, managed, custom, CustomProvider, Globals,
}
use http_governance_client.Transport.RoundTrip.{Transport}

-- A retry configuration provider: nil, a managed one or another one.
pub data ProviderRef : Type 0 where
  no_provider : ProviderRef
  managed_at : ℕ → ProviderRef
  custom_provider : CustomProvider → ProviderRef

-- The resolver of SetRequestClassResolver.
pub data ResolverRef : Type 0 where
  no_resolver : ResolverRef
  provider_at : ℕ → ResolverRef
  other_resolver : ClassResolver → ResolverRef

abbrev pub Heap : Type 0
Heap = ℕ → ManagedRetryConfigProvider

unfoldable pub store_at : ℕ → ManagedRetryConfigProvider → Heap → Heap
store_at id p heap other = if id == other then p else heap other

-- The fields of the shared Transport.
pub record ClientTransport : Type 0 where
  pub skipper : Option (Request → Bool)
  pub resolve_policy : Option (Request → RetryPolicy)
  pub config_provider : ProviderRef
  pub observer : Option Bool  -- whether it is a RetryResultObserver too
  pub result_observer : Bool  -- whether there is one

-- A goroutine that watches the configuration of an application.
pub record Watcher : Type 0 where
  pub provider : ℕ
  pub app_name : Text
  pub interval : ℤ

pub record Client : Type 0 where
  pub heap : Heap
  pub next : ℕ  -- the number of the next provider
  pub transport : Option ClientTransport  -- none where cli.Transport is not a *Transport
  pub class_resolver : ResolverRef
  pub caller_service_name : Text
  pub body_log_level : ℤ
  pub body_log_limit : ℤ
  pub auto_reload_interval : ℤ
  pub auto_reload : Option Watcher  -- what retryConfigAutoReloadCancel cancels
  pub watchers : List Watcher  -- the goroutines that run

-- What a transport takes of ClientOptions; the rest belongs to http.Client.
pub record ClientOptions : Type 0 where
  pub skipper : Option (Request → Bool)
  pub resolve_policy : Option (Request → RetryPolicy)
  pub config_provider : ProviderRef
  pub observer : Option Bool
  pub result_observer : Bool

abbrev pub no_client_options : ClientOptions
no_client_options = record {
  skipper = none;
  resolve_policy = none;
  config_provider = no_provider;
  observer = none;
  result_observer = false;
}

-- No resolver stands for DefaultRetryPolicyResolver, which the code puts in its place here, and
-- RoundTrip where a setter has removed it.
unfoldable pub new_transport_with_options : ClientOptions → ClientTransport
new_transport_with_options o = record {
  skipper = o.skipper;
  resolve_policy = o.resolve_policy;
  config_provider = o.config_provider;
  observer = o.observer;
  result_observer = o.result_observer;
}

unfoldable pub new_transport : ClientTransport
unfolding new_transport_with_options
new_transport = new_transport_with_options no_client_options

abbrev transport_or_new : Option ClientTransport → ClientTransport
transport_or_new none = new_transport
transport_or_new (some t) = t

unfoldable pub mutate_client_transport : (ClientTransport → ClientTransport) → Client → Client
unfolding new_transport
mutate_client_transport apply c = record c {
  transport = some (apply (transport_or_new c.transport));
}

unfoldable pub set_skipper : Option (Request → Bool) → Client → Client
unfolding mutate_client_transport
set_skipper skipper c = mutate_client_transport (λ t. record t { skipper = skipper }) c

abbrev path_contains : Text → Option Url → Bool
path_contains p none = false
path_contains p (some url) = contains url.path p

-- A nil request does not occur: the transport has a request.
unfoldable pub healthcheck_skipper : Request → Bool
unfolding contains
healthcheck_skipper req = path_contains (codes "/healthcheck") req.url

unfoldable pub set_healthcheck_skipper : Client → Client
unfolding set_skipper healthcheck_skipper
set_healthcheck_skipper c = set_skipper (some healthcheck_skipper) c

unfoldable pub set_retry_policy_resolver : Option (Request → RetryPolicy) → Client → Client
unfolding mutate_client_transport
set_retry_policy_resolver resolver c =
    mutate_client_transport (λ t. record t { resolve_policy = resolver }) c

unfoldable pub set_retry_observer : Option Bool → Client → Client
unfolding mutate_client_transport
set_retry_observer observer c = mutate_client_transport (λ t. record t { observer = observer }) c

unfoldable pub set_retry_result_observer : Bool → Client → Client
unfolding mutate_client_transport
set_retry_result_observer observer c =
    mutate_client_transport (λ t. record t { result_observer = observer }) c

unfoldable pub set_body_log_level : ℤ → Client → Client
set_body_log_level level c = record c { body_log_level = level }

unfoldable pub set_body_log_limit : ℤ → Client → Result Text Client
set_body_log_limit limit c =
    if leb_ℤ limit (pos 0)
    then err (codes "body log limit must be greater than zero")
    else ok (record c { body_log_limit = limit })

unfoldable pub set_request_class_resolver : ResolverRef → Client → Client
set_request_class_resolver r c = record c { class_resolver = r }

unfoldable pub clear_request_class_resolver : Client → Client
unfolding set_request_class_resolver
clear_request_class_resolver c = set_request_class_resolver no_resolver c

abbrev custom_resolver : Option ClassResolver → ResolverRef
custom_resolver none = no_resolver
custom_resolver (some r) = other_resolver r

-- `provider.(RequestClassResolver)`
abbrev pub resolver_of : ProviderRef → ResolverRef
resolver_of no_provider = no_resolver
resolver_of (managed_at id) = provider_at id
resolver_of (custom_provider p) = custom_resolver p.class_resolver

unfoldable pub set_retry_config_provider : ProviderRef → Client → Client
unfolding mutate_client_transport set_request_class_resolver
set_retry_config_provider p c =
    set_request_class_resolver (resolver_of p)
      (mutate_client_transport (λ t. record t { config_provider = p }) c)

unfoldable pub set_caller_service_name : Text → Client → Client
unfolding trim_space
set_caller_service_name name c = record c { caller_service_name = trim_space name }

-- WithRequestClass and the four helpers on a context.
unfoldable pub with_internal_read : Context → Context
with_internal_read ctx = record ctx { request_class = some internal_read }

unfoldable pub with_internal_write : Context → Context
with_internal_write ctx = record ctx { request_class = some internal_write }

unfoldable pub with_external_read : Context → Context
with_external_read ctx = record ctx { request_class = some external_read }

unfoldable pub with_external_write : Context → Context
with_external_write ctx = record ctx { request_class = some external_write }

-- What the references mean now.
unfoldable pub provider_of : Heap → ProviderRef → ConfigProvider
provider_of heap no_provider = absent
provider_of heap (managed_at id) = managed (heap id)
provider_of heap (custom_provider p) = custom p

unfoldable pub extension_of : PathMatch → Heap → ResolverRef → Option ClassResolver
extension_of glob heap no_resolver = none
extension_of glob heap (provider_at id) = some (resolve_request_class glob (heap id))
extension_of glob heap (other_resolver r) = some r

unfoldable pub globals_of : PathMatch → Client → Globals
unfolding extension_of
globals_of glob c = record {
  extension = extension_of glob c.heap c.class_resolver;
  caller_service_name = c.caller_service_name;
}

abbrev observes : Option Bool → Bool
observes none = false
observes (some both) = true

abbrev observes_results : Option Bool → Bool
observes_results none = false
observes_results (some both) = both

-- The transport that a request of the client meets.
unfoldable pub transport_of : Heap → ClientTransport → Transport
unfolding provider_of
transport_of heap t = record {
  skipper = t.skipper;
  resolve_policy = t.resolve_policy;
  config_provider = provider_of heap t.config_provider;
  observed = observes t.observer;
  result_observed = t.result_observer || observes_results t.observer;
}
