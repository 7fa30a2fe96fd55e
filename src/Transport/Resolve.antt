-- ===== src/Transport/Resolve.antt =====
-- transport.go: the class, scope, policy and budget of a request, by the kind of provider.
use http_governance_client.Common.{◌≢◌, refl, Option, none, some, []}
use http_governance_client.Common.Text.{Text}
use http_governance_client.Types.Policy.{RequestClass, RetryPolicy, RetryConfigScope}
use http_governance_client.Types.Message.{Request, Context}
use http_governance_client.Policy.Normal.{
  normalize_retry_policy, normalize_retry_policy-IsNormal, IsNormal,
}
use http_governance_client.Budget.Config.{RetryBudgetConfig, disabled}
use http_governance_client.Classify.{ClassResolver, request_class_from_context_or_resolver}
use http_governance_client.Config.Match.{PathMatch}
use http_governance_client.Config.Infer.{infer_downstream, infer_operation}
use http_governance_client.Config.Provider.{
  ManagedRetryConfigProvider, resolve_request_config, retry_config_scope_from_request, or_inferred,
}

-- A RetryConfigProvider that is not managed, with the optional interfaces that it implements.
pub record CustomProvider : Type 0 where
  pub resolve_retry_policy : Context → RetryConfigScope → RetryPolicy → RetryPolicy
  pub class_resolver : Option ClassResolver
  pub scope_resolver : Option (Request → RetryConfigScope → RetryConfigScope)

pub data ConfigProvider : Type 0 where
  absent : ConfigProvider
  managed : ManagedRetryConfigProvider → ConfigProvider
  custom : CustomProvider → ConfigProvider

-- The package variables: requestClassResolver and callerServiceName.
pub record Globals : Type 0 where
  pub extension : Option ClassResolver
  pub caller_service_name : Text

pub record Resolved : Type 0 where
  pub class : RequestClass
  pub scope : RetryConfigScope
  pub policy : RetryPolicy
  pub budget : RetryBudgetConfig

-- WithRequestClass
with_request_class : Request → RequestClass → Request
with_request_class req class = record req {
  context = record req.context { request_class = some class };
}

-- What a scope lacks when the provider has filled it.
unfoldable pub complete_scope : PathMatch → Globals → Request → RetryConfigScope → RetryConfigScope
complete_scope glob g req scope =
    let placed = record scope {
      caller = or_inferred scope.caller g.caller_service_name;
      downstream = or_inferred scope.downstream (infer_downstream glob req []);
    } in
    record placed { operation = or_inferred scope.operation (infer_operation glob req placed []) }

abbrev ask_scope :
    Option (Request → RetryConfigScope → RetryConfigScope)
    → Request
    → RetryConfigScope
    → RetryConfigScope
ask_scope none req scope = scope
ask_scope (some f) req scope = f req scope

resolve_managed :
    PathMatch → Globals → (Request → RetryPolicy) → ManagedRetryConfigProvider → Request → Resolved
unfolding complete_scope
resolve_managed glob g resolver m req =
    let (scope, policy, budget) =
      resolve_request_config glob g.caller_service_name m req (resolver req) in
    record {
      class = scope.class;
      scope = complete_scope glob g req scope;
      policy = normalize_retry_policy policy;
      budget = budget;
    }

resolve_custom : PathMatch → Globals → (Request → RetryPolicy) → CustomProvider → Request → Resolved
unfolding with_request_class complete_scope
resolve_custom glob g resolver p req =
    let class = request_class_from_context_or_resolver g.extension req p.class_resolver in
    let scope =
      complete_scope glob g req
        (ask_scope p.scope_resolver req (retry_config_scope_from_request req class)) in
    let policy = resolver (with_request_class req class) in
    record {
      class = class;
      scope = scope;
      policy = normalize_retry_policy (p.resolve_retry_policy req.context scope policy);
      budget = disabled;
    }

-- Without a provider the policy of the resolver stands as it is.
resolve_absent : PathMatch → Globals → (Request → RetryPolicy) → Request → Resolved
unfolding with_request_class complete_scope
resolve_absent glob g resolver req =
    let class = request_class_from_context_or_resolver g.extension req none in
    record {
      class = class;
      scope = complete_scope glob g req (retry_config_scope_from_request req class);
      policy = resolver (with_request_class req class);
      budget = disabled;
    }

unfoldable pub resolve :
    PathMatch → Globals → (Request → RetryPolicy) → ConfigProvider → Request → Resolved
unfolding resolve_managed resolve_custom resolve_absent
resolve glob g resolver absent req = resolve_absent glob g resolver req
resolve glob g resolver (managed m) req = resolve_managed glob g resolver m req
resolve glob g resolver (custom p) req = resolve_custom glob g resolver p req

-- With a provider, of either kind, the policy that governs a request is normal.
pub resolve-IsNormal :
    (glob : PathMatch) (g : Globals) (resolver : Request → RetryPolicy) (p : ConfigProvider)
    (req : Request)
    → p ≢ absent
    → IsNormal (resolve glob g resolver p req).policy
unfolding resolve
resolve-IsNormal glob g resolver absent req h = absurd (h refl)
resolve-IsNormal glob g resolver (managed m) req h = normalize_retry_policy-IsNormal _
resolve-IsNormal glob g resolver (custom p) req h = normalize_retry_policy-IsNormal _
