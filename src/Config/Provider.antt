-- ===== src/Config/Provider.antt =====
-- retry_config_file.go: what a ManagedRetryConfigProvider holds, and how it answers for a request. The
-- read lock makes one answer come from one configuration.
use http_governance_client.Common.{
  ℕ, Bool, not, ◌&&◌, ◌||◌, Option, none, some, ℤ, if◌then◌else◌, List, [], ◌∷◌, is_empty,
}
use http_governance_client.Common.Text.{Text, to_upper}
use http_governance_client.Types.Policy.{
  RequestClass, RetryConfigScope, RetryPolicy, RetryPolicyPatch, internal_read, internal_write,
  external_read, external_write,
}
use http_governance_client.Types.Message.{Url, Request}
use http_governance_client.Policy.Patch.{apply, clone_retry_policy}
use http_governance_client.Budget.Config.{RetryBudgetConfig, disabled}
use http_governance_client.Classify.{
  is_read_method, explicit_request_class_from_context, class_by_method, class_or, or_else,
}
use http_governance_client.Config.Match.{
  PathMatch, CompiledRetryConfigMatch, match, match_host_patterns,
}
use http_governance_client.Config.Infer.{
  CompiledDownstream, CompiledOperationRule, infer_downstream, infer_operation,
}

pub record CompiledRetryConfigRule : Type 0 where
  pub name : Text
  pub priority : ℤ
  pub match : CompiledRetryConfigMatch
  pub patch : RetryPolicyPatch
  pub specificity : ℕ

-- The map of class patches, by class.
abbrev pub ClassPatches : Type 0
ClassPatches = RequestClass → Option RetryPolicyPatch

pub record ManagedRetryConfigProvider : Type 0 where
  pub class_patches : ClassPatches
  pub rules : List CompiledRetryConfigRule
  pub internal_hosts : List Text
  pub downstreams : List CompiledDownstream
  pub operations : List CompiledOperationRule
  pub retry_budget : RetryBudgetConfig

unfoldable pub new_managed_retry_config_provider : ManagedRetryConfigProvider
new_managed_retry_config_provider = record {
  class_patches = λ _. none;
  rules = [];
  internal_hosts = [];
  downstreams = [];
  operations = [];
  retry_budget = disabled;
}

abbrev pub apply_optional : Option RetryPolicyPatch → RetryPolicy → RetryPolicy
apply_optional none policy = policy
apply_optional (some patch) policy = apply patch policy

-- The first rule whose match accepts the scope.
unfoldable pub first_rule :
    PathMatch → List CompiledRetryConfigRule → RetryConfigScope → Option CompiledRetryConfigRule
first_rule glob [] scope = none
first_rule glob (r ∷ rs) scope =
    let rest = first_rule glob rs scope in if match glob r.match scope then some r else rest

abbrev pub patch_of : Option CompiledRetryConfigRule → Option RetryPolicyPatch
patch_of none = none
patch_of (some r) = some r.patch

unfoldable pub resolve_retry_policy :
    PathMatch → ManagedRetryConfigProvider → RetryConfigScope → RetryPolicy → RetryPolicy
unfolding first_rule
resolve_retry_policy glob p scope base =
    apply_optional (patch_of (first_rule glob p.rules scope))
      (apply_optional (p.class_patches scope.class) (clone_retry_policy base))

class_by_host : Bool → Text → RequestClass
class_by_host internal method =
    if internal
    then if is_read_method method then internal_read else internal_write
    else if is_read_method method
    then external_read
    else external_write

class_of_url : PathMatch → List Text → Text → Option Url → Option RequestClass
unfolding class_by_host
class_of_url glob hosts method none = none
class_of_url glob hosts method (some url) = some (
    class_by_host
      (not (is_empty hosts)
        && (match_host_patterns glob hosts url.hostname || match_host_patterns glob hosts url.host))
      method)

unfoldable pub resolve_request_class :
    PathMatch → ManagedRetryConfigProvider → Request → Option RequestClass
unfolding class_of_url
resolve_request_class glob p req = class_of_url glob p.internal_hosts req.method req.url

-- `if value == "" { value = inferred }`
abbrev pub or_inferred : Text → Text → Text
or_inferred value inferred = if is_empty value then inferred else value

-- `caller` is CallerServiceName(). The operation is inferred from the downstream just filled in.
unfoldable pub resolve_retry_config_scope :
    PathMatch → Text → ManagedRetryConfigProvider → Request → RetryConfigScope → RetryConfigScope
resolve_retry_config_scope glob caller p req scope =
    let placed = record scope {
      caller = or_inferred scope.caller caller;
      downstream = or_inferred scope.downstream (infer_downstream glob req p.downstreams);
    } in
    record placed {
      operation = or_inferred scope.operation (infer_operation glob req placed p.operations);
    }

abbrev host_of : Option Url → Text
host_of none = []
host_of (some url) = url.host

abbrev path_of : Option Url → Text
path_of none = []
path_of (some url) = url.path

-- `if value != "" { field = value }` for each field of the scope in the context.
abbrev override_scope : Option RetryConfigScope → RetryConfigScope → RetryConfigScope
override_scope none scope = scope
override_scope (some value) scope = record {
  caller = or_inferred value.caller scope.caller;
  downstream = or_inferred value.downstream scope.downstream;
  operation = or_inferred value.operation scope.operation;
  method = or_inferred (to_upper value.method) scope.method;
  host = or_inferred value.host scope.host;
  path = or_inferred value.path scope.path;
  class = or_inferred value.class scope.class;
}

-- dynamic_config.go
unfoldable pub retry_config_scope_from_request : Request → RequestClass → RetryConfigScope
retry_config_scope_from_request req class = override_scope req.context.scope (record {
  caller = [];
  downstream = [];
  operation = [];
  method = to_upper req.method;
  host = host_of req.url;
  path = path_of req.url;
  class = class;
})

unfoldable pub resolve_request_config :
    PathMatch
    → Text
    → ManagedRetryConfigProvider
    → Request
    → RetryPolicy
    → RetryConfigScope × RetryPolicy × RetryBudgetConfig
unfolding resolve_retry_config_scope
resolve_request_config glob caller p req base =
    let class =
      class_or
        (or_else (explicit_request_class_from_context req) (resolve_request_class glob p req))
        (class_by_method req.method) in
    let scope =
      resolve_retry_config_scope glob caller p req (retry_config_scope_from_request req class) in
    (scope, resolve_retry_policy glob p scope base, p.retry_budget)
