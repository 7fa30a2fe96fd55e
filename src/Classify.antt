-- ===== src/Classify.antt =====
-- request_classification.go, and the class and baseline policy of retry.go. Requests are not nil, as
-- net/http promises; a resolver answers `none` where Go's answers false.
use http_governance_client.Common.{
  ◌≡◌, Bool, true, ◌||◌, Option, none, some, arith, pos, if◌then◌else◌, is_empty,
}
use http_governance_client.Common.Text.{Text, codes, text_eq}
use http_governance_client.Types.Policy.{
  RequestClass, RetryPolicy, RetryConfigScope, internal_read, internal_write, external_write,
  default_per_attempt_timeout, default_initial_backoff, default_max_backoff,
}
use http_governance_client.Types.Message.{Request}
use http_governance_client.Policy.Normal.{
  normalize_retry_policy, default_retry_status_set, IsNormal, normalize_retry_policy-IsNormal,
}

abbrev pub ClassResolver : Type 0
ClassResolver = Request → Option RequestClass

abbrev pub or_else {ℓ} : {A : Type ℓ} → Option A → Option A → Option A
or_else (some a) o = some a
or_else none o = o

-- `class != ""`
abbrev nonempty : Option RequestClass → Option RequestClass
nonempty none = none
nonempty (some c) = if is_empty c then none else some c

abbrev scope_class : Option RetryConfigScope → Option RequestClass
scope_class none = none
scope_class (some s) = some s.class

unfoldable pub explicit_request_class_from_context : Request → Option RequestClass
explicit_request_class_from_context req =
    or_else (nonempty req.context.request_class) (nonempty (scope_class req.context.scope))

-- A resolver that is registered, or none: also resolveRequestClassByExtension on the global one.
unfoldable pub ask : Option ClassResolver → ClassResolver
ask none req = none
ask (some resolver) req = resolver req

unfoldable pub is_read_method : Text → Bool
unfolding text_eq
is_read_method method =
    text_eq method (codes "GET")
    || text_eq method (codes "HEAD")
    || text_eq method (codes "OPTIONS")
    || text_eq method (codes "TRACE")

unfoldable pub class_by_method : Text → RequestClass
unfolding is_read_method
class_by_method method = if is_read_method method then internal_read else internal_write

abbrev pub class_or : Option RequestClass → RequestClass → RequestClass
class_or (some c) d = c
class_or none d = d

-- requestClassFromContextOrResolver; `extension` is the resolver that SetRequestClassResolver set.
unfoldable pub request_class_from_context_or_resolver :
    Option ClassResolver → Request → Option ClassResolver → RequestClass
unfolding explicit_request_class_from_context ask class_by_method
request_class_from_context_or_resolver extension req resolver =
    class_or
      (or_else (explicit_request_class_from_context req)
        (or_else (ask resolver req) (ask extension req)))
      (class_by_method req.method)

abbrev pub is_write : RequestClass → Bool
is_write class = text_eq class internal_write || text_eq class external_write

abbrev baseline : Bool → RetryPolicy
baseline write = record {
  max_retries = if write then pos 0 else pos 1;
  per_attempt_timeout = default_per_attempt_timeout;
  max_elapsed_time = pos 0;
  initial_backoff = default_initial_backoff;
  max_backoff = default_max_backoff;
  retry_on_statuses = some default_retry_status_set;
  retry_on_429 = true;
}

abbrev policy_or : Option RetryPolicy → RetryPolicy → RetryPolicy
policy_or (some p) d = p
policy_or none d = d

unfoldable pub default_retry_policy_resolver : Option ClassResolver → Request → RetryPolicy
unfolding request_class_from_context_or_resolver
default_retry_policy_resolver extension req = normalize_retry_policy (
    policy_or req.context.retry_policy
      (baseline (is_write (request_class_from_context_or_resolver extension req none))))

-- Without a policy in the context, a request is retried at most once, and not at all if its class is
-- a write; its policy is normal in any case.
pub default_retry_policy_resolver-retries :
    (extension : Option ClassResolver) (req : Request)
    → req.context.retry_policy ≡ none
    → ((default_retry_policy_resolver extension req).max_retries ≡ (
        if is_write (request_class_from_context_or_resolver extension req none)
        then pos 0
        else pos 1))
      × IsNormal (default_retry_policy_resolver extension req)
unfolding default_retry_policy_resolver normalize_retry_policy
default_retry_policy_resolver-retries extension req e = (
  ground arith,
  normalize_retry_policy-IsNormal (
      policy_or req.context.retry_policy
        (baseline (is_write (request_class_from_context_or_resolver extension req none)))),
)
