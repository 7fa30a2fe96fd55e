-- ===== src/Tests/Policy.antt =====
-- retry.go, retry_governance.go, request_class.go and the matching of dynamic_config.go on concrete values.
use http_governance_client.Common.{
  ℕ, ◌*◌, ◌^◌, ◌≤◌, ◌≡◌, ◌≢◌, ◌↔◌, refl, true, false, ◌||◌, none, some, arith, ℤ, pos, ◌<ℤ◌, ◌≤ℤ◌,
  ◌+ℤ◌, if◌then◌else◌, inr, [], ◌∷◌,
}
use http_governance_client.Common.Text.{codes, text_eq, trim_space}
use http_governance_client.Common.Number.{parse_int, format_int}
use http_governance_client.Types.Policy.{
  RetryPolicy, RetryPolicyPatch, RetryConfigScope, internal_read, second,
}
use http_governance_client.Types.Message.{
  Header, Url, Context, Request, Response, get, set, header_request_deadline, header_no_more_retry,
}
use http_governance_client.Policy.Normal.{
  IsNormal, normalize_retry_policy, normalize_retry_policy-fixes,
}
use http_governance_client.Policy.Patch.{IsPatch, apply, apply-exact}
use http_governance_client.Policy.Backoff.{
  Chance, IsFair, backoff, min_ℕ, backoff-bounds, parse_retry_after,
}
use http_governance_client.Policy.RetryAfter.{parse_retry_after-seconds}
use http_governance_client.Policy.Deadline.{
  parse_request_deadline, format_request_deadline, elapsed_deadline, resolve_overall_deadline,
  context_with_retry_constraints, parse_bool_header,
}
use http_governance_client.Policy.Deadline.Millis.{parse_request_deadline-format_request_deadline}
use http_governance_client.Policy.Deadline.Earliest.{
  IsEarliest, resolve_overall_deadline-IsEarliest, context_with_retry_constraints-tightens,
}
use http_governance_client.Policy.Reason.{
  request_result_reason, is_final_failure, request_result_reason-success,
}
use http_governance_client.Classify.{
  default_retry_policy_resolver, request_class_from_context_or_resolver, is_write,
  default_retry_policy_resolver-retries,
}
use http_governance_client.Config.Match.{
  PathMatch, CompiledRetryConfigMatch, match, specificity, specificity-zero,
}

abbrev pub empty_header : Header
empty_header name = []

abbrev plain_context : Context
plain_context = record {
  no_more_retry = false;
  request_class = none;
  retry_policy = none;
  scope = none;
  deadline = some (pos 9_000_000_000);
}

abbrev pub orders_url : Url
orders_url = record {
  host = codes "shop:80";
  hostname = codes "shop";
  path = codes "/orders/7";
  printed = codes "http://shop:80/orders/7";
}

-- GET http://shop:80/orders/7 under a deadline, with one in the header that is earlier.
abbrev pub get_orders : Request
get_orders = record {
  method = codes "GET";
  url = some orders_url;
  header = set empty_header header_request_deadline (codes "7000");
  context = plain_context;
  has_body = false;
  get_body = none;
  content_length = pos 0;
}

abbrev pub thrice : RetryPolicy
thrice = record {
  max_retries = pos 3;
  per_attempt_timeout = pos second;
  max_elapsed_time = pos 0;
  initial_backoff = pos 100;
  max_backoff = pos 500;
  retry_on_statuses = some (pos 503 ∷ []);
  retry_on_429 = false;
}

pub thrice-IsNormal : IsNormal thrice
thrice-IsNormal = record {
  retries = omega arith;
  timeout = omega arith;
  initial = omega arith;
  cap = omega arith;
  statuses = ground arith;
}

abbrev pub no_jitter : Chance
no_jitter = record { now = pos 0; parse_time = λ t. none; int63n = λ n. pos 0 }

no_jitter-IsFair : IsFair no_jitter
no_jitter-IsFair n h = (omega arith, h)

backoff-bounds_example :
    (d : ℕ) × (backoff no_jitter thrice 2 ≡ pos d)
    × (min_ℕ (2 ^ 2 * 100) 500 ≤ d)
    × (d ≤ 2 * min_ℕ (2 ^ 2 * 100) 500)
    × (d ≤ 500)
backoff-bounds_example =
    backoff-bounds no_jitter thrice 2 100 500 no_jitter-IsFair refl refl (omega arith) (omega arith)
      (omega arith) (omega arith)

parse_retry_after-seconds_example :
    parse_retry_after no_jitter (codes "120") ≡ some (pos 120_000_000_000)
unfolding parse_retry_after parse_int format_int trim_space
parse_retry_after-seconds_example = parse_retry_after-seconds no_jitter 120 (omega arith)

IsEarliest_example : IsEarliest (resolve_overall_deadline (pos 0) get_orders (pos 8_000_000_000)) (
    elapsed_deadline (pos 0) (pos 8_000_000_000)
    ∷ some (pos 9_000_000_000)
    ∷ parse_request_deadline (codes "7000")
    ∷ [])
unfolding text_eq
IsEarliest_example = resolve_overall_deadline-IsEarliest (pos 0) get_orders (pos 8_000_000_000)

abbrev pub strict : Header
strict = set empty_header header_no_more_retry (codes " TRUE")

tightens_example :
    ((context_with_retry_constraints plain_context strict).no_more_retry
      ≡ (parse_bool_header (get strict header_no_more_retry) || false))
    × IsEarliest (context_with_retry_constraints plain_context strict).deadline (
        parse_request_deadline (get strict header_request_deadline) ∷ some (pos 9_000_000_000) ∷ [])
tightens_example = context_with_retry_constraints-tightens plain_context strict

deadline_example :
    (d' : ℤ) × (parse_request_deadline (format_request_deadline (pos 1_234_567)) ≡ some d')
    × (d' ≤ℤ pos 1_234_567)
    × (pos 1_234_567 <ℤ d' +ℤ pos 1_000_000)
deadline_example = parse_request_deadline-format_request_deadline (pos 1_234_567) (omega arith)

abbrev patch : RetryPolicyPatch
patch = record {
  disable_retry = some true;
  max_retries = none;
  per_attempt_timeout = some (pos 7);
  max_elapsed_time = none;
  initial_backoff = none;
  max_backoff = none;
  retry_on_statuses = none;
  retry_on_429 = some true;
}

patch-IsPatch : IsPatch patch
patch-IsPatch = record {
  retries = tt;
  timeout = omega arith;
  elapsed = tt;
  initial = tt;
  cap = tt;
  exclusive = inr refl;
}

apply_example :
    apply patch thrice
    ≡ record thrice { max_retries = pos 0; per_attempt_timeout = pos 7; retry_on_429 = true }
apply_example = apply-exact patch thrice patch-IsPatch thrice-IsNormal

fixes_example : normalize_retry_policy thrice ≡ thrice
fixes_example = normalize_retry_policy-fixes thrice thrice-IsNormal

abbrev teapot : Response
teapot = record { status_code = pos 418; header = empty_header; has_body = true }

reason_example :
    (request_result_reason (some teapot) none ≡ codes "success")
    ↔ ((is_final_failure (some teapot) none ≡ false) × (some teapot ≢ none))
reason_example = request_result_reason-success (some teapot) none

resolver_example :
    ((default_retry_policy_resolver none get_orders).max_retries ≡ (
      if is_write (request_class_from_context_or_resolver none get_orders none)
      then pos 0
      else pos 1))
    × IsNormal (default_retry_policy_resolver none get_orders)
resolver_example = default_retry_policy_resolver-retries none get_orders refl

abbrev pub same_text : PathMatch
same_text pattern_text text = some (text_eq pattern_text text)

abbrev everything : CompiledRetryConfigMatch
everything = record {
  callers = [];
  downstreams = [];
  operations = [];
  methods = [];
  hosts = [];
  paths = [];
  classes = [];
}

abbrev pub read_orders : RetryConfigScope
read_orders = record {
  caller = codes "web";
  downstream = codes "orders";
  operation = codes "get";
  method = codes "GET";
  host = codes "shop";
  path = codes "/orders/7";
  class = internal_read;
}

specificity_example : match same_text everything read_orders ≡ true
unfolding specificity
specificity_example = specificity-zero same_text everything read_orders refl
