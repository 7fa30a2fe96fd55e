-- ===== src/Transport/RoundTrip.antt =====
-- transport.go: RoundTrip round its loop, and the event that reports the outcome.
use http_governance_client.Common.{
  ◌∷◌, ℕ, ◌-◌, Bool, true, false, not, ◌&&◌, ◌||◌, Option, none, some, ℤ, pos, ltb_ℤ, eqb_ℤ,
  if◌then◌else◌, List, ltb,
}
use http_governance_client.Common.Text.{Text, codes}
use http_governance_client.Types.Policy.{RequestClass, RetryPolicy, RetryConfigScope}
use http_governance_client.Types.Message.{
  GoError, Request, Response, Url, get, set, del, header_retry_attempt, header_no_more_retry,
  header_request_deadline, header_retry_reason,
}
use http_governance_client.Policy.Deadline.{
  earlier, format_bool, format_request_deadline, parse_bool_header, resolve_overall_deadline,
  no_more_retry_from_context,
}
use http_governance_client.Policy.Reason.{
  request_result_reason, is_final_failure, is_timeout_error, status_code, error_string,
}
use http_governance_client.Budget.Ops.{Entries, record_success}
use http_governance_client.Classify.{default_retry_policy_resolver}
use http_governance_client.Config.Match.{PathMatch}
use http_governance_client.Transport.Retryable.{is_retryable_request}
use http_governance_client.Transport.Resolve.{ConfigProvider, Globals, Resolved, resolve}
use http_governance_client.Transport.Loop.{sends, settle, Effect, Moment, Fixed, Progress, run}

pub record Transport : Type 0 where
  pub skipper : Option (Request → Bool)
  pub resolve_policy : Option (Request → RetryPolicy)
  pub config_provider : ConfigProvider
  pub observed : Bool  -- Observer is set
  pub result_observed : Bool  -- ResultObserver is set, or Observer is a RetryResultObserver

pub record RequestResultEvent : Type 0 where
  pub method : Text
  pub url : Text
  pub caller : Text
  pub downstream : Text
  pub operation : Text
  pub class : RequestClass
  pub attempt_count : ℕ
  pub retry_count : ℕ
  pub max_retries : ℤ
  pub status_code : ℤ
  pub final_reason : Text
  pub final_error : Text
  pub retry_suppressed_reason : Text
  pub retried : Bool
  pub retry_succeeded : Bool
  pub final_failed : Bool
  pub timed_out : Bool
  pub duration : ℤ

abbrev is_timeout_status : Option Response → Bool
is_timeout_status none = false
is_timeout_status (some resp) = eqb_ℤ resp.status_code (pos 408) || eqb_ℤ resp.status_code (pos 504)

abbrev url_or : Option Url → Text → Text
url_or none path = path
url_or (some url) path = url.printed

-- observeRequestResult: `totalAttempts - 1`, but not below 0, is the subtraction of ℕ.
unfoldable pub request_result_event :
    Request
    → RetryConfigScope
    → RequestClass
    → ℤ
    → ℕ
    → ℤ
    → Option Response
    → Option GoError
    → Text
    → RequestResultEvent
request_result_event req scope class max_retries total_attempts duration resp error suppressed =
    let retry_count = total_attempts - 1 in
    let final_failed = is_final_failure resp error in
    record {
      method = scope.method;
      url = url_or req.url scope.path;
      caller = scope.caller;
      downstream = scope.downstream;
      operation = scope.operation;
      class = class;
      attempt_count = total_attempts;
      retry_count = retry_count;
      max_retries = max_retries;
      status_code = status_code resp;
      final_reason = request_result_reason resp error;
      final_error = error_string error;
      retry_suppressed_reason = suppressed;
      retried = ltb 0 retry_count;
      retry_succeeded = ltb 0 retry_count && not final_failed;
      final_failed = final_failed;
      timed_out = is_timeout_error error || is_timeout_status resp;
      duration = duration;
    }

-- What the outside answers round the loop.
pub record Outside : Type 0 where
  pub resolved_at : ℤ  -- time.Now in resolveOverallDeadline
  pub moments : ℕ → Moment
  pub duration : ℤ
  pub before_success : Entries → Entries  -- what other requests did to the balances
  pub round_trip : Request → Option Response × Option GoError  -- for a request that is skipped

pub record Outcome : Type 0 where
  pub response : Option Response
  pub error : Option GoError
  pub entries : Entries
  pub trace : List Effect
  pub event : Option RequestResultEvent

-- The caller forbids retries.
abbrev pub original_no_more_retry : Request → Bool
original_no_more_retry req =
    no_more_retry_from_context req.context
    || parse_bool_header (get req.header header_no_more_retry)

abbrev is_none {ℓ} : {A : Type ℓ} → Option A → Bool
is_none none = true
is_none (some a) = false

-- Retries are off where the caller forbids them or the body cannot be sent again.
unfoldable pub effective_max_retries : Request → ℤ → ℤ
effective_max_retries req retries =
    let allowed =
      if original_no_more_retry req || not (is_retryable_request req) then pos 0 else retries in
    if req.has_body && is_none req.get_body && ltb_ℤ (pos 0) allowed then pos 0 else allowed

abbrev under_deadline : Request → Option ℤ → Request
under_deadline req none = req
under_deadline req (some d) = record req {
  context = record req.context { deadline = earlier req.context.deadline (some d) };
}

unfoldable pub fixed_of : Transport → Resolved → ℤ → Request → Fixed
unfolding effective_max_retries
fixed_of t r now req =
    let deadline = resolve_overall_deadline now req r.policy.max_elapsed_time in
    record {
      request = under_deadline req deadline;
      policy = r.policy;
      class = r.class;
      downstream = r.scope.downstream;
      budget = r.budget;
      deadline = deadline;
      original_no_more_retry = original_no_more_retry req;
      max_retries = effective_max_retries req r.policy.max_retries;
      observed = t.observed;
    }

abbrev pub is_success : Option Response → Option GoError → Bool
is_success none error = false
is_success (some resp) (some e) = false
is_success (some resp) none = ltb_ℤ resp.status_code (pos 400)

-- `if finalResp != nil || finalErr != nil { return finalResp, finalErr }; return lastResp, lastErr`
abbrev pub answer : Progress → Option Response × Option GoError
answer p =
    if is_none p.final_resp && is_none p.final_error
    then (p.last_resp, p.last_error)
    else (p.final_resp, p.final_error)

unfoldable pub finish : Transport → Resolved → Fixed → Outside → Request → Progress → Outcome
unfolding request_result_event
finish t r f o req p =
    let entries = o.before_success p.entries in
    record {
      response = (answer p).0;
      error = (answer p).1;
      entries =
          if is_success p.final_resp p.final_error
          then record_success entries r.scope.downstream r.budget
          else entries;
      trace = p.trace;
      event =
          if t.result_observed
          then some (
              request_result_event req r.scope r.class f.max_retries p.total_attempts o.duration
                p.final_resp p.final_error p.suppressed)
          else none;
    }

abbrev pub resolver_or_default : Globals → Option (Request → RetryPolicy) → Request → RetryPolicy
resolver_or_default g none = default_retry_policy_resolver g.extension
resolver_or_default g (some resolver) = resolver

abbrev pub resolved : PathMatch → Globals → Transport → Request → Resolved
resolved glob g t req =
    resolve glob g (resolver_or_default g t.resolve_policy) t.config_provider req

abbrev pub fixed_for : PathMatch → Globals → Transport → Outside → Request → Fixed
fixed_for glob g t o req = fixed_of t (resolved glob g t req) o.resolved_at req

unfoldable pub governed : PathMatch → Globals → Transport → Outside → Request → Entries → Outcome
unfolding finish
governed glob g t o req entries =
    let f = fixed_for glob g t o req in
    finish t (resolved glob g t req) f o req (run f o.moments entries)

unfoldable pub set_skipped_deadline : Request → Option ℤ → Request
set_skipped_deadline req none = req
set_skipped_deadline req (some d) = record req {
  context = record req.context { deadline = earlier req.context.deadline (some d) };
  header = set req.header header_request_deadline (format_request_deadline d);
}

unfoldable pub prepare_skipped_request : ℤ → Request → Request
unfolding set_skipped_deadline
prepare_skipped_request now req =
    let marked = record req {
      header = set req.header header_no_more_retry (format_bool (original_no_more_retry req));
    } in
    let timed = set_skipped_deadline marked (resolve_overall_deadline now req (pos 0)) in
    record timed {
      header = del (set timed.header header_retry_attempt (codes "0")) header_retry_reason;
    }

abbrev pub skips : Option (Request → Bool) → Request → Bool
skips none req = false
skips (some skipper) req = skipper req

-- A request that is skipped is sent with the constraints of its caller and nothing else; its context
-- is released as that of an attempt.
unfoldable pub skipped : Outside → Request → Entries → Outcome
unfolding prepare_skipped_request
skipped o req entries =
    let made = prepare_skipped_request o.resolved_at req in
    let (resp, error) = o.round_trip made in
    record {
      response = resp;
      error = error;
      entries = entries;
      trace = sends 0 made ∷ settle 0 resp error;
      event = none;
    }

unfoldable pub round_trip : PathMatch → Globals → Transport → Outside → Request → Entries → Outcome
unfolding governed skipped
round_trip glob g t o req entries =
    if skips t.skipper req then skipped o req entries else governed glob g t o req entries
