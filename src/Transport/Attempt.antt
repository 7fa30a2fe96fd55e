-- ===== src/Transport/Attempt.antt =====
-- transport.go: the request of one attempt, with its timeout and its headers.
use http_governance_client.Common.{
  ℕ, zero, suc, Bool, ◌||◌, Option, none, some, ℤ, pos, ◌+ℤ◌, leb_ℤ, ltb_ℤ, sub_saturated,
  if◌then◌else◌, Result, ok, err, ◌≡◌, refl,
}
use http_governance_client.Common.Text.{Text}
use http_governance_client.Common.Number.{format_int}
use http_governance_client.Types.Policy.{RetryPolicy, default_per_attempt_timeout}
use http_governance_client.Types.Message.{
  GoError, Request, Response, Header, set, del, header_retry_attempt, header_no_more_retry,
  header_request_deadline, header_retry_reason, deadline_exceeded_error,
}
use http_governance_client.Policy.Deadline.{earlier, format_bool, format_request_deadline}
use http_governance_client.Policy.Reason.{retry_reason}

-- The answer of GetBody before an attempt; only a retry asks.
body_error : ℕ → Option (ℕ → Option GoError) → Option GoError
body_error zero get_body = none
body_error (suc n) none = none
body_error (suc n) (some answer) = answer (suc n)

-- The timeout of an attempt: that of the policy, cut down to what is left of the whole request.
cut : ℤ → ℤ → ℤ
cut timeout remaining =
    if leb_ℤ timeout (pos 0) || ltb_ℤ remaining timeout then remaining else timeout

timeout_or_default : ℤ → ℤ
timeout_or_default timeout = if leb_ℤ timeout (pos 0) then default_per_attempt_timeout else timeout

-- `now` is the time of time.Until. No time left is context.DeadlineExceeded.
unfoldable pub attempt_timeout : ℤ → ℤ → Option ℤ → Result GoError ℤ
unfolding cut timeout_or_default
attempt_timeout now timeout none = ok (timeout_or_default timeout)
attempt_timeout now timeout (some deadline) =
    let remaining = sub_saturated deadline now in
    if leb_ℤ remaining (pos 0)
    then err deadline_exceeded_error
    else ok (timeout_or_default (cut timeout remaining))

set_deadline : Option ℤ → Header → Header
set_deadline none h = h
set_deadline (some deadline) h = set h header_request_deadline (format_request_deadline deadline)

set_reason : ℕ → Text → Header → Header
set_reason zero reason h = del h header_retry_reason
set_reason (suc n) reason h = set h header_retry_reason reason

unfoldable pub attempt_header : Header → ℕ → Bool → Option ℤ → Text → Header
unfolding set_deadline set_reason
attempt_header h attempt no_more_retry deadline reason = set_reason attempt reason (
    set_deadline deadline (
      set (set h header_retry_attempt (format_int (pos attempt))) header_no_more_retry
        (format_bool no_more_retry)))

attempt_request : Request → ℕ → Bool → Option ℤ → Text → ℤ → Request
attempt_request req attempt no_more_retry deadline reason until = record req {
  header = attempt_header req.header attempt no_more_retry deadline reason;
  context = record req.context { deadline = earlier req.context.deadline (some until) };
}

-- `now` is read for the time left, `started` by context.WithTimeout.
prepare_with : Option GoError → Result GoError ℤ → (ℤ → Request) → Result GoError Request
prepare_with (some e) timeout make = err e
prepare_with none (err e) make = err e
prepare_with none (ok timeout) make = ok (make timeout)

unfoldable pub prepare_attempt_request :
    Request
    → RetryPolicy
    → ℕ
    → Bool
    → Option ℤ
    → Option Response
    → Option GoError
    → ℤ
    → ℤ
    → Result GoError Request
unfolding prepare_with attempt_request body_error
prepare_attempt_request req policy attempt no_more_retry deadline last_resp last_error now started =
    prepare_with (body_error attempt req.get_body)
      (attempt_timeout now policy.per_attempt_timeout deadline)
      (λ timeout.
        attempt_request req attempt no_more_retry deadline (retry_reason last_resp last_error)
          (started +ℤ timeout))

prepare_with-url :
    (body : Option GoError) (timeout : Result GoError ℤ) (make : ℤ → Request) (req : Request)
    {made : Request}
    → ((t : ℤ) → (make t).url ≡ req.url)
    → prepare_with body timeout make ≡ ok made
    → made.url ≡ req.url
unfolding prepare_with
prepare_with-url none (ok t) make req h e = cc (h t, e)
prepare_with-url none (err x) make req h e = absurd (cc e)
prepare_with-url (some x) timeout make req h e = absurd (cc e)

-- The request of an attempt goes to the URL of the request that was given.
pub prepare_attempt_request-url :
    (req : Request) (policy : RetryPolicy) (attempt : ℕ) (no_more_retry : Bool)
    (deadline : Option ℤ) (last_resp : Option Response) (last_error : Option GoError)
    (now started : ℤ) {made : Request}
    → prepare_attempt_request req policy attempt no_more_retry deadline last_resp last_error now
        started
      ≡ ok made
    → made.url ≡ req.url
unfolding prepare_attempt_request attempt_request
prepare_attempt_request-url req policy n b d resp error now started =
    prepare_with-url (body_error n req.get_body) (attempt_timeout now policy.per_attempt_timeout d)
      (λ timeout. attempt_request req n b d (retry_reason resp error) (started +ℤ timeout)) req
      (λ t. refl)
