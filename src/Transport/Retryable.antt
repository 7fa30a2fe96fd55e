-- ===== src/Transport/Retryable.antt =====
-- transport.go: which requests, errors and responses are retried.
use http_governance_client.Common.{
  ℕ, Bool, true, false, not, ◌&&◌, ◌||◌, Option, none, some, ℤ, pos, leb_ℤ, ltb_ℤ, eqb_ℤ,
  if◌then◌else◌,
}
use http_governance_client.Types.Policy.{RetryPolicy, has_status}
use http_governance_client.Types.Message.{GoError, Request, Response, get, header_no_more_retry}
use http_governance_client.Policy.Deadline.{parse_bool_header, no_more_retry_from_context}

-- The caller forbids retries, by the context or by the header.
unfoldable pub is_retryable_request : Request → Bool
unfolding no_more_retry_from_context
is_retryable_request req = not (
    no_more_retry_from_context req.context
    || parse_bool_header (get req.header header_no_more_retry))

abbrev net_retryable : Option Bool → Bool
net_retryable none = false
net_retryable (some timeout) = timeout

-- A DNS error decides by itself; another network error by its timeout.
abbrev dns_retryable : Option (Bool × Bool) → Option Bool → Bool
dns_retryable (some (timeout, temporary)) net = timeout || temporary
dns_retryable none net = net_retryable net

unfoldable pub is_retryable_error : Option GoError → Bool
is_retryable_error none = false
is_retryable_error (some e) =
    if e.canceled
    then false
    else if e.deadline_exceeded
    then true
    else if e.certificate
    then false
    else if e.unexpected_eof || e.connection_refused || e.connection_reset || e.broken_pipe
        || e.platform
    then true
    else dns_retryable e.dns e.net

-- `hasOverallDeadline && now.After(overallDeadline)`
abbrev pub is_after : ℤ → Option ℤ → Bool
is_after now none = false
is_after now (some deadline) = ltb_ℤ deadline now

abbrev pub retryable_status : RetryPolicy → ℤ → Bool
retryable_status policy status =
    if eqb_ℤ status (pos 429)
    then has_status policy.retry_on_statuses status && policy.retry_on_429
    else has_status policy.retry_on_statuses status

abbrev pub retryable_result : RetryPolicy → Option Response → Option GoError → Bool
retryable_result policy resp (some e) = is_retryable_error (some e)
retryable_result policy none none = false
retryable_result policy (some resp) none = retryable_status policy resp.status_code

unfoldable pub should_retry :
    Request → RetryPolicy → ℕ → ℤ → Option Response → Option GoError → ℤ → Option ℤ → Bool
unfolding is_retryable_error
should_retry req policy attempt max_retries resp error now deadline =
    if leb_ℤ max_retries (pos attempt)
    then false
    else if is_after now deadline
    then false
    else if not (is_retryable_request req)
    then false
    else retryable_result policy resp error
