-- ===== src/Policy/Reason.antt =====
-- retry.go: how an outcome is named, and which outcomes are failures and timeouts.
use http_governance_client.Common.{
  ◌≡◌, ◌≢◌, ◌↔◌, refl, Bool, true, false, ◌||◌, Option, none, some, arith, ℤ, pos, leb_ℤ, ltb_ℤ,
  eqb_ℤ, if◌then◌else◌, [], ◌++◌,
}
use http_governance_client.Common.Text.{Text, codes}
use http_governance_client.Common.Number.{format_int}
use http_governance_client.Types.Message.{GoError, Response}

abbrev timed_out : Option Bool → Bool
timed_out none = false
timed_out (some b) = b

unfoldable pub is_timeout_error : Option GoError → Bool
is_timeout_error none = false
is_timeout_error (some e) = e.deadline_exceeded || timed_out e.net

abbrev reason_of_error : Bool → Text
reason_of_error true = codes "timeout"
reason_of_error false = codes "transport_error"

abbrev reason_of_status : ℤ → Text
reason_of_status status =
    if eqb_ℤ status (pos 429)
    then codes "429"
    else if leb_ℤ (pos 500) status
    then codes "5xx"
    else if eqb_ℤ status (pos 408)
    then codes "timeout"
    else codes "status_" ++ format_int status

unfoldable pub retry_reason : Option Response → Option GoError → Text
unfolding is_timeout_error
retry_reason resp (some e) = reason_of_error (is_timeout_error (some e))
retry_reason none none = codes "unknown"
retry_reason (some resp) none = reason_of_status resp.status_code

unfoldable pub request_result_reason : Option Response → Option GoError → Text
unfolding retry_reason
request_result_reason resp (some e) = retry_reason resp (some e)
request_result_reason none none = codes "unknown"
request_result_reason (some resp) none =
    if ltb_ℤ resp.status_code (pos 400) then codes "success" else retry_reason (some resp) none

unfoldable pub is_final_failure : Option Response → Option GoError → Bool
is_final_failure resp (some e) = true
is_final_failure none none = false
is_final_failure (some resp) none = leb_ℤ (pos 400) resp.status_code

unfoldable pub status_code : Option Response → ℤ
status_code none = pos 0
status_code (some resp) = resp.status_code

unfoldable pub error_string : Option GoError → Text
error_string none = []
error_string (some e) = e.text

-- The reason says "success" exactly where there is a response and no failure.
pub request_result_reason-success :
    (resp : Option Response) (error : Option GoError)
    → (request_result_reason resp error ≡ codes "success")
      ↔ ((is_final_failure resp error ≡ false) × (resp ≢ none))
unfolding request_result_reason is_final_failure
request_result_reason-success none none = (λ h. ground arith, λ h. absurd (h.1 refl))
request_result_reason-success (some resp) none = (λ h. (ground arith, λ e. cc), λ h. ground arith)
request_result_reason-success resp (some e) = (λ h. ground arith, λ h. ground arith)
