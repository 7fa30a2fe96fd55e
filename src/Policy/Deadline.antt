-- ===== src/Policy/Deadline.antt =====
-- retry.go and retry_governance.go: the deadline of the whole request, from the header of the
-- caller, the context and the policy; and how the two constraints travel in headers.
pub mod Millis
pub mod Earliest
use http_governance_client.Common.{
  ℕ, zero, suc, ◌+◌, ◌-◌, ◌*◌, ◌/◌, ◌%◌, ◌^◌, ◌≤◌, ◌<◌, ◌≡◌, ◌≢◌, ◌↔◌, refl, sym, ap, ◌∙◌, Bool,
  true, false, not, ◌&&◌, ◌||◌, Option, none, some, arith, ℤ, pos, negsuc, pos_part, neg_part, ◌<ℤ◌,
  ◌≤ℤ◌, ◌+ℤ◌, ◌-ℤ◌, ◌*ℤ◌, leb_ℤ, ltb_ℤ, eqb_ℤ, eqb_ℤ_iff, IsInt64, max_int64, min_int64, wrap64,
  wrap64_eq, add64, sub64, mul64, add64_eq, sub64_eq, mul64_eq, sub_saturated, +ℤ_parts, -ℤ_parts,
  eq_of_parts, if◌then◌else◌, ◌⊎◌, inl, inr, List, [], ◌∷◌, ◌++◌, map, any, All, length, is_empty,
  Bool-cases, Option-cases, ltb, leb, ◌==◌, Result, ok, err, ◌>>=◌, ◌>>◌, fail_if, dec_lt,
}
use http_governance_client.Common.Text.{
  Text, codes, text_eq, text_eq_iff, text_eq_refl, trim_space, trim_space_idem, to_lower, to_upper,
  to_upper_idem, to_lower_idem, equal_fold,
}
use http_governance_client.Common.Number.{
  parse_int, format_int, parse_int-format_int, trim_space-format_int, is_empty-format_int,
}
use http_governance_client.Types.Policy.{RetryPolicy, millisecond}
use http_governance_client.Types.Message.{
  Header, Context, Request, get, set, header_request_deadline, header_no_more_retry,
}

unfoldable pub parse_bool_header : Text → Bool
unfolding equal_fold trim_space
parse_bool_header value = equal_fold (trim_space value) (codes "true")

abbrev from_millis : Option ℤ → Option ℤ
from_millis none = none
from_millis (some ts) = some (ts *ℤ pos millisecond)

-- The time of `X-Request-Deadline`, if the header is there and holds an int64 of milliseconds.
unfoldable pub parse_request_deadline : Text → Option ℤ
parse_request_deadline value =
    if is_empty value then none else from_millis (parse_int (trim_space value))

-- Time.UnixMilli: it rounds down.
unfoldable pub unix_milli : ℤ → ℤ
unix_milli (pos n) = wrap64 (pos (n / millisecond))
unix_milli (negsuc n) = wrap64 (negsuc (n / millisecond))

unfoldable pub format_request_deadline : ℤ → Text
unfolding unix_milli
format_request_deadline deadline = format_int (unix_milli deadline)

-- strconv.FormatBool
unfoldable pub format_bool : Bool → Text
format_bool true = codes "true"
format_bool false = codes "false"

-- `if ok2 && (!ok || d2.Before(deadline)) { deadline = d2 }`
abbrev pub earlier : Option ℤ → Option ℤ → Option ℤ
earlier d none = d
earlier none (some d') = some d'
earlier (some d) (some d') = if ltb_ℤ d' d then some d' else some d

-- time.Now().Add(policy.MaxElapsedTime), if that is positive.
abbrev pub elapsed_deadline : ℤ → ℤ → Option ℤ
elapsed_deadline now d = if ltb_ℤ (pos 0) d then some (now +ℤ d) else none

unfoldable pub resolve_overall_deadline : ℤ → Request → ℤ → Option ℤ
resolve_overall_deadline now req max_elapsed =
    earlier
      (earlier (parse_request_deadline (get req.header header_request_deadline))
        req.context.deadline)
      (elapsed_deadline now max_elapsed)

-- NoMoreRetryFromContext
unfoldable pub no_more_retry_from_context : Context → Bool
no_more_retry_from_context ctx = ctx.no_more_retry

-- WithNoMoreRetry
unfoldable pub with_no_more_retry : Context → Context
with_no_more_retry ctx = record ctx { no_more_retry = true }

abbrev pub import_deadline : Context → Option ℤ → Context
import_deadline ctx none = ctx
import_deadline ctx (some d) = record ctx { deadline = earlier ctx.deadline (some d) }

-- ContextWithRetryConstraints. context.WithDeadline keeps an earlier deadline of the parent, and so
-- does the test before it.
unfoldable pub context_with_retry_constraints : Context → Header → Context
unfolding with_no_more_retry
context_with_retry_constraints ctx headers =
    import_deadline
      (if parse_bool_header (get headers header_no_more_retry) then with_no_more_retry ctx else ctx)
      (parse_request_deadline (get headers header_request_deadline))
