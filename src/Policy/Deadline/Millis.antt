-- ===== src/Policy/Deadline/Millis.antt =====
-- retry.go: the deadline header loses less than a millisecond on its way.
use http_governance_client.Common.{
  ◌/◌, ◌^◌, ◌<◌, ◌≡◌, some, arith, ℤ, pos, negsuc, ◌<ℤ◌, ◌≤ℤ◌, ◌+ℤ◌, ◌*ℤ◌, IsInt64, wrap64_eq,
}
use http_governance_client.Common.Number.{
  parse_int-format_int, trim_space-format_int, is_empty-format_int,
}
use http_governance_client.Types.Policy.{millisecond}
use http_governance_client.Policy.Deadline.{
  parse_request_deadline, format_request_deadline, unix_milli,
}

-- A time whose millisecond count an int64 holds.
abbrev pub IsMilli : ℤ → Type 0
IsMilli (pos n) = n / millisecond < 2 ^ 63
IsMilli (negsuc n) = n / millisecond < 2 ^ 63

unix_milli_lem :
    (d : ℤ)
    → IsMilli d
    → IsInt64 (unix_milli d)
      × (unix_milli d *ℤ pos millisecond ≤ℤ d)
      × (d <ℤ unix_milli d *ℤ pos millisecond +ℤ pos millisecond)
unfolding unix_milli ◌*ℤ◌ ◌+ℤ◌
unix_milli_lem (pos n) h = ground (arith, wrap64_eq (pos (n / millisecond)))
unix_milli_lem (negsuc n) h = ground (arith, wrap64_eq (negsuc (n / millisecond)))

-- The deadline that a downstream service reads is the one that was sent, rounded down to a
-- millisecond: never later, and earlier by less than a millisecond.
pub parse_request_deadline-format_request_deadline :
    (d : ℤ)
    → IsMilli d
    → (d' : ℤ) × (parse_request_deadline (format_request_deadline d) ≡ some d')
      × (d' ≤ℤ d)
      × (d <ℤ d' +ℤ pos millisecond)
unfolding parse_request_deadline format_request_deadline
parse_request_deadline-format_request_deadline d h =
    let (fits, below, near) = unix_milli_lem d h in
    (
      unix_milli d *ℤ pos millisecond,
      rw (
        is_empty-format_int (unix_milli d),
        trim_space-format_int (unix_milli d),
        parse_int-format_int (unix_milli d) fits,
      ),
      below,
      near,
    )
