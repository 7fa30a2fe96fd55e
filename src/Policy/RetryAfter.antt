-- ===== src/Policy/RetryAfter.antt =====
-- retry.go: a Retry-After header of seconds.
use http_governance_client.Common.{
  ℕ, ◌*◌, ◌^◌, ◌≤◌, ◌<◌, ◌≡◌, none, some, arith, pos, ◌*ℤ◌, wrap64_eq, mul64, if◌then◌else◌, leb,
}
use http_governance_client.Common.Number.{
  format_int, parse_int-format_int, trim_space-format_int, is_empty-format_int,
}
use http_governance_client.Types.Policy.{second}
use http_governance_client.Policy.Backoff.{Chance, parse_retry_after}

mul64-second : (s : ℕ) → s ≤ 9_223_372_036 → mul64 (pos s) (pos second) ≡ pos (s * second)
unfolding mul64 ◌*ℤ◌
mul64-second s h = ground (arith, wrap64_eq (pos (s * second)))

-- Seconds that fit a Duration are the delay, with no overflow; more seconds, which a Duration cannot
-- hold, are as good as no header.
pub parse_retry_after-seconds :
    (c : Chance) (s : ℕ)
    → s < 2 ^ 63
    → parse_retry_after c (format_int (pos s))
      ≡ (if leb s 9_223_372_036 then some (pos (s * second)) else none)
unfolding parse_retry_after
parse_retry_after-seconds c s h =
    rw
      (
        is_empty-format_int (pos s),
        trim_space-format_int (pos s),
        parse_int-format_int (pos s) (omega arith),
      )
      (ground (arith, mul64-second s))
