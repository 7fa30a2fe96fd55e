-- ===== src/Transport/Headers.antt =====
-- transport.go: what an attempt carries to the service, and how long it may take.
use http_governance_client.Common.{
  ℕ, zero, suc, ◌≡◌, refl, Bool, true, false, Option, none, some, arith, ℤ, pos, ◌<ℤ◌, ◌≤ℤ◌, ◌+ℤ◌,
  ◌-ℤ◌, sub_saturated, -ℤ_parts, if◌then◌else◌, ◌⊎◌, [], ◌∷◌, ◌==◌, ok, err,
}
use http_governance_client.Common.Text.{Text, text_eq}
use http_governance_client.Common.Number.{format_int}
use http_governance_client.Types.Message.{
  GoError, deadline_exceeded_error, Header, get, header_retry_attempt, header_no_more_retry,
  header_request_deadline, header_retry_reason,
}
use http_governance_client.Policy.Deadline.{format_bool, parse_bool_header, parse_request_deadline}
use http_governance_client.Policy.Deadline.Millis.{
  IsMilli, parse_request_deadline-format_request_deadline,
}
use http_governance_client.Transport.Attempt.{attempt_header, attempt_timeout}

pub parse_bool-format : (b : Bool) → parse_bool_header (format_bool b) ≡ b
unfolding parse_bool_header format_bool
parse_bool-format true = refl
parse_bool-format false = refl

-- The headers carry the deadline, rounded down to a millisecond; without one they have the header of
-- the deadline that they had before.
abbrev pub Carries : Header → Option ℤ → Header → Type 0
Carries before none h = h header_request_deadline ≡ before header_request_deadline
Carries before (some d) h =
    (d' : ℤ) × (parse_request_deadline (get h header_request_deadline) ≡ some d')
    × (d' ≤ℤ d)
    × (d <ℤ d' +ℤ pos 1_000_000)

-- Of every attempt, under a deadline or not, the next service reads whether it may retry; the attempt
-- has its number, a first attempt has no reason, and a later one has the reason of the retry. A
-- deadline in force, of milliseconds that an int64 can hold, is read rounded down to a millisecond;
-- without one the header of the deadline is as it was.
pub attempt_header-reads :
    (h : Header) (n : ℕ) (no_more : Bool) (deadline : Option ℤ) (reason : Text)
    → ((d : ℤ) → deadline ≡ some d → IsMilli d)
    → (parse_bool_header (get (attempt_header h n no_more deadline reason) header_no_more_retry)
        ≡ no_more)
      × Carries h deadline (attempt_header h n no_more deadline reason)
      × (attempt_header h n no_more deadline reason header_retry_attempt ≡ format_int (pos n) ∷ [])
      × (attempt_header h n no_more deadline reason header_retry_reason
          ≡ (if n == 0 then [] else reason ∷ []))
unfolding attempt_header text_eq
attempt_header-reads h zero no_more none reason m = (parse_bool-format no_more, refl, refl, refl)
attempt_header-reads h (suc n) no_more none reason m =
    (parse_bool-format no_more, refl, refl, ground arith)
attempt_header-reads h zero no_more (some d) reason m = (
  parse_bool-format no_more,
  parse_request_deadline-format_request_deadline d (m d refl),
  refl,
  refl,
)
attempt_header-reads h (suc n) no_more (some d) reason m = (
  parse_bool-format no_more,
  parse_request_deadline-format_request_deadline d (m d refl),
  refl,
  ground arith,
)

-- No other header of the request is touched, and without a deadline its header is not either.
pub attempt_header-other :
    (h : Header) (n : ℕ) (no_more : Bool) (d : Option ℤ) (reason name : Text)
    → text_eq header_retry_attempt name ≡ false
    → text_eq header_no_more_retry name ≡ false
    → text_eq header_retry_reason name ≡ false
    → (text_eq header_request_deadline name ≡ false) ⊎ (d ≡ none)
    → attempt_header h n no_more d reason name ≡ h name
unfolding attempt_header
attempt_header-other h n no_more d reason name a b c e = ground arith

-- Under a deadline an attempt is made only while there is time left, and its timeout is positive, no
-- longer than the time left, and no longer than a positive timeout of the policy.
pub attempt_timeout-bounds :
    (now timeout d : ℤ) {t : ℤ}
    → attempt_timeout now timeout (some d) ≡ ok t
    → (now <ℤ d) × (pos 0 <ℤ t) × (t ≤ℤ d -ℤ now) × ((timeout ≤ℤ pos 0) ⊎ (t ≤ℤ timeout))
unfolding attempt_timeout sub_saturated
attempt_timeout-bounds now timeout d e = ground (arith, -ℤ_parts d now)

-- With no time left there is no attempt, and the error is context.DeadlineExceeded.
pub attempt_timeout-exceeded :
    (now timeout d : ℤ)
    → d ≤ℤ now
    → (e : GoError) × (attempt_timeout now timeout (some d) ≡ err e) × (e.deadline_exceeded ≡ true)
unfolding attempt_timeout sub_saturated
attempt_timeout-exceeded now timeout d h =
    (deadline_exceeded_error, ground (arith, -ℤ_parts d now), refl)
