-- ===== src/Transport/Attempts.antt =====
-- transport.go: how many attempts there are, that each is counted, and that no reservation is left
-- open.
use http_governance_client.Transport.Attempt.{prepare_attempt_request-url}
use http_governance_client.Common.{
  sym, eqb_ℤ, pos, ◌||◌, ℕ, zero, suc, ◌+◌, ◌≤◌, ◌<◌, ◌≡◌, refl, Bool, true, false, Option, none,
  some, arith, ℤ, List, [], ◌∷◌, ◌++◌,
}
use http_governance_client.Types.Message.{Url, GoError, Request, Response}
use http_governance_client.Policy.Backoff.{retry_delay}
use http_governance_client.Budget.Ops.{Entries, Reservation}
use http_governance_client.Transport.Loop.{
  denied, Effect, sends, waits, Moment, Fixed, Progress, Next, start, sent, settle, discard,
  observation, sending, close_body, RetryEvent, retry_event, waiting, rounds_of, run,
}
use http_governance_client.Transport.View.{
  Answered, RoundView, refuses, answers, ends, late, denies, retries, interrupts,
}
use http_governance_client.Transport.Rule.{Leads, loop-rule}

-- How often a request is sent.
abbrev pub count_sends : List Effect → ℕ
count_sends [] = 0
count_sends (sends n req ∷ es) = suc (count_sends es)
count_sends (_ ∷ es) = count_sends es

count_sends-append :
    (es ds : List Effect) → count_sends (es ++ ds) ≡ count_sends es + count_sends ds
count_sends-append [] ds = omega arith
count_sends-append (sends n req ∷ es) ds = omega (arith, count_sends-append es ds)
count_sends-append (_ ∷ es) ds = omega (arith, count_sends-append es ds)

pub settle-sends :
    (n : ℕ) (resp : Option Response) (error : Option GoError)
    → count_sends (settle n resp error) ≡ 0
settle-sends n none none = refl
settle-sends n resp (some e) = refl
settle-sends n (some resp) none = ground arith

discard-sends :
    (n : ℕ) (resp : Option Response) (error : Option GoError)
    → count_sends (discard n resp error) ≡ 0
discard-sends n none error = refl
discard-sends n (some resp) (some e) = ground arith
discard-sends n (some resp) none = ground arith

close_body-sends : (n : ℕ) (b : Bool) → count_sends (close_body n b) ≡ 0
close_body-sends zero b = ground arith
close_body-sends (suc n) b = refl

-- Of n attempts at a URL each is sent, and without a URL none.
abbrev pub sent_of : Option Url → ℕ → ℕ
sent_of none n = 0
sent_of (some url) n = n

sent_of-suc : (url : Option Url) (n : ℕ) → sent_of url (suc n) ≡ sent_of url n + sent_of url 1
sent_of-suc none n = refl
sent_of-suc (some url) n = omega arith

sent_of-zero : (url : Option Url) → sent_of url 0 ≡ 0
sent_of-zero none = refl
sent_of-zero (some url) = refl

pub sent_of-le : (url : Option Url) (n : ℕ) → sent_of url n ≤ n
sent_of-le none n = omega arith
sent_of-le (some url) n = omega arith

sending-sends :
    (n : ℕ) (req : Request) (url : Option Url) → count_sends (sending n req url) ≡ sent_of url 1
sending-sends n req none = refl
sending-sends n req (some url) = refl

-- Before attempt n to a URL: n attempts were counted, and sent if there is a URL.
abbrev Before : Option Url → ℕ → Progress → Type 0
Before url n p = (count_sends p.trace ≡ sent_of url n) × (p.total_attempts ≡ n)

abbrev pub After : Option Url → ℕ → Progress → Type 0
After url limit p =
    (count_sends p.trace ≡ sent_of url p.total_attempts) × (p.total_attempts ≤ limit)

sent-Before :
    (n : ℕ) (p : Progress) (req : Request) (resp : Option Response) (error : Option GoError)
    → Before req.url n p
    → Before req.url (suc n) (sent n req resp error p)
sent-Before n p req resp error h = (
  omega (
    arith,
    count_sends-append p.trace (sending n req req.url ++ settle n resp error),
    count_sends-append (sending n req req.url) (settle n resp error),
    sending-sends n req req.url,
    settle-sends n resp error,
    sent_of-suc req.url n,
  ),
  omega arith,
)

waiting-sends :
    (b : Bool) (e : RetryEvent) (n : ℕ) (resp : Option Response) (error : Option GoError) (d : ℤ)
    → count_sends (observation b e ++ discard n resp error ++ waits d ∷ []) ≡ 0
waiting-sends true e n resp error d =
    omega
      (arith, count_sends-append (discard n resp error) (waits d ∷ []), discard-sends n resp error)
waiting-sends false e n resp error d =
    omega
      (arith, count_sends-append (discard n resp error) (waits d ∷ []), discard-sends n resp error)

waiting-Before :
    (url : Option Url) (f : Fixed) (m : Moment) (n k : ℕ) (req : Request) (resp : Option Response)
    (error : Option GoError) (entries : Entries) (r : Option Reservation) (p : Progress)
    → Before url k p
    → Before url k (waiting f m n req resp error entries r p)
waiting-Before url f m n k req resp error entries r p h =
    let d = retry_delay m.chance f.policy n resp in
    let e = retry_event f n req d resp error in
    omega (
      arith,
      count_sends-append p.trace (observation f.observed e ++ discard n resp error ++ waits d ∷ []),
      waiting-sends f.observed e n resp error d,
    )

Before-After :
    (url : Option Url) (limit n : ℕ) (p : Progress) → n ≤ limit → Before url n p → After url limit p
Before-After url limit n p l (c, t) = (rw t c, omega arith)

-- Whichever way the round ends after an answer, the attempt is counted, and it was sent if it had a
-- URL.
keep_each-counts :
    (f : Fixed) (ms : ℕ → Moment) (limit n : ℕ) (p : Progress) (x : Next) (req : Request)
    (resp : Option Response) (error : Option GoError)
    → n < limit
    → Before req.url n p
    → Answered f (ms n) n req resp error p x
    → Leads (Before req.url) (After req.url limit) n x
keep_each-counts f ms limit n p x req resp error l h (ends w g) = rw g (
    Before-After req.url limit (suc n) (sent n req resp error p) l
      (sent-Before n p req resp error h))
keep_each-counts f ms limit n p x req resp error l h (late w t g) = rw g (
    Before-After req.url limit (suc n) (sent n req resp error p) l
      (sent-Before n p req resp error h))
keep_each-counts f ms limit n p x req resp error l h (denies en r w t k g) = rw g (
    Before-After req.url limit (suc n) (denied en (sent n req resp error p)) l
      (sent-Before n p req resp error h))
keep_each-counts f ms limit n p x req resp error l h (retries en r w t k i g) = rw g (
    waiting-Before req.url f (ms n) n (suc n) req resp error en r (sent n req resp error p)
      (sent-Before n p req resp error h))
keep_each-counts f ms limit n p x req resp error l h (interrupts en r e w t k i g) = rw g (
    Before-After req.url limit (suc n)
      (waiting f (ms n) n req resp error en r (sent n req resp error p)) l
      (waiting-Before req.url f (ms n) n (suc n) req resp error en r (sent n req resp error p)
        (sent-Before n p req resp error h)))

keep-counts :
    (f : Fixed) (ms : ℕ → Moment) (limit n : ℕ) (p : Progress) (x : Next)
    → n < limit
    → Before f.request.url n p
    → RoundView f (ms n) n p x
    → Leads (Before f.request.url) (After f.request.url limit) n x
keep-counts f ms limit n p x l (c, t) (refuses e pe g) =
    let counted : count_sends p.trace ≡ sent_of f.request.url p.total_attempts = rw t c in
    rw g (
      omega (
        arith,
        count_sends-append p.trace (close_body n f.request.has_body),
        close_body-sends n f.request.has_body,
        counted,
      ),
      omega arith,
    )
keep-counts f ms limit n p x l h (answers req resp error pe re a) =
    let same =
      prepare_attempt_request-url f.request f.policy n
        (eqb_ℤ (pos n) f.max_retries || f.original_no_more_retry) f.deadline p.last_resp
        p.last_error (ms n).prepared_at (ms n).started_at pe in
    rw (← same) (keep_each-counts f ms limit n p x req resp error l (rw same h) a)

-- There is at most one attempt more than the retries that are allowed; of a request with a URL every
-- attempt that is counted is sent once, and of one without a URL nothing is ever sent.
pub run-attempts :
    (f : Fixed) (ms : ℕ → Moment) (entries : Entries)
    → (count_sends (run f ms entries).trace
        ≡ sent_of f.request.url (run f ms entries).total_attempts)
      × ((run f ms entries).total_attempts ≤ rounds_of f.max_retries)
unfolding run
run-attempts f ms entries =
    loop-rule f ms (Before f.request.url) (After f.request.url (rounds_of f.max_retries))
      (rounds_of f.max_retries) (keep-counts f ms (rounds_of f.max_retries))
      (λ p h.
        Before-After f.request.url (rounds_of f.max_retries) (rounds_of f.max_retries) p
          (omega arith) h)
      (rounds_of f.max_retries) 0 (start entries) (omega arith)
      (sym (sent_of-zero f.request.url), refl)
