-- ===== src/Transport/Settled.antt =====
-- transport.go: the loop of RoundTrip ends with an answer and with no open reservation.
use http_governance_client.Common.{
  ℕ, suc, ◌<◌, ◌≡◌, refl, true, Option, none, some, arith, ℤ, pos, negsuc, ◌≤ℤ◌, ◌⊎◌, inl, inr,
}
use http_governance_client.Types.Message.{Url, GoError, Request, Response}
use http_governance_client.Budget.Ops.{Entries}
use http_governance_client.Transport.Retryable.{should_retry}
use http_governance_client.Transport.Loop.{
  Moment, Fixed, Progress, Next, start, rounds_of, run, round_trip_once,
}
use http_governance_client.Transport.View.{
  RoundView, refuses, answers, ends, late, denies, retries, interrupts,
}
use http_governance_client.Transport.Rule.{Leads, loop-rule}

-- Attempt n is one that the retries allow, or the loop has not begun.
abbrev Allowed : Fixed → ℕ → Progress → Type 0
Allowed f n p = ((n ≡ 0) × (p.pending ≡ none)) ⊎ (pos n ≤ℤ f.max_retries)

pub wants-Allowed :
    (f : Fixed) (m : Moment) (n : ℕ) (req : Request) (resp : Option Response)
    (error : Option GoError)
    → should_retry req f.policy n f.max_retries resp error m.checked_at f.deadline ≡ true
    → pos (suc n) ≤ℤ f.max_retries
unfolding should_retry
wants-Allowed f m n req resp error h = ground arith

-- The rounds end no later than the retries.
pub used_up : (z : ℤ) → pos (rounds_of z) ≤ℤ z → ⊥
used_up (pos n) h = omega arith
used_up (negsuc n) h = omega arith

abbrev Closed : Progress → Type 0
Closed p = p.pending ≡ none

keep-Closed :
    (f : Fixed) (ms : ℕ → Moment) (total n : ℕ) (p : Progress) (x : Next)
    → n < total
    → Allowed f n p
    → RoundView f (ms n) n p x
    → Leads (Allowed f) Closed n x
keep-Closed f ms total n p x l b (refuses e pe g) = rw g refl
keep-Closed f ms total n p x l b (answers req resp error pe re (ends w g)) = rw g refl
keep-Closed f ms total n p x l b (answers req resp error pe re (late w t g)) = rw g refl
keep-Closed f ms total n p x l b (answers req resp error pe re (denies en r w t k g)) = rw g refl
keep-Closed f ms total n p x l b (answers req resp error pe re (retries en r w t k i g)) =
    rw g (inr (wants-Allowed f (ms n) n req resp error w))
keep-Closed f ms total n p x l b (answers req resp error pe re (interrupts en r e w t k i g)) =
    rw g refl

done-Closed : (f : Fixed) (p : Progress) → Allowed f (rounds_of f.max_retries) p → Closed p
done-Closed f p (inl (e, c)) = c
done-Closed f p (inr h) = absurd (used_up f.max_retries h)

-- Whatever happens, the loop ends with no reservation pending.
pub run-pending :
    (f : Fixed) (ms : ℕ → Moment) (entries : Entries) → (run f ms entries).pending ≡ none
unfolding run
run-pending f ms entries =
    loop-rule f ms (Allowed f) Closed (rounds_of f.max_retries)
      (keep-Closed f ms (rounds_of f.max_retries)) (done-Closed f) (rounds_of f.max_retries) 0
      (start entries) (omega arith) (inl (refl, refl))

-- A response or an error.
abbrev pub IsAnswer : Option Response → Option GoError → Type 0
IsAnswer none none = ⊥
IsAnswer resp error = Unit

-- The wrapped RoundTripper keeps its contract.
abbrev pub Answers : (ℕ → Moment) → Type 0
Answers ms = (n : ℕ) (req : Request) → IsAnswer ((ms n).round_trip req).0 ((ms n).round_trip req).1

error-IsAnswer : (resp : Option Response) (e : GoError) → IsAnswer resp (some e)
error-IsAnswer none e = tt
error-IsAnswer (some resp) e = tt

url-IsAnswer :
    (ms : ℕ → Moment) (n : ℕ) (req : Request) (o : Option Url)
    → req.url ≡ o
    → Answers ms
    → IsAnswer (round_trip_once (ms n).round_trip req).0 (round_trip_once (ms n).round_trip req).1
unfolding round_trip_once
url-IsAnswer ms n req none e a = simp e tt
url-IsAnswer ms n req (some u) e a = simp e (a n req)

once-IsAnswer :
    (ms : ℕ → Moment) (n : ℕ) (req : Request) (resp : Option Response) (error : Option GoError)
    → Answers ms
    → round_trip_once (ms n).round_trip req ≡ (resp, error)
    → IsAnswer resp error
once-IsAnswer ms n req resp error a e = rw e at (url-IsAnswer ms n req req.url refl a)

abbrev Settled : Progress → Type 0
Settled p = IsAnswer p.final_resp p.final_error

abbrev Going : Fixed → ℕ → Progress → Type 0
Going f n p = pos n ≤ℤ f.max_retries

keep-Settled :
    (f : Fixed) (ms : ℕ → Moment)
    → Answers ms
    → (total n : ℕ) (p : Progress) (x : Next) → n < total
    → Going f n p
    → RoundView f (ms n) n p x
    → Leads (Going f) Settled n x
keep-Settled f ms a total n p x l b (refuses e pe g) = rw g tt
keep-Settled f ms a total n p x l b (answers req resp error pe re (ends w g)) =
    rw g (once-IsAnswer ms n req resp error a re)
keep-Settled f ms a total n p x l b (answers req resp error pe re (late w t g)) =
    rw g (once-IsAnswer ms n req resp error a re)
keep-Settled f ms a total n p x l b (answers req resp error pe re (denies en r w t k g)) =
    rw g (once-IsAnswer ms n req resp error a re)
keep-Settled f ms a total n p x l b (answers req resp error pe re (retries en r w t k i g)) =
    rw g (wants-Allowed f (ms n) n req resp error w)
keep-Settled f ms a total n p x l b (answers req resp error pe re (interrupts en r e w t k i g)) =
    rw g tt

-- If the wrapped RoundTripper answers with a response or an error, so does the loop, provided that
-- the retry count is not negative.
pub run-answers :
    (f : Fixed) (ms : ℕ → Moment) (entries : Entries)
    → pos 0 ≤ℤ f.max_retries
    → Answers ms
    → IsAnswer (run f ms entries).final_resp (run f ms entries).final_error
unfolding run
run-answers f ms entries h a =
    loop-rule f ms (Going f) Settled (rounds_of f.max_retries)
      (keep-Settled f ms a (rounds_of f.max_retries)) (λ p b. absurd (used_up f.max_retries b))
      (rounds_of f.max_retries) 0 (start entries) (omega arith) h
