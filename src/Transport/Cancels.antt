-- ===== src/Transport/Cancels.antt =====
-- transport.go: the context of every attempt is released, or handed to the response that is returned.
use http_governance_client.Common.{
  ℕ, suc, ◌<◌, ◌≡◌, refl, Bool, true, false, not, ◌||◌, Option, none, some, arith, ℤ, ◌⊎◌, inl, inr,
  List, [], ◌∷◌, ◌++◌, any, Bool-cases, ◌==◌, dec_lt,
}
use http_governance_client.Types.Message.{Url, GoError, Request, Response}
use http_governance_client.Policy.Backoff.{retry_delay}
use http_governance_client.Budget.Ops.{Entries, Reservation}
use http_governance_client.Transport.Loop.{
  Effect, cancels, waits, Moment, Fixed, Progress, Next, start, sent, settle, discard, observation,
  sending, close_body, RetryEvent, retry_event, waiting, rounds_of, run,
}
use http_governance_client.Transport.View.{
  RoundView, refuses, answers, ends, late, denies, retries, interrupts,
}
use http_governance_client.Transport.Rule.{Leads, loop-rule}

abbrev pub is_cancel : ℕ → Effect → Bool
is_cancel k (cancels n) = n == k
is_cancel k _ = false

-- The context of attempt k is released somewhere in the trace.
abbrev pub cancelled : ℕ → List Effect → Bool
cancelled k es = any (is_cancel k) es

cancelled-append :
    (k : ℕ) (es ds : List Effect) → cancelled k (es ++ ds) ≡ (cancelled k es || cancelled k ds)
cancelled-append k [] ds = refl
cancelled-append k (e ∷ es) ds = ground (arith, cancelled-append k es ds)

-- The response has a body that the caller has to close.
abbrev pub is_open : Option Response → Option GoError → Bool
is_open (some resp) none = resp.has_body
is_open (some resp) (some e) = false
is_open none error = false

sending-cancels :
    (n : ℕ) (req : Request) (url : Option Url) → cancelled n (sending n req url) ≡ false
sending-cancels n req none = refl
sending-cancels n req (some url) = refl

settle-cancels :
    (n : ℕ) (resp : Option Response) (error : Option GoError)
    → cancelled n (settle n resp error) ≡ not (is_open resp error)
settle-cancels n none none = ground arith
settle-cancels n none (some e) = ground arith
settle-cancels n (some resp) (some e) = ground arith
settle-cancels n (some resp) none = ground arith

discard-cancels :
    (n : ℕ) (resp : Option Response) (error : Option GoError)
    → cancelled n (discard n resp error) ≡ is_open resp error
discard-cancels n none none = refl
discard-cancels n none (some e) = refl
discard-cancels n (some resp) (some e) = ground arith
discard-cancels n (some resp) none = ground arith

-- What is released stays released.
cancelled-also :
    (k : ℕ) (es ds : List Effect) → cancelled k es ≡ true → cancelled k (es ++ ds) ≡ true
cancelled-also k es ds h = rw (cancelled-append k es ds, h)

cancelled-after :
    (k : ℕ) (es ds : List Effect) → cancelled k ds ≡ true → cancelled k (es ++ ds) ≡ true
cancelled-after k es ds h = rw (cancelled-append k es ds, h) (ground arith)

-- Before attempt n the contexts of all attempts below n are released.
abbrev Before : ℕ → Progress → Type 0
Before n p = (p.total_attempts ≡ n) × ((k : ℕ) → k < n → cancelled k p.trace ≡ true)

abbrev pub Released : ℕ → Progress → Type 0
Released k p =
    (cancelled k p.trace ≡ true)
    ⊎ ((suc k ≡ p.total_attempts) × (is_open p.final_resp p.final_error ≡ true))

abbrev After : Progress → Type 0
After p = (k : ℕ) → k < p.total_attempts → Released k p

-- After the answer: all released but perhaps the last, whose response is open.
sent-Released :
    (n k : ℕ) (p : Progress) (req : Request) (resp : Option Response) (error : Option GoError)
    → Before n p
    → k < suc n
    → Released k (sent n req resp error p)
sent-Released n k p req resp error (t, h) l = elim (dec_lt k n) [
  | yes below ↦
      inl (cancelled-also k p.trace (sending n req req.url ++ settle n resp error) (h k below))
  | no last ↦
      let e : k ≡ n = omega arith in
      rw e (
        rw
          (
            cancelled-append n p.trace (sending n req req.url ++ settle n resp error),
            cancelled-append n (sending n req req.url) (settle n resp error),
            sending-cancels n req req.url,
            settle-cancels n resp error,
          )
          (elim (Bool-cases (is_open resp error)) [
            | inl o ↦ inr (omega arith, o)
            | inr c ↦ rw c (inl (ground arith))
          ]))
]

waiting-cancels :
    (b : Bool) (e : RetryEvent) (n : ℕ) (resp : Option Response) (error : Option GoError) (d : ℤ)
    → is_open resp error ≡ true
    → cancelled n (observation b e ++ discard n resp error ++ waits d ∷ []) ≡ true
waiting-cancels true e n resp error d h =
    rw (cancelled-append n (discard n resp error) (waits d ∷ []), discard-cancels n resp error, h)
waiting-cancels false e n resp error d h =
    rw (cancelled-append n (discard n resp error) (waits d ∷ []), discard-cancels n resp error, h)

-- While the loop waits, all contexts so far are released: the dropped response was closed.
waiting-Before :
    (f : Fixed) (m : Moment) (n : ℕ) (req : Request) (resp : Option Response)
    (error : Option GoError) (entries : Entries) (r : Option Reservation) (p : Progress)
    → Before n p
    → Before (suc n) (waiting f m n req resp error entries r (sent n req resp error p))
waiting-Before f m n req resp error entries r p b =
    (omega arith, λ k l. go k (sent-Released n k p req resp error b l))
  where
    d : ℤ
    d = retry_delay m.chance f.policy n resp

    more : List Effect
    more =
        observation f.observed (retry_event f n req d resp error)
        ++ discard n resp error
        ++ waits d ∷ []

    go :
        (k : ℕ)
        → Released k (sent n req resp error p)
        → cancelled k (waiting f m n req resp error entries r (sent n req resp error p)).trace
          ≡ true
    go k (inl done) = cancelled-also k (sent n req resp error p).trace more done
    go k (inr (e, o)) =
        let same : k ≡ n = omega arith in
        let closed =
          waiting-cancels f.observed (retry_event f n req d resp error) n resp error d o in
        rw same (cancelled-after n (sent n req resp error p).trace more closed)

keep-releases :
    (f : Fixed) (ms : ℕ → Moment) (total n : ℕ) (p : Progress) (x : Next)
    → n < total
    → Before n p
    → RoundView f (ms n) n p x
    → Leads Before After n x
keep-releases f ms total n p x l b (refuses e pe g) =
    rw g (λ k h.
      inl (cancelled-also k p.trace (close_body n f.request.has_body) (b.1 k (omega arith))))
keep-releases f ms total n p x l b (answers req resp error pe re (ends w g)) =
    rw g (λ k h. sent-Released n k p req resp error b (omega arith))
keep-releases f ms total n p x l b (answers req resp error pe re (late w t g)) =
    rw g (λ k h. sent-Released n k p req resp error b (omega arith))
keep-releases f ms total n p x l b (answers req resp error pe re (denies en r w t k g)) =
    rw g (λ k h. sent-Released n k p req resp error b (omega arith))
keep-releases f ms total n p x l b (answers req resp error pe re (retries en r w t k i g)) =
    rw g (waiting-Before f (ms n) n req resp error en r p b)
keep-releases f ms total n p x l b (answers req resp error pe re (interrupts en r e w t k i g)) =
    rw g (λ k h. inl ((waiting-Before f (ms n) n req resp error en r p b).1 k (omega arith)))

-- The context of every attempt that was sent is released, save that of the last attempt where its
-- response is returned with a body, whose Close releases it.
pub run-releases :
    (f : Fixed) (ms : ℕ → Moment) (entries : Entries) (k : ℕ)
    → k < (run f ms entries).total_attempts
    → Released k (run f ms entries)
unfolding run
run-releases f ms entries =
    loop-rule f ms Before After (rounds_of f.max_retries)
      (keep-releases f ms (rounds_of f.max_retries)) (λ p b k h. inl (b.1 k (omega arith)))
      (rounds_of f.max_retries) 0 (start entries) (omega arith) (refl, λ k h. elim h [ ])
