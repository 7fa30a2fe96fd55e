-- ===== src/Transport/Governed.antt =====
-- transport.go: what RoundTrip as a whole promises of its attempts and its answer.
use http_governance_client.Common.{
  ℕ, ◌≤◌, ◌≡◌, refl, ap, true, false, none, arith, ℤ, pos, negsuc, ◌<ℤ◌, ◌≤ℤ◌, ◌⊎◌, inl, inr,
}
use http_governance_client.Types.Message.{Request}
use http_governance_client.Budget.Ops.{Entries}
use http_governance_client.Config.Match.{PathMatch}
use http_governance_client.Transport.Resolve.{Globals}
use http_governance_client.Transport.Loop.{Fixed, Progress, Moment, start, loop, rounds_of, run}
use http_governance_client.Transport.Retryable.{is_retryable_request}
use http_governance_client.Transport.Attempts.{count_sends, sent_of-le, run-attempts}
use http_governance_client.Transport.RoundTrip.{
  Transport, Outside, original_no_more_retry, effective_max_retries, fixed_of, resolved, fixed_for,
  governed, answer,
}

no_more_retry-zero :
    (req : Request) (z : ℤ)
    → original_no_more_retry req ≡ true
    → effective_max_retries req z ≡ pos 0
unfolding effective_max_retries
no_more_retry-zero req z h = ground arith

-- A body that cannot be sent again.
abbrev pub IsOneShot : Request → Type 0
IsOneShot req = (req.has_body ≡ true) × (req.get_body ≡ none)

one_shot-le : (req : Request) (z : ℤ) → IsOneShot req → effective_max_retries req z ≤ℤ pos 0
unfolding effective_max_retries
one_shot-le req z h = ground arith

rounds-le : (z : ℤ) → z ≤ℤ pos 0 → rounds_of z ≤ 1
rounds-le (pos n) h = omega arith
rounds-le (negsuc n) h = omega arith

fixed-retries :
    (glob : PathMatch) (g : Globals) (t : Transport) (o : Outside) (req : Request)
    → (fixed_for glob g t o req).max_retries
      ≡ effective_max_retries req (resolved glob g t req).policy.max_retries
unfolding fixed_of
fixed-retries glob g t o req = refl

once-le :
    (glob : PathMatch) (g : Globals) (t : Transport) (o : Outside) (req : Request)
    → (original_no_more_retry req ≡ true) ⊎ IsOneShot req
    → (fixed_for glob g t o req).max_retries ≤ℤ pos 0
once-le glob g t o req (inl h) =
    rw
      (
        fixed-retries glob g t o req,
        no_more_retry-zero req (resolved glob g t req).policy.max_retries h,
      )
      (omega arith)
once-le glob g t o req (inr h) =
    rw (fixed-retries glob g t o req) (one_shot-le req (resolved glob g t req).policy.max_retries h)

-- A request is sent once at most where its caller forbids retries, and where it has a body that
-- cannot be sent again, whatever the policy.
pub governed-once :
    (glob : PathMatch) (g : Globals) (t : Transport) (o : Outside) (req : Request)
    (entries : Entries)
    → (original_no_more_retry req ≡ true) ⊎ IsOneShot req
    → count_sends (governed glob g t o req entries).trace ≤ 1
unfolding governed
governed-once glob g t o req entries h = omega (
  arith,
  run-attempts (fixed_for glob g t o req) o.moments entries,
  sent_of-le (fixed_for glob g t o req).request.url
      (run (fixed_for glob g t o req) o.moments entries).total_attempts,
  rounds-le (fixed_for glob g t o req).max_retries (once-le glob g t o req h),
)

effective-negative :
    (req : Request) (z : ℤ)
    → z <ℤ pos 0
    → original_no_more_retry req ≡ false
    → effective_max_retries req z <ℤ pos 0
unfolding effective_max_retries is_retryable_request
effective-negative req z n h = ground arith

rounds-negative : (z : ℤ) → z <ℤ pos 0 → rounds_of z ≡ 0
rounds-negative (pos n) h = absurd (omega arith)
rounds-negative (negsuc n) h = refl

run-negative :
    (f : Fixed) (ms : ℕ → Moment) (entries : Entries)
    → f.max_retries <ℤ pos 0
    → run f ms entries ≡ start entries
unfolding run
run-negative f ms entries h =
    ap (λ (k : ℕ). loop f ms k 0 (start entries)) (rounds-negative f.max_retries h)

-- Without a provider the retry count of the resolver is not normalized. If it is negative and the
-- caller does not forbid retries, nothing is sent for a request that is not skipped, and its answer
-- is neither a response nor an error.
pub governed-negative :
    (glob : PathMatch) (g : Globals) (t : Transport) (o : Outside) (req : Request)
    (entries : Entries)
    → (resolved glob g t req).policy.max_retries <ℤ pos 0
    → original_no_more_retry req ≡ false
    → (count_sends (governed glob g t o req entries).trace ≡ 0)
      × ((governed glob g t o req entries).response ≡ none)
      × ((governed glob g t o req entries).error ≡ none)
unfolding governed
governed-negative glob g t o req entries n h =
    let e = run-negative (fixed_for glob g t o req) o.moments entries (
      rw (fixed-retries glob g t o req)
        (effective-negative req (resolved glob g t req).policy.max_retries n h)) in
    (
      ap (λ (p : Progress). count_sends p.trace) e,
      ap (λ (p : Progress). (answer p).0) e,
      ap (λ (p : Progress). (answer p).1) e,
    )
