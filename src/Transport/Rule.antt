-- ===== src/Transport/Rule.antt =====
-- transport.go: the invariant rule of the loop of RoundTrip.
use http_governance_client.Common.{ℕ, zero, suc, ◌+◌, ◌<◌, ◌≡◌, arith}
use mathlib.Core.Path.{subst}
use http_governance_client.Transport.Loop.{Moment, Fixed, Progress, Next, again, stop, round, loop}
use http_governance_client.Transport.View.{RoundView, round-View}

-- Where a round leads: to the invariant before the next attempt, or to the result.
abbrev pub Leads {ℓ} : (ℕ → Progress → Type ℓ) → (Progress → Type ℓ) → ℕ → Next → Type ℓ
Leads P Q n (again p) = P (suc n) p
Leads P Q n (stop p) = Q p

module _ {ℓ} (f : Fixed) (ms : ℕ → Moment) (P : ℕ → Progress → Type ℓ) (Q : Progress → Type ℓ)
    (total : ℕ)
    (keep : (n : ℕ) (p : Progress) (x : Next)
      → n < total
      → P n p
      → RoundView f (ms n) n p x
      → Leads P Q n x)
    (done : (p : Progress) → P total p → Q p) where
  lead :
      (rounds n : ℕ) (x : Next)
      → ((p : Progress) → P (suc n) p → Q (loop f ms rounds (suc n) p))
      → Leads P Q n x
      → Q (elim x [ again p' ↦ loop f ms rounds (suc n) p' | stop p' ↦ p' ])
  lead rounds n (again p) ih k = ih p k
  lead rounds n (stop p) ih k = k

  -- The invariant holds before each attempt, until a round stops or the rounds are used up.
  pub loop-rule :
      (rounds n : ℕ) (p : Progress) → n + rounds ≡ total → P n p → Q (loop f ms rounds n p)
  unfolding loop
  loop-rule zero n p e h = let e' : n ≡ total = omega arith in done p (subst (λ k. P k p) e' h)
  loop-rule (suc rounds) n p e h =
      lead rounds n (round f (ms n) n p) (λ p'. loop-rule rounds (suc n) p' (omega arith))
        (keep n p (round f (ms n) n p) (omega arith) h (round-View f (ms n) n p))
