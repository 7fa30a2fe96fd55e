-- ===== src/Transport/Charges.antt =====
-- transport.go and retry_budget.go: what the retries of one request cost.
use http_governance_client.Common.{
  ℕ, zero, suc, ◌+◌, ◌-◌, ◌*◌, ◌^◌, ◌≤◌, ◌<◌, ◌≡◌, refl, ap, true, false, Option, none, some, arith,
  ℤ, pos, ◌≤ℤ◌, ◌+ℤ◌, ◌-ℤ◌, +ℤ_parts, -ℤ_parts, eq_of_parts, if◌then◌else◌, ◌⊎◌, inl, inr, ltb,
}
use http_governance_client.Common.Text.{Text, text_eq_refl}
use http_governance_client.Types.Message.{Request, Response, GoError}
use http_governance_client.Budget.Config.{IsValid}
use http_governance_client.Budget.Ops.{
  Entries, Reservation, normalize_retry_budget_key, reserve, refund, take, balance_or, entry,
}
use http_governance_client.Budget.Bounds.{IsBalance, min_ℤ, take_lem, add_balance_lem}
use http_governance_client.Transport.Retryable.{should_retry}
use http_governance_client.Transport.Loop.{
  Fixed, Moment, Progress, Next, run, rounds_of, start, sent, waiting, denied, given_back,
}
use http_governance_client.Transport.View.{
  RoundView, refuses, answers, ends, late, denies, retries, interrupts,
}
use http_governance_client.Transport.Rule.{Leads, loop-rule}
use http_governance_client.Transport.Settled.{wants-Allowed, used_up}

-- The budget that a request uses alone: its cost and capacity, and nobody else at the balances.
pub record IsQuiet (f : Fixed) (ms : ℕ → Moment) (cost cap : ℕ) : Type 0 where
  pub enabled : f.budget.enabled ≡ true
  pub valid : IsValid f.budget
  pub cost_is : f.budget.retry_cost ≡ pos cost
  pub capacity_is : f.budget.capacity ≡ pos cap
  pub cost_fits : cost < 2 ^ 63
  pub capacity_fits : cap < 2 ^ 63
  pub alone_before : (n : ℕ) (b : Entries) → (ms n).before_reserve b ≡ b
  pub alone_after : (n : ℕ) (b : Entries) → (ms n).while_waiting b ≡ b

module _ (f : Fixed) (ms : ℕ → Moment) (cost cap : ℕ) (q : IsQuiet f ms cost cap) where
  abbrev key : Text
  key = normalize_retry_budget_key f.downstream

  abbrev open_reservation : Reservation
  open_reservation = record { key = key; cost = pos cost; capacity = pos cap; done = false }

  take-exact :
      (v : ℕ)
      → v ≤ cap
      → take f.budget (pos v) ≡ (if ltb v cost then (pos v, false) else (pos (v - cost), true))
  take-exact v l = ground (
    arith,
    q.valid,
    q.cost_is,
    q.capacity_is,
    q.cost_fits,
    q.capacity_fits,
    take_lem f.budget (pos v),
    -ℤ_parts (pos v) (pos cost),
    eq_of_parts (pos v -ℤ pos cost) (pos (v - cost)),
  )

  -- What an entry counts as: a missing one is full, and a balance above the capacity is cut to it.
  abbrev pub Counts : Option ℤ → ℕ → Type 0
  Counts none v = v ≡ cap
  Counts (some x) v = IsBalance x × (min_ℤ x (pos cap) ≡ pos v)

  Counts-le : (o : Option ℤ) (v : ℕ) → Counts o v → v ≤ cap
  Counts-le none v h = omega arith
  Counts-le (some x) v h = ground arith

  Counts-exact : (o : Option ℤ) (v : ℕ) → v ≤ cap → o ≡ some (pos v) → Counts o v
  Counts-exact o v l h = rw h (ground (arith, q.capacity_fits))

  take-counted :
      (o : Option ℤ) (v : ℕ)
      → Counts o v
      → take f.budget (balance_or o (pos cap))
        ≡ (if ltb v cost then (pos v, false) else (pos (v - cost), true))
  take-counted none v h = rw h (take-exact cap (omega arith))
  take-counted (some x) v h = ground (
    arith,
    q.valid,
    q.cost_is,
    q.capacity_is,
    q.cost_fits,
    q.capacity_fits,
    take_lem f.budget x,
    -ℤ_parts (pos v) (pos cost),
    eq_of_parts (pos v -ℤ pos cost) (pos (v - cost)),
  )

  -- A reservation that is granted takes the cost, and one that is denied takes nothing.
  reserve-granted :
      (b en : Entries) (r : Option Reservation) (v : ℕ)
      → Counts (b key) v
      → reserve b f.downstream f.budget ≡ (en, r, true)
      → (w : ℕ) × (en key ≡ some (pos w)) × (w + cost ≡ v) × (r ≡ some open_reservation)
  unfolding reserve entry
  reserve-granted b en r v h e =
      let taken = take-counted (b key) v h in
      (
        v - cost,
        ground (arith, q.enabled, q.cost_is, q.capacity_is, text_eq_refl key, taken),
        ground (arith, q.enabled, q.cost_is, q.capacity_is, text_eq_refl key, taken),
        ground (arith, q.enabled, q.cost_is, q.capacity_is, text_eq_refl key, taken),
      )

  reserve-denied :
      (b en : Entries) (r : Option Reservation) (v : ℕ)
      → Counts (b key) v
      → reserve b f.downstream f.budget ≡ (en, r, false)
      → en key ≡ some (pos v)
  unfolding reserve entry
  reserve-denied b en r v h e =
      let taken = take-counted (b key) v h in
      ground (arith, q.enabled, q.cost_is, q.capacity_is, text_eq_refl key, taken)

  refund-open :
      (b : Entries) (w : ℕ)
      → b key ≡ some (pos w)
      → w + cost ≤ cap
      → (refund b (some open_reservation)).0 key ≡ some (pos (w + cost))
  unfolding refund
  refund-open b w h l = ground (
    arith,
    text_eq_refl key,
    add_balance_lem (pos w) (pos cost) (pos cap),
    +ℤ_parts (pos w) (pos cost),
    eq_of_parts (pos w +ℤ pos cost) (pos (w + cost)),
  )

  module _ (initial : Option ℤ) (v : ℕ) (counted : Counts initial v) where
    -- Before attempt n, n retries are paid, the last of them by a reservation that is still open.
    abbrev Paid : ℕ → Progress → Type 0
    Paid n p =
        (w : ℕ) × (p.total_attempts ≡ n)
        × (w + n * cost ≡ v)
        × (((n ≡ 0) × (p.pending ≡ none) × (p.entries key ≡ initial))
            ⊎ ((0 < n)
                × (pos n ≤ℤ f.max_retries)
                × (p.pending ≡ some open_reservation)
                × (p.entries key ≡ some (pos w))))

    -- In the end every attempt but the first is paid, and the entry has what is left, or it is as it
    -- was where nothing was taken.
    abbrev pub IsCharged : Progress → Type 0
    IsCharged p =
        (w : ℕ) × ((p.entries key ≡ some (pos w)) ⊎ ((p.entries key ≡ initial) × (w ≡ v)))
        × (w + (p.total_attempts - 1) * cost ≡ v)

    Paid-Counts : (n : ℕ) (p : Progress) (h : Paid n p) → Counts (p.entries key) h.0
    Paid-Counts n p (w, t, s, inl (z, c, b)) =
        let none_paid : n * cost ≡ 0 = rw z (omega arith) in
        let all : w ≡ v = omega arith in rw (b, all) counted
    Paid-Counts n p (w, t, s, inr (o, l, c, b)) =
        Counts-exact (p.entries key) w (omega (arith, Counts-le initial v counted)) b

    suc-cost : (n : ℕ) → suc n * cost ≡ n * cost + cost
    suc-cost n = omega arith

    less-cost : (t n : ℕ) → t - 1 ≡ n → (t - 1) * cost ≡ n * cost
    less-cost t n e = ap (λ (k : ℕ). k * cost) e

    -- A refund pays the last retry back.
    given_back-IsCharged :
        (n : ℕ) (p : Progress) (e : GoError) → Paid n p → IsCharged (given_back p e)
    unfolding refund
    given_back-IsCharged zero p e (w, t, s, inl (z, c, b)) =
        (w, rw c (inr (b, omega arith)), omega (arith, less-cost p.total_attempts 0 (omega arith)))
    given_back-IsCharged zero p e (w, t, s, inr (o, l, c, b)) = absurd (omega arith)
    given_back-IsCharged (suc n) p e (w, t, s, inl (z, c, b)) = absurd (omega arith)
    given_back-IsCharged (suc n) p e (w, t, s, inr (o, l, c, b)) = (
      w + cost,
      rw c (
          inl (refund-open p.entries w b (omega (arith, suc-cost n, Counts-le initial v counted)))),
      omega (arith, suc-cost n, less-cost p.total_attempts n (omega arith)),
    )

    waiting-Paid :
        (n : ℕ) (req : Request) (resp : Option Response) (error : Option GoError) (en : Entries)
        (r : Option Reservation) (p : Progress)
        → Paid n p
        → should_retry req f.policy n f.max_retries resp error (ms n).checked_at f.deadline ≡ true
        → reserve ((ms n).before_reserve p.entries) f.downstream f.budget ≡ (en, r, true)
        → Paid (suc n) (waiting f (ms n) n req resp error en r (sent n req resp error p))
    waiting-Paid n req resp error en r p h w k =
        let k' = rw (q.alone_before n p.entries) at k in
        let (w', b', s', o) = reserve-granted p.entries en r h.0 (Paid-Counts n p h) k' in
        (
          w',
          omega arith,
          omega (arith, suc-cost n, h.2),
          inr (
            omega arith,
            wants-Allowed f (ms n) n req resp error w,
            o,
            rw (q.alone_after n en) b',
          ),
        )

    Paid-left :
        (n : ℕ) (p : Progress) (h : Paid n p)
        → (p.entries key ≡ some (pos h.0)) ⊎ ((p.entries key ≡ initial) × (h.0 ≡ v))
    Paid-left n p (w, t, s, inl (z, c, b)) =
        let none_paid : n * cost ≡ 0 = rw z (omega arith) in inr (b, omega arith)
    Paid-left n p (w, t, s, inr (o, l, c, b)) = inl b

    sent-IsCharged :
        (n : ℕ) (req : Request) (resp : Option Response) (error : Option GoError) (p : Progress)
        → Paid n p
        → IsCharged (sent n req resp error p)
    sent-IsCharged n req resp error p h =
        (h.0, Paid-left n p h, omega (arith, less-cost (n + 1) n (omega arith), h.2))

    denied-IsCharged :
        (n : ℕ) (req : Request) (resp : Option Response) (error : Option GoError) (en : Entries)
        (r : Option Reservation) (p : Progress)
        → Paid n p
        → reserve ((ms n).before_reserve p.entries) f.downstream f.budget ≡ (en, r, false)
        → IsCharged (denied en (sent n req resp error p))
    denied-IsCharged n req resp error en r p h k = (
      h.0,
      inl (
          reserve-denied p.entries en r h.0 (Paid-Counts n p h)
            (rw (q.alone_before n p.entries) at k)),
      omega (arith, less-cost (n + 1) n (omega arith), h.2),
    )

    keep-Paid :
        (total n : ℕ) (p : Progress) (x : Next)
        → n < total
        → Paid n p
        → RoundView f (ms n) n p x
        → Leads Paid IsCharged n x
    keep-Paid total n p x l h (refuses e pe g) = rw g (given_back-IsCharged n p e h)
    keep-Paid total n p x l h (answers req resp error pe re (ends w g)) =
        rw g (sent-IsCharged n req resp error p h)
    keep-Paid total n p x l h (answers req resp error pe re (late w t g)) =
        rw g (sent-IsCharged n req resp error p h)
    keep-Paid total n p x l h (answers req resp error pe re (denies en r w t k g)) =
        rw g (denied-IsCharged n req resp error en r p h k)
    keep-Paid total n p x l h (answers req resp error pe re (retries en r w t k i g)) =
        rw g (waiting-Paid n req resp error en r p h w k)
    keep-Paid total n p x l h (answers req resp error pe re (interrupts en r e w t k i g)) = rw g (
        given_back-IsCharged (suc n)
          (waiting f (ms n) n req resp error en r (sent n req resp error p)) e
          (waiting-Paid n req resp error en r p h w k))

    done-IsCharged : (p : Progress) → Paid (rounds_of f.max_retries) p → IsCharged p
    done-IsCharged p (w, t, s, inl (z, c, b)) =
        let none_paid : rounds_of f.max_retries * cost ≡ 0 = rw z (omega arith) in
        (w, inr (b, omega arith), omega (arith, less-cost p.total_attempts 0 (omega arith)))
    done-IsCharged p (w, t, s, inr (o, l, c, b)) = absurd (used_up f.max_retries l)

    -- Under an enabled budget of positive int64 numbers, and where no other request uses the balance
    -- meanwhile, every attempt after the first costs exactly the cost of a retry, whatever the
    -- outcome: a retry that is denied or given up costs nothing. The balance counts as at most the
    -- capacity at the start, and a downstream without an entry as full.
    pub run-IsCharged : (entries : Entries) → entries key ≡ initial → IsCharged (run f ms entries)
    unfolding run
    run-IsCharged entries h =
        loop-rule f ms Paid IsCharged (rounds_of f.max_retries)
          (keep-Paid (rounds_of f.max_retries)) done-IsCharged (rounds_of f.max_retries) 0
          (start entries) (omega arith) (v, refl, omega arith, inl (refl, refl, h))
