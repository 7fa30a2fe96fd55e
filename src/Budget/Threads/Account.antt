-- ===== src/Budget/Threads/Account.antt =====
-- retry_budget.go: over any interleaving, the retries granted for a downstream cost at most a full
-- balance and the credits that came in.
use http_governance_client.Common.{
  ℕ, zero, suc, ◌+◌, ◌≤◌, ◌<◌, ◌≡◌, refl, true, false, none, some, arith, ℤ, pos_part, dec_lt,
  -ℤ_parts, +ℤ_parts, Bool-cases, List, [], ◌∷◌, inl, inr, ◌==◌,
}
use http_governance_client.Budget.Config.{RetryBudgetConfig}
use http_governance_client.Budget.Ops.{take, add_balance}
use http_governance_client.Budget.Bounds.{IsBalance, take_lem, add_balance_lem, min_ℤ}
use http_governance_client.Budget.Threads.{
  Pc, reserve_start, granted, added, Cell, System, step, turn, run, moved_to,
}
use http_governance_client.Budget.Threads.Refines.{
  Fits, IsSound, IsCell, capacity_of, has_returned, Atomic, takes, refuses, credits, ignores, opens,
  trims, moves, rests, config-Fits, credit-IsBalance, step-Atomic, step-IsSound, step-IsCell,
}

-- What a goroutine has taken from the balance for good, and what it has paid in.
abbrev pub spent : Pc → ℕ
spent (granted cfg) = pos_part cfg.retry_cost
spent _ = 0

abbrev pub earned : Pc → ℕ
earned (added amount cap) = pos_part amount
earned _ = 0

-- The balance; an entry that does not exist yet counts as full.
abbrev pub worth : ℕ → Cell → ℕ
worth full none = full
worth full (some v) = pos_part v

returned-spent : (p : Pc) → has_returned p ≡ false → (spent p ≡ 0) × (earned p ≡ 0)
returned-spent (reserve_start cfg) h = (refl, refl)
returned-spent p h = ground arith

take-spends :
    (cfg : RetryBudgetConfig) (v left : ℤ)
    → Fits cfg
    → IsBalance v
    → take cfg v ≡ (left, true)
    → pos_part left + pos_part cfg.retry_cost ≤ pos_part v
take-spends cfg v left k h e = ground (
  arith,
  take_lem cfg v k.valid k.capacity_fits k.cost_fits h,
  -ℤ_parts (min_ℤ v cfg.capacity) cfg.retry_cost,
)

take-keeps :
    (cfg : RetryBudgetConfig) (v left : ℤ)
    → Fits cfg
    → IsBalance v
    → take cfg v ≡ (left, false)
    → pos_part left ≤ pos_part v
take-keeps cfg v left k h e = ground (arith, take_lem cfg v k.valid k.capacity_fits k.cost_fits h)

add-earns :
    (v amount cap : ℤ)
    → IsBalance v
    → IsBalance amount
    → IsBalance cap
    → pos_part (add_balance v amount cap) ≤ pos_part v + pos_part amount
add-earns v amount cap h ha hc =
    rw (add_balance_lem v amount cap h ha hc) (ground (arith, +ℤ_parts v amount))

-- One step: what is granted comes out of the balance, and no more than a credit comes in.
Atomic-account :
    (full : ℕ) {m m' : Cell} {p p' : Pc}
    → Atomic m p m' p'
    → IsSound p
    → IsCell m
    → pos_part (capacity_of p) ≤ full
    → worth full m' + spent p' + earned p ≤ worth full m + spent p + earned p'
Atomic-account full {p} (takes cfg v left c r e f t g) s h u =
    let k = take-spends cfg v left (config-Fits p cfg s c) (rw f at h) t in
    rw (e, f, g) (omega (arith, k, returned-spent p r))
Atomic-account full {p} (refuses cfg v left c r e f t g) s h u =
    let k = take-keeps cfg v left (config-Fits p cfg s c) (rw f at h) t in
    rw (e, f, g) (omega (arith, k, returned-spent p r))
Atomic-account full {p} (credits amount cap v c r e f g) s h u =
    let (ha, hc) = credit-IsBalance p amount cap s c in
    let k = add-earns v amount cap (rw f at h) ha hc in
    rw (e, f, g) (omega (arith, k, returned-spent p r))
Atomic-account full {p} (ignores e f r g) s h u = rw (e, f, g) (omega (arith, returned-spent p r))
Atomic-account full {p} {p'} (opens e f q r) s h u =
    rw (e, f) (omega (arith, returned-spent p q, returned-spent p' r))
Atomic-account full {p} {p'} (trims cfg v c e l f q r) s h u =
    rw (e, f) (ground (arith, returned-spent p q, returned-spent p' r, config-Fits p cfg s c))
Atomic-account full {p} {p'} (moves e q r) s h u =
    rw e (omega (arith, returned-spent p q, returned-spent p' r))
Atomic-account full (rests e f) s h u = rw (e, f) (omega arith)

-- The sum over the goroutines below n.
unfoldable pub total : (Pc → ℕ) → ℕ → (ℕ → Pc) → ℕ
total w zero pc = 0
total w (suc n) pc = total w n pc + w (pc n)

total-moved_to_ge :
    (w : Pc → ℕ) (n : ℕ) (pc : ℕ → Pc) (i : ℕ) (p : Pc)
    → n ≤ i
    → total w n (moved_to pc i p) ≡ total w n pc
unfolding total
total-moved_to_ge w zero pc i p h = refl
total-moved_to_ge w (suc n) pc i p h = ground (arith, total-moved_to_ge w n pc i p)

total-moved_to :
    (w : Pc → ℕ) (n : ℕ) (pc : ℕ → Pc) (i : ℕ) (p : Pc)
    → i < n
    → total w n (moved_to pc i p) + w (pc i) ≡ total w n pc + w p
unfolding total
total-moved_to w zero pc i p h = absurd (omega arith)
total-moved_to w (suc n) pc i p h = elim (dec_lt i n) [
  | yes earlier ↦ ground (arith, total-moved_to w n pc i p earlier)
  | no last ↦ ground (arith, total-moved_to_ge w n pc i p)
]

-- Goroutines whose numbers are sound, with capacities up to `full`, and a balance in range.
pub record IsSystem (full : ℕ) (s : System) : Type 0 where
  pub sound : (i : ℕ) → IsSound (s.pc i)
  pub under : (i : ℕ) → pos_part (capacity_of (s.pc i)) ≤ full
  pub in_range : IsCell s.cell

-- A step stays with its configuration, or returns without one.
step-capacity :
    (m : Cell) (p : Pc) (full : ℕ)
    → pos_part (capacity_of p) ≤ full
    → pos_part (capacity_of (step m p).1) ≤ full
unfolding step
step-capacity none (reserve_start cfg) full h = h
step-capacity m p full h = ground arith

-- Every turn of every goroutine keeps the balance in range and the goroutines sound.
pub turn-IsSystem : (full : ℕ) (s : System) (i : ℕ) → IsSystem full s → IsSystem full (turn s i)
unfolding turn
turn-IsSystem full s i v = record {
  sound = λ j. elim (Bool-cases (i == j)) [
    | inl e ↦ rw e (step-IsSound s.cell (s.pc i) (v.sound i))
    | inr e ↦ rw e (v.sound j)
  ];
  under = λ j. elim (Bool-cases (i == j)) [
    | inl e ↦ rw e (step-capacity s.cell (s.pc i) full (v.under i))
    | inr e ↦ rw e (v.under j)
  ];
  in_range = step-IsCell s.cell (s.pc i) (v.sound i) v.in_range;
}

turn-account :
    (full n : ℕ) (s : System) (i : ℕ)
    → IsSystem full s
    → i < n
    → worth full (turn s i).cell + total spent n (turn s i).pc + total earned n s.pc
      ≤ worth full s.cell + total spent n s.pc + total earned n (turn s i).pc
unfolding turn
turn-account full n s i v h = omega (
  arith,
  Atomic-account full (step-Atomic s.cell (s.pc i) (v.sound i)) (v.sound i) v.in_range (v.under i),
  total-moved_to spent n s.pc i (step s.cell (s.pc i)).1 h,
  total-moved_to earned n s.pc i (step s.cell (s.pc i)).1 h,
)

abbrev pub AllBelow : ℕ → List ℕ → Type 0
AllBelow n [] = Unit
AllBelow n (i ∷ is) = (i < n) × AllBelow n is

-- Whatever the schedule, a balance in range stays in range and sound goroutines stay sound.
pub run-IsSystem :
    (full : ℕ) (s : System) (is : List ℕ) → IsSystem full s → IsSystem full (run s is)
unfolding run
run-IsSystem full s [] v = v
run-IsSystem full s (i ∷ is) v = run-IsSystem full (turn s i) is (turn-IsSystem full s i v)

-- Whatever the schedule of sound goroutines on a balance in range, the costs of the retries granted
-- along it and the balance left add up to no more than the balance at its start and the credits paid
-- in along it; an entry that does not exist yet counts as full.
pub run-account :
    (full n : ℕ) (s : System) (is : List ℕ)
    → IsSystem full s
    → AllBelow n is
    → worth full (run s is).cell + total spent n (run s is).pc + total earned n s.pc
      ≤ worth full s.cell + total spent n s.pc + total earned n (run s is).pc
unfolding run
run-account full n s [] v h = omega arith
run-account full n s (i ∷ is) v h = omega (
  arith,
  turn-account full n s i v h.0,
  run-account full n (turn s i) is (turn-IsSystem full s i v) h.1,
)
