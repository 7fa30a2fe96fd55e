-- ===== src/Budget/Threads/Refines.antt =====
-- retry_budget.go: each return of a goroutine is one operation on the balance at one moment, however
-- the goroutines interleave. The steps before it change the balance only as the operations may.
use http_governance_client.Common.{
  ◌≡◌, refl, Bool, true, false, Option, none, some, arith, ℤ, pos, leb_ℤ, ltb_ℤ, eqb_ℤ, eq_of_parts,
  sub64, Bool-cases, inl, inr, ◌<ℤ◌, ◌≤ℤ◌, IsInt64,
}
use http_governance_client.Budget.Config.{RetryBudgetConfig, IsValid}
use http_governance_client.Budget.Ops.{take, add_balance}
use http_governance_client.Budget.Bounds.{IsBalance, take-range, add_balance-range}
use http_governance_client.Budget.Threads.{
  Pc, reserve_start, reserve_missing, reserve_loop, reserve_clamp, reserve_take, granted, denied,
  success_start, add_start, add_missing, add_loop, add_clamp, add_swap, added, unknown, Cell, step,
  next_balance,
}

-- A configuration whose numbers are positive and fit.
pub record Fits (cfg : RetryBudgetConfig) : Type 0 where
  pub valid : IsValid cfg
  pub capacity_fits : IsInt64 cfg.capacity
  pub cost_fits : IsInt64 cfg.retry_cost

-- What the local variables of a goroutine say.
abbrev pub IsSound : Pc → Type 0
IsSound (reserve_start cfg) = Fits cfg
IsSound (reserve_missing cfg) = Fits cfg
IsSound (reserve_loop cfg) = Fits cfg
IsSound (reserve_clamp cfg v) = Fits cfg × (cfg.capacity <ℤ v)
IsSound (reserve_take cfg v) = Fits cfg × (cfg.retry_cost ≤ℤ v) × (v ≤ℤ cfg.capacity)
IsSound (granted cfg) = Fits cfg
IsSound (denied cfg) = Fits cfg
IsSound (success_start amount cap) = IsBalance amount × IsBalance cap
IsSound (add_start amount cap) = IsBalance amount × IsBalance cap
IsSound (add_missing amount cap) = IsBalance amount × IsBalance cap
IsSound (add_loop amount cap) = IsBalance amount × IsBalance cap
IsSound (add_clamp amount cap v) = (IsBalance amount × IsBalance cap) × (cap <ℤ v)
IsSound (add_swap amount cap v next) =
    (IsBalance amount × IsBalance cap) × (v <ℤ cap) × (next ≡ next_balance amount cap v)
IsSound (added amount cap) = IsBalance amount × IsBalance cap
IsSound unknown = Unit

abbrev pub IsCell : Cell → Type 0
IsCell none = Unit
IsCell (some v) = IsBalance v

-- The configuration that a goroutine reserves under, and the amount and capacity that it adds with.
abbrev pub config_of : Pc → Option RetryBudgetConfig
config_of (reserve_start cfg) = some cfg
config_of (reserve_missing cfg) = some cfg
config_of (reserve_loop cfg) = some cfg
config_of (reserve_clamp cfg v) = some cfg
config_of (reserve_take cfg v) = some cfg
config_of (granted cfg) = some cfg
config_of (denied cfg) = some cfg
config_of _ = none

abbrev pub credit_of : Pc → Option (ℤ × ℤ)
credit_of (success_start amount cap) = some (amount, cap)
credit_of (add_start amount cap) = some (amount, cap)
credit_of (add_missing amount cap) = some (amount, cap)
credit_of (add_loop amount cap) = some (amount, cap)
credit_of (add_clamp amount cap v) = some (amount, cap)
credit_of (add_swap amount cap v next) = some (amount, cap)
credit_of (added amount cap) = some (amount, cap)
credit_of _ = none

abbrev pub capacity_of : Pc → ℤ
capacity_of (reserve_start cfg) = cfg.capacity
capacity_of (reserve_missing cfg) = cfg.capacity
capacity_of (reserve_loop cfg) = cfg.capacity
capacity_of (reserve_clamp cfg v) = cfg.capacity
capacity_of (reserve_take cfg v) = cfg.capacity
capacity_of (granted cfg) = cfg.capacity
capacity_of (denied cfg) = cfg.capacity
capacity_of (success_start amount cap) = cap
capacity_of (add_start amount cap) = cap
capacity_of (add_missing amount cap) = cap
capacity_of (add_loop amount cap) = cap
capacity_of (add_clamp amount cap v) = cap
capacity_of (add_swap amount cap v next) = cap
capacity_of (added amount cap) = cap
capacity_of unknown = pos 0

abbrev pub has_returned : Pc → Bool
has_returned (granted _) = true
has_returned (denied _) = true
has_returned (added _ _) = true
has_returned unknown = true
has_returned _ = false

-- One step as an operation on the balance. The first three return to the caller.
pub data Atomic (m : Cell) (p : Pc) (m' : Cell) (p' : Pc) : Type 0 where
  takes :
      (cfg : RetryBudgetConfig) (v left : ℤ)
      → config_of p ≡ some cfg
      → has_returned p ≡ false
      → p' ≡ granted cfg
      → m ≡ some v
      → take cfg v ≡ (left, true)
      → m' ≡ some left
      → Atomic m p m' p'
  refuses :
      (cfg : RetryBudgetConfig) (v left : ℤ)
      → config_of p ≡ some cfg
      → has_returned p ≡ false
      → p' ≡ denied cfg
      → m ≡ some v
      → take cfg v ≡ (left, false)
      → m' ≡ some left
      → Atomic m p m' p'
  credits :
      (amount cap v : ℤ)
      → credit_of p ≡ some (amount, cap)
      → has_returned p ≡ false
      → p' ≡ added amount cap
      → m ≡ some v
      → m' ≡ some (add_balance v amount cap)
      → Atomic m p m' p'
  -- A success for a downstream without an entry.
  ignores : m ≡ none → m' ≡ none → has_returned p ≡ false → p' ≡ unknown → Atomic m p m' p'
  -- A new entry is full.
  opens :
      m ≡ none
      → m' ≡ some (capacity_of p)
      → has_returned p ≡ false
      → has_returned p' ≡ false
      → Atomic m p m' p'
  -- A balance above the capacity of a new configuration is cut down before the cost is taken.
  trims :
      (cfg : RetryBudgetConfig) (v : ℤ)
      → config_of p ≡ some cfg
      → m ≡ some v
      → cfg.capacity <ℤ v
      → m' ≡ some cfg.capacity
      → has_returned p ≡ false
      → has_returned p' ≡ false
      → Atomic m p m' p'
  moves : m' ≡ m → has_returned p ≡ false → has_returned p' ≡ false → Atomic m p m' p'
  rests : m' ≡ m → p' ≡ p → Atomic m p m' p'

-- The proof of `Atomic` for a step of a goroutine that stands at `p`.
abbrev Refines : Cell → Pc → Type 0
Refines m p = Atomic m p (step m p).0 (step m p).1

reserve_loop-Atomic : (x : ℤ) (cfg : RetryBudgetConfig) → Refines (some x) (reserve_loop cfg)
unfolding step take
reserve_loop-Atomic x cfg = elim (Bool-cases (ltb_ℤ cfg.capacity x)) [
  | inl e ↦ rw e (moves refl refl refl)
  | inr e ↦ elim (Bool-cases (ltb_ℤ x cfg.retry_cost)) [
    | inl f ↦ rw (e, f) (refuses cfg x x refl refl refl refl (ground arith) refl)
    | inr f ↦ rw (e, f) (moves refl refl refl)
  ]
]

reserve_clamp-Atomic :
    (x v : ℤ) (cfg : RetryBudgetConfig)
    → IsSound (reserve_clamp cfg v)
    → Refines (some x) (reserve_clamp cfg v)
unfolding step take
reserve_clamp-Atomic x v cfg s = elim (Bool-cases (eqb_ℤ x v)) [
  | inr e ↦ rw e (moves refl refl refl)
  | inl e ↦ elim (Bool-cases (ltb_ℤ cfg.capacity cfg.retry_cost)) [
    | inl f ↦ rw (e, f) (refuses cfg x cfg.capacity refl refl refl refl (ground arith) refl)
    | inr f ↦ rw (e, f) (trims cfg x refl refl (ground arith) refl refl refl)
  ]
]

reserve_take-Atomic :
    (x v : ℤ) (cfg : RetryBudgetConfig)
    → IsSound (reserve_take cfg v)
    → Refines (some x) (reserve_take cfg v)
unfolding step take
reserve_take-Atomic x v cfg s = elim (Bool-cases (eqb_ℤ x v)) [
  | inl e ↦ rw e (
      takes cfg x (sub64 v cfg.retry_cost) refl refl refl refl (ground (arith, eq_of_parts x v))
        refl)
  | inr e ↦ rw e (moves refl refl refl)
]

add_loop-Atomic : (x amount cap : ℤ) → Refines (some x) (add_loop amount cap)
unfolding step add_balance
add_loop-Atomic x amount cap = elim (Bool-cases (leb_ℤ cap x)) [
  | inr e ↦ rw e (moves refl refl refl)
  | inl e ↦ elim (Bool-cases (eqb_ℤ x cap)) [
    | inl f ↦
        rw (e, f) (credits amount cap x refl refl refl refl (ground (arith, eq_of_parts x cap)))
    | inr f ↦ rw (e, f) (moves refl refl refl)
  ]
]

add_clamp-Atomic :
    (x v amount cap : ℤ)
    → IsSound (add_clamp amount cap v)
    → Refines (some x) (add_clamp amount cap v)
unfolding step add_balance
add_clamp-Atomic x v amount cap s = elim (Bool-cases (eqb_ℤ x v)) [
  | inl e ↦ rw e (credits amount cap x refl refl refl refl (ground arith))
  | inr e ↦ rw e (moves refl refl refl)
]

add_swap-Atomic :
    (x v amount cap next : ℤ)
    → IsSound (add_swap amount cap v next)
    → Refines (some x) (add_swap amount cap v next)
unfolding step add_balance
add_swap-Atomic x v amount cap next s = elim (Bool-cases (eqb_ℤ x v)) [
  | inl e ↦ rw e (credits amount cap x refl refl refl refl (ground (arith, eq_of_parts x v)))
  | inr e ↦ rw e (moves refl refl refl)
]

-- Whatever the balance is when a sound goroutine takes a step, the step is one atomic operation on
-- it: `take` or `add_balance` as a whole when it returns, the opening of a full entry, the cut of a
-- balance above the capacity down to it, or no change.
pub step-Atomic : (m : Cell) (p : Pc) → IsSound p → Atomic m p (step m p).0 (step m p).1
unfolding step
step-Atomic none (reserve_start cfg) s = moves refl refl refl
step-Atomic (some v) (reserve_start cfg) s = moves refl refl refl
step-Atomic none (reserve_missing cfg) s = opens refl refl refl refl
step-Atomic (some v) (reserve_missing cfg) s = moves refl refl refl
step-Atomic none (reserve_loop cfg) s = moves refl refl refl
step-Atomic (some v) (reserve_loop cfg) s = reserve_loop-Atomic v cfg
step-Atomic none (reserve_clamp cfg v) s = moves refl refl refl
step-Atomic (some x) (reserve_clamp cfg v) s = reserve_clamp-Atomic x v cfg s
step-Atomic none (reserve_take cfg v) s = moves refl refl refl
step-Atomic (some x) (reserve_take cfg v) s = reserve_take-Atomic x v cfg s
step-Atomic m (granted cfg) s = rests refl refl
step-Atomic m (denied cfg) s = rests refl refl
step-Atomic none (success_start amount cap) s = ignores refl refl refl refl
step-Atomic (some v) (success_start amount cap) s = moves refl refl refl
step-Atomic none (add_start amount cap) s = moves refl refl refl
step-Atomic (some v) (add_start amount cap) s = moves refl refl refl
step-Atomic none (add_missing amount cap) s = opens refl refl refl refl
step-Atomic (some v) (add_missing amount cap) s = moves refl refl refl
step-Atomic none (add_loop amount cap) s = moves refl refl refl
step-Atomic (some v) (add_loop amount cap) s = add_loop-Atomic v amount cap
step-Atomic none (add_clamp amount cap v) s = moves refl refl refl
step-Atomic (some x) (add_clamp amount cap v) s = add_clamp-Atomic x v amount cap s
step-Atomic none (add_swap amount cap v next) s = moves refl refl refl
step-Atomic (some x) (add_swap amount cap v next) s = add_swap-Atomic x v amount cap next s
step-Atomic m (added amount cap) s = rests refl refl
step-Atomic m unknown s = rests refl refl

-- A step keeps what the local variables say.
pub step-IsSound : (m : Cell) (p : Pc) → IsSound p → IsSound (step m p).1
unfolding step
step-IsSound none (reserve_start cfg) s = s
step-IsSound m p s = ground arith

pub config-Fits : (p : Pc) (cfg : RetryBudgetConfig) → IsSound p → config_of p ≡ some cfg → Fits cfg
config-Fits (reserve_start cfg) c s e = ground arith
config-Fits p c s e = ground arith

pub credit-IsBalance :
    (p : Pc) (amount cap : ℤ)
    → IsSound p
    → credit_of p ≡ some (amount, cap)
    → IsBalance amount × IsBalance cap
credit-IsBalance (add_start a c) amount cap s e = ground arith
credit-IsBalance p amount cap s e = ground arith

pub capacity-IsBalance : (p : Pc) → IsSound p → IsBalance (capacity_of p)
capacity-IsBalance (reserve_start cfg) s = ground arith
capacity-IsBalance p s = ground arith

take-IsBalance :
    (cfg : RetryBudgetConfig) (v : ℤ) → Fits cfg → IsBalance v → IsBalance (take cfg v).0
take-IsBalance cfg v k h = (take-range cfg v k.valid k.capacity_fits k.cost_fits h).0

Atomic-IsCell : {m m' : Cell} {p p' : Pc} → Atomic m p m' p' → IsSound p → IsCell m → IsCell m'
Atomic-IsCell {p} (takes cfg v left c r e f t g) s h =
    rw g (rw t at (take-IsBalance cfg v (config-Fits p cfg s c) (rw f at h)))
Atomic-IsCell {p} (refuses cfg v left c r e f t g) s h =
    rw g (rw t at (take-IsBalance cfg v (config-Fits p cfg s c) (rw f at h)))
Atomic-IsCell {p} (credits amount cap v c r e f g) s h =
    let (ha, hc) = credit-IsBalance p amount cap s c in
    rw g (add_balance-range v amount cap (rw f at h) ha hc).0
Atomic-IsCell (ignores e f r g) s h = rw f tt
Atomic-IsCell {p} (opens e f q r) s h = rw f (capacity-IsBalance p s)
Atomic-IsCell {p} (trims cfg v c e l f q r) s h = rw f (ground (arith, config-Fits p cfg s c))
Atomic-IsCell (moves e q r) s h = rw e h
Atomic-IsCell (rests e f) s h = rw e h

-- A step keeps the balance in range.
pub step-IsCell : (m : Cell) (p : Pc) → IsSound p → IsCell m → IsCell (step m p).0
step-IsCell m p s c = Atomic-IsCell (step-Atomic m p s) s c
