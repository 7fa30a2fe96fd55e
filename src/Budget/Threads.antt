-- ===== src/Budget/Threads.antt =====
-- retry_budget.go: the operations on one entry as goroutines take their steps, one access to the
-- sync.Map or to the atomic balance at a time. Tests on local variables belong to the step before.
pub mod Refines
pub mod Account
pub mod Alone
use http_governance_client.Common.{
  ℕ, zero, suc, ◌+◌, ◌≤◌, ◌<◌, ◌^◌, ◌≡◌, refl, Bool, true, false, Option, none, some, arith, ℤ, pos,
  negsuc, pos_part, neg_part, leb_ℤ, ltb_ℤ, eqb_ℤ, add64, sub64, if◌then◌else◌, List, [], ◌∷◌, ◌==◌,
}
use http_governance_client.Budget.Config.{RetryBudgetConfig}
use http_governance_client.Budget.Ops.{balance_or}

-- Where a goroutine stands, with the local variables that are live there.
pub data Pc : Type 0 where
  reserve_start : RetryBudgetConfig → Pc  -- before entries.Load in `entry`
  reserve_missing : RetryBudgetConfig → Pc  -- before LoadOrStore in `entry`
  reserve_loop : RetryBudgetConfig → Pc  -- head of the loop of `reserve`
  reserve_clamp : RetryBudgetConfig → ℤ → Pc  -- before the swap to the capacity
  reserve_take : RetryBudgetConfig → ℤ → Pc  -- before the swap that takes the cost
  granted denied : RetryBudgetConfig → Pc  -- `reserve` has returned
  success_start : ℤ → ℤ → Pc  -- before entries.Load in `recordSuccess`
  add_start : ℤ → ℤ → Pc  -- `add`, before entries.Load in `entry`
  add_missing : ℤ → ℤ → Pc  -- `add`, before LoadOrStore in `entry`
  add_loop : ℤ → ℤ → Pc  -- head of the loop of addRetryBudgetBalance, with amount and capacity
  add_clamp : ℤ → ℤ → ℤ → Pc  -- before the swap to the capacity
  add_swap : ℤ → ℤ → ℤ → ℤ → Pc  -- before the swap from the balance to `next`
  added : ℤ → ℤ → Pc  -- addRetryBudgetBalance has returned
  unknown : Pc  -- `recordSuccess` found no entry

-- The balance of the entry, if there is an entry.
abbrev pub Cell : Type 0
Cell = Option ℤ

-- The tests behind a loaded balance.
abbrev pub after_clamp : RetryBudgetConfig → ℤ → Pc
after_clamp cfg v = if ltb_ℤ v cfg.retry_cost then denied cfg else reserve_take cfg v

abbrev pub reserve_loaded : RetryBudgetConfig → ℤ → Pc
reserve_loaded cfg v = if ltb_ℤ cfg.capacity v then reserve_clamp cfg v else after_clamp cfg v

abbrev pub next_balance : ℤ → ℤ → ℤ → ℤ
next_balance amount cap v = if ltb_ℤ amount (sub64 cap v) then add64 v amount else cap

abbrev pub add_loaded : ℤ → ℤ → ℤ → Pc
add_loaded amount cap v =
    if leb_ℤ cap v
    then if eqb_ℤ v cap then added amount cap else add_clamp amount cap v
    else add_swap amount cap v (next_balance amount cap v)

-- CompareAndSwap on the balance, and where the goroutine goes on success and on failure.
abbrev pub swap : Cell → ℤ → ℤ → Pc → Pc → Cell × Pc
swap none old new won lost = (none, lost)
swap (some v) old new won lost = if eqb_ℤ v old then (some new, won) else (some v, lost)

-- entries.Load: a goroutine goes on to the found entry or to LoadOrStore.
abbrev pub found : Cell → Pc → Pc → Cell × Pc
found none missing there = (none, missing)
found (some v) missing there = (some v, there)

abbrev pub load : Cell → (ℤ → Pc) → Pc → Cell × Pc
load none k stuck = (none, stuck)
load (some v) k stuck = (some v, k v)

-- One step of one goroutine. A loop is only reached with an entry: without one it would stand still.
unfoldable pub step : Cell → Pc → Cell × Pc
step m (reserve_start cfg) = found m (reserve_missing cfg) (reserve_loop cfg)
step m (reserve_missing cfg) = (some (balance_or m cfg.capacity), reserve_loop cfg)
step m (reserve_loop cfg) = load m (reserve_loaded cfg) (reserve_loop cfg)
step m (reserve_clamp cfg v) =
    swap m v cfg.capacity (after_clamp cfg cfg.capacity) (reserve_loop cfg)
step m (reserve_take cfg v) = swap m v (sub64 v cfg.retry_cost) (granted cfg) (reserve_loop cfg)
step m (granted cfg) = (m, granted cfg)
step m (denied cfg) = (m, denied cfg)
step m (success_start amount cap) = found m unknown (add_loop amount cap)
step m (add_start amount cap) = found m (add_missing amount cap) (add_loop amount cap)
step m (add_missing amount cap) = (some (balance_or m cap), add_loop amount cap)
step m (add_loop amount cap) = load m (add_loaded amount cap) (add_loop amount cap)
step m (add_clamp amount cap v) = swap m v cap (added amount cap) (add_loop amount cap)
step m (add_swap amount cap v next) = swap m v next (added amount cap) (add_loop amount cap)
step m (added amount cap) = (m, added amount cap)
step m unknown = (m, unknown)

-- Every goroutine that uses the entry, and the balance.
pub record System : Type 0 where
  pub cell : Cell
  pub pc : ℕ → Pc

abbrev pub moved_to : (ℕ → Pc) → ℕ → Pc → ℕ → Pc
moved_to pc i p j = if i == j then p else pc j

unfoldable pub turn : System → ℕ → System
unfolding step
turn s i = let (cell, pc) = step s.cell (s.pc i) in record { cell = cell; pc = moved_to s.pc i pc }

-- A schedule names the goroutine that takes each step.
unfoldable pub run : System → List ℕ → System
unfolding turn
run s [] = s
run s (i ∷ is) = run (turn s i) is
