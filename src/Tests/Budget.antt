-- ===== src/Tests/Budget.antt =====
-- retry_budget.go on concrete budgets.
use http_governance_client.Common.{
  ℕ, ◌+◌, ◌≤◌, ◌≡◌, refl, true, false, none, some, arith, pos, ◌+ℤ◌, ◌-ℤ◌, wrap64, add64, sub64,
  if◌then◌else◌, ◌⊎◌, inl, inr, List, [], ◌∷◌, Bool-cases, ◌==◌,
}
use http_governance_client.Common.Text.{Text, codes, text_eq, trim_space, to_lower}
use http_governance_client.Budget.Config.{
  RetryBudgetFile, RetryBudgetConfig, IsValid, to_config, to_config-IsValid, disabled,
}
use http_governance_client.Budget.Ops.{
  Entries, normalize_retry_budget_key, reserve, refund, take, add_balance, entry,
}
use http_governance_client.Budget.Bounds.{take_lem, add_balance_lem, min_ℤ}
use http_governance_client.Budget.Laws.{refund-reserve}
use http_governance_client.Budget.Threads.{
  reserve_start, reserve_take, add_start, System, step, run,
}
use http_governance_client.Budget.Threads.Refines.{Fits, Atomic, step-Atomic}
use http_governance_client.Budget.Threads.Account.{
  IsSystem, spent, earned, worth, total, run-IsSystem, run-account,
}
use http_governance_client.Budget.Threads.Alone.{alone, answer, reserve-alone}

abbrev three : RetryBudgetConfig
three = record { enabled = true; capacity = pos 3; retry_cost = pos 2; success_increment = pos 1 }

three-IsValid : IsValid three
three-IsValid = record {
  capacity_pos = omega arith;
  cost_pos = omega arith;
  increment_pos = omega arith;
}

three-Fits : Fits three
three-Fits = record { valid = three-IsValid; capacity_fits = omega arith; cost_fits = omega arith }

abbrev no_entries : Entries
no_entries _ = none

abbrev orders : Text
orders = codes "orders"

abbrev full_orders : Entries
full_orders k = if text_eq orders k then some (pos 3) else none

-- The first retry of a new downstream is granted from a full balance; the second is denied.
reserve_twice :
    (((reserve no_entries (codes " Orders ") three).0 orders) ≡ some (pos 1))
    × ((reserve (reserve no_entries orders three).0 orders three).2 ≡ false)
unfolding reserve normalize_retry_budget_key text_eq trim_space to_lower entry take sub64 wrap64
    ◌-ℤ◌
reserve_twice = (refl, refl)

file : RetryBudgetFile
file = record {
  enabled = some true;
  capacity = some (pos 3);
  retry_cost = some (pos 2);
  success_increment = some (pos 1);
}

to_config_example :
    (three ≡ disabled)
    ⊎ (IsValid three
        × (file.enabled ≡ some true)
        × (file.capacity ≡ some (pos 3))
        × (file.retry_cost ≡ some (pos 2))
        × (file.success_increment ≡ some (pos 1)))
unfolding file to_config
to_config_example = to_config-IsValid file three refl

take_example : take three (pos 9) ≡ (pos 3 -ℤ pos 2, true)
take_example = take_lem three (pos 9) three-IsValid (omega arith) (omega arith) (omega arith)

add_balance_example : add_balance (pos 2) (pos 5) (pos 3) ≡ min_ℤ (pos 3) (pos 2 +ℤ pos 5)
add_balance_example =
    add_balance_lem (pos 2) (pos 5) (pos 3) (omega arith) (omega arith) (omega arith)

orders-key : normalize_retry_budget_key (codes "Orders") ≡ orders
unfolding normalize_retry_budget_key trim_space to_lower
orders-key = refl

refund-reserve_example :
    (refund
        (reserve full_orders (codes "Orders") three).0
        (reserve full_orders (codes "Orders") three).1).0
      (normalize_retry_budget_key (codes "Orders"))
    ≡ some (min_ℤ (pos 3) (pos 3))
unfolding normalize_retry_budget_key trim_space to_lower text_eq
refund-reserve_example =
    refund-reserve full_orders (codes "Orders") three (pos 3) refl three-IsValid (omega arith)
      (omega arith) refl (omega arith)

step-Atomic_example :
    Atomic
      (some (pos 3))
      (reserve_take three (pos 3))
      (step (some (pos 3)) (reserve_take three (pos 3))).0
      (step (some (pos 3)) (reserve_take three (pos 3))).1
step-Atomic_example =
    step-Atomic (some (pos 3)) (reserve_take three (pos 3)) (three-Fits, omega arith, omega arith)

-- Goroutine 0 pays in; all others reserve.
abbrev crowd : System
crowd = record {
  cell = none;
  pc = λ i. if i == 0 then add_start (pos 1) (pos 3) else reserve_start three;
}

crowd-IsSystem : IsSystem 3 crowd
crowd-IsSystem = record {
  sound = λ i. elim (Bool-cases (i == 0)) [ inl e ↦ rw e (omega arith) | inr e ↦ rw e three-Fits ];
  under =
      λ i. elim (Bool-cases (i == 0)) [ inl e ↦ rw e (omega arith) | inr e ↦ rw e (omega arith) ];
  in_range = tt;
}

abbrev schedule : List ℕ
schedule = 1 ∷ 2 ∷ 1 ∷ 2 ∷ 1 ∷ 2 ∷ 1 ∷ 2 ∷ 0 ∷ 2 ∷ 0 ∷ 0 ∷ []

-- Goroutine 1 is granted, goroutine 2 loses its swap and is denied, and the credit comes in.
crowd-run : (run crowd schedule).cell ≡ some (pos 2)
unfolding run add64 sub64 wrap64 ◌-ℤ◌ ◌+ℤ◌
crowd-run = refl

run-IsSystem_example : IsSystem 3 (run crowd schedule)
run-IsSystem_example = run-IsSystem 3 crowd schedule crowd-IsSystem

run-account_example :
    worth 3 (run crowd schedule).cell
      + total spent 3 (run crowd schedule).pc
      + total earned 3 crowd.pc
    ≤ worth 3 crowd.cell + total spent 3 crowd.pc + total earned 3 (run crowd schedule).pc
run-account_example = run-account 3 3 crowd schedule crowd-IsSystem (omega arith)

reserve-alone_example :
    alone 5 none (reserve_start three)
    ≡ (some (take three (pos 3)).0, answer three (take three (pos 3)).1)
reserve-alone_example = reserve-alone 0 none three
