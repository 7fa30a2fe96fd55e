-- ===== src/Budget/Bounds.antt =====
-- retry_budget.go: what the operations on one balance compute in exact integers, with no overflow,
-- and the bounds that every stored balance keeps.
use http_governance_client.Common.{
  ◌≡◌, true, false, arith, ℤ, pos, ◌≤ℤ◌, ◌+ℤ◌, ◌-ℤ◌, leb_ℤ, ltb_ℤ, IsInt64, sub64, add64_eq,
  sub64_eq, +ℤ_parts, -ℤ_parts, if◌then◌else◌,
}
use http_governance_client.Budget.Config.{RetryBudgetConfig, IsValid}
use http_governance_client.Budget.Ops.{take, add_balance}

-- The smaller of two integers.
abbrev pub min_ℤ : ℤ → ℤ → ℤ
min_ℤ a b = if leb_ℤ a b then a else b

-- A balance that an int64 can hold and that is not in debt.
abbrev pub IsBalance : ℤ → Type 0
IsBalance v = (pos 0 ≤ℤ v) × IsInt64 v

-- The difference of two balances is exact.
sub64-balance : (a b : ℤ) → IsBalance a → IsBalance b → sub64 a b ≡ a -ℤ b
sub64-balance a b ha hb = sub64_eq a b (ground (arith, -ℤ_parts a b))

-- For a valid configuration of int64 numbers, a reservation takes the cost from a balance in range
-- that is first cut down to the capacity, or is denied because that is less than the cost; nothing
-- overflows.
pub take_lem :
    (cfg : RetryBudgetConfig) (v : ℤ)
    → IsValid cfg
    → IsInt64 cfg.capacity
    → IsInt64 cfg.retry_cost
    → IsBalance v
    → take cfg v ≡ (
        if ltb_ℤ (min_ℤ v cfg.capacity) cfg.retry_cost
        then (min_ℤ v cfg.capacity, false)
        else (min_ℤ v cfg.capacity -ℤ cfg.retry_cost, true))
unfolding take
take_lem cfg v ok fits fits' h =
    ground (arith, sub64-balance v cfg.retry_cost, sub64-balance cfg.capacity cfg.retry_cost)

-- For numbers in range, a credit adds the amount up to the capacity, and nothing overflows.
pub add_balance_lem :
    (v amount cap : ℤ)
    → IsBalance v
    → IsBalance amount
    → IsBalance cap
    → add_balance v amount cap ≡ min_ℤ cap (v +ℤ amount)
unfolding add_balance
add_balance_lem v amount cap h ha hc =
    ground (arith, sub64-balance cap v hc h, add64_eq v amount, +ℤ_parts v amount, -ℤ_parts cap v)

-- What one operation makes of a balance in range stays in range.
pub take-range :
    (cfg : RetryBudgetConfig) (v : ℤ)
    → IsValid cfg
    → IsInt64 cfg.capacity
    → IsInt64 cfg.retry_cost
    → IsBalance v
    → IsBalance (take cfg v).0 × ((take cfg v).0 ≤ℤ cfg.capacity)
take-range cfg v ok fits fits' h =
    rw (take_lem cfg v ok fits fits' h)
      (ground (arith, -ℤ_parts (min_ℤ v cfg.capacity) cfg.retry_cost))

pub add_balance-range :
    (v amount cap : ℤ)
    → IsBalance v
    → IsBalance amount
    → IsBalance cap
    → IsBalance (add_balance v amount cap) × (add_balance v amount cap ≤ℤ cap)
add_balance-range v amount cap h ha hc =
    rw (add_balance_lem v amount cap h ha hc) (ground (arith, +ℤ_parts v amount))
