-- ===== src/Budget/Laws.antt =====
-- retry_budget.go: the operations on all balances: keys are independent, a reservation is given back
-- at most once, and a refund undoes it.
use http_governance_client.Common.{
  ◌≡◌, refl, true, false, Option, none, some, arith, ℤ, ◌+ℤ◌, ◌-ℤ◌, IsInt64, +ℤ_parts, -ℤ_parts,
  eq_of_parts, inl, inr, Bool-cases,
}
use http_governance_client.Common.Text.{Text, text_eq, text_eq_refl}
use http_governance_client.Budget.Config.{RetryBudgetConfig, IsValid}
use http_governance_client.Budget.Ops.{
  Entries, Reservation, normalize_retry_budget_key, reserve, commit, refund, record_success,
}
use http_governance_client.Budget.Bounds.{IsBalance, take_lem, add_balance_lem, min_ℤ}

-- Reserving for one downstream leaves the balances of the others alone.
pub reserve-other :
    (b : Entries) (key other : Text) (cfg : RetryBudgetConfig)
    → text_eq (normalize_retry_budget_key key) other ≡ false
    → (reserve b key cfg).0 other ≡ b other
unfolding reserve
reserve-other b key other cfg h = ground arith

pub record_success-other :
    (b : Entries) (key other : Text) (cfg : RetryBudgetConfig)
    → text_eq (normalize_retry_budget_key key) other ≡ false
    → record_success b key cfg other ≡ b other
unfolding record_success
record_success-other b key other cfg h = ground arith

-- Once a reservation is committed or given back, giving it back changes nothing.
pub refund-commit : (b : Entries) (r : Option Reservation) → refund b (commit r) ≡ (b, commit r)
unfolding refund commit
refund-commit b none = refl
refund-commit b (some r) = refl

pub refund-refund :
    (b : Entries) (r : Option Reservation) → refund (refund b r).0 (refund b r).1 ≡ refund b r
unfolding refund
refund-refund b none = refl
refund-refund b (some r) = elim (Bool-cases r.done) [ inl e ↦ rw e | inr e ↦ rw e ]

-- Under an enabled and valid configuration of int64 numbers, giving back what was reserved, granted
-- or not, leaves the balance in range that there was, cut down to the capacity.
pub refund-reserve :
    (b : Entries) (key : Text) (cfg : RetryBudgetConfig) (v : ℤ)
    → cfg.enabled ≡ true
    → IsValid cfg
    → IsInt64 cfg.capacity
    → IsInt64 cfg.retry_cost
    → b (normalize_retry_budget_key key) ≡ some v
    → IsBalance v
    → (refund (reserve b key cfg).0 (reserve b key cfg).1).0 (normalize_retry_budget_key key)
      ≡ some (min_ℤ v cfg.capacity)
unfolding reserve refund
refund-reserve b key cfg v on ok fits fits' e h = ground (
  arith,
  text_eq_refl (normalize_retry_budget_key key),
  take_lem cfg v ok fits fits' h,
  add_balance_lem (min_ℤ v cfg.capacity -ℤ cfg.retry_cost) cfg.retry_cost cfg.capacity,
  -ℤ_parts (min_ℤ v cfg.capacity) cfg.retry_cost,
  +ℤ_parts (min_ℤ v cfg.capacity -ℤ cfg.retry_cost) cfg.retry_cost,
  eq_of_parts (min_ℤ v cfg.capacity -ℤ cfg.retry_cost +ℤ cfg.retry_cost) (min_ℤ v cfg.capacity),
)
