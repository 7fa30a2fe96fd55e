-- ===== src/Budget/Threads/Alone.antt =====
-- retry_budget.go: a goroutine that runs alone computes the operations of `Ops`.
use http_governance_client.Common.{
  ℕ, zero, suc, ◌≡◌, refl, ◌∙◌, Bool, true, false, none, some, arith, ℤ, leb_ℤ, ltb_ℤ, eqb_ℤ,
  eq_of_parts, Bool-cases, inl, inr,
}
use http_governance_client.Budget.Config.{RetryBudgetConfig}
use http_governance_client.Budget.Ops.{balance_or, take, add_balance}
use http_governance_client.Budget.Threads.{
  Pc, reserve_start, reserve_loop, granted, denied, add_start, add_loop, added, Cell, step,
}

-- n steps of one goroutine with no other between them.
unfoldable pub alone : ℕ → Cell → Pc → Cell × Pc
unfolding step
alone zero m p = (m, p)
alone (suc n) m p = let (m', p') = step m p in alone n m' p'

abbrev pub answer : RetryBudgetConfig → Bool → Pc
answer cfg true = granted cfg
answer cfg false = denied cfg

swap_self : (v : ℤ) → eqb_ℤ v v ≡ true
swap_self v = ground arith

-- A goroutine that has returned takes no more steps.
answer-alone :
    (n : ℕ) (m : Cell) (cfg : RetryBudgetConfig) (b : Bool)
    → alone n m (answer cfg b) ≡ (m, answer cfg b)
unfolding alone
answer-alone zero m cfg b = refl
answer-alone (suc n) m cfg true = answer-alone n m cfg true
answer-alone (suc n) m cfg false = answer-alone n m cfg false

added-alone : (n : ℕ) (m : Cell) (a c : ℤ) → alone n m (added a c) ≡ (m, added a c)
unfolding alone
added-alone zero m a c = refl
added-alone (suc n) m a c = added-alone n m a c

-- The loop of `reserve` from an existing entry.
reserve_loop-alone :
    (n : ℕ) (cfg : RetryBudgetConfig) (v : ℤ)
    → alone (suc (suc (suc n))) (some v) (reserve_loop cfg)
      ≡ (some (take cfg v).0, answer cfg (take cfg v).1)
unfolding alone take
reserve_loop-alone n cfg v = elim (Bool-cases (ltb_ℤ cfg.capacity v)) [
  | inl e ↦ elim (Bool-cases (ltb_ℤ cfg.capacity cfg.retry_cost)) [
    | inl f ↦ rw (e, swap_self v, f) (answer-alone (suc n) _ cfg false)
    | inr f ↦ rw (e, swap_self v, f, swap_self cfg.capacity) (answer-alone n _ cfg true)
  ]
  | inr e ↦ elim (Bool-cases (ltb_ℤ v cfg.retry_cost)) [
    | inl f ↦ rw (e, f) (answer-alone (suc (suc n)) _ cfg false)
    | inr f ↦ rw (e, f, swap_self v) (answer-alone (suc n) _ cfg true)
  ]
]

-- After five steps at most, a goroutine that nobody disturbs has returned from `reserve` with what
-- `take` says, an entry that is missing being made full first.
pub reserve-alone :
    (n : ℕ) (m : Cell) (cfg : RetryBudgetConfig)
    → alone (suc (suc (suc (suc (suc n))))) m (reserve_start cfg) ≡ (
      some (take cfg (balance_or m cfg.capacity)).0,
      answer cfg (take cfg (balance_or m cfg.capacity)).1,
    )
unfolding alone
reserve-alone n none cfg = reserve_loop-alone n cfg cfg.capacity
reserve-alone n (some v) cfg = reserve_loop-alone (suc n) cfg v

add_loop-alone :
    (n : ℕ) (v amount cap : ℤ)
    → alone (suc (suc n)) (some v) (add_loop amount cap)
      ≡ (some (add_balance v amount cap), added amount cap)
unfolding alone add_balance
add_loop-alone n v amount cap = elim (Bool-cases (leb_ℤ cap v)) [
  | inl e ↦ elim (Bool-cases (eqb_ℤ v cap)) [
    | inl f ↦
        rw (e, f) (added-alone (suc n) (some v) amount cap ∙ ground (arith, eq_of_parts v cap))
    | inr f ↦ rw (e, f, swap_self v) (added-alone n _ amount cap)
  ]
  | inr e ↦ rw (e, swap_self v) (added-alone n _ amount cap)
]

-- After four steps at most, a goroutine that nobody disturbs has credited the balance with what
-- `add_balance` says.
pub add-alone :
    (n : ℕ) (m : Cell) (amount cap : ℤ)
    → alone (suc (suc (suc (suc n)))) m (add_start amount cap)
      ≡ (some (add_balance (balance_or m cap) amount cap), added amount cap)
unfolding alone
add-alone n none amount cap = add_loop-alone n cap amount cap
add-alone n (some v) amount cap = add_loop-alone (suc n) v amount cap
