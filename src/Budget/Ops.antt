-- ===== src/Budget/Ops.antt =====
-- retry_budget.go: the balances by downstream and the operations on them, each run with no other
-- goroutine between its steps, so that every compare-and-swap finds the value just loaded.
use http_governance_client.Common.{
  Bool, true, false, Option, none, some, ℤ, leb_ℤ, ltb_ℤ, add64, sub64, if◌then◌else◌, [], ◌∷◌,
}
use http_governance_client.Common.Text.{Text, codes, text_eq, trim_space, to_lower}
use http_governance_client.Budget.Config.{RetryBudgetConfig}

-- entries: a key of the sync.Map leads to the balance of its entry. Keys are never deleted.
abbrev pub Entries : Type 0
Entries = Text → Option ℤ

abbrev pub store : Entries → Text → ℤ → Entries
store b k v j = if text_eq k j then some v else b j

pub record Reservation : Type 0 where
  pub key : Text
  pub cost : ℤ
  pub capacity : ℤ
  pub done : Bool

abbrev unclassified_if_empty : Text → Text
unclassified_if_empty [] = codes "unclassified"
unclassified_if_empty (c ∷ s) = c ∷ s

unfoldable pub normalize_retry_budget_key : Text → Text
normalize_retry_budget_key key = unclassified_if_empty (to_lower (trim_space key))

-- The balance that `entry` finds, a new entry being full.
abbrev pub balance_or : Option ℤ → ℤ → ℤ
balance_or (some balance) capacity = balance
balance_or none capacity = capacity

unfoldable pub entry : Entries → Text → ℤ → ℤ
entry b key capacity = balance_or (b key) capacity

-- One turn of the loop of `reserve` from a loaded balance: the balance left, and the answer.
unfoldable pub take : RetryBudgetConfig → ℤ → ℤ × Bool
take cfg loaded =
    let balance = if ltb_ℤ cfg.capacity loaded then cfg.capacity else loaded in
    if ltb_ℤ balance cfg.retry_cost then (balance, false) else (sub64 balance cfg.retry_cost, true)

reservation : RetryBudgetConfig → Text → Bool → Option Reservation
reservation cfg key false = none
reservation cfg key true =
    some (record { key = key; cost = cfg.retry_cost; capacity = cfg.capacity; done = false })

reserve_enabled : Entries → Text → RetryBudgetConfig → Entries × Option Reservation × Bool
unfolding entry take reservation
reserve_enabled b key cfg =
    let (left, reserved) = take cfg (entry b key cfg.capacity) in
    (store b key left, reservation cfg key reserved, reserved)

unfoldable pub reserve : Entries → Text → RetryBudgetConfig → Entries × Option Reservation × Bool
unfolding reserve_enabled
reserve b key cfg =
    if cfg.enabled then reserve_enabled b (normalize_retry_budget_key key) cfg else (b, none, true)

-- addRetryBudgetBalance on one balance.
unfoldable pub add_balance : ℤ → ℤ → ℤ → ℤ
add_balance balance amount capacity =
    if leb_ℤ capacity balance
    then capacity
    else if ltb_ℤ amount (sub64 capacity balance)
    then add64 balance amount
    else capacity

unfoldable pub add : Entries → Text → ℤ → ℤ → Entries
unfolding entry add_balance
add b key amount capacity = store b key (add_balance (entry b key capacity) amount capacity)

-- `done.Do(func() {})`; a nil reservation stays nil.
unfoldable pub commit : Option Reservation → Option Reservation
commit none = none
commit (some r) = some (record r { done = true })

refund_once : Entries → Reservation → Bool → Entries × Option Reservation
unfolding add
refund_once b r true = (b, some r)
refund_once b r false = (add b r.key r.cost r.capacity, some (record r { done = true }))

unfoldable pub refund : Entries → Option Reservation → Entries × Option Reservation
unfolding refund_once
refund b none = (b, none)
refund b (some r) = refund_once b r r.done

-- A success for a downstream that never reserved leaves no entry.
record_success_at : Entries → Text → RetryBudgetConfig → Option ℤ → Entries
unfolding add_balance
record_success_at b key cfg none = b
record_success_at b key cfg (some balance) =
    store b key (add_balance balance cfg.success_increment cfg.capacity)

unfoldable pub record_success : Entries → Text → RetryBudgetConfig → Entries
unfolding record_success_at
record_success b key cfg =
    let key' = normalize_retry_budget_key key in
    if cfg.enabled then record_success_at b key' cfg (b key') else b
