-- ===== src/Budget/Config.antt =====
-- retry_budget.go: the budget section of a configuration file, and its validation.
use http_governance_client.Common.{
  ◌≡◌, Bool, true, false, Option, none, some, arith, ℤ, pos, ◌<ℤ◌, leb_ℤ, if◌then◌else◌, Result, ok,
  err, ◌>>=◌, ◌>>◌, fail_if, ◌⊎◌,
}

pub data BudgetField : Type 0 where
  capacity retry_cost success_increment : BudgetField

-- The messages of the two validations.
pub data BudgetError : Type 0 where
  must_be_positive : BudgetField → BudgetError
  must_be_positive_when_enabled : BudgetField → BudgetError

-- A nil pointer is `none`.
pub record RetryBudgetFile : Type 0 where
  pub enabled : Option Bool
  pub capacity : Option ℤ
  pub retry_cost : Option ℤ
  pub success_increment : Option ℤ

pub record RetryBudgetConfig : Type 0 where
  pub enabled : Bool
  pub capacity : ℤ
  pub retry_cost : ℤ
  pub success_increment : ℤ

-- The zero value, which disables the budget.
abbrev pub disabled : RetryBudgetConfig
disabled = record {
  enabled = false;
  capacity = pos 0;
  retry_cost = pos 0;
  success_increment = pos 0;
}

-- `x == nil || *x <= 0` fails; otherwise `*x`.
required : Option ℤ → BudgetField → Result BudgetError ℤ
required none f = err (must_be_positive_when_enabled f)
required (some x) f = if leb_ℤ x (pos 0) then err (must_be_positive_when_enabled f) else ok x

to_config_enabled : RetryBudgetFile → Result BudgetError RetryBudgetConfig
unfolding required
to_config_enabled f = do
  c ← required f.capacity capacity
  r ← required f.retry_cost retry_cost
  s ← required f.success_increment success_increment
  ok (record { enabled = true; capacity = c; retry_cost = r; success_increment = s })

to_config_by : RetryBudgetFile → Option Bool → Result BudgetError RetryBudgetConfig
unfolding to_config_enabled
to_config_by f (some true) = to_config_enabled f
to_config_by f (some false) = ok disabled
to_config_by f none = ok disabled

unfoldable pub to_config : Option RetryBudgetFile → Result BudgetError RetryBudgetConfig
unfolding to_config_by
to_config none = ok disabled
to_config (some f) = to_config_by f f.enabled

-- `x != nil && *x <= 0`
abbrev not_positive : Option ℤ → Bool
not_positive none = false
not_positive (some x) = leb_ℤ x (pos 0)

unfoldable pub validate_retry_budget_file_layer :
    Option RetryBudgetFile → Result BudgetError (Unit {0})
validate_retry_budget_file_layer none = ok tt
validate_retry_budget_file_layer (some f) = do
  fail_if (not_positive f.capacity) (must_be_positive capacity)
  fail_if (not_positive f.retry_cost) (must_be_positive retry_cost)
  fail_if (not_positive f.success_increment) (must_be_positive success_increment)

-- What an enabled configuration promises.
pub record IsValid (c : RetryBudgetConfig) : Type 0 where
  pub capacity_pos : pos 0 <ℤ c.capacity
  pub cost_pos : pos 0 <ℤ c.retry_cost
  pub increment_pos : pos 0 <ℤ c.success_increment

-- A configuration that `toConfig` accepts is the disabled one, or all three of its numbers are
-- positive and the file enables it and states exactly these numbers.
pub to_config-IsValid :
    (f : RetryBudgetFile) (c : RetryBudgetConfig)
    → to_config (some f) ≡ ok c
    → (c ≡ disabled)
      ⊎ (IsValid c
          × (f.enabled ≡ some true)
          × (f.capacity ≡ some c.capacity)
          × (f.retry_cost ≡ some c.retry_cost)
          × (f.success_increment ≡ some c.success_increment))
unfolding to_config
to_config-IsValid f c h = ground arith
