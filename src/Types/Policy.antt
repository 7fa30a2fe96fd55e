-- ===== src/Types/Policy.antt =====
-- retry.go and dynamic_config.go: policies, scopes and patches. Durations are int64 nanoseconds.
use http_governance_client.Common.{
  ℕ, ◌*◌, Bool, false, Option, none, some, ℤ, pos, eqb_ℤ, List, any,
}
use http_governance_client.Common.Text.{Text, codes}

abbrev pub millisecond : ℕ
millisecond = 1_000_000

abbrev pub second : ℕ
second = 1_000_000_000

abbrev pub default_per_attempt_timeout : ℤ
default_per_attempt_timeout = pos (2 * second)

abbrev pub default_initial_backoff : ℤ
default_initial_backoff = pos (100 * millisecond)

abbrev pub default_max_backoff : ℤ
default_max_backoff = pos (2 * second)

-- RequestClass is a string; the empty one means that there is none.
abbrev pub RequestClass : Type 0
RequestClass = Text

abbrev pub internal_read : RequestClass
internal_read = codes "internal_read"

abbrev pub internal_write : RequestClass
internal_write = codes "internal_write"

abbrev pub external_read : RequestClass
external_read = codes "external_read"

abbrev pub external_write : RequestClass
external_write = codes "external_write"

-- The status set is the list of the keys of the map; `none` is the nil map.
pub record RetryPolicy : Type 0 where
  pub max_retries : ℤ
  pub per_attempt_timeout : ℤ
  pub max_elapsed_time : ℤ
  pub initial_backoff : ℤ
  pub max_backoff : ℤ
  pub retry_on_statuses : Option (List ℤ)
  pub retry_on_429 : Bool

-- A nil pointer, and the nil slice, is `none`.
pub record RetryPolicyPatch : Type 0 where
  pub disable_retry : Option Bool
  pub max_retries : Option ℤ
  pub per_attempt_timeout : Option ℤ
  pub max_elapsed_time : Option ℤ
  pub initial_backoff : Option ℤ
  pub max_backoff : Option ℤ
  pub retry_on_statuses : Option (List ℤ)
  pub retry_on_429 : Option Bool

pub record RetryConfigScope : Type 0 where
  pub caller : Text
  pub downstream : Text
  pub operation : Text
  pub method : Text
  pub host : Text
  pub path : Text
  pub class : RequestClass

-- `_, ok := set[status]`, also on the nil map.
abbrev pub has_status : Option (List ℤ) → ℤ → Bool
has_status none status = false
has_status (some xs) status = any (eqb_ℤ status) xs
