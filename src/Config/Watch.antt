-- ===== src/Config/Watch.antt =====
-- retry_consul.go: the watch of the store, which reloads the configuration when it changes.
use http_governance_client.Common.{
  ℕ, zero, suc, ◌+◌, ◌-◌, ◌*◌, ◌/◌, ◌%◌, ◌^◌, ◌≤◌, ◌<◌, ◌≡◌, ◌≢◌, ◌↔◌, refl, sym, ap, ◌∙◌, Bool,
  true, false, not, ◌&&◌, ◌||◌, Option, none, some, arith, ℤ, pos, negsuc, pos_part, neg_part, ◌<ℤ◌,
  ◌≤ℤ◌, ◌+ℤ◌, ◌-ℤ◌, ◌*ℤ◌, leb_ℤ, ltb_ℤ, eqb_ℤ, eqb_ℤ_iff, IsInt64, max_int64, min_int64, wrap64,
  wrap64_eq, add64, sub64, mul64, add64_eq, sub64_eq, mul64_eq, sub_saturated, +ℤ_parts, -ℤ_parts,
  eq_of_parts, if◌then◌else◌, ◌⊎◌, inl, inr, List, [], ◌∷◌, ◌++◌, map, any, All, length, is_empty,
  Bool-cases, Option-cases, ltb, leb, ◌==◌, Result, ok, err, ◌>>=◌, ◌>>◌, fail_if, dec_lt,
  Result-cases, value_or, IsOk, IsOk-first,
}
use http_governance_client.Common.Text.{
  Text, codes, text_eq, text_eq_iff, text_eq_refl, text_eq_sound, trim_space, trim_space_idem,
  to_lower, to_upper, to_upper_idem, to_lower_idem, equal_fold,
}
use http_governance_client.Common.Number.{
  parse_int, format_int, parse_int-format_int, trim_space-format_int, is_empty-format_int,
}
pub mod Loop
pub mod Changes
pub mod Pending
pub mod Origin
use http_governance_client.Config.Merge.{retry_config_lookup_paths}
use http_governance_client.Config.Store.{
  RetryConfigStore, StoreError, is_retry_config_path_not_found,
}

-- What the watch knows of a path. The zero value is not seen.
pub record RetryConfigWatchState : Type 0 where
  pub seen : Bool
  pub exists : Bool
  pub index : ℕ

-- The map of the loop: a key that is missing has the zero value.
abbrev pub States : Type 0
States = Text → RetryConfigWatchState

abbrev pub unseen : States
unseen path = record { seen = false; exists = false; index = 0 }

abbrev pub missing_state : RetryConfigWatchState
missing_state = record { seen = true; exists = false; index = 0 }

abbrev pub found_state : ℕ → RetryConfigWatchState
found_state next_index = record { seen = true; exists = true; index = next_index }

-- `states[path] = state`
abbrev pub with_state : Text → RetryConfigWatchState → States → States
with_state path state states other = if text_eq path other then state else states other

-- GetWithIndex: the answer for a path and the index it was asked with. The data is not used.
abbrev pub GetWithIndex : Type 0
GetWithIndex = Text → ℕ → Result StoreError (Text × ℕ)

-- What one answer makes of the state of its path, and whether it is a change; or the error.
unfoldable pub observe :
    (StoreError → Bool)
    → RetryConfigWatchState
    → Result StoreError (Text × ℕ)
    → Result StoreError (RetryConfigWatchState × Bool)
observe not_found state (err e) =
    if not_found e then ok (missing_state, state.seen && state.exists) else err e
observe not_found state (ok (contents, next_index)) = ok (
  found_state next_index,
  state.seen && (not state.exists || (not (next_index == 0) && not (next_index == state.index))),
)

-- The loop over the paths: it ends at the first change and at the first error. The states are those
-- it leaves in the map.
next_path :
    Text
    → States
    → Result StoreError (RetryConfigWatchState × Bool)
    → (States → States × Result StoreError Bool)
    → States × Result StoreError Bool
next_path path states (err e) rest = (states, err e)
next_path path states (ok (state, true)) rest = (with_state path state states, ok true)
next_path path states (ok (state, false)) rest = rest (with_state path state states)

unfoldable pub wait_for_paths :
    RetryConfigStore → GetWithIndex → States → List Text → States × Result StoreError Bool
unfolding next_path observe is_retry_config_path_not_found
wait_for_paths store get_with_index states [] = (states, ok false)
wait_for_paths store get_with_index states (path ∷ paths) =
    next_path path states
      (observe (is_retry_config_path_not_found store path) (states path)
        (get_with_index path (states path).index))
      (λ later. wait_for_paths store get_with_index later paths)

unfoldable pub wait_for_retry_config_change :
    RetryConfigStore → GetWithIndex → Text → States → States × Result StoreError Bool
unfolding wait_for_paths retry_config_lookup_paths
wait_for_retry_config_change store get_with_index app_name states =
    wait_for_paths store get_with_index states (retry_config_lookup_paths app_name)

unfoldable pub all_missing : States → List Text → Bool
all_missing states [] = true
all_missing states (path ∷ paths) =
    let rest = all_missing states paths in
    if not (states path).seen || (states path).exists then false else rest

unfoldable pub all_retry_config_watch_paths_missing : Text → States → Bool
unfolding all_missing retry_config_lookup_paths
all_retry_config_watch_paths_missing app_name states =
    all_missing states (retry_config_lookup_paths app_name)
