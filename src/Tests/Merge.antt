-- ===== src/Tests/Merge.antt =====
-- retry_consul.go on two layers.
use http_governance_client.Common.{◌≤◌, ◌≡◌, refl, true, none, some, pos, [], ◌∷◌, ok}
use http_governance_client.Common.Text.{codes, text_eq, trim_space, to_lower, equal_fold}
use http_governance_client.Types.Policy.{RetryPolicyPatch}
use http_governance_client.Budget.Config.{RetryBudgetFile, validate_retry_budget_file_layer}
use http_governance_client.Config.Patches.{to_patch, parse_positive_retry_duration}
use http_governance_client.Config.File.{RetryPolicyPatchFile, RetryDownstreamFile}
use http_governance_client.Config.Merge.{
  merge_retry_budget_files, merge_retry_policy_patch_files, merge_named_items,
}
use http_governance_client.Config.Merge.Named.{
  same_name, is_blank, first_where, count_where, all_where, find_named-merge_named_items,
}
use http_governance_client.Config.Merge.Valid.{validate-merge_retry_budget_files}
use http_governance_client.Config.Merge.Accepted.{to_patch-merge_retry_policy_patch_files}
use http_governance_client.Tests.Config.{parse, no_policy, short, short_patch, short-to_patch}

abbrev off : RetryPolicyPatchFile
off = record no_policy { disable_retry = some true }

abbrev off_patch : RetryPolicyPatch
off_patch = record {
  disable_retry = some true;
  max_retries = none;
  per_attempt_timeout = none;
  max_elapsed_time = none;
  initial_backoff = none;
  max_backoff = none;
  retry_on_statuses = none;
  retry_on_429 = none;
}

off-to_patch : to_patch parse off ≡ ok off_patch
unfolding to_patch parse_positive_retry_duration
off-to_patch = refl

-- The number of retries of the base is dropped, for the application disables them.
abbrev short_off : RetryPolicyPatchFile
short_off = record short { disable_retry = some true; max_retries = none }

short-off : merge_retry_policy_patch_files (some short) (some off) ≡ some short_off
unfolding merge_retry_policy_patch_files
short-off = refl

merge_patch_example : (r : RetryPolicyPatch) × (to_patch parse short_off ≡ ok r)
merge_patch_example =
    to_patch-merge_retry_policy_patch_files parse short off short_off short_patch off_patch
      short-to_patch off-to_patch short-off

abbrev small : RetryBudgetFile
small = record {
  enabled = none;
  capacity = some (pos 4);
  retry_cost = none;
  success_increment = none;
}

abbrev cheap : RetryBudgetFile
cheap = record {
  enabled = some true;
  capacity = none;
  retry_cost = some (pos 1);
  success_increment = none;
}

merge_budget_example :
    validate_retry_budget_file_layer (merge_retry_budget_files (some small) (some cheap)) ≡ ok tt
unfolding validate_retry_budget_file_layer
merge_budget_example = validate-merge_retry_budget_files (some small) (some cheap) refl refl

abbrev orders_base : RetryDownstreamFile
orders_base = record { name = codes "Orders "; hosts = codes "a" ∷ [] }

abbrev orders_app : RetryDownstreamFile
orders_app = record { name = codes "orders"; hosts = codes "b" ∷ [] }

merge_named_example :
    (first_where
        (λ (d : RetryDownstreamFile). same_name (codes " ORDERS") d.name)
        (merge_named_items (λ d. d.name) (orders_base ∷ []) (orders_app ∷ []))
      ≡ some orders_app)
    × (count_where
          (λ (d : RetryDownstreamFile). same_name (codes " ORDERS") d.name)
          (merge_named_items (λ d. d.name) (orders_base ∷ []) (orders_app ∷ []))
        ≤ 1)
    × (all_where
          (λ (d : RetryDownstreamFile). is_blank d.name)
          (merge_named_items (λ d. d.name) (orders_base ∷ []) (orders_app ∷ []))
        ≡ [])
unfolding first_where all_where equal_fold text_eq trim_space to_lower
merge_named_example =
    find_named-merge_named_items (λ d. d.name) (codes " ORDERS") (orders_base ∷ [])
      (orders_app ∷ []) refl
