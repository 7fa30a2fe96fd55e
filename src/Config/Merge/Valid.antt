-- ===== src/Config/Merge/Valid.antt =====
-- retry_consul.go: layers that are valid stay valid when they are merged.
use http_governance_client.Common.{◌≡◌, refl, Option, none, some, arith, ok}
use http_governance_client.Budget.Config.{RetryBudgetFile, validate_retry_budget_file_layer}
use http_governance_client.Config.Merge.{merge_retry_budget_files}

-- Two budget layers that are valid make a valid one.
pub validate-merge_retry_budget_files :
    (base o : Option RetryBudgetFile)
    → validate_retry_budget_file_layer base ≡ ok tt
    → validate_retry_budget_file_layer o ≡ ok tt
    → validate_retry_budget_file_layer (merge_retry_budget_files base o) ≡ ok tt
unfolding validate_retry_budget_file_layer merge_retry_budget_files
validate-merge_retry_budget_files none none h k = refl
validate-merge_retry_budget_files none (some o) h k = k
validate-merge_retry_budget_files (some base) none h k = h
validate-merge_retry_budget_files (some base) (some o) h k = ground arith
