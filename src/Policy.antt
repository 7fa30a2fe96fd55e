-- ===== src/Policy.antt =====
-- retry.go and dynamic_config.go: how a policy is completed, patched and read.
pub mod Normal
pub mod Patch
pub mod Backoff
pub mod RetryAfter
pub mod Deadline
pub mod Reason
