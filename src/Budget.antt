-- ===== src/Budget.antt =====
-- retry_budget.go: the retry budget that one Transport keeps for each downstream.
-- `Ops` runs each operation with no other goroutine between its steps; `Threads` lets them interleave.
pub mod Config
pub mod Ops
pub mod Bounds
pub mod Laws
pub mod Threads
