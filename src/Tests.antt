-- ===== src/Tests.antt =====
-- Runs of the models on concrete inputs, and the theorems at concrete inputs.
mod Budget
mod Policy
mod Transport
mod Config
mod Merge
mod Store
mod Metrics
mod Client
mod Infer
mod Consul
