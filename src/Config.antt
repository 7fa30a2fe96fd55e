-- ===== src/Config.antt =====
-- retry_config_file.go: a configuration file, how it is compiled, and how a compiled configuration
-- answers for a request.
pub mod Match
pub mod Infer
pub mod Provider
pub mod File
pub mod Patches
pub mod Order
pub mod Compile
pub mod Update
pub mod Merge
pub mod Store
pub mod Watch
