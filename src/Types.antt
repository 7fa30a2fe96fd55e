-- ===== src/Types.antt =====
-- The values that the package passes round: policies and scopes (retry.go, dynamic_config.go), and
-- what it reads of a net/http request, response, context and error.
pub mod Policy
pub mod Message
