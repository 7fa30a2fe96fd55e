-- ===== src/Transport.antt =====
-- transport.go: the RoundTripper that retries.
pub mod Capture
pub mod Retryable
pub mod Attempt
pub mod Resolve
pub mod Loop
pub mod RoundTrip
pub mod View
pub mod Rule
pub mod Attempts
pub mod Cancels
pub mod Settled
pub mod Governed
pub mod Headers
pub mod Charges
pub mod Skipped
