-- ===== src/Tests.antt =====
-- Examples: the theorems at concrete inputs.
pub mod Samples
pub mod Storing
pub mod Serving
pub mod Accounts
pub mod Collecting
pub mod Listing
pub mod References
pub mod Checking
