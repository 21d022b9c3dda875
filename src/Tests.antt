-- ===== src/Tests.antt =====
-- Runs of the models on concrete inputs, and the theorems at inputs that meet their hypotheses.
pub mod Data
pub mod Status
pub mod Accounts
pub mod Tasks
pub mod Nonces
pub mod Requests
pub mod Identifiers
pub mod Signed
pub mod Placed
pub mod Workers
pub mod Settings
pub mod Responses
