-- ===== src/Status.antt =====
-- status.go: the statuses of the ACME resources and the moves between them. `other` stands for a
-- text that is none of the constants.
pub mod Account
pub mod Order
pub mod Authorization
pub mod Challenge
pub mod Lifecycle
