-- ===== src/Worker.antt =====
-- worker.go: the tasks of the worker, between the claim of a task and its commit. Log lines and the
-- wake-up channel are left out, and so are the goroutines of `Run`: a task runs against whatever
-- the others do to the store in between.
pub mod Retry
pub mod Backoff
pub mod Orders
pub mod Commit
pub mod Committed
pub mod Grant
pub mod Validation
pub mod Evidence
pub mod Issuance
pub mod Publish
pub mod Published
pub mod Deadline
pub mod Derived
