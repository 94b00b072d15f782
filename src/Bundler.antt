-- ===== src/Bundler.antt =====
-- crates/bundler/src/bundler.rs: from a batch of operations to a signed `handleOps` transaction.
-- `Policy` has the pure checks, `Pipeline` the asynchronous code.
pub mod Policy
pub mod Pipeline
pub mod Concurrent
