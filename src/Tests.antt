-- ===== src/Tests.antt =====
-- Concrete runs of the theorems: inputs at which their conditions hold.
mod Data
mod Packing
mod Policy
mod Errors
mod Validator
mod Requests
mod Accepts
mod Wire
mod Server
mod Serving
mod Concurrent
