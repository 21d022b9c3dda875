-- ===== src/Orders.antt =====
-- order.go: the order, authorization and challenge resources, between a request that was read and
-- its answer. A request is read by request.go, which is left out.
pub mod Methods
pub mod Allowed
pub mod Response
pub mod Accepted
pub mod Build
pub mod New
pub mod Requested
pub mod Built
pub mod Deactivate
pub mod Serve
pub mod Certificate
pub mod Finalize
pub mod Finalized
pub mod Deactivated
