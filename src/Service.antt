-- ===== src/Service.antt =====
-- relayer/stellar_service.go: the service's queries and submissions, over the converters of
-- type_converters.go and the transaction manager. The RPC client is the function that a method calls
-- of it, `none` for an error; a client that cannot be had is a client that always fails.
pub mod Submit
pub mod Read
pub mod Simulate
pub mod Invoker
pub mod Accepted
mod Tests
