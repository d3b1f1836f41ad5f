-- ===== src/Poller.antt =====
-- ccv/destination_reader: the poller of execution attempts (execution_attempt_poller.go) and the
-- reader that serves them (destination_reader.go). An error is `none`
-- or `failed`, and so is a nil dereference on a value that the XDR decoder cannot build.
pub mod Event
pub mod Attempt
pub mod Outcome
pub mod Poll
pub mod Ledgers
pub mod Loop
pub mod Cached
pub mod Kept
pub mod Served
pub mod Ccvs
mod Tests
