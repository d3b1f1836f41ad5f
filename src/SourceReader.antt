-- ===== src/SourceReader.antt =====
-- ccv/source_reader/source_reader.go: the reader of the OnRamp's messages and of ledger headers. An
-- error is `none`. A 128-bit integer v is the number v + 2^127. The query of the cursed subjects is
-- a call of generated bindings and is not modelled.
pub mod Receipts
pub mod Events
pub mod Headers
pub mod Encoded
pub mod Requested
mod Tests
