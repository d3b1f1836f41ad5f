-- ===== src/Transmitter.antt =====
-- ccv/contract_transmitter/contract_transmitter.go: the report that is submitted to the OffRamp, and
-- its signatures in the compact form of EIP-2098.
pub mod Words
pub mod Blob
pub mod Compact
mod Tests
