-- ===== src/Convert.antt =====
-- relayer/type_converters.go: the conversions between the values of the chain's domain types
-- (`stellartypes` of chainlink-common) and those of the Stellar SDK. An error is `none`.
pub mod Domain
pub mod Address
pub mod Value
pub mod Events
pub mod Pages
pub mod Queries
pub mod Arguments
pub mod RoundTrip
mod Tests
