-- ===== src/Std.antt =====
-- What the program uses of Go's standard library, as far as it is modelled.
pub mod Base64
pub mod Float64
pub mod Decimal
pub mod Int64
pub mod Instant
pub mod Paths
pub mod Results
