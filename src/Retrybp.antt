-- ===== src/Retrybp.antt =====
-- retrybp: the backoff of delay.go, the filters of filters.go, and Do of retry.go.
pub mod Delay
pub mod Retry
pub mod Backoff
pub mod Filters
pub mod Decisions
mod Tests
