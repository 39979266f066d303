-- ===== src/Errorsbp.antt =====
-- errorsbp: the batch of errors of batch.go, and the suppressors of suppressor.go.
pub mod Batch
pub mod Suppressors
pub mod Kept
pub mod Flat
mod Tests
