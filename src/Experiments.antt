-- ===== src/Experiments.antt =====
-- experiments: the variant sets of variants.go, the targeting trees of targeting.go, and SimpleExperiment of
-- experiments.go.
pub mod Variants
pub mod Sizes
pub mod Choices
pub mod Intervals
pub mod Targeting
pub mod Evaluate
pub mod Evaluation
pub mod Simple
pub mod Legal
mod Tests
mod Samples
