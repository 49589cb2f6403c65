-- ===== src/Pipeline.antt =====
-- `EvalResult::from_config` (src/evaluation/mod.rs), then `assess_eval_result` (src/assessment/mod.rs):
-- what the assessment finds in an evaluated configuration.
pub mod Collected
pub mod Evaluated
pub mod Facts
pub mod Tested
pub mod Spaces
pub mod Shuffled
pub mod Plan
pub mod Global
pub mod Lookups
pub mod Goals
pub mod Limits
pub mod GlobalGoal
pub mod Reported
pub mod Report
