-- ===== src/Assessment.antt =====
-- src/assessment/mod.rs: `assess_eval_result`, the verdict on the four security goals.
mod State
mod Capabilities
mod Goals
mod Global
pub mod Severity
pub mod Table
pub mod Verdicts
pub mod Harmless
pub mod Monotone
pub mod TestGoals
pub mod GlobalGoal
unfoldable pub use State.*
unfoldable pub use Capabilities.*
unfoldable pub use Goals.*
unfoldable pub use Global.*
use checkc.Base.{Option, none, some, Outcome, ok, panic, ◌>>=◌, unwrap}
use checkc.Proto.Evaluation.{EvalResult}
use checkc.Proto.Assessment.{
  Criticality, SecResult, GoalS1, GoalS2, AssessmentReport, criticality_from_i32,
}

-- The verdict on goal S2, on which the one on `CAP_SYS_CHROOT` depends.
unfoldable pub criticality_goal_s2 : Option GoalS2 → Outcome Criticality
criticality_goal_s2 none = ok Criticality.error
criticality_goal_s2 (some goal_s2) = do
  result ← unwrap goal_s2.result
  unwrap (criticality_from_i32 result.state)

-- A missing goal S1 panics.
unfoldable pub assess_eval_result : EvalResult → Outcome AssessmentReport
unfolding criticality_goal_s2
assess_eval_result eval_result = do
  goal_s2 ← assess_goal_s2 eval_result
  result_goal_s2 ← criticality_goal_s2 goal_s2
  goal_s1_option ← assess_goal_s1 eval_result result_goal_s2
  goal_s1 ← unwrap goal_s1_option
  goal_s3 ← assess_goal_s3 eval_result
  goal_s4 ← assess_goal_s4 eval_result
  ok (record {
    unprivileged = eval_result.unprivileged;
    goal_s1 = some goal_s1;
    goal_s2 = goal_s2;
    goal_s3 = goal_s3;
    goal_s4 = goal_s4;
  })
