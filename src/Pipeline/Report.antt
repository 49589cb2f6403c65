-- ===== src/Pipeline/Report.antt =====
-- `assess_eval_result` (src/assessment/mod.rs) on what `EvalResult::from_config`
-- (src/evaluation/mod.rs) returned.
use checkc.Base.{◌≡◌, refl, String, Option, some, ok, Returns}
use checkc.Proto.Host.{Config}
use checkc.Proto.Evaluation.{EvalResult}
use checkc.Evaluation.{from_config}
use checkc.Assessment.{assess_eval_result, criticality_goal_s2}
use checkc.Assessment.Severity.{IsState-from_i32}
use checkc.Pipeline.Evaluated.{Rearranged}
use checkc.Pipeline.Goals.{from_config-goal_s2, from_config-goal_s3}
use checkc.Pipeline.Limits.{from_config-goal_s4}
use checkc.Pipeline.GlobalGoal.{from_config-goal_s1}

module _ (find_uuid : String → Option String) (config : Config) (root : String) where
  -- Whatever an evaluation returned is assessed, its categories in any order: the assessment neither panics nor fails.
  pub from_config-assess_eval_result :
      {e : EvalResult} (moved : EvalResult)
      → from_config find_uuid config root ≡ ok e
      → Rearranged e moved
      → Returns (assess_eval_result moved)
  unfolding assess_eval_result criticality_goal_s2
  from_config-assess_eval_result {e} moved h m =
      let (d, r2, g2, _, s2, result2, state2, _) =
        from_config-goal_s2 find_uuid config root moved h m in
      let (_, _, _, _, _, _, g1, _, _, _, _, s1, _, _, _) =
        from_config-goal_s1 find_uuid config root moved state2.criticality h m in
      let (_, _, _, _, _, g3, _, _, _, _, s3, _, _, _) =
        from_config-goal_s3 find_uuid config root moved h m in
      let (_, _, _, g4, _, s4, _, _, _) = from_config-goal_s4 find_uuid config root moved h m in
      (
        record {
          unprivileged = moved.unprivileged;
          goal_s1 = some g1;
          goal_s2 = some g2;
          goal_s3 = some g3;
          goal_s4 = some g4;
        },
        rw (s2, result2, IsState-from_i32 r2 state2, s1, s3, s4) refl,
      )
