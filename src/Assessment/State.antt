-- ===== src/Assessment/State.antt =====
-- `SecResult::append` and `assess_test` of src/assessment/mod.rs.
use checkc.Base.{String, List, [], ◌∷◌, ◌++◌, if◌then◌else◌}
use checkc.Base.Int.{int_max}
use checkc.Base.Text.{◌<>◌}
use checkc.Proto.Assessment.{Criticality, SecResult, criticality_to_i32}
use checkc.Proto.Evaluation.{TestResult}

-- The state is raised to the given criticality, never lowered.
unfoldable pub append : SecResult → Criticality → List String → SecResult
append r c info = record { state = int_max r.state (criticality_to_i32 c); info = r.info ++ info }

-- The result with which every goal starts.
unfoldable pub initial_result : SecResult
initial_result = record { state = criticality_to_i32 Criticality.ok; info = [] }

unfoldable pub check_valid : String → TestResult → SecResult → SecResult
unfolding append
check_valid name test r =
    if test.valid
    then r
    else append r Criticality.error
        (("test " <> name <> " was not valid, assessment result is ERROR") ∷ [])

unfoldable pub check_passed : String → TestResult → SecResult → SecResult
unfolding append
check_passed name test r =
    if test.passed
    then r
    else append r Criticality.error
        (("test " <> name <> " did not pass, assessment result is ERROR") ∷ [])

unfoldable pub assess_test : String → TestResult → SecResult → SecResult
unfolding check_valid check_passed
assess_test name test r = check_passed name test (check_valid name test r)
