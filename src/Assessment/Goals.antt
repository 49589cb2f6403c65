-- ===== src/Assessment/Goals.antt =====
-- The goals S2, S3 and S4 of src/assessment/mod.rs.
use checkc.Base.{
  String, Option, some, List, [], ◌∷◌, Outcome, ok, ◌>>=◌, unwrap, traverse, ◌==◌, list_eq,
  string_eq, if◌then◌else◌,
}
use checkc.Base.Int.{ℤ, int_eq}
use checkc.Base.Maps
use checkc.Base.Text.{◌<>◌, join}
use checkc.Proto.Ns.{ns_type_from_i32, ns_type_as_str_name}
use checkc.Proto.Evaluation.{Category, Namespaces, EvalResult}
use checkc.Proto.Assessment.{Criticality, SecResult, GoalS2, GoalS3, GoalS4}
use checkc.Assessment.State.{append, initial_result, assess_test}

-- `categories.get(category).unwrap().tests.get(name).unwrap()`, then `assess_test`.
unfoldable pub assess_named :
    List (String × Category) → String → String → SecResult → Outcome SecResult
assess_named categories category name r = do
  c ← unwrap (Maps.lookup category categories)
  test ← unwrap (Maps.lookup name c.tests)
  ok (assess_test name test r)

unfoldable pub assess_goal_s2 : EvalResult → Outcome (Option GoalS2)
assess_goal_s2 eval_result = do
  r ← assess_named eval_result.categories "devices" "dev_whitelist_compliance" initial_result
  r' ← assess_named eval_result.categories "devices" "mknod_whitelist_compliance" r
  ok (some (record { description = "Restriction of device access"; result = some r' }))

unfoldable pub assess_goal_s3 : EvalResult → Outcome (Option GoalS3)
assess_goal_s3 eval_result = do
  r ← assess_named eval_result.categories "access_control" "user_ns_mapping_unique" initial_result
  r' ← assess_named eval_result.categories "filesystem" "flag_matches_refcontainer" r
  r'' ← assess_named eval_result.categories "filesystem" "flag_matches_host" r'
  ok (some (record { description = "No container data leak"; result = some r'' }))

-- `Type::from_i32(t).unwrap().as_str_name()`.
unfoldable pub type_name : ℤ → Outcome String
type_name n = do t ← unwrap (ns_type_from_i32 n); ok (ns_type_as_str_name t)

-- The names of the types behind the numbers, joined.
unfoldable pub type_names : List ℤ → Outcome String
type_names numbers = do names ← traverse type_name numbers; ok (join ", " names)

unfoldable pub cgroup_namespace_info : String → String → List String
cgroup_namespace_info active desired =
    ("Active namespaces (" <> active <> ") did not match desired ones (" <> desired
      <> ") for category 'resource_control', assessment result for goal S4 is ERROR")
    ∷ []

-- The comparison of the wanted with the active namespaces.
unfoldable pub assess_cgroup_namespace : Namespaces → SecResult → Outcome SecResult
assess_cgroup_namespace namespaces r = if namespaces.desired == namespaces.active then ok r else do
  active ← type_names namespaces.active
  desired ← type_names namespaces.desired
  ok (append r Criticality.error (cgroup_namespace_info active desired))

unfoldable pub assess_goal_s4 : EvalResult → Outcome (Option GoalS4)
assess_goal_s4 eval_result = do
  cgroups_result ← unwrap (Maps.lookup "resource_control" eval_result.categories)
  isolation ← unwrap cgroups_result.isolation
  namespaces ← unwrap isolation.namespaces
  r ← assess_cgroup_namespace namespaces initial_result
  r' ← assess_named eval_result.categories "resource_control" "cpu_max_limited" r
  r'' ← assess_named eval_result.categories "resource_control" "memory_max_limited" r'
  ok (
      some (record {
        description = "No availability impact";
        result = some r'';
        cgroups_namespace_used = namespaces.desired == namespaces.active;
      }))
