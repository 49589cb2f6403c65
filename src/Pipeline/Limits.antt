-- ===== src/Pipeline/Limits.antt =====
-- The goal S4 (src/assessment/mod.rs) of an evaluation result that `EvalResult::from_config`
-- (src/evaluation/mod.rs) returned, in terms of the configuration.
use checkc.Base.{
  ◌≡◌, refl, ◌∙◌, String, Bool, false, not, ◌&&◌, Option, none, some, List, [], ◌∷◌, map, arith, ok,
  if◌then◌else◌, string_eq, ◌==◌, nat_eq, list_eq,
}
use checkc.Base.Int.{int_eq}
use checkc.Base.Sets.{contains, filter, intersection}
use checkc.Base.Maps
use checkc.Base.Text.{◌<>◌, text_contains}
use checkc.Proto.Ns.{NsType, cgroup, ns_type_eq, ns_type_to_i32, ns_type_number}
use checkc.Proto.Caps.{capability_eq}
use checkc.Proto.Host.{Config, CgroupConfig}
use checkc.Proto.Evaluation.{EvalResult}
use checkc.Proto.Assessment.{SecResult, GoalS4}
use checkc.Evaluation.{from_config}
use checkc.Evaluation.Categories.{limit_test, test_result, category_namespaces}
use checkc.Assessment.{assess_goal_s4}
use checkc.Assessment.Severity.{severity, IsState}
use checkc.Assessment.TestGoals.{passes, assess_goal_s4-exact}
use checkc.Pipeline.Evaluated.{Evaluated, Rearranged, from_config-Rearranged}
use checkc.Pipeline.Tested.{category_resource_control-ResourceControl}
use checkc.Pipeline.Lookups.{found_resource_control}

-- An interface file that is there and does not say `max`.
unfoldable pub is_limited : String → List (String × String) → Bool
is_limited file interface_files = elim (Maps.lookup file interface_files) [
  | none ↦ false
  | some limit ↦ not (text_contains limit "max")
]

passes-limit_test :
    (file : String) (interface_files : List (String × String))
    → passes (limit_test file interface_files) ≡ is_limited file interface_files
unfolding limit_test is_limited
passes-limit_test file interface_files = by_limit (Maps.lookup file interface_files)
  where
    by_limit :
        (o : Option String)
        → passes (elim o [
          | none ↦ test_result false ((file <> " not available") ∷ [])
          | some limit ↦ test_result (not (text_contains limit "max")) (limit ∷ [])
        ])
          ≡ elim o [ none ↦ false | some limit ↦ not (text_contains limit "max") ]
    by_limit none = refl
    by_limit (some limit) = refl

cgroup_namespaces :
    (ns_set : List NsType)
    → (map ns_type_to_i32 (cgroup ∷ []) == map ns_type_to_i32 (intersection (cgroup ∷ []) ns_set))
      ≡ contains ns_set cgroup
unfolding intersection filter ns_type_to_i32 ns_type_number
cgroup_namespaces ns_set = ground arith

module _ (find_uuid : String → Option String) (config : Config) (root : String) where
  -- An evaluation that returned, its categories in any order, had a cgroup configuration, and its goal
  -- S4 is assessed without a panic: it is OK if the cgroup namespace is active and both the CPU and the memory are limited, else
  -- an ERROR.
  pub from_config-goal_s4 :
      {e : EvalResult} (moved : EvalResult)
      → from_config find_uuid config root ≡ ok e
      → Rearranged e moved
      → (v : Evaluated find_uuid config root moved) × (c : CgroupConfig) × (r : SecResult)
        × (g : GoalS4) × (config.cgroup_config ≡ some c)
        × (assess_goal_s4 moved ≡ ok (some g))
        × (g.result ≡ some r)
        × IsState r
        × (severity r ≡ (
            if contains v.ns_set cgroup
              && is_limited "cpu.max" c.interface_files
              && is_limited "memory.max" c.interface_files
            then 1
            else 4))
  unfolding category_namespaces
  from_config-goal_s4 {e} moved h m =
      let v = from_config-Rearranged find_uuid config root moved h m in
      let k = v.categories in
      let f = category_resource_control-ResourceControl config v.ns_set _ k.resource_ok in
      let (r, g, returns, result, state, used, exact) =
        assess_goal_s4-exact moved (found_resource_control k) f.isolation refl
          (intersection (cgroup ∷ []) v.ns_set, refl) (cgroup ∷ [], refl)
          (record {
            entry = k.resource_control;
            found = found_resource_control k;
            tested = f.cpu_test;
          })
          (record {
            entry = k.resource_control;
            found = found_resource_control k;
            tested = f.memory_test;
          }) in
      (
        v,
        f.cgroup_config,
        r,
        g,
        f.has_cgroup,
        returns,
        result,
        state,
        exact
            ∙ rw
                (
                  cgroup_namespaces v.ns_set,
                  passes-limit_test "cpu.max" f.cgroup_config.interface_files,
                  passes-limit_test "memory.max" f.cgroup_config.interface_files,
                )
                refl,
      )
