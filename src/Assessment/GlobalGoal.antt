-- ===== src/Assessment/GlobalGoal.antt =====
-- Goal S1: OK exactly if the root, the namespaces, the capabilities and the test of the mapping are.
use checkc.Base.{
  String, ◌≡◌, refl, Bool, ◌&&◌, some, List, [], arith, max, leb, ok, if◌then◌else◌, is_empty,
  string_eq,
}
use checkc.Base.Int.{pos}
use checkc.Base.Sets.{all, difference}
use checkc.Base.Maps
use checkc.Proto.Ns.{NsType, ns_type_eq}
use checkc.Proto.Caps.{Capability}
use checkc.Proto.Evaluation.{TestResult, Category, Chroot, EvalResult, IsolationMechanisms}
use checkc.Proto.Assessment.{Criticality, SecResult, GoalS1, criticality_to_i32}
use checkc.Assessment.State.{append, initial_result}
use checkc.Assessment.Global.{
  assess_chroot, assess_namespaces, report_s1, assess_collected, assess_goal_s1, collect_namespaces,
  collect_capabilities,
}
use checkc.Assessment.Severity.{
  severity, magnitude-int_max, severity-append, IsState, IsState-from_i32, IsState-severity,
  append-IsState, state_rules, initial_result-IsState,
}
use checkc.Assessment.Verdicts.{is_harmless}
use checkc.Assessment.Harmless.{AreKnown, Raises-assess_capabilities, worst-harmless}
use checkc.Assessment.TestGoals.{HasTest, passes, Raises-assess_named, severity-initial}

severity-assess_chroot :
    (chroot_conf : Chroot) (r : SecResult)
    → severity (assess_chroot chroot_conf r)
      ≡ max (severity r) (if chroot_conf.chroot && chroot_conf.pivot_root then 0 else 4)
unfolding assess_chroot append criticality_to_i32
severity-assess_chroot chroot_conf r = ground (arith, magnitude-int_max r.state (pos 4))

severity-assess_namespaces :
    (active desired : List NsType) (r : SecResult)
    → severity (assess_namespaces (active, desired) r)
      ≡ max (severity r) (if is_empty (difference desired active) then 0 else 4)
unfolding assess_namespaces append criticality_to_i32
severity-assess_namespaces active desired r = ground (arith, magnitude-int_max r.state (pos 4))

assess_chroot-IsState :
    (chroot_conf : Chroot) (r : SecResult) → IsState r → IsState (assess_chroot chroot_conf r)
unfolding assess_chroot
assess_chroot-IsState chroot_conf r h = search state_rules

assess_namespaces-IsState :
    (active desired : List NsType) (r : SecResult)
    → IsState r
    → IsState (assess_namespaces (active, desired) r)
unfolding assess_namespaces
assess_namespaces-IsState active desired r h = search state_rules

module _ (active desired : List NsType) (caps : List Capability) (s2 : Criticality)
    (chroot : Chroot) where
  -- The conditions of goal S1.
  unfoldable pub meets_s1 : TestResult → Bool
  meets_s1 mapping =
      chroot.chroot
      && chroot.pivot_root
      && is_empty (difference desired active)
      && all (is_harmless active s2 chroot) caps
      && passes mapping

  abbrev before_caps : SecResult
  before_caps = assess_namespaces (active, desired) (assess_chroot chroot initial_result)

  assess_collected-exact :
      {categories : List (String × Category)} {mapping : TestResult}
      → AreKnown caps
      → HasTest categories "access_control" "user_ns_maps_to_non_root_user" mapping
      → (r : SecResult) × (g : GoalS1) × (assess_collected categories
            (active, desired)
            caps
            s2
            chroot
          ≡ ok g)
        × (g.result ≡ some r)
        × IsState r
        × (leb (severity r) 1 ≡ meets_s1 mapping)
  unfolding assess_collected meets_s1 report_s1
  assess_collected-exact {categories} {mapping} known test =
      let raises = Raises-assess_capabilities active s2 chroot caps known in
      let st =
        assess_namespaces-IsState active desired _
          (assess_chroot-IsState chroot initial_result initial_result-IsState) in
      let appended = append before_caps raises.state.criticality raises.result.info in
      let last =
        Raises-assess_named appended test
          (append-IsState before_caps raises.state.criticality raises.result.info st) in
      (
        last.result,
        report_s1 (active, desired) caps chroot last.result,
        rw (raises.returns, IsState-from_i32 raises.result raises.state, last.returns),
        refl,
        last.state,
        ground (
          arith,
          raises.raised,
          last.raised,
          severity-initial,
          severity-append before_caps raises.state.criticality raises.result.info,
          IsState-severity raises.result raises.state,
          severity-assess_chroot chroot initial_result,
          severity-assess_namespaces active desired (assess_chroot chroot initial_result),
          worst-harmless active s2 chroot caps known,
        ),
      )

  -- Once the namespaces and the capabilities are collected, and none of these is unspecified, goal S1
  -- is assessed without a panic, and its state is at most OK exactly if the root was changed by
  -- pivot_root, no desired namespace is missing, every capability is harmless and the test of the
  -- user mapping passed.
  pub assess_goal_s1-exact :
      (e : EvalResult) {filesystem : Category} {isolation : IsolationMechanisms}
      {mapping : TestResult}
      → collect_namespaces e.categories ([], []) ≡ ok (active, desired)
      → collect_capabilities e.categories ≡ ok caps
      → Maps.lookup "filesystem" e.categories ≡ some filesystem
      → filesystem.isolation ≡ some isolation
      → isolation.chroot ≡ some chroot
      → AreKnown caps
      → HasTest e.categories "access_control" "user_ns_maps_to_non_root_user" mapping
      → (r : SecResult) × (g : GoalS1) × (assess_goal_s1 e s2 ≡ ok (some g))
        × (g.result ≡ some r)
        × IsState r
        × (leb (severity r) 1 ≡ meets_s1 mapping)
  unfolding assess_goal_s1
  assess_goal_s1-exact e spaces capabilities found isolated rooted known test =
      let (r, g, returns, result, state, exact) = assess_collected-exact known test in
      (r, g, rw (spaces, capabilities, found, isolated, rooted, returns), result, state, exact)
