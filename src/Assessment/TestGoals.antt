-- ===== src/Assessment/TestGoals.antt =====
-- The goals S2, S3 and S4: each is OK exactly if its tests are valid and passed, else an ERROR.
use checkc.Base.{
  String, ◌≡◌, refl, Bool, ◌&&◌, some, List, arith, ok, if◌then◌else◌, ◌==◌, list_eq, string_eq,
  traverse-map, map, Bool-cases, inl, inr,
}
use checkc.Base.Int.{ℤ, int_eq}
use checkc.Base.Maps
use checkc.Base.Text.{join}
use checkc.Proto.Ns.{ns_type_as_str_name, NsType, ns_type_to_i32, ns_type_from_i32-to_i32}
use checkc.Proto.Evaluation.{TestResult, Category, EvalResult, Namespaces, IsolationMechanisms}
use checkc.Proto.Assessment.{
  Criticality, SecResult, GoalS2, GoalS3, GoalS4, criticality_to_i32, criticality_number,
}
use checkc.Assessment.State.{append, initial_result, assess_test}
use checkc.Assessment.Goals.{
  assess_named, type_name, cgroup_namespace_info, type_names, assess_cgroup_namespace,
  assess_goal_s2, assess_goal_s3, assess_goal_s4,
}
use checkc.Assessment.Severity.{
  severity, severity-append, append-IsState, severity-assess_test, Raises, IsState,
  assess_test-IsState, initial_result-IsState,
}

abbrev pub passes : TestResult → Bool
passes test = test.valid && test.passed

-- A category that holds a test.
pub record HasTest (categories : List (String × Category)) (category name : String)
    (test : TestResult) : Type 0 where
  pub entry : Category
  pub found : Maps.lookup category categories ≡ some entry
  pub tested : Maps.lookup name entry.tests ≡ some test

pub Raises-assess_named :
    {categories : List (String × Category)} {category name : String} {test : TestResult}
    (r : SecResult)
    → HasTest categories category name test
    → IsState r
    → Raises (assess_named categories category name r) r (if passes test then 0 else 4)
unfolding assess_named
Raises-assess_named {name} {test} r h s = record {
  result = assess_test name test r;
  returns = rw (h.found, h.tested);
  raised = ground (arith, severity-assess_test name test r);
  state = assess_test-IsState name test r s;
}

pub severity-initial : severity initial_result ≡ 1
unfolding initial_result criticality_to_i32
severity-initial = refl

module _ (e : EvalResult) where
  -- Goal S2 is assessed without a panic where both device tests are there; it is OK if both are
  -- valid and passed, else an ERROR.
  pub assess_goal_s2-exact :
      {dev mknod : TestResult}
      → HasTest e.categories "devices" "dev_whitelist_compliance" dev
      → HasTest e.categories "devices" "mknod_whitelist_compliance" mknod
      → (r : SecResult) × (g : GoalS2) × (assess_goal_s2 e ≡ ok (some g))
        × (g.result ≡ some r)
        × IsState r
        × (severity r ≡ (if passes dev && passes mknod then 1 else 4))
  unfolding assess_goal_s2
  assess_goal_s2-exact {dev} {mknod} d m =
      let a = Raises-assess_named initial_result d initial_result-IsState in
      let b = Raises-assess_named a.result m a.state in
      (
        b.result,
        record { description = "Restriction of device access"; result = some b.result },
        rw (a.returns, b.returns),
        refl,
        b.state,
        ground (arith, a.raised, b.raised, severity-initial),
      )

  -- Goal S3 is assessed without a panic where its three tests are there; it is OK if all of them are
  -- valid and passed, else an ERROR.
  pub assess_goal_s3-exact :
      {unique refs host : TestResult}
      → HasTest e.categories "access_control" "user_ns_mapping_unique" unique
      → HasTest e.categories "filesystem" "flag_matches_refcontainer" refs
      → HasTest e.categories "filesystem" "flag_matches_host" host
      → (r : SecResult) × (g : GoalS3) × (assess_goal_s3 e ≡ ok (some g))
        × (g.result ≡ some r)
        × IsState r
        × (severity r ≡ (if passes unique && passes refs && passes host then 1 else 4))
  unfolding assess_goal_s3
  assess_goal_s3-exact {unique} {refs} {host} u f h =
      let a = Raises-assess_named initial_result u initial_result-IsState in
      let b = Raises-assess_named a.result f a.state in
      let c = Raises-assess_named b.result h b.state in
      (
        c.result,
        record { description = "No container data leak"; result = some c.result },
        rw (a.returns, b.returns, c.returns),
        refl,
        c.state,
        ground (arith, a.raised, b.raised, c.raised, severity-initial),
      )

-- Numbers that are all those of a namespace type.
abbrev pub AreTypes : List ℤ → Type 0
AreTypes numbers = (types : List NsType) × (numbers ≡ map ns_type_to_i32 types)

type_names-to_i32 :
    (types : List NsType)
    → type_names (map ns_type_to_i32 types) ≡ ok (join ", " (map ns_type_as_str_name types))
unfolding type_names type_name
type_names-to_i32 types = rw (
    traverse-map type_name ns_type_to_i32 ns_type_as_str_name (λ t. rw (ns_type_from_i32-to_i32 t))
      types)

-- The result where the namespaces differ.
abbrev mismatch : SecResult → List NsType → List NsType → SecResult
mismatch r active desired = append r Criticality.error (
    cgroup_namespace_info (join ", " (map ns_type_as_str_name active))
      (join ", " (map ns_type_as_str_name desired)))

Raises-assess_cgroup_namespace :
    (namespaces : Namespaces) (r : SecResult)
    → AreTypes namespaces.active
    → AreTypes namespaces.desired
    → IsState r
    → Raises
        (assess_cgroup_namespace namespaces r)
        r
        (if namespaces.desired == namespaces.active then 0 else 4)
unfolding assess_cgroup_namespace criticality_number
Raises-assess_cgroup_namespace namespaces r (active, a) (desired, d) s =
    elim (Bool-cases (namespaces.desired == namespaces.active)) [
      | inl e ↦ rw e (record { result = r; returns = refl; raised = omega arith; state = s })
      | inr e ↦ rw e (record {
        result = mismatch r active desired;
        returns = rw (a, d, type_names-to_i32 active, type_names-to_i32 desired);
        raised = severity-append r Criticality.error _;
        state = append-IsState r Criticality.error _ s;
      })
    ]

module _ (e : EvalResult) where
  -- Goal S4 is assessed without a panic where the category is there with its namespaces and both
  -- limit tests; it is OK if the wanted namespaces are the active ones and both tests are valid and
  -- passed, else an ERROR.
  pub assess_goal_s4-exact :
      {c : Category} {isolation : IsolationMechanisms} {namespaces : Namespaces}
      {cpu memory : TestResult}
      → Maps.lookup "resource_control" e.categories ≡ some c
      → c.isolation ≡ some isolation
      → isolation.namespaces ≡ some namespaces
      → AreTypes namespaces.active
      → AreTypes namespaces.desired
      → HasTest e.categories "resource_control" "cpu_max_limited" cpu
      → HasTest e.categories "resource_control" "memory_max_limited" memory
      → (r : SecResult) × (g : GoalS4) × (assess_goal_s4 e ≡ ok (some g))
        × (g.result ≡ some r)
        × IsState r
        × (g.cgroups_namespace_used ≡ (namespaces.desired == namespaces.active))
        × (severity r ≡ (
            if (namespaces.desired == namespaces.active) && passes cpu && passes memory
            then 1
            else 4))
  unfolding assess_goal_s4
  assess_goal_s4-exact {namespaces} {cpu} {memory} found isolated spaces active desired hc hm =
      let a =
        Raises-assess_cgroup_namespace namespaces initial_result active desired
          initial_result-IsState in
      let b = Raises-assess_named a.result hc a.state in
      let c = Raises-assess_named b.result hm b.state in
      (
        c.result,
        record {
          description = "No availability impact";
          result = some c.result;
          cgroups_namespace_used = namespaces.desired == namespaces.active;
        },
        rw (found, isolated, spaces, a.returns, b.returns, c.returns),
        refl,
        c.state,
        refl,
        ground (arith, a.raised, b.raised, c.raised, severity-initial),
      )
