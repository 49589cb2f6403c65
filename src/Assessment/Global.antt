-- ===== src/Assessment/Global.antt =====
-- The goal S1 of src/assessment/mod.rs.
use checkc.Base.{
  String, not, ◌||◌, Option, none, some, List, [], ◌∷◌, ◌++◌, map, Outcome, ok, ◌>>=◌, unwrap,
  traverse, is_empty, string_eq, if◌then◌else◌,
}
use checkc.Base.Int.{ℤ}
use checkc.Base.Sets.{extend, difference}
use checkc.Base.Maps
use checkc.Base.Text.{◌<>◌, join, show_bool}
use checkc.Proto.Ns.{NsType, ns_type_eq, ns_type_from_i32, ns_type_to_i32, ns_type_as_str_name}
use checkc.Proto.Caps.{Capability, capability_from_i32, capability_to_i32}
use checkc.Proto.Evaluation.{Category, Chroot, IsolationMechanisms, EvalResult}
use checkc.Proto.Assessment.{Criticality, SecResult, criticality_from_i32, GoalS1}
use checkc.Assessment.State.{append, initial_result}
use checkc.Assessment.Capabilities.{assess_capabilities}
use checkc.Assessment.Goals.{assess_named}

-- The active and the desired namespaces of all categories.
abbrev pub NamespaceSets : Type 0
NamespaceSets = List NsType × List NsType

unfoldable pub types_of : List ℤ → Outcome (List NsType)
types_of = traverse (λ n. unwrap (ns_type_from_i32 n))

-- The body of the loop that collects the namespaces.
unfoldable pub add_namespaces : Option IsolationMechanisms → NamespaceSets → Outcome NamespaceSets
unfolding types_of
add_namespaces none sets = ok sets
add_namespaces (some isolation) (active_ns, desired_ns) = elim isolation.namespaces [
  | none ↦ ok (active_ns, desired_ns)
  | some namespaces ↦ types_of namespaces.active >>= λ active.
      types_of namespaces.desired >>= λ desired.
      ok (extend active_ns active, extend desired_ns desired)
]

unfoldable pub collect_namespaces : List (String × Category) → NamespaceSets → Outcome NamespaceSets
collect_namespaces [] sets = ok sets
collect_namespaces ((_, c) ∷ rest) sets = do
  sets' ← add_namespaces c.isolation sets
  collect_namespaces rest sets'

unfoldable pub collect_capabilities : List (String × Category) → Outcome (List Capability)
collect_capabilities [] = ok []
collect_capabilities ((_, c) ∷ rest) = do
  caps ← traverse (λ n. unwrap (capability_from_i32 n)) c.capabilities
  others ← collect_capabilities rest
  ok (caps ++ others)

unfoldable pub assess_chroot : Chroot → SecResult → SecResult
assess_chroot chroot_conf r =
    if not chroot_conf.chroot || not chroot_conf.pivot_root
    then append r Criticality.error (
        ("goal_s1: Unexpected chroot config: chroot "
          <> show_bool chroot_conf.chroot
          <> ", pivot_root: "
          <> show_bool chroot_conf.pivot_root)
        ∷ [])
    else r

unfoldable pub assess_namespaces : NamespaceSets → SecResult → SecResult
assess_namespaces (active_ns, desired_ns) r =
    let missing = difference desired_ns active_ns in
    if is_empty missing
    then r
    else append r Criticality.error (
        ("Active namespaces do not match desired namespaces: "
          <> join ", " (map ns_type_as_str_name missing))
        ∷ [])

-- The fields of the report that the end of the function fills.
unfoldable pub report_s1 : NamespaceSets → List Capability → Chroot → SecResult → GoalS1
report_s1 (active_ns, desired_ns) capabilities chroot_conf sec_result = record {
  description = "Restriction of global resource modification";
  result = some sec_result;
  namespace_conf =
      some
        (record { active = map ns_type_to_i32 active_ns; desired = map ns_type_to_i32 desired_ns });
  capabilities = map capability_to_i32 capabilities;
  chroot_conf = some chroot_conf;
}

-- From the collected configuration on; `categories` is read once more for the test.
unfoldable pub assess_collected :
    List (String × Category)
    → NamespaceSets
    → List Capability
    → Criticality
    → Chroot
    → Outcome GoalS1
assess_collected categories (active_ns, desired_ns) capabilities result_goal_s2 chroot_conf = do
  let r = assess_namespaces (active_ns, desired_ns) (assess_chroot chroot_conf initial_result)
  caps_result ← assess_capabilities active_ns capabilities result_goal_s2 chroot_conf
  caps_state ← unwrap (criticality_from_i32 caps_result.state)
  r' ←
      assess_named categories "access_control" "user_ns_maps_to_non_root_user"
        (append r caps_state caps_result.info)
  ok (report_s1 (active_ns, desired_ns) capabilities chroot_conf r')

-- `none` where no chroot was recorded.
unfoldable pub assess_goal_s1 : EvalResult → Criticality → Outcome (Option GoalS1)
assess_goal_s1 eval_result result_goal_s2 = do
  sets ← collect_namespaces eval_result.categories ([], [])
  capabilities ← collect_capabilities eval_result.categories
  filesystem ← unwrap (Maps.lookup "filesystem" eval_result.categories)
  isolation ← unwrap filesystem.isolation
  elim isolation.chroot [
    | none ↦ ok none
    | some chroot_conf ↦
        assess_collected eval_result.categories sets capabilities result_goal_s2 chroot_conf
        >>= λ goal. ok (some goal)
  ]
