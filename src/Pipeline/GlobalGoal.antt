-- ===== src/Pipeline/GlobalGoal.antt =====
-- The goal S1 (src/assessment/mod.rs) of an evaluation result that `EvalResult::from_config`
-- (src/evaluation/mod.rs) returned, in terms of the configuration.
use checkc.Base.{
  beq_self, ◌≡◌, refl, ◌∙◌, String, Bool, true, not, ◌&&◌, ◌||◌, Option, some, List, [], ◌∷◌, arith,
  leb, ok, Bool-cases, inl, inr, string_eq, ◌==◌, nat_eq, list_eq,
}
use checkc.Base.Int.{int_eq}
use checkc.Base.Sets.{contains, is_subset, extend, contains-extend}
use checkc.Proto.Ns.{NsType, ns_type_eq, ns_type_number, ns_type_beq}
use checkc.Proto.Caps.{Capability, capability_eq, capability_beq, capability_number, cap_prm_values}
use checkc.Proto.Host.{Config, Root, ChrootConfig, UserNsConfig}
use checkc.Proto.Evaluation.{EvalResult}
use checkc.Proto.Assessment.{Criticality, SecResult, GoalS1, criticality_number}
use checkc.Evaluation.{from_config}
use checkc.Evaluation.Categories.{test_result}
use checkc.Assessment.{assess_goal_s1}
use checkc.Assessment.Severity.{severity, IsState}
use checkc.Pipeline.Evaluated.{Evaluated, Rearranged, from_config-Rearranged, in_order}
use checkc.Pipeline.Global.{all_types, difference-is_subset, is_subset-members, all-harmless}
use checkc.Pipeline.Shuffled.{collect_namespaces-Reordered, collect_capabilities-Reordered}
use checkc.Pipeline.Plan.{plan, Categories-Report, wanted_capabilities-all}
use checkc.Pipeline.Collected.{wanted_namespaces, wanted_capabilities}
use checkc.Assessment.GlobalGoal.{meets_s1, assess_goal_s1-exact}
use checkc.Assessment.Harmless.{AreKnown, AreKnown-dec}
use checkc.Pipeline.Facts.{is_changed, chroot_of, category_filesystem-Filesystem}
use checkc.Pipeline.Tested.{category_access_control-AccessControl, maps_to_root}
use checkc.Pipeline.Lookups.{found_filesystem, found_access_control}

-- What goal S1 asks of a configuration: a root changed by pivot_root, every namespace active,
-- CAP_SYS_CHROOT only with goal S2 at most OK, and no user mapped to the parent's root.
unfoldable pub meets_global :
    Root → Root → List NsType → List Capability → UserNsConfig → Criticality → Bool
meets_global host container active capabilities u s2 =
    is_changed host container
    && container.path == "/"
    && is_subset all_types active
    && (not (contains capabilities Capability.cap_sys_chroot) || leb (criticality_number s2) 1)
    && not (maps_to_root u.uid_map)

wanted_namespaces-types : (t : NsType) → contains (wanted_namespaces plan) t ≡ contains all_types t
unfolding contains ns_type_beq ns_type_number
wanted_namespaces-types NsType.unspecified = refl
wanted_namespaces-types _ = refl

wanted_chroot : contains (wanted_capabilities plan) Capability.cap_sys_chroot ≡ true
unfolding contains capability_beq capability_number
wanted_chroot = refl

-- Where every wanted namespace and capability was collected, goal S1 asks for that.
meets_s1-global :
    (host container : Root) (ns_set active desired : List NsType)
    (capabilities caps : List Capability) (u : UserNsConfig) (s2 : Criticality)
    → ((t : NsType)
        → contains active t ≡ (contains ns_set t && contains (wanted_namespaces plan) t))
    → ((t : NsType) → contains desired t ≡ contains (wanted_namespaces plan) t)
    → ((c : Capability)
        → contains caps c ≡ (contains capabilities c && contains (wanted_capabilities plan) c))
    → meets_s1 active desired caps s2
        (chroot_of host container)
        (test_result (not (maps_to_root u.uid_map)) ("" ∷ []))
      ≡ meets_global host container ns_set capabilities u s2
unfolding meets_s1 meets_global
meets_s1-global host container ns_set active desired capabilities caps u s2 a d m =
    let covers_all : is_subset desired active ≡ is_subset all_types ns_set =
      is_subset-members desired active all_types ns_set (λ t. d t ∙ wanted_namespaces-types t)
        (λ t h. ground (arith, a t, wanted_namespaces-types t)) in
    let same_active : is_subset all_types active ≡ is_subset all_types ns_set =
      is_subset-members all_types active all_types ns_set (λ t. refl)
        (λ t h. ground (arith, a t, wanted_namespaces-types t)) in
    let chroot_in : contains caps Capability.cap_sys_chroot
        ≡ contains capabilities Capability.cap_sys_chroot =
      ground (arith, m Capability.cap_sys_chroot, wanted_chroot) in
    elim (Bool-cases (is_subset all_types ns_set)) [
      | inl y ↦ ground (
        arith,
        difference-is_subset desired active,
        covers_all,
        chroot_in,
        all-harmless active (same_active ∙ y) s2 (chroot_of host container) caps,
      )
      | inr n ↦ ground (arith, difference-is_subset desired active, covers_all)
    ]

module _ (find_uuid : String → Option String) (config : Config) (root : String) where
  -- An evaluation that returned had the roots of the host and of the container, a user mapping and
  -- capabilities, and its goal S1, for any verdict on goal S2 and with its categories in any order, is
  -- assessed without a panic. Its state
  -- is at most OK exactly if the container's root is another one than the host's and is its own "/",
  -- all eight namespaces are active, CAP_SYS_CHROOT is missing or goal S2 is at most OK, and no user
  -- is mapped to the parent's root.
  pub from_config-goal_s1 :
      {e : EvalResult} (moved : EvalResult) (s2 : Criticality)
      → from_config find_uuid config root ≡ ok e
      → Rearranged e moved
      → (v : Evaluated find_uuid config root moved) × (chroot_config : ChrootConfig) × (host : Root)
        × (container : Root) × (u : UserNsConfig) × (r : SecResult) × (g : GoalS1)
        × (config.chroot_config ≡ some chroot_config)
        × (chroot_config.host ≡ some host)
        × (chroot_config.container ≡ some container)
        × (config.user_ns_config ≡ some u)
        × (assess_goal_s1 moved s2 ≡ ok (some g))
        × (g.result ≡ some r)
        × IsState r
        × (leb (severity r) 1
            ≡ meets_global host container v.ns_set (cap_prm_values v.caps_config.cap_prm) u s2)
  unfolding contains
  from_config-goal_s1 {e} moved s2 h r =
      let v = from_config-Rearranged find_uuid config root moved h r in
      let k = v.categories in
      let values = cap_prm_values v.caps_config.cap_prm in
      let capabilities = extend [] values in
      let f =
        category_filesystem-Filesystem config v.ns_set capabilities find_uuid root
          k.filesystem_ok in
      let a = category_access_control-AccessControl config v.ns_set capabilities k.access_ok in
      let entered =
        in_order v.ns_set capabilities k.network k.filesystem k.devices k.resource_control
          k.access_control in
      let reports = Categories-Report v.ns_set capabilities find_uuid config root k in
      let (sets, spaces, active, desired) =
        collect_namespaces-Reordered v.ns_set capabilities entered moved.categories plan k.listed
          reports in
      let (caps, collected, members) =
        collect_capabilities-Reordered v.ns_set capabilities entered moved.categories plan k.listed
          reports in
      let known : AreKnown caps = AreKnown-dec caps (
        ground (
          arith,
          members Capability.unspecified,
          wanted_capabilities-all Capability.unspecified,
          beq_self Capability.unspecified,
        )) in
      let (severe, g, returns, result, state, exact) =
        assess_goal_s1-exact sets.0 sets.1 caps s2 (chroot_of f.host f.container) moved spaces
          collected (found_filesystem k) f.isolation refl known
          (record {
            entry = k.access_control;
            found = found_access_control k;
            tested = a.root_test;
          }) in
      (
        v,
        f.chroot_config,
        f.host,
        f.container,
        a.user_ns_config,
        severe,
        g,
        f.has_chroot,
        f.has_host,
        f.has_container,
        a.has_user_ns,
        returns,
        result,
        state,
        exact
            ∙ meets_s1-global f.host f.container v.ns_set sets.0 sets.1 values caps a.user_ns_config
                s2 active desired (λ c. ground (arith, members c, contains-extend [] values c)),
      )
