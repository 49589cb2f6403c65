-- ===== src/Assessment/Capabilities.antt =====
-- `assess_capabilities` of src/assessment/mod.rs: the verdicts of `CAP_MAP` on a set of capabilities.
use checkc.Base.{
  String, Bool, not, ◌&&◌, ◌||◌, List, [], ◌∷◌, map, Outcome, ok, ◌>>=◌, unwrap, is_empty, ◌==◌,
  if◌then◌else◌,
}
use checkc.Base.Sets.{contains, is_subset}
use checkc.Base.Maps
use checkc.Base.Text.{◌<>◌, join, show_bool}
use checkc.Proto.Ns.{NsType, ns_type_eq, ns_type_debug}
use checkc.Proto.Caps.{Capability, capability_eq, capability_show}
use checkc.Proto.Evaluation.{Chroot}
use checkc.Proto.Assessment.{
  Criticality, criticality_eq, criticality_as_str_name, criticality_debug, SecResult,
  sec_result_default,
}
use checkc.Config.CapSec.{CapabilityRecord, cap_map}
use checkc.Assessment.State.{append}

-- `{:?}` of a `HashSet`.
unfoldable pub debug_ns_set : List NsType → String
debug_ns_set ns_set = "{" <> join ", " (map ns_type_debug ns_set) <> "}"

-- The special case `CAP_SYS_CHROOT`.
unfoldable pub assess_sys_chroot : List NsType → Criticality → Chroot → SecResult → SecResult
unfolding debug_ns_set
assess_sys_chroot ns_set result_goal_s2 chroot_conf r =
    if not (contains ns_set NsType.user) || not (contains ns_set NsType.mount)
    then append r Criticality.error (
        ("CAP_SYS_CHROOT: active namespaces '"
          <> debug_ns_set ns_set
          <> "' do not match required namespaces 'TYPE_USER, TYPE_MOUNT'")
        ∷ [])
    else if not chroot_conf.chroot || not chroot_conf.pivot_root
    then append r Criticality.error (
        ("Result for CAP_SYS_CHROOT is Criticality::Error because of result for chroot tests (chroot: '"
          <> show_bool chroot_conf.chroot
          <> "',  pivot_root: '"
          <> show_bool chroot_conf.pivot_root
          <> "')")
        ∷ [])
    else if not (Criticality.ok == result_goal_s2)
    then append r result_goal_s2 (
        ("CAP_SYS_CHROOT: Criticality::Error because of result '"
          <> criticality_debug result_goal_s2
          <> "' for Goal S2")
        ∷ [])
    else append r Criticality.ok []

-- A set of namespaces of the table that is not empty and wholly active.
unfoldable pub covers : List NsType → List NsType → Bool
covers required ns_set = not (is_empty required) && is_subset required ns_set

-- Every other capability, by its record.
unfoldable pub assess_record : List NsType → Capability → CapabilityRecord → SecResult → SecResult
unfolding covers
assess_record ns_set cap cap_record r =
    if covers cap_record.ok ns_set
    then r
    else if covers cap_record.warn ns_set
    then append r Criticality.warn (
        (capability_show cap
          <> ": "
          <> criticality_as_str_name Criticality.warn
          <> ", description: "
          <> cap_record.notes)
        ∷ [])
    else append r cap_record.default (
        (capability_show cap
          <> ": "
          <> criticality_as_str_name cap_record.default
          <> " (default), description: "
          <> cap_record.notes)
        ∷ [])

-- The loop body after the lookup.
unfoldable pub assess_entry :
    List NsType → Criticality → Chroot → Capability → CapabilityRecord → SecResult → SecResult
assess_entry ns_set result_goal_s2 chroot_conf cap cap_record r =
    if cap == Capability.cap_sys_chroot
    then assess_sys_chroot ns_set result_goal_s2 chroot_conf r
    else assess_record ns_set cap cap_record r

-- The loop body; a capability without a record panics.
unfoldable pub assess_capability :
    List NsType → Criticality → Chroot → Capability → SecResult → Outcome SecResult
assess_capability ns_set result_goal_s2 chroot_conf cap r = do
  cap_record ← unwrap (Maps.lookup cap cap_map)
  ok (assess_entry ns_set result_goal_s2 chroot_conf cap cap_record r)

unfoldable pub assess_loop :
    List NsType → Criticality → Chroot → List Capability → SecResult → Outcome SecResult
assess_loop ns_set result_goal_s2 chroot_conf [] r = ok r
assess_loop ns_set result_goal_s2 chroot_conf (cap ∷ cap_set) r = do
  r' ← assess_capability ns_set result_goal_s2 chroot_conf cap r
  assess_loop ns_set result_goal_s2 chroot_conf cap_set r'

unfoldable pub assess_capabilities :
    List NsType → List Capability → Criticality → Chroot → Outcome SecResult
unfolding assess_loop
assess_capabilities ns_set cap_set result_goal_s2 chroot_conf =
    assess_loop ns_set result_goal_s2 chroot_conf cap_set sec_result_default
