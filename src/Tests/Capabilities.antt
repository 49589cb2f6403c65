-- ===== src/Tests/Capabilities.antt =====
-- The assessment of capabilities (src/assessment/mod.rs) at concrete inputs.
use checkc.Base.{◌≤◌, ◌≡◌, refl, ◌↔◌, true, List, [], ◌∷◌, arith, leb, ok, panic}
use checkc.Base.Sets.{contains, all, is_subset}
use checkc.Base.Maps
use checkc.Proto.Ns.{NsType, user, mount, ns_type_eq, ns_type_beq}
use checkc.Proto.Caps.{Capability, capability_eq, capability_beq, capability_number}
use checkc.Proto.Evaluation.{Chroot}
use checkc.Proto.Assessment.{Criticality, SecResult, criticality_to_i32}
use checkc.Config.CapSec.{cap_map}
use checkc.Assessment.{
  assess_capabilities, assess_loop, assess_capability, assess_entry, assess_record, covers, append,
}
use checkc.Assessment.Severity.{severity}
use checkc.Assessment.Verdicts.{is_harmless}
use checkc.Assessment.Harmless.{
  AreKnown, AreKnown-dec, assess_capabilities-harmless_iff, assess_capabilities-panic_iff,
}
use checkc.Assessment.Monotone.{assess_capabilities_mono}

abbrev pivoted : Chroot
pivoted = record { chroot = true; pivot_root = true }

abbrev user_and_mount : List NsType
user_and_mount = user ∷ mount ∷ []

abbrev chroot_and_kill : List Capability
chroot_and_kill = Capability.cap_sys_chroot ∷ Capability.cap_kill ∷ []

chroot_and_kill-AreKnown : AreKnown chroot_and_kill
unfolding contains capability_beq capability_number
chroot_and_kill-AreKnown = AreKnown-dec chroot_and_kill refl

assess_capabilities-harmless_iff_example :
    (r : SecResult) × (assess_capabilities user_and_mount chroot_and_kill Criticality.ok pivoted
      ≡ ok r)
    × (leb (severity r) 1 ≡ all (is_harmless user_and_mount Criticality.ok pivoted) chroot_and_kill)
assess_capabilities-harmless_iff_example =
    assess_capabilities-harmless_iff user_and_mount Criticality.ok pivoted chroot_and_kill
      chroot_and_kill-AreKnown

abbrev unknown_last : List Capability
unknown_last = Capability.cap_kill ∷ Capability.unspecified ∷ []

assess_capabilities-panic_iff_example :
    (assess_capabilities user_and_mount unknown_last Criticality.ok pivoted ≡ panic)
    ↔ (contains unknown_last Capability.unspecified ≡ true)
assess_capabilities-panic_iff_example =
    assess_capabilities-panic_iff user_and_mount Criticality.ok pivoted unknown_last

abbrev kill_and_admin : List Capability
kill_and_admin = Capability.cap_kill ∷ Capability.cap_sys_admin ∷ []

-- Without a user namespace, CAP_SYS_ADMIN is an error; CAP_KILL alone in one is harmless.
assess_capabilities_mono_example : 0 ≤ 4
unfolding assess_capabilities assess_loop assess_capability assess_entry assess_record covers append
    cap_map Maps.lookup capability_beq capability_number contains is_subset all ns_type_beq
    criticality_to_i32
assess_capabilities_mono_example =
    assess_capabilities_mono [] (user ∷ []) (λ t m. ground arith) Criticality.ok pivoted
      (Capability.cap_kill ∷ []) kill_and_admin (λ c m. ground arith) refl refl
