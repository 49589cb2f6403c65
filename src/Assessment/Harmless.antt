-- ===== src/Assessment/Harmless.antt =====
-- When a set of capabilities is harmless, when its assessment panics, and that neither more
-- namespaces nor fewer capabilities make it worse.
use checkc.Base.{
  ◌≡◌, ◌≢◌, refl, ◌↔◌, true, false, Option, none, some, List, [], ◌∷◌, arith, leb, ok, panic, All,
  Bool-cases, inl, inr,
}
use checkc.Base.Sets.{contains, all}
use checkc.Base.Maps
use checkc.Proto.Ns.{NsType, ns_type_eq}
use checkc.Proto.Caps.{Capability, capability_eq, capability_beq, capability_beq_iff}
use checkc.Proto.Evaluation.{Chroot}
use checkc.Proto.Assessment.{Criticality, SecResult, criticality_to_i32, sec_result_default}
use checkc.Config.CapSec.{CapabilityRecord, cap_map}
use checkc.Assessment.Capabilities.{assess_capability, assess_loop, assess_capabilities}
use checkc.Assessment.Severity.{severity, IsState, Raises}
use checkc.Assessment.Verdicts.{worst, is_harmless, harmless_iff, Raises-assess_loop}

sec_result_default-IsState : IsState sec_result_default
unfolding criticality_to_i32
sec_result_default-IsState = record { criticality = Criticality.unspecified; reads = refl }

pub unspecified_missing : Maps.lookup Capability.unspecified cap_map ≡ none
unfolding cap_map Maps.lookup capability_beq
unspecified_missing = refl

abbrev pub AreKnown : List Capability → Type 0
AreKnown caps = All (λ cap. cap ≢ Capability.unspecified) caps

pub AreKnown-dec :
    (caps : List Capability) → contains caps Capability.unspecified ≡ false → AreKnown caps
unfolding contains
AreKnown-dec [] h = tt
AreKnown-dec (cap ∷ caps) h = (
  ground (arith, capability_beq_iff Capability.unspecified cap),
  AreKnown-dec caps (ground arith),
)

module _ (ns_set : List NsType) (result_goal_s2 : Criticality) (chroot_conf : Chroot) where
  pub Raises-assess_capabilities :
      (caps : List Capability)
      → AreKnown caps
      → Raises
          (assess_capabilities ns_set caps result_goal_s2 chroot_conf)
          sec_result_default
          (worst ns_set result_goal_s2 chroot_conf caps)
  unfolding assess_capabilities
  Raises-assess_capabilities caps h =
      Raises-assess_loop ns_set result_goal_s2 chroot_conf caps sec_result_default h
        sec_result_default-IsState

  pub worst-harmless :
      (caps : List Capability)
      → AreKnown caps
      → leb (worst ns_set result_goal_s2 chroot_conf caps) 1
        ≡ all (is_harmless ns_set result_goal_s2 chroot_conf) caps
  unfolding all
  worst-harmless [] h = refl
  worst-harmless (cap ∷ caps) h =
      ground
        (arith, harmless_iff ns_set result_goal_s2 chroot_conf cap h.0, worst-harmless caps h.1)

  -- A set of known capabilities is assessed without a panic, and the verdict is at most OK exactly
  -- if all the namespaces that each capability needs are active and, where CAP_SYS_CHROOT is among
  -- them, the root was changed by pivot_root and goal S2 is at most OK.
  pub assess_capabilities-harmless_iff :
      (caps : List Capability)
      → AreKnown caps
      → (r : SecResult) × (assess_capabilities ns_set caps result_goal_s2 chroot_conf ≡ ok r)
        × (leb (severity r) 1 ≡ all (is_harmless ns_set result_goal_s2 chroot_conf) caps)
  assess_capabilities-harmless_iff caps h =
      let raises = Raises-assess_capabilities caps h in
      (raises.result, raises.returns, ground (arith, raises.raised, worst-harmless caps h))

  assess_loop-panic :
      (caps : List Capability) (r : SecResult)
      → contains caps Capability.unspecified ≡ true
      → assess_loop ns_set result_goal_s2 chroot_conf caps r ≡ panic
  unfolding contains assess_loop assess_capability
  assess_loop-panic [] r h = cc
  assess_loop-panic (cap ∷ caps) r h = step (Maps.lookup cap cap_map) refl (λ cap_record e r'.
      assess_loop-panic caps r'
        (ground (arith, unspecified_missing, capability_beq_iff Capability.unspecified cap)))
    where
      step :
          (o : Option CapabilityRecord)
          → Maps.lookup cap cap_map ≡ o
          → ((cap_record : CapabilityRecord)
              → Maps.lookup cap cap_map ≡ some cap_record
              → (r' : SecResult) → assess_loop ns_set result_goal_s2 chroot_conf caps r' ≡ panic)
          → assess_loop ns_set result_goal_s2 chroot_conf (cap ∷ caps) r ≡ panic
      step none e later = rw e
      step (some cap_record) e later = rw e (later cap_record e _)

  -- The assessment of a set of capabilities panics exactly if the placeholder is among them.
  pub assess_capabilities-panic_iff :
      (caps : List Capability)
      → (assess_capabilities ns_set caps result_goal_s2 chroot_conf ≡ panic)
        ↔ (contains caps Capability.unspecified ≡ true)
  unfolding assess_capabilities
  assess_capabilities-panic_iff caps = (
    λ p. elim (Bool-cases (contains caps Capability.unspecified)) [
      | inl e ↦ e
      | inr e ↦ absurd (cc ((Raises-assess_capabilities caps (AreKnown-dec caps e)).returns, p))
    ],
    assess_loop-panic caps sec_result_default,
  )

-- What was assessed without a panic was known.
pub AreKnown-of_ok :
    (ns_set : List NsType) (s2 : Criticality) (chroot : Chroot) (caps : List Capability)
    {r : SecResult}
    → assess_capabilities ns_set caps s2 chroot ≡ ok r
    → AreKnown caps
AreKnown-of_ok ns_set s2 chroot caps h = elim (Bool-cases (contains caps Capability.unspecified)) [
  | inl e ↦ absurd (cc ((assess_capabilities-panic_iff ns_set s2 chroot caps).1 e, h))
  | inr e ↦ AreKnown-dec caps e
]
