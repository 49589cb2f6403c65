-- ===== src/Assessment/Monotone.antt =====
-- Neither more active namespaces nor fewer capabilities make a verdict worse.
use checkc.Base.{◌≤◌, ◌≡◌, ◌≢◌, refl, true, Option, none, some, List, [], ◌∷◌, arith, ok}
use checkc.Base.Sets.{contains, is_subset, all}
use checkc.Base.Maps
use checkc.Proto.Ns.{NsType, user, mount, ns_type_eq}
use checkc.Proto.Caps.{Capability, capability_eq, capability_beq_iff}
use checkc.Proto.Evaluation.{Chroot}
use checkc.Proto.Assessment.{Criticality, SecResult, criticality_number}
use checkc.Config.CapSec.{CapabilityRecord, cap_map}
use checkc.Assessment.Capabilities.{covers, assess_capabilities}
use checkc.Assessment.Severity.{severity}
use checkc.Assessment.Table.{fits, entry-fits}
use checkc.Assessment.Verdicts.{capability_severity, entry_severity, worst}
use checkc.Assessment.Harmless.{AreKnown, AreKnown-of_ok, Raises-assess_capabilities}

-- More active namespaces do not raise the severity of a capability.
abbrev IsWider : List NsType → List NsType → Type 0
IsWider more fewer = (t : NsType) → contains fewer t ≡ true → contains more t ≡ true

is_subset-IsWider :
    (required fewer more : List NsType)
    → IsWider more fewer
    → is_subset required fewer ≡ true
    → is_subset required more ≡ true
unfolding is_subset all
is_subset-IsWider [] fewer more w h = refl
is_subset-IsWider (t ∷ required) fewer more w h =
    ground (arith, w t, is_subset-IsWider required fewer more w)

criticality-le : (c : Criticality) → criticality_number c ≤ 4
unfolding criticality_number
criticality-le Criticality.unspecified = omega arith
criticality-le _ = omega arith

module _ (fewer more : List NsType) (w : IsWider more fewer) (s2 : Criticality)
    (chroot : Chroot) where
  entry_severity-le :
      (cap : Capability) (o : Option CapabilityRecord)
      → fits cap o ≡ true
      → entry_severity more s2 chroot cap o ≤ entry_severity fewer s2 chroot cap o
  unfolding covers
  entry_severity-le cap none h = omega arith
  entry_severity-le cap (some cap_record) h = ground (
    arith,
    criticality-le s2,
    criticality-le cap_record.default,
    w user,
    w mount,
    is_subset-IsWider cap_record.ok fewer more w,
    is_subset-IsWider cap_record.warn fewer more w,
  )

  capability_severity-le :
      (cap : Capability)
      → cap ≢ Capability.unspecified
      → capability_severity more s2 chroot cap ≤ capability_severity fewer s2 chroot cap
  unfolding capability_severity
  capability_severity-le cap h = entry_severity-le cap (Maps.lookup cap cap_map) (entry-fits cap h)

  abbrev IsAmong : List Capability → List Capability → Type 0
  IsAmong few many = (cap : Capability) → contains few cap ≡ true → contains many cap ≡ true

  severity-le-worst :
      (cap : Capability) (caps : List Capability)
      → contains caps cap ≡ true
      → capability_severity fewer s2 chroot cap ≤ worst fewer s2 chroot caps
  unfolding contains
  severity-le-worst cap [] h = cc
  severity-le-worst cap (c ∷ caps) h =
      ground (arith, severity-le-worst cap caps, capability_beq_iff cap c)

  worst-le :
      (few many : List Capability)
      → AreKnown few
      → IsAmong few many
      → worst more s2 chroot few ≤ worst fewer s2 chroot many
  unfolding contains
  worst-le [] many k h = omega arith
  worst-le (cap ∷ few) many k h =
      let at_cap : contains many cap ≡ true = h cap (ground (arith, capability_beq_iff cap cap)) in
      omega (
        arith,
        capability_severity-le cap k.0,
        severity-le-worst cap many at_cap,
        worst-le few many k.1 (λ c m. h c (ground arith)),
      )

  -- Of two assessments that return, the one with at least the other's active namespaces and at most
  -- its capabilities, for the same goal S2 and the same root, is no worse.
  pub assess_capabilities_mono :
      (few many : List Capability) {r r' : SecResult}
      → IsAmong few many
      → assess_capabilities fewer many s2 chroot ≡ ok r
      → assess_capabilities more few s2 chroot ≡ ok r'
      → severity r' ≤ severity r
  assess_capabilities_mono few many {r} {r'} among h h' =
      let known = AreKnown-of_ok more s2 chroot few h' in
      let a =
        Raises-assess_capabilities fewer s2 chroot many (AreKnown-of_ok fewer s2 chroot many h) in
      let b = Raises-assess_capabilities more s2 chroot few known in
      ground (arith, a.returns, a.raised, b.returns, b.raised, worst-le few many known among)
