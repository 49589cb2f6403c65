-- ===== src/Assessment/Verdicts.antt =====
-- The severity of a set of capabilities is the worst of their own.
use checkc.Base.{
  ℕ, ◌≡◌, ◌≢◌, refl, Bool, true, not, ◌&&◌, ◌||◌, Option, none, some, List, [], ◌∷◌, arith, max,
  leb, ◌==◌, if◌then◌else◌, All, list_eq, list_beq_iff, Bool-cases, inl, inr, inl, inr,
}
use checkc.Base.Int.{pos}
use checkc.Base.Sets.{contains, is_subset, all}
use checkc.Base.Maps
use checkc.Proto.Ns.{NsType, user, mount, ns_type_eq}
use checkc.Proto.Caps.{Capability, capability_eq, capability_beq_iff}
use checkc.Proto.Evaluation.{Chroot}
use checkc.Proto.Assessment.{
  Criticality, SecResult, criticality_number, criticality_to_i32, criticality_eq,
  criticality_beq_iff,
}
use checkc.Config.CapSec.{CapabilityRecord, cap_map}
use checkc.Assessment.State.{append}
use checkc.Assessment.Capabilities.{
  assess_capability, assess_sys_chroot, assess_record, assess_entry, covers, assess_loop,
}
use checkc.Assessment.Severity.{severity, magnitude-int_max, IsState, state_rules, Raises}
use checkc.Assessment.Table.{required_namespaces, required_namespaces-ne_nil, fits, entry-fits}

module _ (ns_set : List NsType) (result_goal_s2 : Criticality) (chroot_conf : Chroot) where
  -- The severity of one capability, by its entry.
  abbrev pub record_severity : CapabilityRecord → ℕ
  record_severity cap_record =
      if covers cap_record.ok ns_set
      then 0
      else if covers cap_record.warn ns_set
      then 3
      else criticality_number cap_record.default

  abbrev pub chroot_severity : ℕ
  chroot_severity =
      if contains ns_set user
        && contains ns_set mount
        && chroot_conf.chroot
        && chroot_conf.pivot_root
      then criticality_number result_goal_s2
      else 4

  abbrev pub entry_severity : Capability → Option CapabilityRecord → ℕ
  entry_severity cap none = 0
  entry_severity cap (some cap_record) =
      if cap == Capability.cap_sys_chroot then chroot_severity else record_severity cap_record

  unfoldable pub capability_severity : Capability → ℕ
  capability_severity cap = entry_severity cap (Maps.lookup cap cap_map)

  -- All the namespaces that a capability needs are active; for `CAP_SYS_CHROOT` the root was also
  -- changed by `pivot_root`, and goal S2 is met.
  unfoldable pub is_harmless : Capability → Bool
  is_harmless cap =
      is_subset (required_namespaces cap) ns_set
      && (not (cap == Capability.cap_sys_chroot)
          || (chroot_conf.chroot
              && chroot_conf.pivot_root
              && leb (criticality_number result_goal_s2) 1))

  chroot_subset :
      is_subset (required_namespaces Capability.cap_sys_chroot) ns_set
      ≡ (contains ns_set user && contains ns_set mount)
  unfolding is_subset all required_namespaces
  chroot_subset = ground arith

  entry-harmless :
      (cap : Capability) (o : Option CapabilityRecord)
      → fits cap o ≡ true
      → leb (entry_severity cap o) 1 ≡ is_harmless cap
  unfolding is_harmless covers
  entry-harmless cap none h = cc
  entry-harmless cap (some cap_record) h = ground (
    arith,
    chroot_subset,
    required_namespaces-ne_nil cap,
    capability_beq_iff cap Capability.cap_sys_chroot,
    list_beq_iff cap_record.ok (required_namespaces cap),
  )

  pub harmless_iff :
      (cap : Capability)
      → cap ≢ Capability.unspecified
      → leb (capability_severity cap) 1 ≡ is_harmless cap
  unfolding capability_severity
  harmless_iff cap h = entry-harmless cap (Maps.lookup cap cap_map) (entry-fits cap h)

  -- One capability raises the severity to its own.
  severity-assess_record :
      (cap : Capability) (cap_record : CapabilityRecord) (r : SecResult)
      → severity (assess_record ns_set cap cap_record r)
        ≡ max (severity r) (record_severity cap_record)
  unfolding assess_record append criticality_to_i32
  severity-assess_record cap cap_record r = ground (
    arith,
    magnitude-int_max r.state (pos 3),
    magnitude-int_max r.state (pos (criticality_number cap_record.default)),
  )

  severity-assess_sys_chroot :
      (r : SecResult)
      → severity (assess_sys_chroot ns_set result_goal_s2 chroot_conf r)
        ≡ max (severity r) chroot_severity
  unfolding assess_sys_chroot append criticality_to_i32
  severity-assess_sys_chroot r = ground (
    arith,
    criticality_beq_iff Criticality.ok result_goal_s2,
    magnitude-int_max r.state (pos 1),
    magnitude-int_max r.state (pos 4),
    magnitude-int_max r.state (pos (criticality_number result_goal_s2)),
  )

  severity-assess_entry :
      (cap : Capability) (cap_record : CapabilityRecord) (r : SecResult)
      → severity (assess_entry ns_set result_goal_s2 chroot_conf cap cap_record r)
        ≡ max (severity r) (entry_severity cap (some cap_record))
  unfolding assess_entry
  severity-assess_entry cap cap_record r = elim (Bool-cases (cap == Capability.cap_sys_chroot)) [
    | inl e ↦ rw e (severity-assess_sys_chroot r)
    | inr e ↦ rw e (severity-assess_record cap cap_record r)
  ]

  assess_sys_chroot-IsState :
      (r : SecResult) → IsState r → IsState (assess_sys_chroot ns_set result_goal_s2 chroot_conf r)
  unfolding assess_sys_chroot
  assess_sys_chroot-IsState r h = search state_rules

  assess_record-IsState :
      (cap : Capability) (cap_record : CapabilityRecord) (r : SecResult)
      → IsState r
      → IsState (assess_record ns_set cap cap_record r)
  unfolding assess_record
  assess_record-IsState cap cap_record r h = search state_rules

  assess_entry-IsState :
      (cap : Capability) (cap_record : CapabilityRecord) (r : SecResult)
      → IsState r
      → IsState (assess_entry ns_set result_goal_s2 chroot_conf cap cap_record r)
  unfolding assess_entry
  assess_entry-IsState cap cap_record r h =
      search (state_rules, assess_sys_chroot-IsState, assess_record-IsState)

  assess_found :
      (cap : Capability) (o : Option CapabilityRecord) (r : SecResult)
      → Maps.lookup cap cap_map ≡ o
      → fits cap o ≡ true
      → IsState r
      → Raises (assess_capability ns_set result_goal_s2 chroot_conf cap r) r (entry_severity cap o)
  unfolding assess_capability
  assess_found cap none r e f s = cc
  assess_found cap (some cap_record) r e f s = record {
    result = assess_entry ns_set result_goal_s2 chroot_conf cap cap_record r;
    returns = rw e;
    raised = severity-assess_entry cap cap_record r;
    state = assess_entry-IsState cap cap_record r s;
  }

  Raises-assess_capability :
      (cap : Capability) (r : SecResult)
      → cap ≢ Capability.unspecified
      → IsState r
      → Raises
          (assess_capability ns_set result_goal_s2 chroot_conf cap r)
          r
          (capability_severity cap)
  unfolding capability_severity
  Raises-assess_capability cap r h s =
      assess_found cap (Maps.lookup cap cap_map) r refl (entry-fits cap h) s

  -- The worst severity of some capabilities.
  abbrev pub worst : List Capability → ℕ
  worst [] = 0
  worst (cap ∷ caps) = max (capability_severity cap) (worst caps)

  pub Raises-assess_loop :
      (caps : List Capability) (r : SecResult)
      → All (λ cap. cap ≢ Capability.unspecified) caps
      → IsState r
      → Raises (assess_loop ns_set result_goal_s2 chroot_conf caps r) r (worst caps)
  unfolding assess_loop
  Raises-assess_loop [] r h s = record {
    result = r;
    returns = refl;
    raised = omega arith;
    state = s;
  }
  Raises-assess_loop (cap ∷ caps) r h s =
      let first = Raises-assess_capability cap r h.0 s in
      let rest = Raises-assess_loop caps first.result h.1 first.state in
      record {
        result = rest.result;
        returns = rw first.returns rest.returns;
        raised = omega (arith, first.raised, rest.raised);
        state = rest.state;
      }
