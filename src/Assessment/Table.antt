-- ===== src/Assessment/Table.antt =====
-- What holds of every entry of `CAP_MAP`, and the namespaces each capability needs.
use checkc.Base.{
  ◌≡◌, ◌≢◌, refl, Bool, true, false, ◌&&◌, ◌||◌, Option, none, some, List, [], ◌∷◌, leb, ◌==◌,
  is_empty, list_eq,
}
use checkc.Base.Maps
use checkc.Proto.Ns.{NsType, user, mount, pid, ipc, network, ns_type_eq, ns_type_beq}
use checkc.Proto.Caps.{Capability, capability_eq, capability_beq}
use checkc.Proto.Assessment.{criticality_number, criticality_eq}
use checkc.Config.CapSec.{CapabilityRecord, cap_map}

-- The namespaces that must be active for a capability to do no harm outside the container.
unfoldable pub required_namespaces : Capability → List NsType
required_namespaces Capability.cap_checkpoint_restore = user ∷ pid ∷ []
required_namespaces Capability.cap_sys_boot = user ∷ pid ∷ []
required_namespaces Capability.cap_ipc_owner = user ∷ ipc ∷ []
required_namespaces Capability.cap_net_broadcast = user ∷ network ∷ []
required_namespaces Capability.cap_sys_chroot = user ∷ mount ∷ []
required_namespaces _ = user ∷ []

-- What holds of the entry of each capability in the table.
abbrev pub fits : Capability → Option CapabilityRecord → Bool
fits cap none = false
fits cap (some cap_record) =
    (cap == Capability.cap_sys_chroot || cap_record.ok == required_namespaces cap)
    && leb 2 (criticality_number cap_record.default)
    && (is_empty cap_record.warn || leb 3 (criticality_number cap_record.default))

pub entry-fits :
    (cap : Capability) → cap ≢ Capability.unspecified → fits cap (Maps.lookup cap cap_map) ≡ true
unfolding cap_map Maps.lookup capability_beq required_namespaces criticality_number ns_type_beq
entry-fits Capability.unspecified h = absurd (h refl)
entry-fits _ h = refl

pub required_namespaces-ne_nil : (cap : Capability) → is_empty (required_namespaces cap) ≡ false
unfolding required_namespaces
required_namespaces-ne_nil Capability.unspecified = refl
required_namespaces-ne_nil _ = refl
