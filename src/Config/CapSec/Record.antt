-- ===== src/Config/CapSec/Record.antt =====
-- `CapabilityRecord` of src/config/cap_sec.rs.
use checkc.Base.{String, List}
use checkc.Proto.Ns.{NsType}
use checkc.Proto.Caps.{Capability}
use checkc.Proto.Assessment.{Criticality}

-- The namespaces under which a capability is harmless (`ok`) or merely dubious (`warn`), the
-- verdict otherwise, and a description.
pub record CapabilityRecord : Type 0 where
  pub ok : List NsType
  pub warn : List NsType
  pub default : Criticality
  pub notes : String

-- One `map.insert` of the table.
abbrev pub entry :
    Capability → List NsType → List NsType → Criticality → String → Capability × CapabilityRecord
entry cap ok warn default notes =
    (cap, record { ok = ok; warn = warn; default = default; notes = notes })
