-- ===== src/Config/CapSec.antt =====
-- src/config/cap_sec.rs: `CAP_MAP`, the verdict on each capability.
mod Record
mod First
mod Second
pub use Record.{CapabilityRecord}
use First.{audit_to_ipc_lock, ipc_owner_to_perfmon}
use Second.{setgid_to_sys_nice, sys_pacct_to_wake_alarm}
use checkc.Base.{List, ◌++◌}
use checkc.Proto.Caps.{Capability}

unfoldable pub cap_map : List (Capability × CapabilityRecord)
cap_map =
    audit_to_ipc_lock ++ (ipc_owner_to_perfmon ++ (setgid_to_sys_nice ++ sys_pacct_to_wake_alarm))
