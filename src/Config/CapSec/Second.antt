-- ===== src/Config/CapSec/Second.antt =====
-- The second half of the table `CAP_MAP` of src/config/cap_sec.rs.
use checkc.Base.{List, [], ◌∷◌}
use checkc.Proto.Ns.{user, pid}
use checkc.Proto.Caps.{Capability}
use checkc.Proto.Assessment.{Criticality}
use checkc.Config.CapSec.Record.{CapabilityRecord, entry}

-- The entries of `CAP_MAP` from `cap_setgid` to `cap_sys_nice`.
abbrev pub setgid_to_sys_nice : List (Capability × CapabilityRecord)
setgid_to_sys_nice =
    entry Capability.cap_setgid (user ∷ []) [] Criticality.error
      "Allows arbitrary manipulation of process GID"
    ∷ entry Capability.cap_setfcap (user ∷ []) [] Criticality.error
        "Allows setting arbitrary capabilities on a file"
    ∷ entry Capability.cap_setpcap (user ∷ []) [] Criticality.error
        "Depending on whether file caps are supported: allows manipulation of cap perm set"
    ∷ entry Capability.cap_setuid (user ∷ []) [] Criticality.error
        "Allows arbitrary manipulations of process UID"
    ∷ entry Capability.cap_sys_admin (user ∷ []) [] Criticality.error
        "Overloaded Capability, defacto root"
    ∷ entry Capability.cap_sys_boot (user ∷ pid ∷ []) [] Criticality.error
        "System reboot; allows to load new kernel"
    ∷ entry Capability.cap_sys_chroot [] [] Criticality.error
        "Perform chroot; join mount namespaces"
    ∷ entry Capability.cap_sys_module (user ∷ []) [] Criticality.error
        "Allows loading/unloading of kernel modules"
    ∷ entry Capability.cap_sys_nice (user ∷ []) [] Criticality.warn
        "Allows various operations regarding process scheduling"
    ∷ []

-- The entries of `CAP_MAP` from `cap_sys_pacct` to `cap_wake_alarm`.
abbrev pub sys_pacct_to_wake_alarm : List (Capability × CapabilityRecord)
sys_pacct_to_wake_alarm =
    entry Capability.cap_sys_pacct (user ∷ []) [] Criticality.warn
      "Switch process accounting on or off"
    ∷ entry Capability.cap_sys_ptrace (user ∷ []) (pid ∷ []) Criticality.error
        "Allow tracing processes via ptrace"
    ∷ entry Capability.cap_sys_rawio (user ∷ []) [] Criticality.error
        "Grants access to /dev/mem, /dev/kmem and others"
    ∷ entry Capability.cap_sys_resource (user ∷ []) [] Criticality.error
        "Allows various resource-related operations"
    ∷ entry Capability.cap_sys_time (user ∷ []) [] Criticality.error
        "Set system clock and realtime clock"
    ∷ entry Capability.cap_sys_tty_config (user ∷ []) [] Criticality.error
        "vhangup system call, various privileged ioctl operations"
    ∷ entry Capability.cap_syslog (user ∷ []) [] Criticality.error
        "Privileged operations on the system log; view kernel addresses via procfs and others"
    ∷ entry Capability.cap_wake_alarm (user ∷ []) [] Criticality.error
        "Set CLOCK_REALTIME_ALARM, CLOCK_BOOTTIME_ALARM"
    ∷ []
