-- ===== src/Config/CapSec/First.antt =====
-- The first half of the table `CAP_MAP` of src/config/cap_sec.rs.
use checkc.Base.{List, [], ◌∷◌}
use checkc.Proto.Ns.{user, pid, ipc, network}
use checkc.Proto.Caps.{Capability}
use checkc.Proto.Assessment.{Criticality}
use checkc.Config.CapSec.Record.{CapabilityRecord, entry}

-- The entries of `CAP_MAP` from `cap_audit_control` to `cap_ipc_lock`.
abbrev pub audit_to_ipc_lock : List (Capability × CapabilityRecord)
audit_to_ipc_lock =
    entry Capability.cap_audit_control (user ∷ []) [] Criticality.error
      "Manage kernel auditing (activation, rules, etc.)"
    ∷ entry Capability.cap_audit_read (user ∷ []) [] Criticality.warn
        "Allows reading audit log via netlink"
    ∷ entry Capability.cap_audit_write (user ∷ []) [] Criticality.error
        "Allows writing to audit log"
    ∷ entry Capability.cap_block_suspend (user ∷ []) [] Criticality.warn
        "Allows blocking system suspend"
    ∷ entry Capability.cap_bpf (user ∷ []) [] Criticality.error "Allows privileged BPF operations"
    ∷ entry Capability.cap_checkpoint_restore (user ∷ pid ∷ []) [] Criticality.error
        "Allows writing to /proc/sys/kernel/ns_last_pid, clonse set_tid-feature, read /proc/pid/map_files"
    ∷ entry Capability.cap_chown (user ∷ []) [] Criticality.error
        "Arbitrary changes to file uids / gids"
    ∷ entry Capability.cap_dac_override (user ∷ []) [] Criticality.warn "Allows bypassing DAC"
    ∷ entry Capability.cap_dac_read_search (user ∷ []) [] Criticality.error
        "Bypass permissions of files/directories, create link to file by fd, allows open_by_handle_at (https://www.exploit-db.com/exploits/33808)"
    ∷ entry Capability.cap_fowner (user ∷ []) [] Criticality.error
        "Bypass file owner permission checks"
    ∷ entry Capability.cap_fsetid (user ∷ []) [] Criticality.error
        "Functionality related to the set UID and set GID bits, e.g. not clearing them when modifying a file"
    ∷ entry Capability.cap_ipc_lock (user ∷ []) [] Criticality.error
        "Lock memory, allocate memory via huge pages"
    ∷ []

-- The entries of `CAP_MAP` from `cap_ipc_owner` to `cap_perfmon`.
abbrev pub ipc_owner_to_perfmon : List (Capability × CapabilityRecord)
ipc_owner_to_perfmon =
    entry Capability.cap_ipc_owner (user ∷ ipc ∷ []) [] Criticality.error
      "Bypass permission checks on System V IPC objects"
    ∷ entry Capability.cap_kill (user ∷ []) (pid ∷ []) Criticality.error
        "Bypass permission checks for sending signals"
    ∷ entry Capability.cap_lease (user ∷ []) [] Criticality.error "Leases on arbitrary files"
    ∷ entry Capability.cap_linux_immutable (user ∷ []) [] Criticality.error
        "Set FS_APPEND_FL and FS_IMMUTABLE_FL inode flags"
    ∷ entry Capability.cap_mac_admin (user ∷ []) [] Criticality.error
        "Allow MAC configuration or state changes"
    ∷ entry Capability.cap_mac_override (user ∷ []) [] Criticality.error
        "Smack LSM: Allow Mandatory Access Control override"
    ∷ entry Capability.cap_mknod (user ∷ []) [] Criticality.info
        "Use of  the mknod system call to create device nodes"
    ∷ entry Capability.cap_net_admin (user ∷ []) [] Criticality.error
        "Allows various network-related operations"
    ∷ entry Capability.cap_net_bind_service (user ∷ []) (network ∷ []) Criticality.error
        "Bind socket to privileged ports"
    ∷ entry Capability.cap_net_broadcast (user ∷ network ∷ []) [] Criticality.error
        "Unused capability, related to socket broadcasts / listening to multicast transmissions"
    ∷ entry Capability.cap_net_raw (user ∷ []) (network ∷ []) Criticality.error
        "Use RAW and PACKET sockets"
    ∷ entry Capability.cap_perfmon (user ∷ []) [] Criticality.warn
        "Allows performance monitoring related functionality"
    ∷ []
