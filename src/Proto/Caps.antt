-- ===== src/Proto/Caps.antt =====
-- protos/c_config/caps.proto.
use mathlib.Core.Option.{some-injective}
use checkc.Base.{
  ℕ, String, ◌≡◌, refl, sym, ap, ◌∙◌, ◌↔◌, Bool, true, Option, none, some, List, [], ◌∷◌, nat_beq,
  get_elem?, Eq, nat_eq, index-beq_iff,
}
use checkc.Base.Int.{ℤ, pos, negsuc, int_eq}

-- `enum Capability`.
pub data Capability : Type 0 where
  unspecified cap_chown cap_dac_override cap_dac_read_search cap_fowner cap_fsetid : Capability
  cap_kill cap_setgid cap_setuid cap_setpcap cap_linux_immutable cap_net_bind_service : Capability
  cap_net_broadcast cap_net_admin cap_net_raw cap_ipc_lock cap_ipc_owner cap_sys_module : Capability
  cap_sys_rawio cap_sys_chroot cap_sys_ptrace cap_sys_pacct cap_sys_admin cap_sys_boot : Capability
  cap_sys_nice cap_sys_resource cap_sys_time cap_sys_tty_config cap_mknod cap_lease : Capability
  cap_audit_write cap_audit_control cap_setfcap cap_mac_override cap_mac_admin cap_syslog :
      Capability
  cap_wake_alarm cap_block_suspend cap_audit_read cap_perfmon cap_bpf : Capability
  cap_checkpoint_restore : Capability

-- The number of a value in the `.proto` file.
unfoldable pub capability_number : Capability → ℕ
capability_number unspecified = 0
capability_number cap_chown = 1
capability_number cap_dac_override = 2
capability_number cap_dac_read_search = 3
capability_number cap_fowner = 4
capability_number cap_fsetid = 5
capability_number cap_kill = 6
capability_number cap_setgid = 7
capability_number cap_setuid = 8
capability_number cap_setpcap = 9
capability_number cap_linux_immutable = 10
capability_number cap_net_bind_service = 11
capability_number cap_net_broadcast = 12
capability_number cap_net_admin = 13
capability_number cap_net_raw = 14
capability_number cap_ipc_lock = 15
capability_number cap_ipc_owner = 16
capability_number cap_sys_module = 17
capability_number cap_sys_rawio = 18
capability_number cap_sys_chroot = 19
capability_number cap_sys_ptrace = 20
capability_number cap_sys_pacct = 21
capability_number cap_sys_admin = 22
capability_number cap_sys_boot = 23
capability_number cap_sys_nice = 24
capability_number cap_sys_resource = 25
capability_number cap_sys_time = 26
capability_number cap_sys_tty_config = 27
capability_number cap_mknod = 28
capability_number cap_lease = 29
capability_number cap_audit_write = 30
capability_number cap_audit_control = 31
capability_number cap_setfcap = 32
capability_number cap_mac_override = 33
capability_number cap_mac_admin = 34
capability_number cap_syslog = 35
capability_number cap_wake_alarm = 36
capability_number cap_block_suspend = 37
capability_number cap_audit_read = 38
capability_number cap_perfmon = 39
capability_number cap_bpf = 40
capability_number cap_checkpoint_restore = 41

abbrev capability_values : List Capability
capability_values =
    unspecified ∷ cap_chown ∷ cap_dac_override ∷ cap_dac_read_search ∷ cap_fowner ∷ cap_fsetid
    ∷ cap_kill ∷ cap_setgid ∷ cap_setuid ∷ cap_setpcap ∷ cap_linux_immutable ∷ cap_net_bind_service
    ∷ cap_net_broadcast ∷ cap_net_admin ∷ cap_net_raw ∷ cap_ipc_lock ∷ cap_ipc_owner
    ∷ cap_sys_module ∷ cap_sys_rawio ∷ cap_sys_chroot ∷ cap_sys_ptrace ∷ cap_sys_pacct
    ∷ cap_sys_admin ∷ cap_sys_boot ∷ cap_sys_nice ∷ cap_sys_resource ∷ cap_sys_time
    ∷ cap_sys_tty_config ∷ cap_mknod ∷ cap_lease ∷ cap_audit_write ∷ cap_audit_control ∷ cap_setfcap
    ∷ cap_mac_override ∷ cap_mac_admin ∷ cap_syslog ∷ cap_wake_alarm ∷ cap_block_suspend
    ∷ cap_audit_read ∷ cap_perfmon ∷ cap_bpf ∷ cap_checkpoint_restore ∷ []

-- `Capability::from_i32`.
unfoldable pub capability_from_i32 : ℤ → Option Capability
capability_from_i32 (pos n) = get_elem? capability_values n
capability_from_i32 (negsuc n) = none

-- `as i32` and `into`.
unfoldable pub capability_to_i32 : Capability → ℤ
unfolding capability_number
capability_to_i32 t = pos (capability_number t)

-- A value survives its conversion to a number and back.
pub capability_from_i32-to_i32 :
    (t : Capability) → capability_from_i32 (capability_to_i32 t) ≡ some t
unfolding capability_from_i32 capability_to_i32
capability_from_i32-to_i32 unspecified = refl
capability_from_i32-to_i32 cap_chown = refl
capability_from_i32-to_i32 cap_dac_override = refl
capability_from_i32-to_i32 cap_dac_read_search = refl
capability_from_i32-to_i32 cap_fowner = refl
capability_from_i32-to_i32 cap_fsetid = refl
capability_from_i32-to_i32 cap_kill = refl
capability_from_i32-to_i32 cap_setgid = refl
capability_from_i32-to_i32 cap_setuid = refl
capability_from_i32-to_i32 cap_setpcap = refl
capability_from_i32-to_i32 cap_linux_immutable = refl
capability_from_i32-to_i32 cap_net_bind_service = refl
capability_from_i32-to_i32 cap_net_broadcast = refl
capability_from_i32-to_i32 cap_net_admin = refl
capability_from_i32-to_i32 cap_net_raw = refl
capability_from_i32-to_i32 cap_ipc_lock = refl
capability_from_i32-to_i32 cap_ipc_owner = refl
capability_from_i32-to_i32 cap_sys_module = refl
capability_from_i32-to_i32 cap_sys_rawio = refl
capability_from_i32-to_i32 cap_sys_chroot = refl
capability_from_i32-to_i32 cap_sys_ptrace = refl
capability_from_i32-to_i32 cap_sys_pacct = refl
capability_from_i32-to_i32 cap_sys_admin = refl
capability_from_i32-to_i32 cap_sys_boot = refl
capability_from_i32-to_i32 cap_sys_nice = refl
capability_from_i32-to_i32 cap_sys_resource = refl
capability_from_i32-to_i32 cap_sys_time = refl
capability_from_i32-to_i32 cap_sys_tty_config = refl
capability_from_i32-to_i32 cap_mknod = refl
capability_from_i32-to_i32 cap_lease = refl
capability_from_i32-to_i32 cap_audit_write = refl
capability_from_i32-to_i32 cap_audit_control = refl
capability_from_i32-to_i32 cap_setfcap = refl
capability_from_i32-to_i32 cap_mac_override = refl
capability_from_i32-to_i32 cap_mac_admin = refl
capability_from_i32-to_i32 cap_syslog = refl
capability_from_i32-to_i32 cap_wake_alarm = refl
capability_from_i32-to_i32 cap_block_suspend = refl
capability_from_i32-to_i32 cap_audit_read = refl
capability_from_i32-to_i32 cap_perfmon = refl
capability_from_i32-to_i32 cap_bpf = refl
capability_from_i32-to_i32 cap_checkpoint_restore = refl

capability_number-injective : (a b : Capability) → capability_number a ≡ capability_number b → a ≡ b
unfolding capability_to_i32
capability_number-injective a b h = some-injective a b (
    sym (capability_from_i32-to_i32 a)
    ∙ ap (λ n. capability_from_i32 (pos n)) h
    ∙ capability_from_i32-to_i32 b)

unfoldable pub capability_beq : Capability → Capability → Bool
unfolding capability_number
capability_beq a b = nat_beq (capability_number a) (capability_number b)

pub capability_beq_iff : (a b : Capability) → (capability_beq a b ≡ true) ↔ (a ≡ b)
unfolding capability_beq
capability_beq_iff a b = index-beq_iff capability_number capability_number-injective a b

instance abbrev pub capability_eq : Eq Capability
capability_eq = record { beq = capability_beq; beq_iff = capability_beq_iff }

-- `Display` of a `Capability` (c_config/caps.rs).
unfoldable pub capability_show : Capability → String
capability_show unspecified = "UNSPECIFIED"
capability_show cap_chown = "CAP_CHOWN"
capability_show cap_dac_override = "CAP_DAC_OVERRIDE"
capability_show cap_dac_read_search = "CAP_DAC_READ_SEARCH"
capability_show cap_fowner = "CAP_FOWNER"
capability_show cap_fsetid = "CAP_FSETID"
capability_show cap_kill = "CAP_KILL"
capability_show cap_setgid = "CAP_SETGID"
capability_show cap_setuid = "CAP_SETUID"
capability_show cap_setpcap = "CAP_SETPCAP"
capability_show cap_linux_immutable = "CAP_LINUX_IMMUTABLE"
capability_show cap_net_bind_service = "CAP_NET_BIND_SERVICE"
capability_show cap_net_broadcast = "CAP_NET_BROADCAST"
capability_show cap_net_admin = "CAP_NET_ADMIN"
capability_show cap_net_raw = "CAP_NET_RAW"
capability_show cap_ipc_lock = "CAP_IPC_LOCK"
capability_show cap_ipc_owner = "CAP_IPC_OWNER"
capability_show cap_sys_module = "CAP_SYS_MODULE"
capability_show cap_sys_rawio = "CAP_SYS_RAWIO"
capability_show cap_sys_chroot = "CAP_SYS_CHROOT"
capability_show cap_sys_ptrace = "CAP_SYS_PTRACE"
capability_show cap_sys_pacct = "CAP_SYS_PACCT"
capability_show cap_sys_admin = "CAP_SYS_ADMIN"
capability_show cap_sys_boot = "CAP_SYS_BOOT"
capability_show cap_sys_nice = "CAP_SYS_NICE"
capability_show cap_sys_resource = "CAP_SYS_RESOURCE"
capability_show cap_sys_time = "CAP_SYS_TIME"
capability_show cap_sys_tty_config = "CAP_SYS_TTY_CONFIG"
capability_show cap_mknod = "CAP_MKNOD"
capability_show cap_lease = "CAP_LEASE"
capability_show cap_audit_write = "CAP_AUDIT_WRITE"
capability_show cap_audit_control = "CAP_AUDIT_CONTROL"
capability_show cap_setfcap = "CAP_SETFCAP"
capability_show cap_mac_override = "CAP_MAC_OVERRIDE"
capability_show cap_mac_admin = "CAP_MAC_ADMIN"
capability_show cap_syslog = "CAP_SYSLOG"
capability_show cap_wake_alarm = "CAP_WAKE_ALARM"
capability_show cap_block_suspend = "CAP_BLOCK_SUSPEND"
capability_show cap_audit_read = "CAP_AUDIT_READ"
capability_show cap_perfmon = "CAP_PERFMON"
capability_show cap_bpf = "CAP_BPF"
capability_show cap_checkpoint_restore = "CAP_CHECKPOINT_RESTORE"

-- `message Config`: the members of the five sets, as numbers.
pub record CapsConfig : Type 0 where
  pub cap_inh : List ℤ
  pub cap_prm : List ℤ
  pub cap_eff : List ℤ
  pub cap_bnd : List ℤ
  pub cap_amb : List ℤ

unfoldable pub add_known : Option Capability → List Capability → List Capability
add_known none capabilities = capabilities
add_known (some c) capabilities = c ∷ capabilities

-- The iterator `config.cap_prm()`: a number that is no `Capability` is left out.
unfoldable pub cap_prm_values : List ℤ → List Capability
unfolding capability_from_i32 add_known
cap_prm_values [] = []
cap_prm_values (n ∷ ns) = add_known (capability_from_i32 n) (cap_prm_values ns)
