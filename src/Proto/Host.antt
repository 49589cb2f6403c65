-- ===== src/Proto/Host.antt =====
-- The other messages that the collection fills: protos/c_config/{seccomp, cgroup, fs, user_ns, chroot,
-- uts, c_config}.proto.
use mathlib.Core.Option.{some-injective}
use checkc.Base.{
  ℕ, String, ◌≡◌, refl, sym, ap, ◌∙◌, ◌↔◌, Bool, true, Option, none, some, List, [], ◌∷◌, nat_beq,
  get_elem?, Eq, nat_eq, index-beq_iff,
}
use checkc.Base.Int.{ℤ, pos, negsuc, int_eq}
use checkc.Proto.Ns.{NsId, NsConfig}
use checkc.Proto.Caps.{CapsConfig}
use checkc.Proto.Device.{DeviceConfig}

-- `enum Mode` of seccomp.proto.
pub data SeccompMode : Type 0 where
  unspecified seccomp_mode_disabled seccomp_mode_strict seccomp_mode_filter : SeccompMode

-- The number of a value in the `.proto` file.
unfoldable pub seccomp_mode_number : SeccompMode → ℕ
seccomp_mode_number unspecified = 0
seccomp_mode_number seccomp_mode_disabled = 1
seccomp_mode_number seccomp_mode_strict = 2
seccomp_mode_number seccomp_mode_filter = 3

abbrev seccomp_mode_values : List SeccompMode
seccomp_mode_values =
    unspecified ∷ seccomp_mode_disabled ∷ seccomp_mode_strict ∷ seccomp_mode_filter ∷ []

-- `SeccompMode::from_i32`.
unfoldable pub seccomp_mode_from_i32 : ℤ → Option SeccompMode
seccomp_mode_from_i32 (pos n) = get_elem? seccomp_mode_values n
seccomp_mode_from_i32 (negsuc n) = none

-- `as i32` and `into`.
unfoldable pub seccomp_mode_to_i32 : SeccompMode → ℤ
unfolding seccomp_mode_number
seccomp_mode_to_i32 t = pos (seccomp_mode_number t)

-- A value survives its conversion to a number and back.
pub seccomp_mode_from_i32-to_i32 :
    (t : SeccompMode) → seccomp_mode_from_i32 (seccomp_mode_to_i32 t) ≡ some t
unfolding seccomp_mode_from_i32 seccomp_mode_to_i32
seccomp_mode_from_i32-to_i32 unspecified = refl
seccomp_mode_from_i32-to_i32 seccomp_mode_disabled = refl
seccomp_mode_from_i32-to_i32 seccomp_mode_strict = refl
seccomp_mode_from_i32-to_i32 seccomp_mode_filter = refl

seccomp_mode_number-injective :
    (a b : SeccompMode) → seccomp_mode_number a ≡ seccomp_mode_number b → a ≡ b
unfolding seccomp_mode_to_i32
seccomp_mode_number-injective a b h = some-injective a b (
    sym (seccomp_mode_from_i32-to_i32 a)
    ∙ ap (λ n. seccomp_mode_from_i32 (pos n)) h
    ∙ seccomp_mode_from_i32-to_i32 b)

unfoldable pub seccomp_mode_beq : SeccompMode → SeccompMode → Bool
unfolding seccomp_mode_number
seccomp_mode_beq a b = nat_beq (seccomp_mode_number a) (seccomp_mode_number b)

pub seccomp_mode_beq_iff : (a b : SeccompMode) → (seccomp_mode_beq a b ≡ true) ↔ (a ≡ b)
unfolding seccomp_mode_beq
seccomp_mode_beq_iff a b = index-beq_iff seccomp_mode_number seccomp_mode_number-injective a b

instance abbrev pub seccomp_mode_eq : Eq SeccompMode
seccomp_mode_eq = record { beq = seccomp_mode_beq; beq_iff = seccomp_mode_beq_iff }

-- `message SyscallResult`.
pub record SyscallResult : Type 0 where
  pub success : Bool
  pub info : String

-- `message Config` of seccomp.proto.
pub record SeccompConfig : Type 0 where
  pub mode_number : ℤ
  pub syscall_map : List (String × SyscallResult)

-- `config.mode()`: a number that is no `Mode` reads as the default.
unfoldable pub seccomp_config_mode : SeccompConfig → SeccompMode
unfolding seccomp_mode_from_i32
seccomp_config_mode c = elim (seccomp_mode_from_i32 c.mode_number) [
  | none ↦ unspecified
  | some m ↦ m
]

-- `message Config` of cgroup.proto; a controller is its number.
pub record CgroupConfig : Type 0 where
  pub cgroup : String
  pub controllers : List ℤ
  pub interface_files : List (String × String)

-- `message MountNamespace`.
pub record MountNamespace : Type 0 where
  pub ns_id : Option NsId
  pub ns_pids : List ℤ
  pub mounts : List String
  pub mountinfo : List String
  pub flag_files : List String

-- `message Config` of fs.proto.
pub record FsConfig : Type 0 where
  pub container_namespaces : List MountNamespace
  pub ref_container_namespaces : List MountNamespace
  pub host_namespaces : List MountNamespace

-- `message IdMapping`.
pub record IdMapping : Type 0 where
  pub current : ℕ
  pub parent : ℕ
  pub range : ℕ

-- `message Config` of user_ns.proto.
pub record UserNsConfig : Type 0 where
  pub uid_map : List IdMapping
  pub gid_map : List IdMapping
  pub unique_mapping : Bool

-- `message Root`.
pub record Root : Type 0 where
  pub path : String
  pub st_ino : ℕ
  pub st_dev : ℕ

-- `message Config` of chroot.proto.
pub record ChrootConfig : Type 0 where
  pub host : Option Root
  pub container : Option Root

-- `message Config` of uts.proto.
pub record UtsConfig : Type 0 where
  pub hostname : String
  pub domainname : String

-- `message HostInfo`.
pub record HostInfo : Type 0 where
  pub pids_container : List ℤ
  pub pids_ref_container : List ℤ
  pub pid_host : ℤ

-- `message Config` of c_config.proto: the whole report.
pub record Config : Type 0 where
  pub ns_config : Option NsConfig
  pub caps_config : Option CapsConfig
  pub cgroup_config : Option CgroupConfig
  pub fs_config : Option FsConfig
  pub user_ns_config : Option UserNsConfig
  pub seccomp_config : Option SeccompConfig
  pub uts_config_host : Option UtsConfig
  pub uts_config_container : Option UtsConfig
  pub chroot_config : Option ChrootConfig
  pub device_config : Option DeviceConfig
  pub info : Option HostInfo
