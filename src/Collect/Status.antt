-- ===== src/Collect/Status.antt =====
-- src/c_config/seccomp.rs, chroot.rs and uts.rs. What mount, the root's link and the names of the host
-- answer is a parameter. The expression of seccomp.rs drops all but the ASCII digits of a line; the
-- crate regex also keeps other decimal digits, which the kernel does not write.
use Prim.Native.Char.{code}
use checkc.Base.{
  ℕ, ◌^◌, String, Bool, true, false, Option, none, some, List, [], ◌∷◌, Outcome, ok, panic, ◌>>=◌,
  unwrap, ◌⊎◌, if◌then◌else◌, ltb, nat_beq, io_error, nix_error,
}
use checkc.Base.Int.{ℤ}
use checkc.Base.Text.{◌<>◌}
use checkc.Proto.Host.{
  SeccompMode, SeccompConfig, SyscallResult, seccomp_mode_to_i32, seccomp_mode_disabled,
  seccomp_mode_strict, seccomp_mode_filter, unspecified, Root, ChrootConfig, UtsConfig,
}
use checkc.Collect.Kernel.{Kernel}
use checkc.Collect.Numbers.{show_int, is_digit, decimal}
use checkc.Collect.Process.{or_error}

-- `Display` of a `Mode`.
unfoldable pub mode_show : SeccompMode → String
mode_show seccomp_mode_disabled = "SECCOMP_MODE_DISABLED"
mode_show seccomp_mode_strict = "SECCOMP_MODE_STRICT"
mode_show seccomp_mode_filter = "SECCOMP_MODE_FILTER"
mode_show unspecified = "UNSPECIFIED"

-- `Mode::try_from`; the code unwraps it.
unfoldable pub mode_try_from : ℕ → Option SeccompMode
mode_try_from value =
    if nat_beq value 0
    then some seccomp_mode_disabled
    else if nat_beq value 1
    then some seccomp_mode_strict
    else if nat_beq value 2
    then some seccomp_mode_filter
    else none

unfoldable pub starts_with : String → String → Bool
starts_with String.[] s = true
starts_with (String.◌∷◌ p ps) String.[] = false
starts_with (String.◌∷◌ p ps) (String.◌∷◌ c s) =
    let rest = starts_with ps s in if nat_beq (code p) (code c) then rest else false

-- `Regex::new("[^[:digit:]]").replace_all(.., "")`.
unfoldable pub only_digits : String → String
only_digits String.[] = ""
only_digits (String.◌∷◌ c s) =
    let rest = only_digits s in if is_digit (code c) then String.◌∷◌ c rest else rest

-- `parse::<c_uint>().ok()` of a text of digits.
unfoldable pub parse_c_uint : String → Option ℕ
parse_c_uint String.[] = none
parse_c_uint (String.◌∷◌ c s) = elim (decimal 0 (String.◌∷◌ c s)) [
  | none ↦ none
  | some n ↦ if ltb n (2 ^ 32) then some n else none
]

-- The mode on a line.
unfoldable pub mode_of_line : String → Outcome SeccompMode
mode_of_line line = do
  value ← unwrap (parse_c_uint (only_digits line))
  unwrap (mode_try_from value)

-- `find_map` and its `unwrap`.
unfoldable pub find_mode : List String → Outcome SeccompMode
unfolding mode_of_line
find_mode [] = panic
find_mode (line ∷ lines) =
    let rest = find_mode lines in if starts_with "Seccomp:" line then mode_of_line line else rest

-- A system call that was tried: its error text, or none.
unfoldable pub syscall_result : Option String → SyscallResult
syscall_result none = record { success = true; info = "" }
syscall_result (some errno) = record { success = false; info = errno }

unfoldable pub seccomp_config : Kernel → Option String → ℤ → Outcome SeccompConfig
unfolding syscall_result
seccomp_config kernel remount_sysfs pid = do
  lines ← or_error io_error (kernel.lines ("/proc/" <> show_int pid <> "/status"))
  seccomp_mode ← find_mode lines
  ok (record {
    mode_number = seccomp_mode_to_i32 seccomp_mode;
    syscall_map = ("mount: remount sysfs", syscall_result remount_sysfs) ∷ [];
  })

-- `Root::from_pid`: the metadata (inode, device) of the link's target, then its path.
unfoldable pub root_from_pid : (String → ℕ ⊎ (ℕ × ℕ)) → (String → ℕ ⊎ String) → ℤ → Outcome Root
root_from_pid metadata read_link pid = do
  let path = "/proc/" <> show_int pid <> "/root"
  m_root ← or_error io_error (metadata path)
  target ← or_error io_error (read_link path)
  ok (record { path = target; st_ino = m_root.0; st_dev = m_root.1 })

unfoldable pub chroot_config :
    (String → ℕ ⊎ (ℕ × ℕ)) → (String → ℕ ⊎ String) → ℤ → ℤ → Outcome ChrootConfig
unfolding root_from_pid
chroot_config metadata read_link pid_host pid_container = do
  host_root ← root_from_pid metadata read_link pid_host
  container_root ← root_from_pid metadata read_link pid_container
  ok (record { host = some host_root; container = some container_root })

-- `uts_config`, from the answers of gethostname and uname.
unfoldable pub uts_config : ℕ ⊎ String → ℕ ⊎ String → Outcome UtsConfig
uts_config gethostname domainname = do
  hostname ← or_error nix_error gethostname
  domain ← or_error nix_error domainname
  ok (record { hostname = hostname; domainname = domain })
