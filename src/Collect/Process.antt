-- ===== src/Collect/Process.antt =====
-- Processes and the identifiers of their namespaces: src/lib.rs, and `Info` of src/c_config/ns.rs.
use checkc.Base.{
  ℕ, ◌≡◌, String, ◌&&◌, some, List, Outcome, ok, err, ◌>>=◌, unwrap, traverse, ◌⊎◌, inl, inr, ◌==◌,
  nat_eq, if◌then◌else◌, Error, my_io_error, io_error, ioctl_failed,
}
use checkc.Base.Int.{ℤ}
use checkc.Base.Sets.{filter}
use checkc.Base.Text.{◌<>◌}
use checkc.Proto.Ns.{NsType, NsId, NsInfo, ns_type_eq, ns_type_to_i32}
use checkc.Collect.Kernel.{Kernel}
use checkc.Collect.Numbers.{show_int, parse_i32, has_digit}

-- A result of the kernel, with its error turned into one of the program's.
abbrev pub or_error : {A : Type 0} → (ℕ → Error) → ℕ ⊎ A → Outcome A
or_error to_error (inl errno) = err (to_error errno)
or_error to_error (inr value) = ok value

pub or_error-eq-ok :
    {A : Type 0} (to_error : ℕ → Error) (o : ℕ ⊎ A) {value : A}
    → or_error to_error o ≡ ok value
    → o ≡ inr value
or_error-eq-ok to_error (inl errno) h = absurd (cc h)
or_error-eq-ok to_error (inr value) h = cc h

-- `EPERM`.
abbrev pub eperm : ℕ
eperm = 1

-- `Display` of a namespace type.
unfoldable pub ns_type_show : NsType → String
ns_type_show NsType.cgroup = "cgroup"
ns_type_show NsType.ipc = "ipc"
ns_type_show NsType.network = "net"
ns_type_show NsType.mount = "mnt"
ns_type_show NsType.pid = "pid"
ns_type_show NsType.time = "time"
ns_type_show NsType.user = "user"
ns_type_show NsType.uts = "uts"
ns_type_show NsType.unspecified = "UNSPECIFIED"

unfoldable pub ns_path : ℤ → NsType → String
ns_path pid ns_type = "/proc/" <> show_int pid <> "/ns/" <> ns_type_show ns_type

-- `_log_open_fds`, given the entries of /proc/self/fd.
unfoldable pub log_open_fds : ℕ ⊎ List String → Outcome (Unit {0})
log_open_fds entries = do fds ← or_error (my_io_error "/proc/self/fd") entries; ok tt

module _ (kernel : Kernel) where
  -- The directories whose path holds a digit are taken for processes.
  unfoldable pub get_pid_list : Outcome (List ℤ)
  get_pid_list = do
    names ← or_error io_error kernel.proc_dirs
    traverse (λ name. unwrap (parse_i32 name)) (filter has_digit names)

  -- `Id::from_type`.
  unfoldable pub from_type : ℤ → NsType → Outcome NsId
  from_type pid ns_type =
      or_error (my_io_error (ns_path pid ns_type)) (kernel.ns_file (ns_path pid ns_type))

  -- A user namespace whose owner may not be seen counts as its own.
  unfoldable pub ns_get_owner_user_ns : ℤ → NsType → Outcome NsId
  ns_get_owner_user_ns pid ns_type =
      or_error io_error (kernel.ns_file (ns_path pid ns_type)) >>= λ own.
      elim (kernel.ns_owner (ns_path pid ns_type)) [
        | inl errno ↦
            if errno == eperm && ns_type == NsType.user then ok own else err (ioctl_failed errno)
        | inr owner ↦ ok owner
      ]

  unfoldable pub info_by_ns_type : ℤ → NsType → Outcome NsInfo
  info_by_ns_type pid ns_type = do
    id ← from_type pid ns_type
    owner ← ns_get_owner_user_ns pid ns_type
    ok (record { type_number = ns_type_to_i32 ns_type; id = some id; owner = some owner })
