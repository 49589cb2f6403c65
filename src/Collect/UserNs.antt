-- ===== src/Collect/UserNs.antt =====
-- src/c_config/user_ns.rs.
use checkc.Base.{
  ℕ, ◌+◌, ◌%◌, ◌^◌, String, Bool, true, false, not, ◌&&◌, ◌||◌, List, [], ◌∷◌, Outcome, ok, err,
  panic, ◌>>=◌, traverse, leb, ◌==◌, option_eq, if◌then◌else◌, conversion_failed, my_io_error,
}
use checkc.Base.Int.{ℤ, pos, int_eq}
use checkc.Base.Sets.{filter, any}
use checkc.Base.Text.{◌<>◌}
use checkc.Proto.Ns.{NsType, NsInfo, ns_id_eq}
use checkc.Proto.Host.{IdMapping, UserNsConfig}
use checkc.Collect.Kernel.{Kernel}
use checkc.Collect.Numbers.{show_int, words, tabs_to_spaces, parse_u32}
use checkc.Collect.Process.{or_error, get_pid_list, info_by_ns_type}

-- The three words of a line.
unfoldable pub mapping_of_words : List String → Outcome IdMapping
mapping_of_words (a ∷ b ∷ c ∷ []) = do
  current ← parse_u32 a
  parent ← parse_u32 b
  range ← parse_u32 c
  ok (record { current = current; parent = parent; range = range })
mapping_of_words _ = err (conversion_failed "invalid id_map content")

-- `IdMapping::try_from`.
unfoldable pub mapping_try_from : String → Outcome IdMapping
unfolding mapping_of_words
mapping_try_from value = mapping_of_words (words (tabs_to_spaces value))

-- `try_from(line).unwrap()`.
unfoldable pub mapping_of_line : String → Outcome IdMapping
mapping_of_line line = elim (mapping_try_from line) [
  | ok mapping ↦ ok mapping
  | err e ↦ panic
  | panic ↦ panic
]

-- The sum of two `u32`, as a release build computes it.
unfoldable pub add_u32 : ℕ → ℕ → ℕ
add_u32 a b = (a + b) % 2 ^ 32

-- The test of two entries in the loop.
unfoldable pub overlaps : IdMapping → IdMapping → Bool
unfolding add_u32
overlaps process_entry entry = not (
    leb (add_u32 process_entry.parent process_entry.range) entry.parent
    || leb (add_u32 entry.parent entry.range) process_entry.parent)

-- Both loops over the entries.
unfoldable pub has_overlap : List IdMapping → List IdMapping → Bool
has_overlap process_uid_map uid_mapping =
    any (λ process_entry. any (overlaps process_entry) uid_mapping) process_uid_map

-- A user namespace other than the container's that the initial one owns, and not the initial one. The
-- namespace that owns the container's is not looked at.
unfoldable pub is_init_child : NsInfo → NsInfo → NsInfo → Bool
is_init_child user_ns init_user_ns process_user_ns =
    not (process_user_ns.id == user_ns.id)
    && process_user_ns.owner == init_user_ns.id
    && not (process_user_ns.id == init_user_ns.id)

module _ (kernel : Kernel) where
  -- `IdMapping::from_pid`; the files are opened before either is read.
  unfoldable pub from_pid : ℤ → Outcome (List IdMapping × List IdMapping)
  from_pid pid = do
    let uid_path = "/proc/" <> show_int pid <> "/uid_map"
    let gid_path = "/proc/" <> show_int pid <> "/gid_map"
    uid_lines ← or_error (my_io_error uid_path) (kernel.lines uid_path)
    gid_lines ← or_error (my_io_error gid_path) (kernel.lines gid_path)
    uid_mapping ← traverse mapping_of_line uid_lines
    gid_mapping ← traverse mapping_of_line gid_lines
    ok (uid_mapping, gid_mapping)

  -- The loop body after the look at the process's namespace, before the rest of the loop: `false` at
  -- the first overlap. A process whose namespace cannot be read is passed over.
  unfoldable pub check_info :
      NsInfo → NsInfo → List IdMapping → ℤ → Outcome NsInfo → Outcome Bool → Outcome Bool
  check_info user_ns init_user_ns uid_mapping process panic rest = panic
  check_info user_ns init_user_ns uid_mapping process (err e) rest = rest
  check_info user_ns init_user_ns uid_mapping process (ok process_user_ns) rest =
      if is_init_child user_ns init_user_ns process_user_ns
      then (do maps ← from_pid process; if has_overlap maps.0 uid_mapping then ok false else rest)
      else rest

  -- The loop over the other processes.
  unfoldable pub check_processes : NsInfo → NsInfo → List IdMapping → List ℤ → Outcome Bool
  check_processes user_ns init_user_ns uid_mapping [] = ok true
  check_processes user_ns init_user_ns uid_mapping (process ∷ pids) =
      check_info user_ns init_user_ns uid_mapping process
        (info_by_ns_type kernel process NsType.user)
        (check_processes user_ns init_user_ns uid_mapping pids)

  unfoldable pub unique_mapping : ℤ → Outcome Bool
  unfolding check_processes
  unique_mapping pid = do
    user_ns ← info_by_ns_type kernel pid NsType.user
    maps ← from_pid pid
    init_user_ns ← info_by_ns_type kernel (pos 1) NsType.user
    all_pids ← elim (get_pid_list kernel) [
      | ok all_pids ↦ ok all_pids
      | err e ↦ panic
      | panic ↦ panic
    ]
    check_processes user_ns init_user_ns maps.0 (filter (λ entry. not (entry == pid)) all_pids)

  unfoldable pub user_ns_config : ℤ → Outcome UserNsConfig
  user_ns_config pid = do
    maps ← from_pid pid
    unique ← unique_mapping pid
    ok (record { uid_map = maps.0; gid_map = maps.1; unique_mapping = unique })
