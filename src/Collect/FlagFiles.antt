-- ===== src/Collect/FlagFiles.antt =====
-- The flag files of src/c_config/fs.rs: `process_mountpoints_container` writes one to each mount point,
-- `process_mountpoints_host` searches them in each mount namespace, which it joins for that.
use checkc.Base.{
  ℕ, String, Bool, true, false, not, ◌&&◌, ◌||◌, Option, none, some, List, [], ◌∷◌, ◌++◌, Outcome,
  ok, err, panic, ◌⊎◌, inl, inr, ◌==◌, nat_eq, string_eq, if◌then◌else◌, value_error, my_io_error,
}
use checkc.Base.Effects.{Effect, lift, pure, fail, ◌>>=◌, traverse_effect}
use checkc.Base.Int.{ℤ}
use checkc.Base.Paths.{path_starts_with}
use checkc.Base.Sets.{filter, any, contains}
use checkc.Base.Text.{◌<>◌}
use checkc.Config.{flag_search_path_skips}
use checkc.Proto.Host.{MountNamespace}
use checkc.Collect.Kernel.{Kernel}
use checkc.Collect.Numbers.{show_int}
use checkc.Collect.Status.{starts_with}
use checkc.Collect.Context.{Context, ContextCalls, clone_newns}
use checkc.Collect.Join.{join_ns_by_path}
use checkc.Collect.Mounts.{get_mountinfos, push_new}
use checkc.Collect.Restore.{Processing, rejoined, fs_config_generic}

abbrev pub flag_base_name : String
flag_base_name = "xyz_checkc_flag"

-- `FLAG_SKIP_FS`.
abbrev pub flag_skip_fs : List String
flag_skip_fs = "devtmpfs" ∷ "proc" ∷ "sysfs" ∷ "devpts" ∷ "cgroup" ∷ "cgroup2" ∷ []

abbrev pub concat : List (List String) → List String
concat [] = []
concat (xs ∷ xss) = xs ++ concat xss

pub data FileKind : Type 0 where
  directory regular other : FileKind

-- An entry of the search, as the crate rust_search hands it to the filter: its kind where the metadata
-- can be had, and its name where that is UTF-8.
pub record Entry : Type 0 where
  pub path : String
  pub kind : Option FileKind
  pub file_name : Option String

-- What is asked of the disk: whether a path is a file, the creation of one, the command line of a process
-- (which may fail to open or to be read), and the search below a mount point.
pub record DiskCalls : Type 0 where
  pub is_file : String → Context → Bool
  pub create : String → Context → Option ℕ
  pub cmdline : ℤ → Context → ℕ ⊎ (ℕ ⊎ String)
  pub search : String → (Entry → Bool) → Context → List String

-- The name of a file that is neither a directory nor skipped.
unfoldable pub is_flag_name : Option FileKind → Option String → Bool
is_flag_name (some FileKind.regular) (some name) = starts_with flag_base_name name
is_flag_name (some FileKind.regular) none = false
is_flag_name (some FileKind.directory) name = true
is_flag_name (some FileKind.other) name = false
is_flag_name none name = false

unfoldable pub is_directory : Option FileKind → Bool
is_directory (some FileKind.directory) = true
is_directory (some FileKind.regular) = false
is_directory (some FileKind.other) = false
is_directory none = false

-- The filter of the search: directories pass.
unfoldable pub is_flag_entry : Entry → Bool
unfolding is_flag_name is_directory
is_flag_entry entry =
    is_directory entry.kind
    || (not (any (λ skip. path_starts_with entry.path skip) flag_search_path_skips)
        && is_flag_name entry.kind entry.file_name)

module _ (kernel : Kernel) (mounts_match mountinfo_match : String → Option (String × String))
    (disk : DiskCalls) where
  -- The flag files written to a mount point: one, or none where the file is there or cannot be made.
  unfoldable pub created_flag : Option ℕ → String → Effect Context (List String)
  created_flag (some errno) flag_path = pure []
  created_flag none flag_path = λ context.
      (ok (flag_path ∷ []), record context { created = context.created ++ flag_path ∷ [] })

  unfoldable pub write_flag : String → Effect Context (List String)
  unfolding created_flag
  write_flag flag_path context =
      if disk.is_file flag_path context
      then (ok [], context)
      else created_flag (disk.create flag_path context) flag_path context

  unfoldable pub mark_found :
      String → String → Option (String × String) → Effect Context (List String)
  unfolding write_flag
  mark_found flag_file mp none =
      fail (value_error ("Failed to parse mountinfo from mount point " <> mp) mp "")
  mark_found flag_file mp (some (fs_type, mountpoint)) =
      if contains flag_skip_fs fs_type then pure [] else write_flag (mountpoint <> "/" <> flag_file)

  unfoldable pub mark_mount : String → String → Effect Context (List String)
  unfolding mark_found
  mark_mount flag_file mp = mark_found flag_file mp (mountinfo_match mp)

  unfoldable pub mark_namespace : String → MountNamespace → Effect Context MountNamespace
  mark_namespace flag_file mountns = do
    written ← traverse_effect (mark_mount flag_file) mountns.mountinfo
    pure (record mountns { flag_files = mountns.flag_files ++ concat written })

  -- The name ends in a random UUID.
  unfoldable pub process_mountpoints_container : String → Processing
  process_mountpoints_container uuid checkc_mountns_fd pid_cfg = do
    mount_namespaces ← lift (get_mountinfos kernel mounts_match mountinfo_match none)
    traverse_effect (mark_namespace (flag_base_name <> "_" <> uuid)) mount_namespaces

  -- The flag files at a mount point, after those that were found before.
  unfoldable pub search_found :
      List String → String → Option (String × String) → Effect Context (List String)
  search_found flag_files mp none =
      λ context. fail (value_error "Failed to parse mountinfo from entry" mp "") context
  search_found flag_files mp (some (fs_type, mountpoint)) = λ context.
      let entries = disk.search mountpoint is_flag_entry context in
      (ok (push_new flag_files (filter (λ entry. not (entry == mountpoint)) entries)), context)

  unfoldable pub search_mount : List String → String → Effect Context (List String)
  unfolding search_found
  search_mount flag_files mp = search_found flag_files mp (mountinfo_match mp)

  unfoldable pub search_mounts : List String → List String → Effect Context (List String)
  unfolding search_mount
  search_mounts [] flag_files = pure flag_files
  search_mounts (mp ∷ mountinfo) flag_files = search_mount flag_files mp >>= search_mounts mountinfo

  module _ (calls : ContextCalls) where
    -- After the attempt to join: the next process is tried where it failed.
    unfoldable pub on_join :
        Effect Context (List String)
        → List String
        → List String
        → Outcome (Unit {0})
        → Effect Context (List String)
    unfolding search_mounts
    on_join rest mountinfo flag_files panic = lift panic
    on_join rest mountinfo flag_files (err e) = rest
    on_join rest mountinfo flag_files (ok _) = search_mounts mountinfo flag_files

    unfoldable pub join_and_search :
        Effect Context (List String) → ℤ → List String → List String → Effect Context (List String)
    unfolding on_join
    join_and_search rest mountns_pid mountinfo flag_files context =
        let result =
          join_ns_by_path calls ("/proc/" <> show_int mountns_pid <> "/ns/mnt") clone_newns
            context in
        on_join rest mountinfo flag_files result.0 result.1

    -- By the command line: a process that is gone is passed over, as is a kernel thread.
    unfoldable pub on_cmdline :
        Effect Context (List String)
        → ℤ
        → List String
        → List String
        → ℕ ⊎ (ℕ ⊎ String)
        → Effect Context (List String)
    unfolding join_and_search
    on_cmdline rest mountns_pid mountinfo flag_files (inl errno) = rest
    on_cmdline rest mountns_pid mountinfo flag_files (inr (inl errno)) =
        fail (my_io_error ("/proc/" <> show_int mountns_pid <> "/cmdline") errno)
    on_cmdline rest mountns_pid mountinfo flag_files (inr (inr cmdline)) =
        if cmdline == "" then rest else join_and_search rest mountns_pid mountinfo flag_files

    -- The loop over the processes of a namespace, up to the first by which it can be joined. Each round
    -- starts in the mount namespace of the program itself.
    unfoldable pub search_pids :
        ℕ → List ℤ → List String → List String → Effect Context (List String)
    unfolding on_cmdline
    search_pids checkc_mountns_fd [] mountinfo flag_files = pure flag_files
    search_pids checkc_mountns_fd (mountns_pid ∷ pids) mountinfo flag_files = λ context.
        let home = rejoined calls checkc_mountns_fd context in
        on_cmdline (search_pids checkc_mountns_fd pids mountinfo flag_files) mountns_pid mountinfo
          flag_files (disk.cmdline mountns_pid home) home

    unfoldable pub search_namespace : ℕ → MountNamespace → Effect Context MountNamespace
    search_namespace checkc_mountns_fd mountns = do
      found ← search_pids checkc_mountns_fd mountns.ns_pids mountns.mountinfo mountns.flag_files
      pure (record mountns { flag_files = found })

    unfoldable pub process_mountpoints_host : Processing
    process_mountpoints_host checkc_mountns_fd pid_cfg = do
      mount_namespaces ← lift (get_mountinfos kernel mounts_match mountinfo_match pid_cfg)
      traverse_effect (search_namespace checkc_mountns_fd) mount_namespaces

    unfoldable pub fs_config_hostview : ℤ → List ℤ → Bool → Effect Context (List MountNamespace)
    fs_config_hostview own_pid pid_list include_mode =
        fs_config_generic calls own_pid process_mountpoints_host (some (pid_list, include_mode))

    unfoldable pub fs_config_container : ℤ → String → Effect Context (List MountNamespace)
    fs_config_container own_pid uuid =
        fs_config_generic calls own_pid (process_mountpoints_container uuid) none
