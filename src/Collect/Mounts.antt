-- ===== src/Collect/Mounts.antt =====
-- `Info::info_by_pid` and `get_mountinfos` of src/c_config/fs.rs: the mount namespaces of the processes. The
-- expressions of src/lib.rs, which the crate regex matches, are parameters: the type of the file system and
-- the mount point in a line.
use checkc.Base.{
  ℕ, zero, suc, String, Bool, true, false, not, ◌&&◌, Option, none, some, List, [], ◌∷◌, ◌++◌,
  Outcome, ok, err, panic, ◌>>=◌, unwrap, ◌==◌, if◌then◌else◌, io_error, string_eq, option_eq,
}
use checkc.Base.Int.{ℤ, int_eq}
use checkc.Base.Sets.{filter, any, contains}
use checkc.Base.Text.{◌<>◌}
use checkc.Config.{mountpoint_fs_skips, mountpoint_path_skips}
use checkc.Proto.Ns.{NsId, NsType, ns_id_eq}
use checkc.Proto.Host.{MountNamespace}
use checkc.Collect.Kernel.{Kernel}
use checkc.Collect.Numbers.{show_int}
use checkc.Collect.Process.{or_error, from_type, get_pid_list}
use checkc.Collect.Status.{starts_with}

-- `Info` of fs.rs; its mountstats stay empty.
pub record Info : Type 0 where
  pub ns_id : NsId
  pub mounts : List String
  pub mountinfo : List String

-- Whether the processes of a list are the ones to look at, or the ones to leave out.
unfoldable pub is_selected : Option (List ℤ × Bool) → ℤ → Bool
is_selected none p = true
is_selected (some (pid_list, include_mode)) p =
    if include_mode then contains pid_list p else not (contains pid_list p)

-- How many namespaces of the list have the identifier; one without an identifier panics.
unfoldable pub count_matches : NsId → List MountNamespace → Outcome ℕ
count_matches id [] = ok 0
count_matches id (n ∷ namespaces) = do
  own ← unwrap n.ns_id
  others ← count_matches id namespaces
  ok (if id == own then suc others else others)

-- The process is added to the namespace with the identifier.
unfoldable pub push_pid : NsId → ℤ → List MountNamespace → List MountNamespace
push_pid id p [] = []
push_pid id p (n ∷ namespaces) =
    (if n.ns_id == some id then record n { ns_pids = n.ns_pids ++ p ∷ [] } else n)
    ∷ push_pid id p namespaces

-- `Vec::push` of the lines that are not there yet.
unfoldable pub push_new : List String → List String → List String
push_new seen [] = seen
push_new seen (mp ∷ mps) = push_new (if contains seen mp then seen else seen ++ mp ∷ []) mps

unfoldable pub new_namespace : ℤ → Info → MountNamespace
new_namespace p info = record {
  ns_id = some info.ns_id;
  ns_pids = p ∷ [];
  mounts = push_new [] info.mounts;
  mountinfo = push_new [] info.mountinfo;
  flag_files = [];
}

-- A new namespace, if the process still has its files.
unfoldable pub with_info : ℤ → List MountNamespace → Outcome Info → Outcome (List MountNamespace)
unfolding new_namespace
with_info p namespaces panic = panic
with_info p namespaces (err e) = ok namespaces
with_info p namespaces (ok info) = ok (namespaces ++ new_namespace p info ∷ [])

-- `get_pid_list().unwrap()`.
unfoldable pub unwrap_result : {A : Type 0} → Outcome A → Outcome A
unwrap_result panic = panic
unwrap_result (err e) = panic
unwrap_result (ok value) = ok value

module _ (kernel : Kernel) (mounts_match mountinfo_match : String → Option (String × String)) where
  unfoldable pub keep_mount : String → Bool
  keep_mount entry = elim (mounts_match entry) [
    | none ↦ false
    | some found ↦
        not (contains mountpoint_fs_skips found.0) && not (contains mountpoint_path_skips found.1)
  ]

  unfoldable pub keep_mountinfo : String → Bool
  keep_mountinfo entry = elim (mountinfo_match entry) [
    | none ↦ false
    | some found ↦
        not (contains mountpoint_fs_skips found.0)
        && not (any (λ skip. starts_with skip found.1) mountpoint_path_skips)
  ]

  unfoldable pub info_by_pid : ℤ → Outcome Info
  unfolding keep_mount keep_mountinfo
  info_by_pid pid = do
    f_mounts ← or_error io_error (kernel.lines ("/proc/" <> show_int pid <> "/mounts"))
    f_mountinfo ← or_error io_error (kernel.lines ("/proc/" <> show_int pid <> "/mountinfo"))
    id ← from_type kernel pid NsType.mount
    ok (record {
      ns_id = id;
      mounts = filter keep_mount f_mounts;
      mountinfo = filter keep_mountinfo f_mountinfo;
    })

  -- The body of the loop by the number of namespaces that match.
  unfoldable pub on_count : ℤ → NsId → List MountNamespace → ℕ → Outcome (List MountNamespace)
  unfolding with_info
  on_count p id namespaces zero = with_info p namespaces (info_by_pid p)
  on_count p id namespaces (suc zero) = ok (push_pid id p namespaces)
  on_count p id namespaces (suc (suc n)) = panic

  unfoldable pub with_id : ℤ → List MountNamespace → Outcome NsId → Outcome (List MountNamespace)
  unfolding on_count
  with_id p namespaces panic = panic
  with_id p namespaces (err e) = ok namespaces
  with_id p namespaces (ok id) = count_matches id namespaces >>= on_count p id namespaces

  -- The loop over the processes.
  unfoldable pub collect_mountinfos :
      Option (List ℤ × Bool) → List ℤ → List MountNamespace → Outcome (List MountNamespace)
  unfolding with_id
  collect_mountinfos pid_cfg [] namespaces = ok namespaces
  collect_mountinfos pid_cfg (p ∷ pids) namespaces =
      if is_selected pid_cfg p
      then with_id p namespaces (from_type kernel p NsType.mount)
        >>= collect_mountinfos pid_cfg pids
      else collect_mountinfos pid_cfg pids namespaces

  unfoldable pub get_mountinfos : Option (List ℤ × Bool) → Outcome (List MountNamespace)
  unfolding collect_mountinfos
  get_mountinfos pid_cfg =
      unwrap_result (get_pid_list kernel) >>= λ pids. collect_mountinfos pid_cfg pids []
