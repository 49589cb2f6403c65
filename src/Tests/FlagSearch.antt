-- ===== src/Tests/FlagSearch.antt =====
-- The flag files (src/c_config/fs.rs) at a host with one container and at a container with one disk.
use checkc.Base.{
  ℕ, ◌≡◌, refl, sym, ap, String, Bool, true, false, Option, none, some, List, [], ◌∷◌, ok, ◌⊎◌, inl,
  inr, ◌==◌, nat_eq, string_eq, if◌then◌else◌, ◌≤◌, All, Returns, option_eq,
}
use checkc.Base.Effects.{traverse_effect}
use checkc.Base.Int.{pos, int_eq}
use checkc.Base.Maps
use checkc.Base.Sets.{contains, filter, any}
use checkc.Base.Text.{show_ℕ, show_fuel, show_digit}
use checkc.Proto.Ns.{NsId, ns_id_eq}
use checkc.Proto.Host.{MountNamespace}
use checkc.Evaluation.{do_check_flags_host, do_check_flags_refcontainer}
use checkc.Evaluation.FlagMatches.{IsIdentified}
use checkc.Collect.Kernel.{Kernel}
use checkc.Collect.Numbers.{
  show_int, is_digit, decimal, has_digit, parse_i32, signed, signed_option,
}
use checkc.Collect.Process.{get_pid_list, from_type, ns_path, ns_type_show}
use checkc.Collect.Status.{starts_with}
use checkc.Collect.Context.{Context, ContextCalls, clone_newns, entered, closed}
use checkc.Collect.Join.{
  OpensFresh, has_open, join_ns_by_path, opened, joined, close_result, join_ns_by_path-has_open,
}
use checkc.Collect.Mounts.{
  get_mountinfos, unwrap_result, is_selected, count_matches, info_by_pid, push_pid,
  collect_mountinfos, keep_mount, keep_mountinfo, new_namespace, on_count, push_new, with_id,
  with_info,
}
use checkc.Collect.MountIds.{occurrences_of}
use checkc.Collect.Restore.{
  fs_config_generic, in_directory, processed, restored, rejoined, entered_if, back_in,
}
use checkc.Collect.FlagFiles.{
  DiskCalls, fs_config_hostview, process_mountpoints_host, search_namespace, search_pids,
  on_cmdline, join_and_search, on_join, search_mounts, search_mount, search_found,
  process_mountpoints_container, mark_namespace, mark_mount, mark_found, write_flag, created_flag,
}
use checkc.Collect.FlagHome.{fs_config_hostview-mount_ns}
use checkc.Collect.FlagRecord.{all_flags, Distinct}
use checkc.Collect.FlagSpaces.{
  process_mountpoints_container-Distinct, fs_config_hostview-do_check_flags,
}

abbrev host_space : NsId
host_space = record { st_dev = 4; st_ino = 10 }

abbrev container_space : NsId
container_space = record { st_dev = 4; st_ino = 40 }

-- The descriptors 3 and 4 are the only ones.
abbrev free_descriptor : Bool → Bool → Option ℕ
free_descriptor false four_open = some 3
free_descriptor true false = some 4
free_descriptor true true = none

abbrev as_descriptor : NsId → Option ℕ → ℕ ⊎ (ℕ × NsId)
as_descriptor id none = inl 24
as_descriptor id (some fd) = inr (fd, id)

abbrev space_of : String → NsId
space_of path = if path == "/proc/7/ns/mnt" then container_space else host_space

abbrev calls : ContextCalls
calls = record {
  current_dir = λ c. inr c.directory;
  open_ns = λ path c. as_descriptor (space_of path) (free_descriptor (has_open c 3) (has_open c 4));
  setns = λ fd ns_type c. none;
  close = λ fd c. none;
  set_current_dir = λ directory c. none;
}

abbrev number_of : ℕ ⊎ (ℕ × NsId) → ℕ
number_of (inl errno) = 0
number_of (inr (fd, id)) = fd

fresh_by_cases :
    (c : Context) (own id : NsId) (three four : Bool) (fd : ℕ)
    → has_open c 3 ≡ three
    → has_open c 4 ≡ four
    → as_descriptor own (free_descriptor three four) ≡ inr (fd, id)
    → has_open c fd ≡ false
fresh_by_cases c own id false four fd h k e =
    let same : ◌≡◌ {A = ℕ} 3 fd = ap number_of e in rw (sym same) h
fresh_by_cases c own id true false fd h k e =
    let same : ◌≡◌ {A = ℕ} 4 fd = ap number_of e in rw (sym same) k
fresh_by_cases c own id true true fd h k e = cc e

opens_fresh : OpensFresh calls
opens_fresh path c fd id e =
    fresh_by_cases c (space_of path) id (has_open c 3) (has_open c 4) fd refl refl e

abbrev context : Context
context = record { mount_ns = host_space; directory = "/root"; descriptors = []; created = [] }

-- The join of the container's namespace leaves no descriptor open.
join_ns_by_path-has_open_example :
    has_open (join_ns_by_path calls "/proc/7/ns/mnt" clone_newns context).1 3 ≡ has_open context 3
join_ns_by_path-has_open_example =
    join_ns_by_path-has_open calls "/proc/7/ns/mnt" clone_newns context opens_fresh (λ fd c. refl) 3

abbrev kernel : Kernel
kernel = record {
  lines = λ path. inr ("/dev/sda1 /data ext4" ∷ []);
  proc_dirs = inr ("7" ∷ "8" ∷ []);
  ns_file = λ path. inr (space_of path);
  ns_owner = λ path. inl 1;
}

abbrev line_match : String → Option (String × String)
line_match line = some ("ext4", "/data")

-- The container's flag file is seen in its namespace only.
abbrev disk : DiskCalls
disk = record {
  is_file = λ path c. contains c.created path;
  create = λ path c. none;
  cmdline = λ pid c. inr (inr "sh");
  search = λ mountpoint filter_of c.
      if c.mount_ns == container_space then "/data" ∷ "/data/xyz_checkc_flag_1" ∷ [] else [];
}

abbrev container_found : MountNamespace
container_found = record {
  ns_id = some container_space;
  ns_pids = pos 7 ∷ [];
  mounts = "/dev/sda1 /data ext4" ∷ [];
  mountinfo = "/dev/sda1 /data ext4" ∷ [];
  flag_files = "/data/xyz_checkc_flag_1" ∷ [];
}

found_one :
    (fs_config_hostview kernel line_match line_match disk calls (pos 9) (pos 7 ∷ []) true context).0
    ≡ ok (container_found ∷ [])
unfolding fs_config_hostview fs_config_generic contains process_mountpoints_host get_mountinfos
    unwrap_result get_pid_list filter has_digit is_digit parse_i32 signed_option decimal signed
    is_selected from_type count_matches info_by_pid traverse_effect Maps.lookup any show_digit
    show_fuel show_ℕ closed entered join_and_search on_cmdline on_join search_found search_mount
    search_mounts search_namespace search_pids close_result join_ns_by_path joined opened
    collect_mountinfos keep_mount keep_mountinfo new_namespace on_count push_new push_pid with_id
    with_info show_int ns_path ns_type_show back_in entered_if in_directory processed rejoined
    restored starts_with
found_one = refl

fs_config_hostview-mount_ns_example :
    ((fs_config_hostview kernel line_match line_match disk calls
        (pos 9)
        (pos 7 ∷ [])
        true
        context).1.mount_ns
      ≡ host_space)
    × ((fs_config_hostview kernel line_match line_match disk calls
          (pos 9)
          (pos 7 ∷ [])
          true
          context).1.directory
        ≡ "/root")
unfolding contains show_int show_ℕ
fs_config_hostview-mount_ns_example =
    fs_config_hostview-mount_ns kernel line_match line_match disk calls (pos 9) (pos 7 ∷ []) true
      context 3 opens_fresh refl refl (λ c. refl) (λ c. refl)

fs_config_hostview-do_check_flags_example :
    All IsIdentified (container_found ∷ [])
    × ((id : NsId) → occurrences_of id (container_found ∷ []) ≤ 1)
    × Returns (do_check_flags_host (λ _. some "") "/" (container_found ∷ []))
    × Returns (do_check_flags_refcontainer (container_found ∷ []))
fs_config_hostview-do_check_flags_example =
    fs_config_hostview-do_check_flags kernel line_match line_match disk calls (λ _. some "") "/"
      (pos 9) (pos 7 ∷ []) true context (container_found ∷ []) found_one

-- The container itself writes the file.
abbrev marked : List MountNamespace
marked =
    container_found
    ∷ record {
      ns_id = some host_space;
      ns_pids = pos 8 ∷ [];
      mounts = "/dev/sda1 /data ext4" ∷ [];
      mountinfo = "/dev/sda1 /data ext4" ∷ [];
      flag_files = [];
    }
    ∷ []

abbrev after_marking : Context
after_marking = record context { created = "/data/xyz_checkc_flag_1" ∷ [] }

marked_once :
    process_mountpoints_container kernel line_match line_match disk "1" 3 none context
    ≡ (ok marked, after_marking)
unfolding process_mountpoints_container get_mountinfos unwrap_result get_pid_list filter has_digit
    is_digit parse_i32 signed_option decimal signed is_selected from_type count_matches info_by_pid
    ns_path show_int show_ℕ traverse_effect any contains show_digit show_fuel created_flag
    mark_found mark_mount mark_namespace write_flag collect_mountinfos keep_mount keep_mountinfo
    new_namespace on_count push_new push_pid with_id with_info ns_type_show starts_with
marked_once = refl

process_mountpoints_container-Distinct_example :
    (all_flags marked ≡ after_marking.created) × Distinct (all_flags marked)
process_mountpoints_container-Distinct_example =
    process_mountpoints_container-Distinct kernel line_match line_match disk "1" 3 none context
      after_marking marked (λ path c h. h) refl marked_once
