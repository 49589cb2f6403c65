-- ===== src/Tests/Commands.antt =====
-- The commands of src/main.rs one after the other, at a small system.
use checkc.Collect.Numbers.{
  show_int, is_ascii_whitespace, pieces, words, is_digit, invalid_digit, too_large, push_digit,
  parse_digits, parse_u32, decimal, signed, signed_option, parse_i32, has_digit, tabs_to_spaces,
}
use checkc.Collect.Process.{
  ns_type_show, ns_path, get_pid_list, from_type, ns_get_owner_user_ns, info_by_ns_type,
}
use checkc.Collect.Namespaces.{
  ns_type_try_from, without, children_ids, forest_of, populate, hierarchies_from, hierarchy_from,
  find_root, lineage, ns_get_parent_ns, id_map_of, create_hierarchy, parse_proc_ns, ns_config,
}
use checkc.Collect.Caps.{
  cap_set_show, capability_first, capability_last, hex_digit, hex_invalid, push_hex, hex_digits,
  parse_hex, find_line, last, is_set, decode, decode_caps, parse_set, assign, assign_all,
  parse_proc_status, caps_config,
}
use checkc.Collect.Cgroup.{
  controller_try_from, known_controllers, flatten_words, is_whitespace, trim_start, trim_end, trim,
  strip, strip_hierarchy, reverse_onto, cgroup_path, cpu_step, memory_step, add_limit, get_cgroup,
  cpu_walk, memory_walk, get_cpu_max, get_memory_max, get_cgroup_controllers, cgroup_config,
}
use checkc.Collect.Status.{
  mode_try_from, starts_with, only_digits, parse_c_uint, mode_of_line, find_mode, syscall_result,
  seccomp_config, root_from_pid, chroot_config, uts_config,
}
use checkc.Collect.UserNs.{
  mapping_of_words, mapping_try_from, mapping_of_line, add_u32, overlaps, has_overlap,
  is_init_child, from_pid, check_info, check_processes, unique_mapping, user_ns_config,
}
use checkc.Collect.Ancestry.{
  stat_path, on_step, add_reached, parse_parent, walk_step, walk, descendants, get_container_pids,
}
use checkc.Collect.Mounts.{
  is_selected, count_matches, push_pid, push_new, new_namespace, with_info, unwrap_result,
  keep_mount, keep_mountinfo, info_by_pid, on_count, with_id, collect_mountinfos, get_mountinfos,
}
use checkc.Collect.Context.{entered, closed}
use checkc.Collect.Restore.{
  back_in, entered_if, rejoined, restored, processed, in_directory, fs_config_generic,
}
use checkc.Collect.FlagFiles.{
  is_flag_name, is_directory, is_flag_entry, created_flag, write_flag, mark_found, mark_mount,
  mark_namespace, process_mountpoints_container, search_found, search_mount, search_mounts, on_join,
  join_and_search, on_cmdline, search_pids, search_namespace, process_mountpoints_host,
  fs_config_hostview, fs_config_container,
}
use checkc.Collect.Join.{close_result, joined, opened, join_ns_by_path}
use checkc.Command.Reports.{in_fuel, container_pids, hostview, host_config, container_config}
use checkc.Base.Sets.{
  filter, all, any, contains, insert, extend, intersection, difference, is_subset,
}
use checkc.Base.Text.{join, text_contains, show_digit, show_fuel, show_ℕ, show_bool}
use checkc.Base.Paths.{
  prepend, split_on, normal_components, components_of, components, is_prefix, path_starts_with,
}
use checkc.Proto.Ns.{
  ns_type_number, ns_type_from_i32, ns_type_to_i32, ns_type_beq, ns_type_as_str_name, ns_type_debug,
  ns_info_type,
}
use checkc.Proto.Caps.{
  capability_number, capability_from_i32, capability_to_i32, capability_beq, capability_show,
  cap_prm_values,
}
use checkc.Proto.Host.{
  seccomp_mode_number, seccomp_mode_from_i32, seccomp_mode_to_i32, seccomp_mode_beq,
  seccomp_config_mode,
}
use checkc.Proto.Cgroup.{
  controller_number, controller_from_i32, controller_to_i32, controller_beq, controller_debug,
}
use checkc.Base.Effects.{traverse_effect}
use checkc.Config.{
  range_from, dev_major_whitelist, dev_whitelist_general, dev_whitelist_unprivileged,
}
use checkc.Base.{
  ℕ, ◌≡◌, refl, String, true, false, none, some, List, [], ◌∷◌, ok, ◌⊎◌, inl, inr, ◌==◌, nat_eq,
  string_eq, if◌then◌else◌, option_eq,
}
use checkc.Base.Int.{pos, int_eq}
use checkc.Base.Maps
use checkc.Proto.Ns.{NsId, NsInfo, node, nil, ns_id_eq, ns_type_eq}
use checkc.Proto.Host.{Config, MountNamespace}
use checkc.Collect.Kernel.{Kernel}
use checkc.Tests.DeviceNodes.{files, collected, devices_collected}
use checkc.Collect.Context.{Context}
use checkc.Command.Reports.{System, HostArgs, config_default}

abbrev pub here : NsId
here = record { st_dev = 4; st_ino = 10 }

abbrev status : List String
status =
    "CapInh:\t0000000000000000" ∷ "CapPrm:\t0000000000040000" ∷ "CapEff:\t0000000000000000"
    ∷ "CapBnd:\t0000000000000000" ∷ "CapAmb:\t0000000000000000" ∷ "Seccomp:\t2" ∷ []

abbrev lines_of : String → ℕ ⊎ List String
lines_of path =
    if path == "/proc/7/status"
    then inr status
    else if path == "/proc/7/uid_map"
    then inr ("0 100000 65536" ∷ [])
    else if path == "/proc/7/gid_map"
    then inr ("0 100000 65536" ∷ [])
    else if path == "/proc/7/cgroup"
    then inr ("0::/" ∷ [])
    else inr []

abbrev pub kernel : Kernel
kernel = record {
  lines = lines_of;
  proc_dirs = inr ("7" ∷ []);
  ns_file = λ path. inr here;
  ns_owner = λ path. inr here;
}

abbrev pub context : Context
context = record { mount_ns = here; directory = "/"; descriptors = []; created = [] }

-- There are no mount points, and no namespace file can be opened but the first.
abbrev pub system : System
system = record {
  kernel = kernel;
  get_parent = λ id. inl 1;
  ns_depth = 1;
  stat = λ path. inl 2;
  parent_of = λ text. none;
  pid_depth = 1;
  first_line = λ parts name. none;
  controllers_of = λ lines. inr [];
  gethostname = inr "host";
  domainname = inr "";
  root_metadata = λ path. inr (2, 1);
  read_link = λ path. inr "/";
  mounts_match = λ line. none;
  mountinfo_match = λ line. none;
  disk = record {
    is_file = λ path c. false;
    create = λ path c. none;
    cmdline = λ pid c. inl 2;
    search = λ path p c. [];
  };
  calls = record {
    current_dir = λ c. inr c.directory;
    open_ns = λ path c. inr (3, here);
    setns = λ fd t c. none;
    close = λ fd c. none;
    set_current_dir = λ d c. none;
  };
  own_pid = pos 7;
  effective_uid = 0;
  remount_sysfs = none;
  uuid = "1";
}

abbrev pub host_args : HostArgs
host_args = record {
  pid_host = pos 1;
  pid_container = pos 7;
  pid_ref_container = pos 7;
  output = "host.json";
}

-- The mount namespace, as each collection sees it.
abbrev pub space : MountNamespace
space = record {
  ns_id = some here;
  ns_pids = pos 7 ∷ [];
  mounts = [];
  mountinfo = [];
  flag_files = [];
}

abbrev shared : ℕ → NsInfo
shared n = record { type_number = pos n; id = some here; owner = some here }

abbrev pub host_report : Config
host_report = record config_default {
  ns_config = some (record {
    unshared = [];
    shared_host =
        shared 1 ∷ shared 2 ∷ shared 3 ∷ shared 4 ∷ shared 5 ∷ shared 7 ∷ shared 8 ∷ shared 6 ∷ [];
    user_ns_hierarchy = some (node (some here) nil);
    pid_ns_hierarchy = some (node (some here) nil);
  });
  caps_config =
      some
        (record { cap_inh = []; cap_prm = pos 19 ∷ []; cap_eff = []; cap_bnd = []; cap_amb = [] });
  cgroup_config = some (record { cgroup = ""; controllers = []; interface_files = [] });
  fs_config = some (record {
    container_namespaces = space ∷ [];
    ref_container_namespaces = space ∷ [];
    host_namespaces = [];
  });
  user_ns_config = some (record {
    uid_map = record { current = 0; parent = 100000; range = 65536 } ∷ [];
    gid_map = record { current = 0; parent = 100000; range = 65536 } ∷ [];
    unique_mapping = true;
  });
  uts_config_host = some (record { hostname = "host"; domainname = "" });
  chroot_config = some (record {
    host = some (record { path = "/"; st_ino = 2; st_dev = 1 });
    container = some (record { path = "/"; st_ino = 2; st_dev = 1 });
  });
  info =
      some
        (record { pids_container = pos 7 ∷ []; pids_ref_container = pos 7 ∷ []; pid_host = pos 1 });
}

pub host_collected : host_config system host_args context ≡ (ok host_report, context)
unfolding host_config show_int is_ascii_whitespace pieces words is_digit invalid_digit too_large
    push_digit parse_digits parse_u32 decimal signed signed_option parse_i32 has_digit
    tabs_to_spaces ns_type_show ns_path get_pid_list from_type ns_get_owner_user_ns info_by_ns_type
    ns_type_try_from without children_ids forest_of populate hierarchies_from hierarchy_from
    find_root lineage ns_get_parent_ns id_map_of create_hierarchy parse_proc_ns ns_config
    cap_set_show capability_first capability_last hex_digit hex_invalid push_hex hex_digits
    parse_hex find_line last is_set decode decode_caps parse_set assign assign_all parse_proc_status
    caps_config controller_try_from known_controllers flatten_words is_whitespace trim_start
    trim_end trim strip strip_hierarchy reverse_onto cgroup_path cpu_step memory_step add_limit
    get_cgroup cpu_walk memory_walk get_cpu_max get_memory_max get_cgroup_controllers cgroup_config
    mode_try_from starts_with only_digits parse_c_uint mode_of_line find_mode syscall_result
    seccomp_config root_from_pid chroot_config uts_config mapping_of_words mapping_try_from
    mapping_of_line add_u32 overlaps has_overlap is_init_child from_pid check_info check_processes
    unique_mapping user_ns_config stat_path on_step add_reached parse_parent walk_step walk
    descendants get_container_pids is_selected count_matches push_pid push_new new_namespace
    with_info unwrap_result keep_mount keep_mountinfo info_by_pid on_count with_id
    collect_mountinfos get_mountinfos entered closed back_in entered_if rejoined restored processed
    in_directory fs_config_generic is_flag_name is_directory is_flag_entry created_flag write_flag
    mark_found mark_mount mark_namespace process_mountpoints_container search_found search_mount
    search_mounts on_join join_and_search on_cmdline search_pids search_namespace
    process_mountpoints_host fs_config_hostview fs_config_container close_result joined opened
    join_ns_by_path in_fuel container_pids hostview container_config filter all any contains insert
    extend intersection difference is_subset join text_contains show_digit show_fuel show_ℕ
    show_bool prepend split_on normal_components components_of components is_prefix path_starts_with
    ns_type_number ns_type_from_i32 ns_type_to_i32 ns_type_beq ns_type_as_str_name ns_type_debug
    ns_info_type capability_number capability_from_i32 capability_to_i32 capability_beq
    capability_show cap_prm_values seccomp_mode_number seccomp_mode_from_i32 seccomp_mode_to_i32
    seccomp_mode_beq seccomp_config_mode controller_number controller_from_i32 controller_to_i32
    controller_beq controller_debug traverse_effect range_from dev_major_whitelist
    dev_whitelist_general dev_whitelist_unprivileged Maps.lookup Maps.insert
host_collected = refl

abbrev pub container_report : Config
container_report = record config_default {
  fs_config = some (record {
    container_namespaces = space ∷ [];
    ref_container_namespaces = [];
    host_namespaces = [];
  });
  uts_config_container = some (record { hostname = "host"; domainname = "" });
  device_config = some collected;
  seccomp_config = some (record {
    mode_number = pos 3;
    syscall_map = ("mount: remount sysfs", record { success = true; info = "" }) ∷ [];
  });
}

pub container_collected : container_config system files 0 context ≡ (ok container_report, context)
unfolding container_config show_int is_ascii_whitespace pieces words is_digit invalid_digit
    too_large push_digit parse_digits parse_u32 decimal signed signed_option parse_i32 has_digit
    tabs_to_spaces ns_type_show ns_path get_pid_list from_type ns_get_owner_user_ns info_by_ns_type
    ns_type_try_from without children_ids forest_of populate hierarchies_from hierarchy_from
    find_root lineage ns_get_parent_ns id_map_of create_hierarchy parse_proc_ns ns_config
    cap_set_show capability_first capability_last hex_digit hex_invalid push_hex hex_digits
    parse_hex find_line last is_set decode decode_caps parse_set assign assign_all parse_proc_status
    caps_config controller_try_from known_controllers flatten_words is_whitespace trim_start
    trim_end trim strip strip_hierarchy reverse_onto cgroup_path cpu_step memory_step add_limit
    get_cgroup cpu_walk memory_walk get_cpu_max get_memory_max get_cgroup_controllers cgroup_config
    mode_try_from starts_with only_digits parse_c_uint mode_of_line find_mode syscall_result
    seccomp_config root_from_pid chroot_config uts_config mapping_of_words mapping_try_from
    mapping_of_line add_u32 overlaps has_overlap is_init_child from_pid check_info check_processes
    unique_mapping user_ns_config stat_path on_step add_reached parse_parent walk_step walk
    descendants get_container_pids is_selected count_matches push_pid push_new new_namespace
    with_info unwrap_result keep_mount keep_mountinfo info_by_pid on_count with_id
    collect_mountinfos get_mountinfos entered closed back_in entered_if rejoined restored processed
    in_directory fs_config_generic is_flag_name is_directory is_flag_entry created_flag write_flag
    mark_found mark_mount mark_namespace process_mountpoints_container search_found search_mount
    search_mounts on_join join_and_search on_cmdline search_pids search_namespace
    process_mountpoints_host fs_config_hostview fs_config_container close_result joined opened
    join_ns_by_path in_fuel container_pids hostview filter all any contains insert extend
    intersection difference is_subset join text_contains show_digit show_fuel show_ℕ show_bool
    prepend split_on normal_components components_of components is_prefix path_starts_with
    ns_type_number ns_type_from_i32 ns_type_to_i32 ns_type_beq ns_type_as_str_name ns_type_debug
    ns_info_type capability_number capability_from_i32 capability_to_i32 capability_beq
    capability_show cap_prm_values seccomp_mode_number seccomp_mode_from_i32 seccomp_mode_to_i32
    seccomp_mode_beq seccomp_config_mode controller_number controller_from_i32 controller_to_i32
    controller_beq controller_debug traverse_effect range_from dev_major_whitelist
    dev_whitelist_general dev_whitelist_unprivileged Maps.lookup Maps.insert
container_collected = rw devices_collected refl
