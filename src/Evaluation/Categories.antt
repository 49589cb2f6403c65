-- ===== src/Evaluation/Categories.antt =====
-- The categories without device tests, `category_*` of src/evaluation/mod.rs.
use checkc.Base.{
  String, Bool, true, false, not, ◌&&◌, ◌||◌, Option, none, some, List, [], ◌∷◌, map, Outcome, ok,
  ◌>>=◌, unwrap, if◌then◌else◌, is_empty, ◌==◌, nat_eq, string_eq,
}
use checkc.Base.Int.{ℤ, int_eq}
use checkc.Base.Sets.{contains, intersection, any}
use checkc.Base.Maps
use checkc.Base.Text.{◌<>◌, text_contains}
use checkc.Proto.Ns.{
  NsType, network, uts, mount, cgroup, pid, ipc, user, time, ns_type_eq, ns_type_to_i32,
}
use checkc.Proto.Caps.{Capability, capability_eq, capability_to_i32}
use checkc.Proto.Cgroup.{controller_from_i32, controller_debug}
use checkc.Proto.Host.{Config, IdMapping, SeccompMode, seccomp_config_mode, seccomp_mode_eq}
use checkc.Proto.Evaluation.{TestResult, Namespaces, IsolationMechanisms, Category}
use checkc.Config.{cgroups_controllers_required}
use checkc.Evaluation.Flags.{do_check_flags_host, do_check_flags_refcontainer}

-- The namespaces a category wants, and those of them that are active.
unfoldable pub category_namespaces : List NsType → List NsType → Namespaces
category_namespaces namespaces ns_set = record {
  active = map ns_type_to_i32 (intersection namespaces ns_set);
  desired = map ns_type_to_i32 namespaces;
}

-- `IsolationMechanisms::default()` with the field `namespaces` set.
unfoldable pub namespace_isolation : List NsType → List NsType → IsolationMechanisms
unfolding category_namespaces
namespace_isolation namespaces ns_set = record {
  namespaces = some (category_namespaces namespaces ns_set);
  chroot = none;
  cgroup = none;
}

-- The container's capabilities that belong to a category, as numbers.
unfoldable pub category_capabilities : List Capability → List Capability → List ℤ
category_capabilities caps capabilities = map capability_to_i32 (intersection caps capabilities)

-- A test that is always valid.
abbrev pub test_result : Bool → List String → TestResult
test_result passed info = record { passed = passed; valid = true; info = info }

abbrev pub network_capabilities : List Capability
network_capabilities =
    Capability.cap_net_admin ∷ Capability.cap_net_bind_service ∷ Capability.cap_net_raw ∷ []

unfoldable pub category_network : Config → List NsType → List Capability → Outcome Category
unfolding namespace_isolation category_capabilities
category_network config ns_set capabilities = do
  host ← unwrap config.uts_config_host
  container ← unwrap config.uts_config_container
  let tests =
      Maps.insert "container_specific_domainname"
        (test_result (not (host.domainname == container.domainname)) [])
        (Maps.insert "container_specific_hostname"
          (test_result (not (host.hostname == container.hostname)) []) [])
  ok (record {
    isolation = some (namespace_isolation (network ∷ uts ∷ []) ns_set);
    capabilities = category_capabilities network_capabilities capabilities;
    tests = tests;
    description = "Network namespace and UTS namespace status, networking-related capabilities";
  })

abbrev pub filesystem_capabilities : List Capability
filesystem_capabilities =
    Capability.cap_sys_chroot ∷ Capability.cap_linux_immutable ∷ Capability.cap_lease ∷ []

unfoldable pub category_filesystem :
    (String → Option String) → Config → List NsType → List Capability → String → Outcome Category
unfolding namespace_isolation category_capabilities
category_filesystem find_uuid config ns_set capabilities container_root_host = do
  chroot_config ← unwrap config.chroot_config
  host_root ← unwrap chroot_config.host
  container_root ← unwrap chroot_config.container
  let chroot =
      not (host_root.st_dev == container_root.st_dev)
      || not (host_root.st_ino == container_root.st_ino)
  let pivot_root = chroot && container_root.path == "/"
  fs_config ← unwrap config.fs_config
  flag_matches_host ← do_check_flags_host find_uuid container_root_host fs_config.host_namespaces
  flag_matches_ref_container ← do_check_flags_refcontainer fs_config.ref_container_namespaces
  let tests =
      Maps.insert "flag_matches_refcontainer"
        (test_result (is_empty flag_matches_ref_container) flag_matches_ref_container)
        (Maps.insert "flag_matches_host"
          (test_result (is_empty flag_matches_host) flag_matches_host) [])
  let isolation = namespace_isolation (mount ∷ []) ns_set
  ok (record {
    isolation =
        some (record isolation {
          chroot = some (record { chroot = chroot; pivot_root = pivot_root });
        });
    capabilities = category_capabilities filesystem_capabilities capabilities;
    tests = tests;
    description =
        "Container filesystem isolation (Mount namespace, Chroot), filesystem-related capabilities, filesystem configuration";
  })

abbrev pub resource_capabilities : List Capability
resource_capabilities = Capability.cap_sys_nice ∷ Capability.cap_sys_resource ∷ []

-- The test on an interface file: its content must be there and must not say `max`.
unfoldable pub limit_test : String → List (String × String) → TestResult
limit_test file interface_files = elim (Maps.lookup file interface_files) [
  | none ↦ test_result false ((file <> " not available") ∷ [])
  | some limit ↦ test_result (not (text_contains limit "max")) (limit ∷ [])
]

-- `{:?}` of `Controller::from_i32(c)`.
unfoldable pub debug_controller : ℤ → String
debug_controller c = elim (controller_from_i32 c) [
  | none ↦ "None"
  | some controller ↦ "Some(" <> controller_debug controller <> ")"
]

-- The loop over `CGROUPS_CONTROLLERS_REQUIRED`.
unfoldable pub missing_controllers : List ℤ → List ℤ → String
missing_controllers controllers [] = ""
missing_controllers controllers (c ∷ required) =
    (if contains controllers c then "" else debug_controller c <> ", ")
    <> missing_controllers controllers required

-- The third test is entered under the empty name.
unfoldable pub category_resource_control : Config → List NsType → List Capability → Outcome Category
unfolding namespace_isolation category_capabilities limit_test missing_controllers
category_resource_control config ns_set capabilities = do
  cgroup_config ← unwrap config.cgroup_config
  let required = missing_controllers cgroup_config.controllers cgroups_controllers_required == ""
  let tests = Maps.insert "" (test_result required []) (
      Maps.insert "memory_max_limited" (limit_test "memory.max" cgroup_config.interface_files)
        (Maps.insert "cpu_max_limited" (limit_test "cpu.max" cgroup_config.interface_files) []))
  let isolation = namespace_isolation (cgroup ∷ []) ns_set
  ok (record {
    isolation =
        some (record isolation { cgroup = some (not (is_empty cgroup_config.controllers)) });
    capabilities = category_capabilities resource_capabilities capabilities;
    tests = tests;
    description =
        "Cgroup namespace, Cgroup status, capabilities related to resource managment, tests on Cgroup limits";
  })

abbrev pub process_capabilities : List Capability
process_capabilities =
    Capability.cap_sys_ptrace ∷ Capability.cap_sys_pacct ∷ Capability.cap_checkpoint_restore
    ∷ Capability.cap_kill ∷ Capability.cap_sys_boot ∷ []

unfoldable pub category_process_control : List NsType → List Capability → Category
unfolding namespace_isolation category_capabilities
category_process_control ns_set capabilities = record {
  isolation = some (namespace_isolation (pid ∷ ipc ∷ []) ns_set);
  capabilities = category_capabilities process_capabilities capabilities;
  tests = [];
  description =
      "PID namespace and IPC namespace state, capabilities related to process handling/management";
}

abbrev pub access_capabilities : List Capability
access_capabilities =
    Capability.cap_chown ∷ Capability.cap_dac_override ∷ Capability.cap_dac_read_search
    ∷ Capability.cap_fowner ∷ Capability.cap_fsetid ∷ Capability.cap_setuid ∷ Capability.cap_setgid
    ∷ Capability.cap_setpcap ∷ Capability.cap_setfcap ∷ Capability.cap_ipc_owner
    ∷ Capability.cap_mac_override ∷ Capability.cap_mac_admin ∷ []

unfoldable pub category_access_control : Config → List NsType → List Capability → Outcome Category
unfolding namespace_isolation category_capabilities
category_access_control config ns_set capabilities = do
  user_ns_config ← unwrap config.user_ns_config
  seccomp_config ← unwrap config.seccomp_config
  let seccomp_mode = seccomp_config_mode seccomp_config
  let maps_to_root = any (λ (mapping : IdMapping). mapping.parent == 0) user_ns_config.uid_map
  let tests =
      Maps.insert "seccomp_enabled"
        (test_result
          (seccomp_mode == SeccompMode.seccomp_mode_filter
            || seccomp_mode == SeccompMode.seccomp_mode_strict)
          ("" ∷ []))
        (Maps.insert "user_ns_mapping_unique" (test_result user_ns_config.unique_mapping ("" ∷ []))
          (Maps.insert "user_ns_maps_to_non_root_user" (test_result (not maps_to_root) ("" ∷ []))
            []))
  ok (record {
    isolation = some (namespace_isolation (user ∷ []) ns_set);
    capabilities = category_capabilities access_capabilities capabilities;
    tests = tests;
    description =
        "User namespace status, capabilities related to access control management, tests on User namespace mapping";
  })

unfoldable pub category_time : List NsType → List Capability → Category
unfolding namespace_isolation category_capabilities
category_time ns_set capabilities = record {
  isolation = some (namespace_isolation (time ∷ []) ns_set);
  capabilities = category_capabilities (Capability.cap_sys_time ∷ []) capabilities;
  tests = [];
  description = "Time namespace status, capabilities related to system clock interaction";
}

abbrev pub global_capabilities : List Capability
global_capabilities =
    Capability.cap_sys_admin ∷ Capability.cap_audit_control ∷ Capability.cap_audit_read
    ∷ Capability.cap_audit_write ∷ Capability.cap_sys_module ∷ Capability.cap_syslog
    ∷ Capability.cap_wake_alarm ∷ Capability.cap_perfmon ∷ Capability.cap_bpf
    ∷ Capability.cap_net_broadcast ∷ Capability.cap_ipc_lock ∷ Capability.cap_block_suspend ∷ []

unfoldable pub category_global : List Capability → Category
unfolding category_capabilities
category_global capabilities = record {
  isolation = none;
  capabilities = category_capabilities global_capabilities capabilities;
  tests = [];
  description = "Default category for capabilities and tests not matching other categories";
}
