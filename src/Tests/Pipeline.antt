-- ===== src/Tests/Pipeline.antt =====
-- The evaluation and the assessment at a concrete configuration.
use checkc.Base.{
  ℕ, ◌≡◌, refl, String, true, false, Option, none, some, [], ◌∷◌, Outcome, ok, err, panic,
}
use checkc.Base.Int.{ℤ, pos}
use checkc.Proto.Ns.{
  NsId, NsInfo, ns_type_beq, ns_info_type, ns_type_from_i32, ns_type_number, ns_type_to_i32,
}
use checkc.Proto.Caps.{
  cap_prm_values, capability_beq, capability_from_i32, capability_number, capability_to_i32,
}
use checkc.Proto.Device.{
  Device, device_type_beq, device_id_type, device_type_from_i32, device_type_number, device_type_of,
  device_type_to_i32,
}
use checkc.Proto.Host.{
  Config, Root, seccomp_config_mode, seccomp_mode_beq, seccomp_mode_from_i32, seccomp_mode_number,
}
use checkc.Proto.Evaluation.{EvalResult}
use checkc.Evaluation.{
  from_config, category_network, category_filesystem, do_check_flags_host,
  do_check_flags_refcontainer, category_devices, dev_whitelist_compliance, category_access_control,
  category_global, category_process_control, category_resource_control, category_time,
  active_namespaces, add_owned, by_type, eval_categories, find_type,
}
use checkc.Base.Maps
use checkc.Evaluation.Flags.{host_namespaces, refcontainer_namespaces}
use checkc.Evaluation.Devices.{not_allowed_devices, is_skipped, is_whitelisted}
use checkc.Base.Sets.{any, contains, extend, filter, insert, intersection}
use checkc.Base.Text.{text_contains}
use checkc.Config.{
  dev_major_whitelist, dev_whitelist_general, dev_whitelist_unprivileged, range_from,
}
use checkc.Evaluation.Categories.{
  category_capabilities, category_namespaces, limit_test, missing_controllers, namespace_isolation,
}

-- No flag file has a UUID.
abbrev pub find_uuid : String → Option String
find_uuid flag = none

abbrev ns_id : NsId
ns_id = record { st_dev = 4; st_ino = 200 }

-- A namespace of a type, owned by the container's user namespace.
abbrev pub own : ℤ → NsInfo
own n = record { type_number = n; id = some ns_id; owner = some ns_id }

abbrev root_of : String → ℕ → Root
root_of path st_ino = record { path = path; st_ino = st_ino; st_dev = 1 }

abbrev null_device : Device
null_device = record {
  file = "/dev/null";
  id = some (record { type_number = pos 1; major = 1; minor = 3 });
  permissions = 0;
  user = 0;
  group = 0;
  read_access = true;
  write_access = true;
}

-- A container with a user and a mount namespace of its own and CAP_SYS_CHROOT.
abbrev pub config : Config
config = record {
  ns_config = some (record {
    unshared = own (pos 7) ∷ own (pos 4) ∷ [];
    shared_host = [];
    user_ns_hierarchy = none;
    pid_ns_hierarchy = none;
  });
  caps_config =
      some
        (record { cap_inh = []; cap_prm = pos 19 ∷ []; cap_eff = []; cap_bnd = []; cap_amb = [] });
  cgroup_config =
      some (record {
        cgroup = "/";
        controllers = [];
        interface_files = ("cpu.max", "max 100000") ∷ [];
      });
  fs_config =
      some
        (record { container_namespaces = []; ref_container_namespaces = []; host_namespaces = [] });
  user_ns_config = some (record {
    uid_map = record { current = 0; parent = 100000; range = 65536 } ∷ [];
    gid_map = [];
    unique_mapping = true;
  });
  seccomp_config = some (record { mode_number = pos 3; syscall_map = [] });
  uts_config_host = some (record { hostname = "host"; domainname = "" });
  uts_config_container = some (record { hostname = "container"; domainname = "" });
  chroot_config = some (record { host = some (root_of "/" 2); container = some (root_of "/" 9) });
  device_config = some (record { dev_devices = null_device ∷ []; mknod_devices = [] });
  info = some (record { pids_container = pos 7 ∷ []; pids_ref_container = []; pid_host = pos 1 });
}

abbrev empty_result : EvalResult
empty_result = record { unprivileged = false; categories = []; info = none }

-- What the evaluation returns.
abbrev value_of : Outcome EvalResult → EvalResult
value_of (ok e) = e
value_of (err _) = empty_result
value_of panic = empty_result

abbrev pub eval_result : EvalResult
eval_result = value_of (from_config find_uuid config "/var/root")

pub evaluated : from_config find_uuid config "/var/root" ≡ ok eval_result
unfolding from_config ns_type_beq ns_info_type ns_type_from_i32 ns_type_number ns_type_to_i32
    category_network category_filesystem do_check_flags_host do_check_flags_refcontainer
    category_devices dev_whitelist_compliance category_access_control category_global
    category_process_control category_resource_control category_time active_namespaces add_owned
    by_type eval_categories find_type host_namespaces refcontainer_namespaces not_allowed_devices
    is_skipped is_whitelisted device_type_beq device_id_type device_type_from_i32 device_type_number
    device_type_of device_type_to_i32 any contains extend filter insert intersection text_contains
    dev_major_whitelist dev_whitelist_general dev_whitelist_unprivileged range_from
    category_capabilities category_namespaces limit_test missing_controllers namespace_isolation
    cap_prm_values capability_beq capability_from_i32 capability_number capability_to_i32
    seccomp_config_mode seccomp_mode_beq seccomp_mode_from_i32 seccomp_mode_number Maps.lookup
    Maps.insert
evaluated = refl
