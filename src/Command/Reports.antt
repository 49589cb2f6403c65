-- ===== src/Command/Reports.antt =====
-- The reports of src/main.rs: what the commands `host` and `container` collect.
use checkc.Base.{
  ℕ, String, Bool, true, false, Option, none, some, List, [], ◌++◌, Outcome, ok, err, panic, ◌⊎◌,
  ◌==◌, nat_eq, if◌then◌else◌,
}
use checkc.Base.Effects.{Effect, lift, pure, ◌>>=◌}
use checkc.Base.Int.{ℤ}
use checkc.Proto.Ns.{NsId}
use checkc.Proto.Host.{Config, MountNamespace}
use checkc.Collect.Kernel.{Kernel}
use checkc.Collect.Context.{Context, ContextCalls}
use checkc.Collect.Namespaces.{ns_config}
use checkc.Collect.Caps.{caps_config}
use checkc.Collect.Cgroup.{cgroup_config}
use checkc.Collect.Status.{uts_config, chroot_config, seccomp_config}
use checkc.Collect.UserNs.{user_ns_config}
use checkc.Collect.Ancestry.{get_container_pids}
use checkc.Collect.Mounts.{unwrap_result}
use checkc.Collect.Devices.{Files}
use checkc.Collect.Mknod.{device_config}
use checkc.Collect.FlagFiles.{DiskCalls, fs_config_hostview, fs_config_container}

-- What the collection asks of the system, and the fuel for the lines of parents.
pub record System : Type 0 where
  pub kernel : Kernel
  pub get_parent : NsId → ℕ ⊎ NsId
  pub ns_depth : ℕ
  pub stat : String → ℕ ⊎ (ℕ ⊎ String)
  pub parent_of : String → Option String
  pub pid_depth : ℕ
  pub first_line : List String → String → Option (ℕ ⊎ String)
  pub controllers_of : List String → ℕ ⊎ List String
  pub gethostname : ℕ ⊎ String
  pub domainname : ℕ ⊎ String
  pub root_metadata : String → ℕ ⊎ (ℕ × ℕ)
  pub read_link : String → ℕ ⊎ String
  pub mounts_match : String → Option (String × String)
  pub mountinfo_match : String → Option (String × String)
  pub disk : DiskCalls
  pub calls : ContextCalls
  pub own_pid : ℤ
  pub effective_uid : ℕ
  pub remount_sysfs : Option String
  pub uuid : String

-- `Config::default()`.
abbrev pub config_default : Config
config_default = record {
  ns_config = none;
  caps_config = none;
  cgroup_config = none;
  fs_config = none;
  user_ns_config = none;
  seccomp_config = none;
  uts_config_host = none;
  uts_config_container = none;
  chroot_config = none;
  device_config = none;
  info = none;
}

-- `HostArgs` without the output.
pub record HostArgs : Type 0 where
  pub pid_host : ℤ
  pub pid_container : ℤ
  pub pid_ref_container : ℤ
  pub output : String

-- A walk that ran out of fuel does not return in the code; here it ends in no report either.
unfoldable pub in_fuel : Outcome (Option (List ℤ)) → Outcome (List ℤ)
in_fuel panic = panic
in_fuel (err e) = err e
in_fuel (ok none) = panic
in_fuel (ok (some pids)) = ok pids

module _ (system : System) where
  unfoldable pub container_pids : ℤ → Outcome (List ℤ)
  unfolding in_fuel
  container_pids pid =
      in_fuel (get_container_pids system.kernel system.stat system.parent_of system.pid_depth pid)

  unfoldable pub hostview : List ℤ → Bool → Effect Context (List MountNamespace)
  hostview pid_list include_mode =
      fs_config_hostview system.kernel system.mounts_match system.mountinfo_match system.disk
        system.calls system.own_pid pid_list include_mode

  -- `Commands::Host`, up to the report.
  unfoldable pub host_config : HostArgs → Effect Context Config
  host_config args = do
    ns ←
        lift (
          ns_config system.kernel system.get_parent system.ns_depth args.pid_host
            args.pid_container)
    caps ← lift (caps_config system.kernel args.pid_container)
    cgroup ←
        lift
          (cgroup_config system.kernel system.first_line system.controllers_of args.pid_container)
    uts ← lift (uts_config system.gethostname system.domainname)
    user_ns ← lift (user_ns_config system.kernel args.pid_container)
    fs_root ←
        lift (chroot_config system.root_metadata system.read_link args.pid_host args.pid_container)
    includes_test_container ← lift (unwrap_result (container_pids args.pid_container))
    includes_ref_container ← lift (unwrap_result (container_pids args.pid_ref_container))
    test_container_namespaces ← hostview includes_test_container true
    ref_container_namespaces ← hostview includes_ref_container true
    excludes_test ← lift (container_pids args.pid_container)
    excludes_ref ← lift (container_pids args.pid_ref_container)
    host_namespaces ← hostview (excludes_test ++ excludes_ref) false
    pids_container ← lift (container_pids args.pid_container)
    pids_ref_container ← lift (container_pids args.pid_ref_container)
    pure (record config_default {
      info = some (record {
        pids_container = pids_container;
        pids_ref_container = pids_ref_container;
        pid_host = args.pid_host;
      });
      fs_config = some (record {
        container_namespaces = test_container_namespaces;
        ref_container_namespaces = ref_container_namespaces;
        host_namespaces = host_namespaces;
      });
      ns_config = some ns;
      caps_config = some caps;
      cgroup_config = some cgroup;
      uts_config_host = some uts;
      user_ns_config = some user_ns;
      chroot_config = some fs_root;
    })

  -- `Commands::Container`, up to the report: any user but root is refused.
  unfoldable pub container_config : {S : Type 0} → Files S → S → Effect Context Config
  container_config files s = do
    _ ← lift (if system.effective_uid == 0 then ok (tt {0}) else panic)
    uts ← lift (uts_config system.gethostname system.domainname)
    device_conf ← lift (device_config files s)
    seccomp ← lift (seccomp_config system.kernel system.remount_sysfs system.own_pid)
    container_namespaces ←
        fs_config_container system.kernel system.mounts_match system.mountinfo_match system.disk
          system.calls system.own_pid system.uuid
    pure (record config_default {
      fs_config = some (record {
        container_namespaces = container_namespaces;
        ref_container_namespaces = [];
        host_namespaces = [];
      });
      uts_config_container = some uts;
      device_config = some device_conf;
      seccomp_config = some seccomp;
    })
