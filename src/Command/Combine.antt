-- ===== src/Command/Combine.antt =====
-- How the command `evaluation` of src/main.rs combines the reports of the two others.
use checkc.Base.{some, Outcome, ok, unwrap, ◌>>=◌}
use checkc.Proto.Host.{Config, FsConfig}

-- The combined report: the mount namespaces of the container as it sees them, and those of the host and of
-- the reference container as the host does.
unfoldable pub combine_fs : FsConfig → FsConfig → FsConfig
combine_fs container_fs host_fs = record {
  container_namespaces = container_fs.container_namespaces;
  ref_container_namespaces = host_fs.ref_container_namespaces;
  host_namespaces = host_fs.host_namespaces;
}

-- `Commands::Evaluation`: a part that is missing panics.
unfoldable pub combine : Config → Config → Outcome Config
unfolding combine_fs
combine c_config_container c_config_host = do
  container_fs ← unwrap c_config_container.fs_config
  host_fs ← unwrap c_config_host.fs_config
  ns ← unwrap c_config_host.ns_config
  caps ← unwrap c_config_host.caps_config
  cgroup ← unwrap c_config_host.cgroup_config
  user_ns ← unwrap c_config_host.user_ns_config
  seccomp ← unwrap c_config_container.seccomp_config
  uts_host ← unwrap c_config_host.uts_config_host
  uts_container ← unwrap c_config_container.uts_config_container
  chroot ← unwrap c_config_host.chroot_config
  devices ← unwrap c_config_container.device_config
  info ← unwrap c_config_host.info
  ok (record {
    ns_config = some ns;
    caps_config = some caps;
    cgroup_config = some cgroup;
    fs_config = some (combine_fs container_fs host_fs);
    user_ns_config = some user_ns;
    seccomp_config = some seccomp;
    uts_config_host = some uts_host;
    uts_config_container = some uts_container;
    chroot_config = some chroot;
    device_config = some devices;
    info = some info;
  })
