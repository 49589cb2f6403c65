-- ===== src/Command/Complete.antt =====
-- The reports that the commands `host` and `container` of src/main.rs store have the parts that the command
-- `evaluation` needs.
use mathlib.Core.Path.{subst}
use checkc.Base.{
  true, false, ◌≡◌, refl, ap, Option, some, ◌++◌, Outcome, ok, err, panic, if◌then◌else◌, ◌==◌,
  nat_eq,
}
use checkc.Base.Effects.{lift, pure, Ensures, >>=-Ensures}
use checkc.Proto.Host.{Config, FsConfig}
use checkc.Collect.Context.{Context}
use checkc.Collect.Namespaces.{ns_config}
use checkc.Collect.Caps.{caps_config}
use checkc.Collect.Cgroup.{cgroup_config}
use checkc.Collect.Status.{uts_config, chroot_config, seccomp_config}
use checkc.Collect.UserNs.{user_ns_config}
use checkc.Collect.Mounts.{unwrap_result}
use checkc.Collect.Devices.{Files}
use checkc.Collect.Mknod.{device_config}
use checkc.Collect.FlagFiles.{fs_config_container}
use checkc.Command.Reports.{
  System, HostArgs, host_config, container_config, container_pids, hostview,
}
use checkc.Command.Combine.{combine, combine_fs}

-- A part is there.
abbrev pub IsThere : {A : Type 0} → Option A → Type 0
IsThere {A} o = (a : A) × (o ≡ some a)

abbrev pub IsHostReport : Config → Type 0
IsHostReport c =
    IsThere c.fs_config
    × IsThere c.ns_config
    × IsThere c.caps_config
    × IsThere c.cgroup_config
    × IsThere c.user_ns_config
    × IsThere c.uts_config_host
    × IsThere c.chroot_config
    × IsThere c.info

abbrev pub IsContainerReport : Config → Type 0
IsContainerReport c =
    IsThere c.fs_config
    × IsThere c.seccomp_config
    × IsThere c.uts_config_container
    × IsThere c.device_config

abbrev in_ok : Config → Outcome Config → Config
in_ok default panic = default
in_ok default (err e) = default
in_ok default (ok c) = c

pure-Ensures : (Q : Config → Type 0) (c : Config) → Q c → Ensures {S = Context} Q (pure c)
pure-Ensures Q c q s after a h = subst Q (ap (λ (r : Outcome Config × Context). in_ok c r.0) h) q

module _ (system : System) where
  pub host_config-IsHostReport : (args : HostArgs) → Ensures IsHostReport (host_config system args)
  unfolding host_config
  host_config-IsHostReport args =
      >>=-Ensures IsHostReport
        (lift (
          ns_config system.kernel system.get_parent system.ns_depth args.pid_host
            args.pid_container))
        _
        λ ns.
          >>=-Ensures IsHostReport (lift (caps_config system.kernel args.pid_container)) _ λ caps.
            >>=-Ensures IsHostReport
              (lift (
                cgroup_config system.kernel system.first_line system.controllers_of
                  args.pid_container))
              _
              λ cgroup.
                >>=-Ensures IsHostReport (lift (uts_config system.gethostname system.domainname)) _
                  λ uts.
                    >>=-Ensures IsHostReport
                      (lift (user_ns_config system.kernel args.pid_container)) _
                      λ user_ns.
                        >>=-Ensures IsHostReport
                          (lift (
                            chroot_config system.root_metadata system.read_link args.pid_host
                              args.pid_container))
                          _
                          λ fs_root.
                            >>=-Ensures IsHostReport
                              (lift (unwrap_result (container_pids system args.pid_container))) _
                              λ includes_test.
                                >>=-Ensures IsHostReport
                                  (lift
                                    (unwrap_result (container_pids system args.pid_ref_container)))
                                  _
                                  λ includes_ref.
                                    >>=-Ensures IsHostReport (hostview system includes_test true) _
                                      λ test_namespaces.
                                        >>=-Ensures IsHostReport (hostview system includes_ref true)
                                          _
                                          λ ref_namespaces.
                                            >>=-Ensures IsHostReport
                                              (lift (container_pids system args.pid_container)) _
                                              λ excludes_test.
                                                >>=-Ensures IsHostReport
                                                  (lift
                                                    (container_pids system args.pid_ref_container))
                                                  _
                                                  λ excludes_ref.
                                                    >>=-Ensures IsHostReport
                                                      (hostview system
                                                        (excludes_test ++ excludes_ref) false)
                                                      _
                                                      λ host_namespaces.
                                                        >>=-Ensures IsHostReport
                                                          (lift (
                                                            container_pids system
                                                            args.pid_container))
                                                          _
                                                          λ pids_container.
                                                            >>=-Ensures IsHostReport
                                                            (lift (
                                                            container_pids system
                                                            args.pid_ref_container))
                                                            _
                                                            λ pids_ref_container.
                                                            pure-Ensures IsHostReport _ (
                                                            (_, refl),
                                                            (_, refl),
                                                            (_, refl),
                                                            (_, refl),
                                                            (_, refl),
                                                            (_, refl),
                                                            (_, refl),
                                                            (_, refl),
                                                            )

  pub container_config-IsContainerReport :
      {S : Type 0} (files : Files S) (s : S)
      → Ensures IsContainerReport (container_config system files s)
  unfolding container_config
  container_config-IsContainerReport files s =
      >>=-Ensures IsContainerReport
        (lift (if system.effective_uid == 0 then ok (tt {0}) else panic)) _
        λ _.
          >>=-Ensures IsContainerReport (lift (uts_config system.gethostname system.domainname)) _
            λ uts. >>=-Ensures IsContainerReport (lift (device_config files s)) _ λ device_conf.
              >>=-Ensures IsContainerReport
                (lift (seccomp_config system.kernel system.remount_sysfs system.own_pid)) _
                λ seccomp.
                  >>=-Ensures IsContainerReport
                    (fs_config_container system.kernel system.mounts_match system.mountinfo_match
                      system.disk system.calls system.own_pid system.uuid)
                    _
                    λ container_namespaces.
                      pure-Ensures IsContainerReport _ ((_, refl), (_, refl), (_, refl), (_, refl))

-- Every part is of the host's report, but what only the container sees.
abbrev pub merged : FsConfig → FsConfig → Config → Config → Config
merged container_fs host_fs c h = record {
  ns_config = h.ns_config;
  caps_config = h.caps_config;
  cgroup_config = h.cgroup_config;
  fs_config = some (record {
    container_namespaces = container_fs.container_namespaces;
    ref_container_namespaces = host_fs.ref_container_namespaces;
    host_namespaces = host_fs.host_namespaces;
  });
  user_ns_config = h.user_ns_config;
  seccomp_config = c.seccomp_config;
  uts_config_host = h.uts_config_host;
  uts_config_container = c.uts_config_container;
  chroot_config = h.chroot_config;
  device_config = c.device_config;
  info = h.info;
}

pub combine-merged :
    (c h : Config) (reports : IsContainerReport c × IsHostReport h)
    → combine c h ≡ ok (merged reports.0.0.0 reports.1.0.0 c h)
unfolding combine combine_fs
combine-merged c h
      (
        ((cfs, e0), (sec, e1), (utsc, e2), (dev, e3)),
        ((hfs, f0), (ns, f1), (caps, f2), (cg, f3), (un, f4), (utsh, f5), (ch, f6), (info, f7)),
      ) =
    rw (e0, f0, f1, f2, f3, f4, e1, f5, e2, f6, e3, f7) refl
