-- ===== src/Pipeline/Goals.antt =====
-- The four goals (src/assessment/mod.rs) of an evaluation result that `EvalResult::from_config`
-- (src/evaluation/mod.rs) returned, in terms of the configuration.
use checkc.Base.{
  ◌≡◌, refl, sym, ◌∙◌, String, Bool, ◌&&◌, Option, some, List, arith, ok, is_empty, if◌then◌else◌,
  string_eq, nat_eq, list_eq,
}
use checkc.Base.Int.{int_eq}
use checkc.Base.Sets.{contains, all}
use checkc.Proto.Ns.{NsType, ns_type_eq}
use checkc.Proto.Caps.{capability_eq}
use checkc.Proto.Device.{Device, DeviceConfig}
use checkc.Proto.Host.{Config, FsConfig, UserNsConfig}
use checkc.Proto.Evaluation.{TestResult, EvalResult}
use checkc.Proto.Assessment.{SecResult, GoalS2, GoalS3}
use checkc.Evaluation.{from_config}
use checkc.Evaluation.Whitelist.{
  device_complies, dev_whitelist_compliance-exact, dev_whitelist_compliance-IsDevice,
}
use checkc.Evaluation.{do_check_flags_host, do_check_flags_refcontainer}
use checkc.Evaluation.Devices.{dev_whitelist_compliance}
use checkc.Assessment.{assess_goal_s2, assess_goal_s3}
use checkc.Assessment.Severity.{severity, IsState}
use checkc.Assessment.TestGoals.{passes, assess_goal_s2-exact, assess_goal_s3-exact}
use checkc.Pipeline.Evaluated.{Rearranged, from_config-Rearranged}
use checkc.Pipeline.Facts.{category_filesystem-Filesystem}
use checkc.Pipeline.Tested.{category_devices-Devices, category_access_control-AccessControl}
use checkc.Pipeline.Lookups.{found_filesystem, found_devices, found_access_control}
use checkc.Pipeline.Spaces.{active_namespaces-user}

passes_compliance :
    (devices : List Device) (unprivileged : Bool) {t : TestResult}
    → dev_whitelist_compliance devices unprivileged ≡ ok t
    → passes t ≡ all (device_complies unprivileged) devices
passes_compliance devices unprivileged {t} h =
    let (t', e, valid, passed) =
      dev_whitelist_compliance-exact devices unprivileged
        (dev_whitelist_compliance-IsDevice devices unprivileged h) in
    let same : t ≡ t' = cc (h, e) in ground (arith, same, valid, passed)

module _ (find_uuid : String → Option String) (config : Config) (root : String) where
  -- An evaluation that returned, its categories in any order, had devices, and its goal S2 is assessed
  -- without a panic: it is OK if every device found in /dev and every one that mknod could make complies
  -- with the whitelists (the wider ones for an unprivileged container), else an ERROR.
  pub from_config-goal_s2 :
      {e : EvalResult} (moved : EvalResult)
      → from_config find_uuid config root ≡ ok e
      → Rearranged e moved
      → (d : DeviceConfig) × (r : SecResult) × (g : GoalS2) × (config.device_config ≡ some d)
        × (assess_goal_s2 moved ≡ ok (some g))
        × (g.result ≡ some r)
        × IsState r
        × (severity r ≡ (
            if all (device_complies moved.unprivileged) d.dev_devices
              && all (device_complies moved.unprivileged) d.mknod_devices
            then 1
            else 4))
  from_config-goal_s2 {e} moved h m =
      let v = from_config-Rearranged find_uuid config root moved h m in
      let k = v.categories in
      let f = category_devices-Devices config v.ns_set _ k.devices_ok in
      let same : contains v.ns_set NsType.user ≡ moved.unprivileged =
        active_namespaces-user _ _ v.active ∙ sym v.unprivileged in
      let (r, g, returns, result, state, exact) =
        assess_goal_s2-exact moved
          (record { entry = k.devices; found = found_devices k; tested = f.dev_test })
          (record { entry = k.devices; found = found_devices k; tested = f.mknod_test }) in
      (
        f.device_config,
        r,
        g,
        f.has_devices,
        returns,
        result,
        state,
        exact
            ∙ rw (passes_compliance _ _ f.dev_checked, passes_compliance _ _ f.mknod_checked, same)
                refl,
      )

  -- An evaluation that returned, its categories in any order, had the flag files and the user
  -- mappings, and its goal S3 is assessed without a panic: it is OK if the mappings of the containers
  -- are disjoint and neither check of the flag files had a finding, else an ERROR.
  pub from_config-goal_s3 :
      {e : EvalResult} (moved : EvalResult)
      → from_config find_uuid config root ≡ ok e
      → Rearranged e moved
      → (u : UserNsConfig) × (fs : FsConfig) × (hosts : List String) × (refs : List String)
        × (r : SecResult) × (g : GoalS3) × (config.user_ns_config ≡ some u)
        × (config.fs_config ≡ some fs)
        × (do_check_flags_host find_uuid root fs.host_namespaces ≡ ok hosts)
        × (do_check_flags_refcontainer fs.ref_container_namespaces ≡ ok refs)
        × (assess_goal_s3 moved ≡ ok (some g))
        × (g.result ≡ some r)
        × IsState r
        × (severity r ≡ (if u.unique_mapping && is_empty refs && is_empty hosts then 1 else 4))
  from_config-goal_s3 {e} moved h m =
      let v = from_config-Rearranged find_uuid config root moved h m in
      let k = v.categories in
      let f = category_filesystem-Filesystem config v.ns_set _ find_uuid root k.filesystem_ok in
      let a = category_access_control-AccessControl config v.ns_set _ k.access_ok in
      let (r, g, returns, result, state, exact) =
        assess_goal_s3-exact moved
          (record {
            entry = k.access_control;
            found = found_access_control k;
            tested = a.unique_test;
          })
          (record { entry = k.filesystem; found = found_filesystem k; tested = f.refs_test })
          (record { entry = k.filesystem; found = found_filesystem k; tested = f.hosts_test }) in
      (
        a.user_ns_config, f.fs_config, f.hosts, f.refs, r, g, a.has_user_ns, f.has_fs,
        f.hosts_checked, f.refs_checked, returns, result, state, exact,
      )
