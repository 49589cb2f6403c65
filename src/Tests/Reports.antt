-- ===== src/Tests/Reports.antt =====
-- The goals of an evaluated configuration, at a concrete one.
use checkc.Base.{
  ◌≡◌, refl, String, ◌&&◌, ◌||◌, some, List, [], ◌∷◌, ok, Returns, leb, if◌then◌else◌, is_empty,
  is_some, ◌==◌,
}
use checkc.Base.Reordered.{Reordered, same, swap}
use checkc.Proto.Evaluation.{Category, EvalResult}
use checkc.Base.Sets.{all, contains, insert}
use checkc.Base.Maps
use checkc.Base.Int.{pos}
use checkc.Proto.Ns.{NsType, NsInfo, user, mount, cgroup, ns_type_eq, ns_type_beq, ns_type_number}
use checkc.Proto.Caps.{Capability, cap_prm_values, capability_beq, capability_number}
use checkc.Proto.Device.{DeviceConfig}
use checkc.Proto.Host.{Root, ChrootConfig, FsConfig, CgroupConfig, UserNsConfig}
use checkc.Proto.Assessment.{Criticality, SecResult, GoalS1, GoalS2, GoalS3, GoalS4}
use checkc.Evaluation.{
  active_namespaces, add_owned, find_type, do_check_flags_host, do_check_flags_refcontainer,
}
use checkc.Evaluation.Whitelist.{device_complies}
use checkc.Assessment.{
  assess_goal_s1, assess_goal_s2, assess_goal_s3, assess_goal_s4, assess_eval_result,
}
use checkc.Assessment.Severity.{severity, IsState}
use checkc.Pipeline.Evaluated.{Evaluated, Rearranged}
use checkc.Pipeline.Plan.{count}
use checkc.Pipeline.Reported.{reported, from_config-reported}
use checkc.Proto.Caps.{capability_to_i32, add_known, capability_from_i32}
use checkc.Base.Int.{int_eq}
use checkc.Pipeline.Spaces.{is_owned, user_ns_id_of, active_namespaces-exact}
use checkc.Pipeline.Goals.{from_config-goal_s2, from_config-goal_s3}
use checkc.Pipeline.Limits.{is_limited, from_config-goal_s4}
use checkc.Pipeline.GlobalGoal.{meets_global, from_config-goal_s1}
use checkc.Pipeline.Report.{from_config-assess_eval_result}
use checkc.Tests.Pipeline.{find_uuid, config, own, eval_result, evaluated}

-- The first two entries change places.
abbrev turn : List (String × Category) → List (String × Category)
turn (x ∷ y ∷ xs) = y ∷ x ∷ xs
turn xs = xs

turn-Reordered : (xs : List (String × Category)) → Reordered xs (turn xs)
turn-Reordered [] = same []
turn-Reordered (x ∷ []) = same (x ∷ [])
turn-Reordered (x ∷ y ∷ xs) = swap x y xs

-- The evaluation with its categories in another order.
abbrev turned : EvalResult
turned = record {
  unprivileged = eval_result.unprivileged;
  categories = turn eval_result.categories;
  info = eval_result.info;
}

is_turned : Rearranged eval_result turned
is_turned = (refl, turn-Reordered eval_result.categories)

from_config-assess_eval_result_example : Returns (assess_eval_result turned)
from_config-assess_eval_result_example =
    from_config-assess_eval_result find_uuid config "/var/root" turned evaluated is_turned

from_config-goal_s1_example :
    (v : Evaluated find_uuid config "/var/root" turned) × (chroot_config : ChrootConfig)
    × (host : Root) × (container : Root) × (u : UserNsConfig) × (r : SecResult) × (g : GoalS1)
    × (config.chroot_config ≡ some chroot_config)
    × (chroot_config.host ≡ some host)
    × (chroot_config.container ≡ some container)
    × (config.user_ns_config ≡ some u)
    × (assess_goal_s1 turned Criticality.ok ≡ ok (some g))
    × (g.result ≡ some r)
    × IsState r
    × (leb (severity r) 1
        ≡ meets_global host container v.ns_set
            (cap_prm_values v.caps_config.cap_prm)
            u
            Criticality.ok)
from_config-goal_s1_example =
    from_config-goal_s1 find_uuid config "/var/root" turned Criticality.ok evaluated is_turned

from_config-goal_s2_example :
    (d : DeviceConfig) × (r : SecResult) × (g : GoalS2) × (config.device_config ≡ some d)
    × (assess_goal_s2 turned ≡ ok (some g))
    × (g.result ≡ some r)
    × IsState r
    × (severity r ≡ (
        if all (device_complies turned.unprivileged) d.dev_devices
          && all (device_complies turned.unprivileged) d.mknod_devices
        then 1
        else 4))
from_config-goal_s2_example =
    from_config-goal_s2 find_uuid config "/var/root" turned evaluated is_turned

from_config-goal_s3_example :
    (u : UserNsConfig) × (fs : FsConfig) × (hosts : List String) × (refs : List String)
    × (r : SecResult) × (g : GoalS3) × (config.user_ns_config ≡ some u)
    × (config.fs_config ≡ some fs)
    × (do_check_flags_host find_uuid "/var/root" fs.host_namespaces ≡ ok hosts)
    × (do_check_flags_refcontainer fs.ref_container_namespaces ≡ ok refs)
    × (assess_goal_s3 turned ≡ ok (some g))
    × (g.result ≡ some r)
    × IsState r
    × (severity r ≡ (if u.unique_mapping && is_empty refs && is_empty hosts then 1 else 4))
from_config-goal_s3_example =
    from_config-goal_s3 find_uuid config "/var/root" turned evaluated is_turned

from_config-goal_s4_example :
    (v : Evaluated find_uuid config "/var/root" turned) × (c : CgroupConfig) × (r : SecResult)
    × (g : GoalS4) × (config.cgroup_config ≡ some c)
    × (assess_goal_s4 turned ≡ ok (some g))
    × (g.result ≡ some r)
    × IsState r
    × (severity r ≡ (
        if contains v.ns_set cgroup
          && is_limited "cpu.max" c.interface_files
          && is_limited "memory.max" c.interface_files
        then 1
        else 4))
from_config-goal_s4_example =
    from_config-goal_s4 find_uuid config "/var/root" turned evaluated is_turned

abbrev unshared_ns : List (NsType × NsInfo)
unshared_ns = (user, own (pos 7)) ∷ (mount, own (pos 4)) ∷ []

abbrev active : List NsType
active = mount ∷ user ∷ []

active_found : active_namespaces unshared_ns [] ≡ ok active
unfolding active_namespaces add_owned Maps.lookup insert contains ns_type_beq ns_type_number
active_found = refl

active_namespaces-exact_example : contains active mount ≡ (
    (mount == user && is_some (Maps.lookup user unshared_ns))
    || is_owned
        (user_ns_id_of (Maps.lookup user unshared_ns) (find_type user []))
        unshared_ns
        mount)
active_namespaces-exact_example = active_namespaces-exact unshared_ns [] active_found mount

from_config-reported_example :
    count (capability_to_i32 Capability.cap_sys_chroot) (reported turned.categories) ≡ 1
unfolding cap_prm_values add_known capability_from_i32 contains capability_beq capability_number
from_config-reported_example =
    from_config-reported find_uuid config "/var/root" turned evaluated is_turned refl
      Capability.cap_sys_chroot
