-- ===== src/Pipeline/Tested.antt =====
-- The categories with devices, limits and user mappings (src/evaluation/mod.rs) where they returned.
use checkc.Base.{
  ◌≡◌, sym, ap, Bool, not, none, some, List, [], ◌∷◌, ok, >>=-elim, unwrap, unwrap-eq-ok, is_empty,
  ◌==◌, nat_eq, string_eq,
}
use checkc.Base.Sets.{any, contains}
use checkc.Base.Maps
use checkc.Proto.Ns.{NsType, cgroup, user, ns_type_eq}
use checkc.Proto.Caps.{Capability, capability_eq}
use checkc.Proto.Device.{DeviceConfig}
use checkc.Proto.Host.{Config, CgroupConfig, UserNsConfig, IdMapping, seccomp_mode_eq}
use checkc.Proto.Evaluation.{TestResult, Category}
use checkc.Evaluation.Categories.{
  category_resource_control, category_access_control, namespace_isolation, category_capabilities,
  test_result, limit_test, resource_capabilities, access_capabilities,
}
use checkc.Evaluation.Devices.{category_devices, device_capabilities, dev_whitelist_compliance}
use checkc.Pipeline.Collected.{Reports}
use checkc.Pipeline.Facts.{ok-injective, isolated, isolated-Reports, open-Reports}

-- A user of the container is the root of the namespace's parent.
abbrev pub maps_to_root : List IdMapping → Bool
maps_to_root mappings = any (λ (mapping : IdMapping). mapping.parent == 0) mappings

module _ (config : Config) (ns_set : List NsType) (capabilities : List Capability) where
  -- `category_devices` where it returned.
  pub record Devices (c : Category) : Type 0 where
    pub device_config : DeviceConfig
    pub dev : TestResult
    pub mknod : TestResult
    pub has_devices : config.device_config ≡ some device_config
    pub dev_checked :
        dev_whitelist_compliance device_config.dev_devices (contains ns_set NsType.user) ≡ ok dev
    pub mknod_checked :
        dev_whitelist_compliance device_config.mknod_devices (contains ns_set NsType.user)
        ≡ ok mknod
    pub dev_test : Maps.lookup "dev_whitelist_compliance" c.tests ≡ some dev
    pub mknod_test : Maps.lookup "mknod_whitelist_compliance" c.tests ≡ some mknod
    pub reports : Reports ns_set capabilities c ([], device_capabilities)

  pub category_devices-Devices :
      {c : Category} → category_devices config ns_set capabilities ≡ ok c → Devices c
  unfolding category_devices Maps.insert Maps.lookup
  category_devices-Devices h = >>=-elim (unwrap config.device_config) _ h λ device_config i h1.
      >>=-elim (dev_whitelist_compliance device_config.dev_devices (contains ns_set NsType.user)) _
        h1
        λ dev j h2.
          >>=-elim
            (dev_whitelist_compliance device_config.mknod_devices (contains ns_set NsType.user)) _
            h2
            λ mknod k h3.
              let e = sym (ok-injective h3) in
              record {
                device_config = device_config;
                dev = dev;
                mknod = mknod;
                has_devices = unwrap-eq-ok config.device_config i;
                dev_checked = j;
                mknod_checked = k;
                dev_test = ap (λ c. Maps.lookup "dev_whitelist_compliance" c.tests) e;
                mknod_test = ap (λ c. Maps.lookup "mknod_whitelist_compliance" c.tests) e;
                reports =
                    open-Reports config ns_set capabilities device_capabilities
                      (ap (λ c. c.isolation) e) (ap (λ c. c.capabilities) e);
              }

  -- `category_resource_control` where it returned.
  pub record ResourceControl (c : Category) : Type 0 where
    pub cgroup_config : CgroupConfig
    pub has_cgroup : config.cgroup_config ≡ some cgroup_config
    pub isolation :
        c.isolation
        ≡ some
            (isolated (cgroup ∷ []) ns_set none (some (not (is_empty cgroup_config.controllers))))
    pub capabilities_of : c.capabilities ≡ category_capabilities resource_capabilities capabilities
    pub cpu_test :
        Maps.lookup "cpu_max_limited" c.tests
        ≡ some (limit_test "cpu.max" cgroup_config.interface_files)
    pub memory_test :
        Maps.lookup "memory_max_limited" c.tests
        ≡ some (limit_test "memory.max" cgroup_config.interface_files)

  pub category_resource_control-ResourceControl :
      {c : Category}
      → category_resource_control config ns_set capabilities ≡ ok c
      → ResourceControl c
  unfolding category_resource_control namespace_isolation Maps.insert Maps.lookup
  category_resource_control-ResourceControl h =
      >>=-elim (unwrap config.cgroup_config) _ h λ cgroup_config i h1.
        let e = sym (ok-injective h1) in
        record {
          cgroup_config = cgroup_config;
          has_cgroup = unwrap-eq-ok config.cgroup_config i;
          isolation = ap (λ c. c.isolation) e;
          capabilities_of = ap (λ c. c.capabilities) e;
          cpu_test = ap (λ c. Maps.lookup "cpu_max_limited" c.tests) e;
          memory_test = ap (λ c. Maps.lookup "memory_max_limited" c.tests) e;
        }

  pub ResourceControl-Reports :
      {c : Category}
      → ResourceControl c
      → Reports ns_set capabilities c (cgroup ∷ [], resource_capabilities)
  ResourceControl-Reports f =
      isolated-Reports config ns_set capabilities (cgroup ∷ []) resource_capabilities f.isolation
        f.capabilities_of

  -- `category_access_control` where it returned.
  pub record AccessControl (c : Category) : Type 0 where
    pub user_ns_config : UserNsConfig
    pub has_user_ns : config.user_ns_config ≡ some user_ns_config
    pub isolation : c.isolation ≡ some (isolated (user ∷ []) ns_set none none)
    pub capabilities_of : c.capabilities ≡ category_capabilities access_capabilities capabilities
    pub root_test :
        Maps.lookup "user_ns_maps_to_non_root_user" c.tests
        ≡ some (test_result (not (maps_to_root user_ns_config.uid_map)) ("" ∷ []))
    pub unique_test :
        Maps.lookup "user_ns_mapping_unique" c.tests
        ≡ some (test_result user_ns_config.unique_mapping ("" ∷ []))

  pub category_access_control-AccessControl :
      {c : Category} → category_access_control config ns_set capabilities ≡ ok c → AccessControl c
  unfolding category_access_control namespace_isolation Maps.insert Maps.lookup
  category_access_control-AccessControl h =
      >>=-elim (unwrap config.user_ns_config) _ h λ user_ns_config i h1.
        >>=-elim (unwrap config.seccomp_config) _ h1 λ seccomp_config j h2.
          let e = sym (ok-injective h2) in
          record {
            user_ns_config = user_ns_config;
            has_user_ns = unwrap-eq-ok config.user_ns_config i;
            isolation = ap (λ c. c.isolation) e;
            capabilities_of = ap (λ c. c.capabilities) e;
            root_test = ap (λ c. Maps.lookup "user_ns_maps_to_non_root_user" c.tests) e;
            unique_test = ap (λ c. Maps.lookup "user_ns_mapping_unique" c.tests) e;
          }

  pub AccessControl-Reports :
      {c : Category}
      → AccessControl c
      → Reports ns_set capabilities c (user ∷ [], access_capabilities)
  AccessControl-Reports f =
      isolated-Reports config ns_set capabilities (user ∷ []) access_capabilities f.isolation
        f.capabilities_of
