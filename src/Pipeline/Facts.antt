-- ===== src/Pipeline/Facts.antt =====
-- The categories of src/evaluation/mod.rs where they returned: what they report, and their tests.
use checkc.Base.{
  ◌≡◌, refl, sym, ap, String, Bool, not, ◌&&◌, ◌||◌, Option, none, some, List, [], ◌∷◌, ok,
  >>=-elim, unwrap, unwrap-eq-ok, is_empty, ◌==◌, nat_eq, string_eq,
}
use checkc.Base.Sets.{extend, intersection, filter}
use checkc.Base.Maps
use checkc.Proto.Ns.{NsType, network, uts, mount, pid, ipc, time, ns_type_eq}
use checkc.Proto.Caps.{Capability, capability_eq}
use checkc.Proto.Host.{Config, Root, ChrootConfig, FsConfig, seccomp_mode_eq}
use checkc.Proto.Evaluation.{Category, Chroot, IsolationMechanisms}
use checkc.Evaluation.Categories.{
  category_network, category_filesystem, category_process_control, category_time, category_global,
  category_namespaces, namespace_isolation, category_capabilities, test_result,
  network_capabilities, filesystem_capabilities, process_capabilities, global_capabilities,
}
use checkc.Evaluation.Flags.{do_check_flags_host, do_check_flags_refcontainer}
use checkc.Assessment.{add_namespaces}
use checkc.Pipeline.Collected.{Reports, added-namespaces}

pub ok-injective : {A : Type 0} {a b : A} → ok a ≡ ok b → a ≡ b
ok-injective h = cc

-- The isolation of a category that wants these namespaces, which may also hold more.
abbrev pub isolated : List NsType → List NsType → Option Chroot → Option Bool → IsolationMechanisms
isolated wanted ns_set chroot_conf in_cgroup = record {
  namespaces = some (category_namespaces wanted ns_set);
  chroot = chroot_conf;
  cgroup = in_cgroup;
}

-- The root differs from the host's, by device or inode.
abbrev pub is_changed : Root → Root → Bool
is_changed host container =
    not (host.st_dev == container.st_dev) || not (host.st_ino == container.st_ino)

abbrev pub chroot_of : Root → Root → Chroot
chroot_of host container = record {
  chroot = is_changed host container;
  pivot_root = is_changed host container && container.path == "/";
}

module _ (config : Config) (ns_set : List NsType) (capabilities : List Capability) where
  pub isolated-Reports :
      {c : Category} (wanted : List NsType) (caps : List Capability) {chroot_conf : Option Chroot}
      {in_cgroup : Option Bool}
      → c.isolation ≡ some (isolated wanted ns_set chroot_conf in_cgroup)
      → c.capabilities ≡ category_capabilities caps capabilities
      → Reports ns_set capabilities c (wanted, caps)
  isolated-Reports wanted caps i r = record {
    added = λ sets. rw i (added-namespaces ns_set capabilities _ wanted refl sets);
    reported = r;
  }

  pub open-Reports :
      {c : Category} (caps : List Capability)
      → c.isolation ≡ none
      → c.capabilities ≡ category_capabilities caps capabilities
      → Reports ns_set capabilities c ([], caps)
  unfolding add_namespaces extend intersection filter
  open-Reports caps i r = record { added = λ sets. rw i refl; reported = r }

  pub network-Reports :
      {c : Category}
      → category_network config ns_set capabilities ≡ ok c
      → Reports ns_set capabilities c (network ∷ uts ∷ [], network_capabilities)
  unfolding category_network namespace_isolation
  network-Reports h = >>=-elim (unwrap config.uts_config_host) _ h λ host i h1.
      >>=-elim (unwrap config.uts_config_container) _ h1 λ container j h2.
        let e = sym (ok-injective h2) in
        isolated-Reports (network ∷ uts ∷ []) network_capabilities (ap (λ c. c.isolation) e)
          (ap (λ c. c.capabilities) e)

  pub process-Reports :
      Reports ns_set capabilities
        (category_process_control ns_set capabilities)
        (pid ∷ ipc ∷ [], process_capabilities)
  unfolding category_process_control namespace_isolation
  process-Reports = isolated-Reports (pid ∷ ipc ∷ []) process_capabilities refl refl

  pub time-Reports :
      Reports ns_set capabilities
        (category_time ns_set capabilities)
        (time ∷ [], Capability.cap_sys_time ∷ [])
  unfolding category_time namespace_isolation
  time-Reports = isolated-Reports (time ∷ []) (Capability.cap_sys_time ∷ []) refl refl

  pub global-Reports :
      Reports ns_set capabilities (category_global capabilities) ([], global_capabilities)
  unfolding category_global
  global-Reports = open-Reports global_capabilities refl refl

  -- `category_filesystem` where it returned.
  pub record Filesystem (find_uuid : String → Option String) (root : String) (c : Category)
      : Type 0 where
    pub chroot_config : ChrootConfig
    pub host : Root
    pub container : Root
    pub fs_config : FsConfig
    pub hosts : List String
    pub refs : List String
    pub has_chroot : config.chroot_config ≡ some chroot_config
    pub has_host : chroot_config.host ≡ some host
    pub has_container : chroot_config.container ≡ some container
    pub has_fs : config.fs_config ≡ some fs_config
    pub hosts_checked : do_check_flags_host find_uuid root fs_config.host_namespaces ≡ ok hosts
    pub refs_checked : do_check_flags_refcontainer fs_config.ref_container_namespaces ≡ ok refs
    pub isolation :
        c.isolation ≡ some (isolated (mount ∷ []) ns_set (some (chroot_of host container)) none)
    pub capabilities_of :
        c.capabilities ≡ category_capabilities filesystem_capabilities capabilities
    pub refs_test :
        Maps.lookup "flag_matches_refcontainer" c.tests ≡ some (test_result (is_empty refs) refs)
    pub hosts_test :
        Maps.lookup "flag_matches_host" c.tests ≡ some (test_result (is_empty hosts) hosts)

  pub category_filesystem-Filesystem :
      (find_uuid : String → Option String) (root : String) {c : Category}
      → category_filesystem find_uuid config ns_set capabilities root ≡ ok c
      → Filesystem find_uuid root c
  unfolding category_filesystem namespace_isolation Maps.insert Maps.lookup
  category_filesystem-Filesystem find_uuid root h =
      >>=-elim (unwrap config.chroot_config) _ h λ chroot_config i h1.
        >>=-elim (unwrap chroot_config.host) _ h1 λ host j h2.
          >>=-elim (unwrap chroot_config.container) _ h2 λ container k h3.
            >>=-elim (unwrap config.fs_config) _ h3 λ fs_config l h4.
              >>=-elim (do_check_flags_host find_uuid root fs_config.host_namespaces) _ h4
                λ hosts m h5.
                  >>=-elim (do_check_flags_refcontainer fs_config.ref_container_namespaces) _ h5
                    λ refs n h6.
                      let e = sym (ok-injective h6) in
                      record {
                        chroot_config = chroot_config;
                        host = host;
                        container = container;
                        fs_config = fs_config;
                        hosts = hosts;
                        refs = refs;
                        has_chroot = unwrap-eq-ok config.chroot_config i;
                        has_host = unwrap-eq-ok chroot_config.host j;
                        has_container = unwrap-eq-ok chroot_config.container k;
                        has_fs = unwrap-eq-ok config.fs_config l;
                        hosts_checked = m;
                        refs_checked = n;
                        isolation = ap (λ c. c.isolation) e;
                        capabilities_of = ap (λ c. c.capabilities) e;
                        refs_test = ap (λ c. Maps.lookup "flag_matches_refcontainer" c.tests) e;
                        hosts_test = ap (λ c. Maps.lookup "flag_matches_host" c.tests) e;
                      }

  pub Filesystem-Reports :
      {find_uuid : String → Option String} {root : String} {c : Category}
      → Filesystem find_uuid root c
      → Reports ns_set capabilities c (mount ∷ [], filesystem_capabilities)
  Filesystem-Reports f =
      isolated-Reports (mount ∷ []) filesystem_capabilities f.isolation f.capabilities_of
