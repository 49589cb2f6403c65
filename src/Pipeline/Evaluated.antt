-- ===== src/Pipeline/Evaluated.antt =====
-- What `EvalResult::from_config` (src/evaluation/mod.rs) computed where it returned.
use mathlib.Core.Path.{subst}
use checkc.Base.Reordered.{Reordered, same, both}
use checkc.Base.{
  ◌∙◌, ◌≡◌, String, Option, some, List, [], ◌∷◌, ok, >>=-elim, unwrap, unwrap-eq-ok, is_some,
  string_eq,
}
use checkc.Base.Sets.{extend}
use checkc.Base.Maps
use checkc.Proto.Ns.{NsType, NsConfig, ns_type_eq}
use checkc.Proto.Caps.{Capability, CapsConfig, cap_prm_values, capability_eq}
use checkc.Proto.Host.{Config}
use checkc.Proto.Evaluation.{Category, EvalResult}
use checkc.Evaluation.{
  by_type, active_namespaces, category_network, category_filesystem, category_devices,
  category_resource_control, category_process_control, category_access_control, category_time,
  category_global, eval_categories, from_config,
}

-- The eight categories in the order in which they are entered.
abbrev pub in_order :
    List NsType
    → List Capability
    → Category
    → Category
    → Category
    → Category
    → Category
    → List (String × Category)
in_order ns_set capabilities network filesystem devices resource_control access_control =
    ("network", network)
    ∷ ("filesystem", filesystem)
    ∷ ("devices", devices)
    ∷ ("resource_control", resource_control)
    ∷ ("process_control", category_process_control ns_set capabilities)
    ∷ ("access_control", access_control)
    ∷ ("time", category_time ns_set capabilities)
    ∷ ("global", category_global capabilities)
    ∷ []

-- The same result of an evaluation, its map of categories in any order.
abbrev pub Rearranged : EvalResult → EvalResult → Type 0
Rearranged e moved = (moved.unprivileged ≡ e.unprivileged) × Reordered e.categories moved.categories

module _ (find_uuid : String → Option String) (config : Config) (root : String) where
  -- The eight categories, in any order, and the sets from which they were computed.
  pub record Categories (ns_set : List NsType) (capabilities : List Capability)
      (categories : List (String × Category)) : Type 0 where
    pub network : Category
    pub filesystem : Category
    pub devices : Category
    pub resource_control : Category
    pub access_control : Category
    pub network_ok : category_network config ns_set capabilities ≡ ok network
    pub filesystem_ok :
        category_filesystem find_uuid config ns_set capabilities root ≡ ok filesystem
    pub devices_ok : category_devices config ns_set capabilities ≡ ok devices
    pub resource_ok : category_resource_control config ns_set capabilities ≡ ok resource_control
    pub access_ok : category_access_control config ns_set capabilities ≡ ok access_control
    pub listed :
        Reordered
          (in_order ns_set capabilities network filesystem devices resource_control access_control)
          categories

  eval_categories-Categories :
      (ns_set : List NsType) (capabilities : List Capability)
      {categories : List (String × Category)}
      → eval_categories find_uuid config ns_set capabilities root ≡ ok categories
      → Categories ns_set capabilities categories
  unfolding eval_categories
  eval_categories-Categories ns_set capabilities h = >>=-elim _ _ h λ network network_ok h1.
      >>=-elim _ _ h1 λ filesystem filesystem_ok h2. >>=-elim _ _ h2 λ devices devices_ok h3.
        >>=-elim _ _ h3 λ resource_control resource_ok h4.
          >>=-elim _ _ h4 λ access_control access_ok h5. record {
            network = network;
            filesystem = filesystem;
            devices = devices;
            resource_control = resource_control;
            access_control = access_control;
            network_ok = network_ok;
            filesystem_ok = filesystem_ok;
            devices_ok = devices_ok;
            resource_ok = resource_ok;
            access_ok = access_ok;
            listed =
                subst
                  (Reordered (
                    in_order ns_set capabilities network filesystem devices resource_control
                      access_control))
                  (cc h5)
                  (same (
                    in_order ns_set capabilities network filesystem devices resource_control
                      access_control));
          }

  -- An evaluation that returned: its parts, and the sets that it derived.
  pub record Evaluated (e : EvalResult) : Type 0 where
    pub ns_config : NsConfig
    pub caps_config : CapsConfig
    pub ns_set : List NsType
    pub has_ns_config : config.ns_config ≡ some ns_config
    pub has_caps_config : config.caps_config ≡ some caps_config
    pub active : active_namespaces (by_type [] ns_config.unshared) ns_config.shared_host ≡ ok ns_set
    pub unprivileged :
        e.unprivileged ≡ is_some (Maps.lookup NsType.user (by_type [] ns_config.unshared))
    pub categories : Categories ns_set (extend [] (cap_prm_values caps_config.cap_prm)) e.categories

  pub from_config-Evaluated :
      {e : EvalResult} → from_config find_uuid config root ≡ ok e → Evaluated e
  unfolding from_config
  from_config-Evaluated h = >>=-elim (unwrap config.info) _ h λ info i h1.
      >>=-elim (unwrap config.ns_config) _ h1 λ ns_config n h2.
        >>=-elim (active_namespaces (by_type [] ns_config.unshared) ns_config.shared_host) _ h2
          λ ns_set active h3. >>=-elim (unwrap config.caps_config) _ h3 λ caps_config c h4.
            >>=-elim
              (eval_categories find_uuid config ns_set
                (extend [] (cap_prm_values caps_config.cap_prm)) root)
              _ h4
              λ categories k h5. record {
                ns_config = ns_config;
                caps_config = caps_config;
                ns_set = ns_set;
                has_ns_config = unwrap-eq-ok config.ns_config n;
                has_caps_config = unwrap-eq-ok config.caps_config c;
                active = active;
                unprivileged = cc;
                categories =
                    eval_categories-Categories ns_set
                      (extend [] (cap_prm_values caps_config.cap_prm)) cc;
              }

  -- The parts of an evaluation do not depend on the order of its categories.
  pub Evaluated-Rearranged :
      {e : EvalResult} (moved : EvalResult) → Evaluated e → Rearranged e moved → Evaluated moved
  Evaluated-Rearranged {e} moved v (unprivileged, r) = record {
    ns_config = v.ns_config;
    caps_config = v.caps_config;
    ns_set = v.ns_set;
    has_ns_config = v.has_ns_config;
    has_caps_config = v.has_caps_config;
    active = v.active;
    unprivileged = unprivileged ∙ v.unprivileged;
    categories = record {
      network = v.categories.network;
      filesystem = v.categories.filesystem;
      devices = v.categories.devices;
      resource_control = v.categories.resource_control;
      access_control = v.categories.access_control;
      network_ok = v.categories.network_ok;
      filesystem_ok = v.categories.filesystem_ok;
      devices_ok = v.categories.devices_ok;
      resource_ok = v.categories.resource_ok;
      access_ok = v.categories.access_ok;
      listed = both _ e.categories moved.categories v.categories.listed r;
    };
  }

  pub from_config-Rearranged :
      {e : EvalResult} (moved : EvalResult)
      → from_config find_uuid config root ≡ ok e
      → Rearranged e moved
      → Evaluated moved
  from_config-Rearranged moved h r = Evaluated-Rearranged moved (from_config-Evaluated h) r
