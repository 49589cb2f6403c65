-- ===== src/Evaluation.antt =====
-- src/evaluation/mod.rs: `EvalResult::from_config`, which evaluates a collected configuration.
pub mod Flags
pub mod Categories
pub mod Devices
pub mod Whitelist
pub mod FlagMatches
pub mod HostFlags
unfoldable pub use Devices.{category_devices, dev_whitelist_compliance}
unfoldable pub use Flags.{do_check_flags_host, do_check_flags_refcontainer}
unfoldable pub use Categories.{
  category_network, category_filesystem, category_resource_control, category_process_control,
  category_access_control, category_time, category_global,
}
use checkc.Base.{
  String, Bool, true, false, Option, none, some, List, [], ◌∷◌, Outcome, ok, panic, ◌>>=◌, unwrap,
  if◌then◌else◌, is_some, ◌==◌, string_eq,
}
use checkc.Base.Sets.{insert, extend, any}
use checkc.Base.Maps
use checkc.Proto.Ns.{NsType, NsId, NsInfo, ns_info_type, ns_id_eq, ns_type_eq}
use checkc.Proto.Caps.{Capability, cap_prm_values, capability_eq}
use checkc.Proto.Host.{Config}
use checkc.Proto.Evaluation.{Category, EvalResult}

-- `unshared_ns`: the namespaces by type, the last of a type kept.
unfoldable pub by_type : List (NsType × NsInfo) → List NsInfo → List (NsType × NsInfo)
by_type m [] = m
by_type m (ns ∷ rest) = by_type (Maps.insert (ns_info_type ns) ns m) rest

-- Either loop over `unshared_ns`: the types of the namespaces owned by the given user namespace.
unfoldable pub add_owned :
    Option NsId → List (NsType × NsInfo) → List NsType → Outcome (List NsType)
add_owned user_ns_id [] ns_set = ok ns_set
add_owned user_ns_id ((ns_type, ns_info) ∷ rest) ns_set = do
  owner ← unwrap ns_info.owner
  id ← unwrap user_ns_id
  add_owned user_ns_id rest (if owner == id then insert ns_type ns_set else ns_set)

-- `shared_host.iter().find(..)`.
unfoldable pub find_type : NsType → List NsInfo → Option NsInfo
find_type t [] = none
find_type t (ns ∷ rest) = if ns_info_type ns == t then some ns else find_type t rest

-- The set of active namespaces, from the container's own and the shared ones.
unfoldable pub active_namespaces : List (NsType × NsInfo) → List NsInfo → Outcome (List NsType)
active_namespaces unshared_ns shared_host = elim (Maps.lookup NsType.user unshared_ns) [
  | some user_ns ↦ add_owned user_ns.id unshared_ns (NsType.user ∷ [])
  | none ↦
      unwrap (find_type NsType.user shared_host) >>= λ user_ns. add_owned user_ns.id unshared_ns []
]

module _ (find_uuid : String → Option String) where
  -- The eight categories, in the order in which the code enters them; the map that holds them
  -- may be iterated in another one.
  unfoldable pub eval_categories :
      Config → List NsType → List Capability → String → Outcome (List (String × Category))
  eval_categories config ns_set capabilities container_root_host = do
    network ← category_network config ns_set capabilities
    filesystem ← category_filesystem find_uuid config ns_set capabilities container_root_host
    devices ← category_devices config ns_set capabilities
    resource_control ← category_resource_control config ns_set capabilities
    access_control ← category_access_control config ns_set capabilities
    ok (
        ("network", network)
        ∷ ("filesystem", filesystem)
        ∷ ("devices", devices)
        ∷ ("resource_control", resource_control)
        ∷ ("process_control", category_process_control ns_set capabilities)
        ∷ ("access_control", access_control)
        ∷ ("time", category_time ns_set capabilities)
        ∷ ("global", category_global capabilities)
        ∷ [])

  unfoldable pub from_config : Config → String → Outcome EvalResult
  unfolding eval_categories active_namespaces add_owned by_type
  from_config config container_root_host = do
    info ← unwrap config.info
    ns_config ← unwrap config.ns_config
    let unshared_ns = by_type [] ns_config.unshared
    ns_set ← active_namespaces unshared_ns ns_config.shared_host
    caps_config ← unwrap config.caps_config
    let capabilities = extend [] (cap_prm_values caps_config.cap_prm)
    categories ← eval_categories config ns_set capabilities container_root_host
    ok (record {
      unprivileged = is_some (Maps.lookup NsType.user unshared_ns);
      categories = categories;
      info = some (record {
        pids_container = info.pids_container;
        pids_ref_container = info.pids_ref_container;
        pid_host = info.pid_host;
        container_root_host = container_root_host;
      });
    })

-- `contains_ns_type` and `capability_is_set`.
unfoldable pub contains_ns_type : List NsInfo → NsType → Bool
contains_ns_type ns_vec ns_type = any (λ info. ns_info_type info == ns_type) ns_vec

unfoldable pub capability_is_set : List Capability → Capability → Bool
capability_is_set cap_set cap = any (λ elem. elem == cap) cap_set
