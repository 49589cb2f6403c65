-- ===== src/Pipeline/Plan.antt =====
-- The eight categories of `EvalResult::from_config` (src/evaluation/mod.rs) together: between them they
-- want every namespace type and report every capability, each in one category.
use checkc.Base.{Eq, ◌≡◌, refl, not, Option, ◌+◌, List, [], ◌∷◌, String, ◌==◌, ℕ, if◌then◌else◌}
use checkc.Base.Sets.{contains}
use checkc.Proto.Ns.{
  NsType, network, uts, mount, cgroup, pid, ipc, user, time, ns_type_eq, ns_type_beq,
  ns_type_number,
}
use checkc.Proto.Caps.{Capability, capability_eq, capability_beq, capability_number}
use checkc.Proto.Host.{Config}
use checkc.Proto.Evaluation.{Category}
use checkc.Evaluation.Categories.{
  network_capabilities, filesystem_capabilities, resource_capabilities, process_capabilities,
  access_capabilities, global_capabilities,
}
use checkc.Evaluation.Devices.{device_capabilities}
use checkc.Pipeline.Collected.{Wants, Report, wanted_namespaces, wanted_capabilities}
use checkc.Pipeline.Evaluated.{Categories, in_order}
use checkc.Pipeline.Facts.{
  network-Reports, category_filesystem-Filesystem, Filesystem-Reports, process-Reports,
  time-Reports, global-Reports,
}
use checkc.Pipeline.Tested.{
  category_devices-Devices, category_resource_control-ResourceControl, ResourceControl-Reports,
  category_access_control-AccessControl, AccessControl-Reports,
}

abbrev pub plan : List Wants
plan =
    (network ∷ uts ∷ [], network_capabilities)
    ∷ (mount ∷ [], filesystem_capabilities)
    ∷ ([], device_capabilities)
    ∷ (cgroup ∷ [], resource_capabilities)
    ∷ (pid ∷ ipc ∷ [], process_capabilities)
    ∷ (user ∷ [], access_capabilities)
    ∷ (time ∷ [], Capability.cap_sys_time ∷ [])
    ∷ ([], global_capabilities)
    ∷ []

-- How often an element stands in a list.
module _ {A : Type 0} ⦃e : Eq A⦄ where
  abbrev pub count : A → List A → ℕ
  count c [] = 0
  count c (x ∷ xs) = let rest = count c xs in if c == x then rest + 1 else rest

pub wanted_capabilities-count :
    (c : Capability)
    → count c (wanted_capabilities plan) ≡ (if c == Capability.unspecified then 0 else 1)
unfolding capability_beq capability_number
wanted_capabilities-count Capability.unspecified = refl
wanted_capabilities-count _ = refl

pub wanted_capabilities-all :
    (c : Capability) → contains (wanted_capabilities plan) c ≡ not (c == Capability.unspecified)
unfolding contains capability_beq capability_number
wanted_capabilities-all Capability.unspecified = refl
wanted_capabilities-all _ = refl

pub wanted_namespaces-all :
    (t : NsType) → contains (wanted_namespaces plan) t ≡ not (t == NsType.unspecified)
unfolding contains ns_type_beq ns_type_number
wanted_namespaces-all NsType.unspecified = refl
wanted_namespaces-all _ = refl

module _ (ns_set : List NsType) (capabilities : List Capability) where
  -- The categories of an evaluation report what the plan says.
  pub Categories-Report :
      (find_uuid : String → Option String) (config : Config) (root : String)
      {categories : List (String × Category)}
      (k : Categories find_uuid config root ns_set capabilities categories)
      → Report ns_set capabilities
          (in_order ns_set capabilities k.network k.filesystem k.devices k.resource_control
            k.access_control)
          plan
  Categories-Report find_uuid config root k = (
    network-Reports config ns_set capabilities k.network_ok,
    (
      Filesystem-Reports config ns_set capabilities (
          category_filesystem-Filesystem config ns_set capabilities find_uuid root k.filesystem_ok),
      (
        (category_devices-Devices config ns_set capabilities k.devices_ok).reports,
        (
          ResourceControl-Reports config ns_set capabilities
              (category_resource_control-ResourceControl config ns_set capabilities k.resource_ok),
          (
            process-Reports config ns_set capabilities,
            (
              AccessControl-Reports config ns_set capabilities
                  (category_access_control-AccessControl config ns_set capabilities k.access_ok),
              (
                time-Reports config ns_set capabilities,
                (global-Reports config ns_set capabilities, tt),
              ),
            ),
          ),
        ),
      ),
    ),
  )
