-- ===== src/Pipeline/Lookups.antt =====
-- Where the categories of `EvalResult::from_config` (src/evaluation/mod.rs) stand.
use checkc.Base.{◌≡◌, refl, sym, ◌∙◌, true, String, Option, some, List, string_eq, nat_eq, list_eq}
use checkc.Base.Int.{int_eq}
use checkc.Base.Maps
use checkc.Base.Sets.{contains}
use checkc.Base.Reordered.{are_distinct, lookup-Reordered}
use checkc.Proto.Ns.{NsType, ns_type_eq}
use checkc.Proto.Caps.{Capability, capability_eq}
use checkc.Proto.Host.{Config}
use checkc.Proto.Evaluation.{Category}
use checkc.Pipeline.Evaluated.{Categories, in_order}

-- A category of an evaluation, by its name.
module _ {find_uuid : String → Option String} {config : Config} {root : String}
    {ns_set : List NsType} {capabilities : List Capability} {categories : List (String × Category)}
    (k : Categories find_uuid config root ns_set capabilities categories) where
  abbrev entered : List (String × Category)
  entered =
      in_order ns_set capabilities k.network k.filesystem k.devices k.resource_control
        k.access_control

  distinct : are_distinct entered ≡ true
  unfolding are_distinct contains
  distinct = refl

  at :
      (name : String) (c : Category)
      → Maps.lookup name entered ≡ some c
      → Maps.lookup name categories ≡ some c
  at name c h = sym (lookup-Reordered entered categories k.listed distinct name) ∙ h

  pub found_filesystem : Maps.lookup "filesystem" categories ≡ some k.filesystem
  unfolding Maps.lookup
  found_filesystem = at "filesystem" k.filesystem refl

  pub found_devices : Maps.lookup "devices" categories ≡ some k.devices
  unfolding Maps.lookup
  found_devices = at "devices" k.devices refl

  pub found_resource_control : Maps.lookup "resource_control" categories ≡ some k.resource_control
  unfolding Maps.lookup
  found_resource_control = at "resource_control" k.resource_control refl

  pub found_access_control : Maps.lookup "access_control" categories ≡ some k.access_control
  unfolding Maps.lookup
  found_access_control = at "access_control" k.access_control refl
