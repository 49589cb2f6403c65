-- ===== src/Tests/Goals.antt =====
-- The four goals (src/assessment/mod.rs) at a concrete evaluation result.
use checkc.Base.{
  String, ◌≡◌, refl, Bool, true, false, Option, none, some, List, [], ◌∷◌, map, ok, list_eq,
  string_eq,
}
use checkc.Base.Int.{ℤ, pos, int_eq}
use checkc.Base.Sets.{contains, insert, extend}
use checkc.Base.Maps
use checkc.Proto.Ns.{
  NsType, user, mount, cgroup, ns_type_eq, ns_type_beq, ns_type_to_i32, ns_type_from_i32,
}
use checkc.Proto.Caps.{Capability, capability_from_i32, capability_eq, capability_beq}
use checkc.Proto.Evaluation.{TestResult, Chroot, IsolationMechanisms, Category, EvalResult}
use checkc.Assessment.{collect_namespaces, add_namespaces, collect_capabilities}
use checkc.Assessment.TestGoals.{HasTest}
use checkc.Assessment.Harmless.{AreKnown, AreKnown-dec}

abbrev test : Bool → TestResult
test passed = record { passed = passed; valid = true; info = [] }

abbrev isolation : List ℤ → List ℤ → Option Chroot → IsolationMechanisms
isolation active desired chroot = record {
  namespaces = some (record { active = active; desired = desired });
  chroot = chroot;
  cgroup = none;
}

abbrev category : Option IsolationMechanisms → List ℤ → List (String × TestResult) → Category
category isolation capabilities tests = record {
  isolation = isolation;
  capabilities = capabilities;
  tests = tests;
  description = "";
}

abbrev pivoted : Chroot
pivoted = record { chroot = true; pivot_root = true }

abbrev filesystem : Category
filesystem =
    category (some (isolation (pos 4 ∷ []) (pos 4 ∷ []) (some pivoted))) []
      (("flag_matches_refcontainer", test true) ∷ ("flag_matches_host", test false) ∷ [])

abbrev devices : Category
devices =
    category none []
      (("dev_whitelist_compliance", test true) ∷ ("mknod_whitelist_compliance", test true) ∷ [])

-- The cgroup namespace is wanted and not active.
abbrev resource_control : Category
resource_control =
    category (some (isolation [] (pos 1 ∷ []) none)) []
      (("cpu_max_limited", test true) ∷ ("memory_max_limited", test true) ∷ [])

-- The container has CAP_CHOWN.
abbrev access_control : Category
access_control =
    category (some (isolation (pos 7 ∷ []) (pos 7 ∷ []) none)) (pos 1 ∷ [])
      (("user_ns_maps_to_non_root_user", test true) ∷ ("user_ns_mapping_unique", test true) ∷ [])

abbrev eval_result : EvalResult
eval_result = record {
  unprivileged = true;
  categories =
      ("filesystem", filesystem)
      ∷ ("devices", devices)
      ∷ ("resource_control", resource_control)
      ∷ ("access_control", access_control)
      ∷ [];
  info = none;
}

device_test : HasTest eval_result.categories "devices" "dev_whitelist_compliance" (test true)
unfolding Maps.lookup
device_test = record { entry = devices; found = refl; tested = refl }

mknod_test : HasTest eval_result.categories "devices" "mknod_whitelist_compliance" (test true)
unfolding Maps.lookup
mknod_test = record { entry = devices; found = refl; tested = refl }

unique_test : HasTest eval_result.categories "access_control" "user_ns_mapping_unique" (test true)
unfolding Maps.lookup
unique_test = record { entry = access_control; found = refl; tested = refl }

refs_test : HasTest eval_result.categories "filesystem" "flag_matches_refcontainer" (test true)
unfolding Maps.lookup
refs_test = record { entry = filesystem; found = refl; tested = refl }

host_test : HasTest eval_result.categories "filesystem" "flag_matches_host" (test false)
unfolding Maps.lookup
host_test = record { entry = filesystem; found = refl; tested = refl }

cpu_test : HasTest eval_result.categories "resource_control" "cpu_max_limited" (test true)
unfolding Maps.lookup
cpu_test = record { entry = resource_control; found = refl; tested = refl }

memory_test : HasTest eval_result.categories "resource_control" "memory_max_limited" (test true)
unfolding Maps.lookup
memory_test = record { entry = resource_control; found = refl; tested = refl }

found_resource_control :
    Maps.lookup "resource_control" eval_result.categories ≡ some resource_control
unfolding Maps.lookup
found_resource_control = refl

cgroup_number : pos 1 ∷ [] ≡ map ns_type_to_i32 (cgroup ∷ [])
unfolding ns_type_to_i32
cgroup_number = refl

mapping_test :
    HasTest eval_result.categories "access_control" "user_ns_maps_to_non_root_user" (test true)
unfolding Maps.lookup
mapping_test = record { entry = access_control; found = refl; tested = refl }

abbrev active : List NsType
active = user ∷ mount ∷ []

abbrev desired : List NsType
desired = user ∷ cgroup ∷ mount ∷ []

collected_namespaces : collect_namespaces eval_result.categories ([], []) ≡ ok (active, desired)
unfolding collect_namespaces add_namespaces ns_type_from_i32 extend insert contains ns_type_beq
collected_namespaces = refl

collected_capabilities :
    collect_capabilities eval_result.categories ≡ ok (Capability.cap_chown ∷ [])
unfolding collect_capabilities capability_from_i32
collected_capabilities = refl

found_filesystem : Maps.lookup "filesystem" eval_result.categories ≡ some filesystem
unfolding Maps.lookup
found_filesystem = refl

chown_known : AreKnown (Capability.cap_chown ∷ [])
unfolding contains capability_beq
chown_known = AreKnown-dec (Capability.cap_chown ∷ []) refl
