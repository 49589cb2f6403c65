-- ===== src/Tests/Groups.antt =====
-- Cgroups and namespaces (src/c_config) at a concrete kernel.
use checkc.Collect.Namespaces.{
  hierarchies_from, hierarchy_from, find_root, lineage, ns_get_parent_ns, id_map_of,
  create_hierarchy, ns_config, parse_proc_ns, parse_proc_ns, ns_info_eq, forest_of, children_ids,
  without, populate,
}
use checkc.Proto.Cgroup.{controller_beq, controller_number, controller_to_i32}
use checkc.Collect.Process.{
  ns_get_owner_user_ns, ns_get_owner_user_ns, ns_type_show, ns_path, from_type, info_by_ns_type,
  get_pid_list, get_pid_list,
}
use checkc.Base.Sets.{difference, intersection, extend, extend, contains, insert, filter}
use checkc.Base.Paths.{normal_components, components_of, components, split_on, prepend, prepend}
use checkc.Collect.Numbers.{
  signed_option, signed_option, signed, decimal, parse_i32, has_digit, show_int, is_digit,
  is_ascii_whitespace, pieces, words,
}
use checkc.Base.{
  ℕ, ◌<◌, ◌≡◌, ◌≢◌, refl, String, true, false, not, ◌&&◌, Option, none, some, List, [], ◌∷◌, ◌++◌,
  ◌⊎◌, inl, inr, Outcome, ok, panic, arith, ◌==◌, if◌then◌else◌, string_eq, nat_eq, pair_eq,
  Returns,
}
use checkc.Base.Int.{pos, int_eq}
use checkc.Base.Text.{show_digit, show_digit, show_fuel, show_ℕ}
use checkc.Base.Maps
use checkc.Proto.Ns.{
  ns_type_to_i32, ns_type_to_i32, ns_type_number, ns_type_beq, NsId, NsInfo, NsConfig, ns_id_eq,
}
use checkc.Proto.Caps.{capability_eq}
use checkc.Proto.Host.{CgroupConfig}
use checkc.Collect.Caps.{}
use checkc.Collect.Ancestry.{}
use checkc.Collect.Cgroup.{
  add_limit, is_whitespace, trim_end, trim_start, trim, reverse_onto, cgroup_path, memory_step,
  cpu_step, memory_walk, cpu_walk, get_memory_max, get_cpu_max, controller_try_from,
  known_controllers, flatten_words, get_cgroup_controllers, strip, strip_hierarchy, get_cgroup,
  cgroup_config, cgroup_root,
}
use checkc.Collect.CgroupLimits.{IsLimit, cgroup_config-memory_max, memory_walk-Returns}
use checkc.Collect.Namespaces.{lineage}
use checkc.Collect.Trees.{edges, populate-edges}
use checkc.Collect.Lineage.{ns_config-exact, lineage_ends}
use checkc.Tests.Collection.{kernel_apart, id_of}

abbrev first_line : List String → String → Option (ℕ ⊎ String)
first_line path file = if file == "memory.max" then some (inr "1048576\n") else none

abbrev controllers_file : List String → ℕ ⊎ List String
controllers_file path = inr ("cpu memory" ∷ [])

abbrev limited_config : CgroupConfig
limited_config = record {
  cgroup = "a";
  controllers = pos 6 ∷ pos 1 ∷ [];
  interface_files = ("memory.max", "1048576\n") ∷ [];
}

cgroup_collected :
    cgroup_config kernel_apart first_line controllers_file (pos 7) ≡ ok limited_config
unfolding Maps.insert cgroup_config get_cgroup strip_hierarchy strip get_cgroup_controllers
    flatten_words known_controllers controller_try_from words pieces is_ascii_whitespace prepend
    filter extend insert contains controller_to_i32 controller_number controller_beq get_cpu_max
    get_memory_max cpu_walk memory_walk cpu_step memory_step cgroup_path reverse_onto split_on
    components components_of normal_components trim trim_start trim_end is_whitespace add_limit
    show_int show_ℕ show_fuel show_digit
cgroup_collected = refl

limit_listed : Maps.lookup "memory.max" limited_config.interface_files ≡ some "1048576\n"
unfolding Maps.lookup
limit_listed = refl

cgroup_config-memory_max_example :
    (cgroup : String) × (get_cgroup kernel_apart first_line (pos 7) ≡ ok cgroup)
    × IsLimit kernel_apart first_line (cgroup_path cgroup) "1048576\n"
cgroup_config-memory_max_example =
    cgroup_config-memory_max kernel_apart first_line controllers_file (pos 7) cgroup_collected
      limit_listed

first_line_read : (path : List String) (errno : ℕ) → first_line path "memory.max" ≢ some (inl errno)
first_line_read path errno h = cc h

memory_walk-Returns_example :
    Returns (memory_walk kernel_apart first_line ("b" ∷ "a" ∷ [] ++ cgroup_root))
memory_walk-Returns_example =
    memory_walk-Returns kernel_apart first_line ("b" ∷ "a" ∷ []) first_line_read

-- Namespace 1 is the root, 2 is below it, and 3 below that.
abbrev id_map : List (NsId × NsId)
id_map = (id_of 1, id_of 1) ∷ (id_of 1, id_of 2) ∷ (id_of 2, id_of 3) ∷ []

edge_found : contains (edges (id_of 1) (populate 3 (id_of 1) id_map)) (id_of 2, id_of 3) ≡ true
unfolding edges populate without children_ids forest_of filter extend insert contains
edge_found = refl

populate-edges_example :
    (contains id_map (id_of 2, id_of 3) ≡ true) × ((id_of 3 == id_of 1) ≡ false)
populate-edges_example = populate-edges 3 (id_of 1) id_map (id_of 2) (id_of 3) edge_found

-- The initial namespace has no parent that may be seen.
abbrev get_parent : NsId → ℕ ⊎ NsId
get_parent id = if id.st_ino == 1 then inl 1 else inr (id_of 1)

rank_of : NsId → ℕ
rank_of id = if id.st_ino == 1 then 0 else 1

parent_falls :
    (id parent_id : NsId) → get_parent id ≡ inr parent_id → rank_of parent_id < rank_of id
unfolding rank_of
parent_falls id parent_id h = ground (arith, h)

lineage_ends_example : lineage kernel_apart get_parent 2 (id_of 5) ≢ panic
unfolding rank_of
lineage_ends_example =
    lineage_ends kernel_apart get_parent rank_of parent_falls 2 (id_of 5) (omega arith)

-- A user namespace is below the first one; every other namespace has no parent.
abbrev parent_ns : NsId → ℕ ⊎ NsId
parent_ns id = if id.st_ino == 1 then inl 1 else inr (id_of 1)

abbrev infos_of : Outcome (List NsInfo) → List NsInfo
infos_of (ok infos) = infos
infos_of _ = []

abbrev host_infos : List NsInfo
host_infos = infos_of (parse_proc_ns kernel_apart parent_ns (pos 1))

abbrev container_infos : List NsInfo
container_infos = infos_of (parse_proc_ns kernel_apart parent_ns (pos 7))

host_parsed : parse_proc_ns kernel_apart parent_ns (pos 1) ≡ ok host_infos
unfolding parse_proc_ns info_by_ns_type from_type ns_path ns_type_show ns_get_owner_user_ns
    ns_type_beq ns_type_number ns_type_to_i32 show_int show_ℕ show_fuel show_digit
host_parsed = refl

container_parsed : parse_proc_ns kernel_apart parent_ns (pos 7) ≡ ok container_infos
unfolding parse_proc_ns info_by_ns_type from_type ns_path ns_type_show ns_get_owner_user_ns
    ns_type_beq ns_type_number ns_type_to_i32 show_int show_ℕ show_fuel show_digit
container_parsed = refl

abbrev empty_ns_config : NsConfig
empty_ns_config = record {
  unshared = [];
  shared_host = [];
  user_ns_hierarchy = none;
  pid_ns_hierarchy = none;
}

abbrev ns_config_of : Outcome NsConfig → NsConfig
ns_config_of (ok c) = c
ns_config_of _ = empty_ns_config

abbrev collected_ns : NsConfig
collected_ns = ns_config_of (ns_config kernel_apart parent_ns 5 (pos 1) (pos 7))

ns_collected : ns_config kernel_apart parent_ns 5 (pos 1) (pos 7) ≡ ok collected_ns
unfolding ns_config create_hierarchy id_map_of ns_get_parent_ns lineage find_root populate without
    children_ids forest_of hierarchy_from hierarchies_from intersection difference extend insert
    contains parse_proc_ns info_by_ns_type from_type ns_path ns_type_show ns_get_owner_user_ns
    ns_type_beq ns_type_number ns_type_to_i32 show_int show_ℕ show_fuel show_digit get_pid_list
    has_digit is_digit parse_i32 decimal signed signed_option filter
ns_collected = refl

abbrev user_seven : NsInfo
user_seven = record { type_number = pos 7; id = some (id_of 200); owner = some (id_of 1) }

ns_config-exact_example :
    (contains collected_ns.unshared user_seven
      ≡ (contains container_infos user_seven && not (contains host_infos user_seven)))
    × (contains collected_ns.shared_host user_seven
        ≡ (contains container_infos user_seven && contains host_infos user_seven))
ns_config-exact_example =
    ns_config-exact kernel_apart parent_ns 5 (pos 1) (pos 7) ns_collected host_parsed
      container_parsed user_seven
