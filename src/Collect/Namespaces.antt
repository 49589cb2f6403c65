-- ===== src/Collect/Namespaces.antt =====
-- src/c_config/ns.rs: the namespaces of a process, those that a container shares with the host, and
-- the hierarchies of user and PID namespaces.
use checkc.Base.{
  ℕ, zero, suc, Bool, true, not, ◌&&◌, Option, none, some, List, [], ◌∷◌, ◌++◌, map, Outcome, ok,
  err, panic, ◌>>=◌, unwrap, traverse, ◌⊎◌, inl, inr, ◌==◌, nat_eq, option_eq, option_beq_iff,
  pair_eq, if◌then◌else◌, length, Eq, ◌↔◌, ◌≡◌, arith, io_error, ioctl_failed,
}
use checkc.Base.Int.{ℤ, int_eq, int_beq_iff}
use checkc.Base.Sets.{extend, filter, intersection, difference}
use checkc.Proto.Ns.{
  NsType, NsId, NsInfo, NsConfig, Hierarchy, Hierarchies, node, nil, cons, ns_id_eq,
}
use checkc.Collect.Kernel.{Kernel}
use checkc.Collect.Process.{or_error, eperm, get_pid_list, info_by_ns_type, ns_path}

-- `PartialEq` of `Info`, by its three fields.
abbrev pub ns_info_beq : NsInfo → NsInfo → Bool
ns_info_beq a b = a.type_number == b.type_number && a.id == b.id && a.owner == b.owner

pub ns_info_beq_iff : (a b : NsInfo) → (ns_info_beq a b ≡ true) ↔ (a ≡ b)
ns_info_beq_iff a b = ground (
  arith,
  int_beq_iff a.type_number b.type_number,
  option_beq_iff a.id b.id,
  option_beq_iff a.owner b.owner,
)

instance abbrev pub ns_info_eq : Eq NsInfo
ns_info_eq = record { beq = ns_info_beq; beq_iff = ns_info_beq_iff }

-- The flags of `clone`: `TryFrom<c_int>` for a type.
unfoldable pub ns_type_try_from : ℕ → Option NsType
ns_type_try_from value =
    if value == 0x02000000
    then some NsType.cgroup
    else if value == 0x08000000
    then some NsType.ipc
    else if value == 0x40000000
    then some NsType.network
    else if value == 0x00020000
    then some NsType.mount
    else if value == 0x20000000
    then some NsType.pid
    else if value == 0x10000000
    then some NsType.user
    else if value == 0x04000000
    then some NsType.uts
    else if value == 0x00000080
    then some NsType.time
    else none

-- `Type::list`.
abbrev pub ns_type_list : List NsType
ns_type_list =
    NsType.cgroup ∷ NsType.ipc ∷ NsType.network ∷ NsType.mount ∷ NsType.pid ∷ NsType.user
    ∷ NsType.uts ∷ NsType.time ∷ []

-- `internal::Hierarchy`: a namespace and those below it.
mutual
  pub data Tree : Type 0 where
    branch : NsId → Forest → Tree

  pub data Forest : Type 0 where
    bare : Forest
    grow : Tree → Forest → Forest

-- The pairs whose namespace is not the given one.
unfoldable pub without : NsId → List (NsId × NsId) → List (NsId × NsId)
without parent_id id_map = filter (λ p. not (p.1 == parent_id)) id_map

-- The namespaces right below the given one.
unfoldable pub children_ids : NsId → List (NsId × NsId) → List NsId
children_ids parent_id id_map = extend [] (map (λ p. p.1) (filter (λ p. p.0 == parent_id) id_map))

unfoldable pub forest_of : (NsId → Forest) → List NsId → Forest
forest_of children [] = bare
forest_of children (id ∷ ids) = grow (branch id (children id)) (forest_of children ids)

-- `populate`: the children of a namespace. The fuel is for the recursion.
unfoldable pub populate : ℕ → NsId → List (NsId × NsId) → Forest
unfolding without children_ids forest_of
populate zero parent_id id_map = bare
populate (suc fuel) parent_id id_map =
    forest_of (λ child. populate fuel child (without parent_id id_map))
      (children_ids parent_id (without parent_id id_map))

-- `From<internal::Hierarchy>`.
unfoldable pub hierarchies_from : Forest → Hierarchies
hierarchies_from bare = nil
hierarchies_from (grow (branch id children) rest) =
    cons (node (some id) (hierarchies_from children)) (hierarchies_from rest)

unfoldable pub hierarchy_from : Tree → Hierarchy
unfolding hierarchies_from
hierarchy_from (branch id children) = node (some id) (hierarchies_from children)

-- The first pair of a namespace with itself.
unfoldable pub find_root : List (NsId × NsId) → Option NsId
find_root [] = none
find_root ((p_id, id) ∷ id_map) = if p_id == id then some p_id else find_root id_map

module _ (kernel : Kernel) (get_parent : NsId → ℕ ⊎ NsId) where
  -- The loop of `ns_get_parent_ns` from a namespace up: the pairs of a parent and its child. The
  -- error `EPERM` is that of the initial namespace; the fuel is for the loop, and its end is a panic.
  unfoldable pub lineage : ℕ → NsId → Outcome (List (NsId × NsId))
  lineage zero id = panic
  lineage (suc fuel) id = elim (get_parent id) [
    | inl errno ↦ if errno == eperm then ok ((id, id) ∷ []) else err (ioctl_failed errno)
    | inr parent_id ↦ lineage fuel parent_id >>= λ rest. ok ((parent_id, id) ∷ rest)
  ]

  unfoldable pub ns_get_parent_ns : ℕ → ℤ → NsType → Outcome (List (NsId × NsId))
  unfolding lineage
  ns_get_parent_ns fuel pid ns_type = do
    id ← or_error io_error (kernel.ns_file (ns_path pid ns_type))
    lineage fuel id

  -- `filter(Result::is_ok)`, `map(Result::unwrap)` and `flatten()`.
  unfoldable pub id_map_of : ℕ → NsType → List ℤ → Outcome (List (NsId × NsId))
  id_map_of fuel ns_type [] = ok []
  id_map_of fuel ns_type (pid ∷ pids) =
      let rest = id_map_of fuel ns_type pids in
      elim (ns_get_parent_ns fuel pid ns_type) [
        | panic ↦ panic
        | err e ↦ rest
        | ok pairs ↦ rest >>= λ others. ok (pairs ++ others)
      ]

  unfoldable pub create_hierarchy : ℕ → NsType → Outcome Tree
  unfolding id_map_of populate find_root
  create_hierarchy fuel ns_type = do
    pids ← get_pid_list kernel
    id_map ← id_map_of fuel ns_type pids
    root ← unwrap (find_root id_map)
    ok (branch root (populate (length id_map) root id_map))

  -- A namespace for each type, in a set.
  unfoldable pub parse_proc_ns : ℤ → Outcome (List NsInfo)
  parse_proc_ns pid = traverse (info_by_ns_type kernel pid) ns_type_list

  unfoldable pub ns_config : ℕ → ℤ → ℤ → Outcome NsConfig
  unfolding parse_proc_ns create_hierarchy hierarchy_from
  ns_config fuel init_pid c_init_pid = do
    ns_set_init ← parse_proc_ns init_pid
    ns_set_c_init ← parse_proc_ns c_init_pid
    user_hierarchy ← create_hierarchy fuel NsType.user
    pid_hierarchy ← create_hierarchy fuel NsType.pid
    ok (record {
      unshared = difference ns_set_c_init ns_set_init;
      shared_host = intersection ns_set_c_init ns_set_init;
      user_ns_hierarchy = some (hierarchy_from user_hierarchy);
      pid_ns_hierarchy = some (hierarchy_from pid_hierarchy);
    })
