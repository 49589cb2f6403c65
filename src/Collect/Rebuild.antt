-- ===== src/Collect/Rebuild.antt =====
-- `TryInto<internal::Hierarchy>` and `Display` of the hierarchies of src/c_config/ns.rs.
use mathlib.Core.Path.{subst}
use checkc.Base.{
  ℕ, zero, suc, ◌+◌, ◌*◌, String, ◌≡◌, refl, ◌∙◌, sym, ap, Bool, true, false, not, ◌&&◌, ◌||◌, List,
  [], ◌∷◌, none, some, Outcome, ok, err, ◌>>=◌, arith, ◌==◌, nat_eq, if◌then◌else◌,
  conversion_failed, Bool-cases, inl, inr, ◌⊎◌, >>=-elim, length, unwrap,
}
use checkc.Base.Sets.{contains, extend, insert}
use checkc.Base.Text.{◌<>◌, show_ℕ}
use checkc.Proto.Ns.{NsId, NsType, ns_id_eq, ns_id_beq_iff, Hierarchy, Hierarchies, node, nil, cons}
use checkc.Collect.Kernel.{Kernel}
use checkc.Collect.Process.{get_pid_list}
use checkc.Collect.Namespaces.{
  Tree, Forest, branch, bare, grow, without, children_ids, forest_of, populate, hierarchies_from,
  hierarchy_from, find_root, id_map_of, create_hierarchy,
}

-- Whether a set of hierarchies has one of the given namespace: `Eq` and `Hash` look at nothing else.
unfoldable pub forest_contains : Forest → NsId → Bool
forest_contains bare x = false
forest_contains (grow (branch id children) rest) x = x == id || forest_contains rest x

unfoldable push_tree : Tree → Forest → Forest
push_tree tree bare = grow tree bare
push_tree tree (grow first rest) = grow first (push_tree tree rest)

-- `HashSet::insert`: a hierarchy that the set has stays. The set keeps the order of insertion.
unfoldable pub forest_insert : NsId → Forest → Forest → Forest
unfolding forest_contains push_tree
forest_insert id children forest =
    if forest_contains forest id then forest else push_tree (branch id children) forest

-- The loop over the children, on the set so far.
unfoldable pub hierarchies_try_into : Forest → Hierarchies → Outcome Forest
unfolding forest_insert
hierarchies_try_into children nil = ok children
hierarchies_try_into children (cons (node none below) rest) =
    err (conversion_failed "c_config::ns::hierarchy: field parent not set")
hierarchies_try_into children (cons (node (some id) below) rest) = do
  child_children ← hierarchies_try_into bare below
  hierarchies_try_into (forest_insert id child_children children) rest

unfoldable pub hierarchy_try_into : Hierarchy → Outcome Tree
unfolding hierarchies_try_into
hierarchy_try_into (node none below) =
    err (conversion_failed "c_config::ns::hierarchy: field parent not set")
hierarchy_try_into (node (some id) below) = do
  children ← hierarchies_try_into bare below
  ok (branch id children)

-- `{:indent$}` of a single space: the width is a lower bound.
unfoldable pub indent : ℕ → String
indent zero = " "
indent (suc zero) = " "
indent (suc (suc width)) = indent (suc width) <> " "

-- `display_helper` of each hierarchy of a set, on the same level.
unfoldable pub display_children : ℕ → Forest → String
unfolding indent
display_children level bare = ""
display_children level (grow (branch id children) rest) =
    let below = display_children (level + 1) children in
    let others = display_children level rest in
    indent (level * 4) <> "[" <> show_ℕ id.st_ino <> "]\n" <> below <> others

-- `Display`.
unfoldable pub display_hierarchy : Tree → String
unfolding display_children
display_hierarchy (branch id children) = display_children 0 (grow (branch id children) bare)

-- No two hierarchies of a set are of one namespace.
unfoldable pub is_set : Forest → Bool
unfolding forest_contains
is_set bare = true
is_set (grow (branch id children) rest) =
    not (forest_contains rest id) && is_set children && is_set rest

unfoldable forest_append : Forest → Forest → Forest
forest_append bare ys = ys
forest_append (grow x xs) ys = grow x (forest_append xs ys)

forest_append-bare : (xs : Forest) → forest_append xs bare ≡ xs
unfolding forest_append
forest_append-bare bare = refl
forest_append-bare (grow x xs) = ap (grow x) (forest_append-bare xs)

forest_append-push :
    (x : Tree) (xs ys : Forest) → forest_append (push_tree x xs) ys ≡ forest_append xs (grow x ys)
unfolding forest_append push_tree
forest_append-push x bare ys = refl
forest_append-push x (grow y xs) ys = ap (grow y) (forest_append-push x xs ys)

forest_contains-push :
    (id : NsId) (below xs : Forest) (x : NsId)
    → forest_contains (push_tree (branch id below) xs) x ≡ (forest_contains xs x || x == id)
unfolding forest_contains push_tree
forest_contains-push id below bare x = ground arith
forest_contains-push id below (grow (branch y ys) xs) x =
    ground (arith, forest_contains-push id below xs x)

push-apart :
    (acc : Forest) (id : NsId) (below rest : Forest) (x : NsId)
    → forest_contains rest id ≡ false
    → forest_contains rest x ≡ true
    → forest_contains acc x ≡ false
    → forest_contains (push_tree (branch id below) acc) x ≡ false
unfolding forest_contains
push-apart acc id below rest x fresh m apart = elim (Bool-cases (x == id)) [
  | inl y ↦ absurd (cc (m, fresh, (ns_id_beq_iff x id).0 y))
  | inr n ↦ ground (arith, n, apart, forest_contains-push id below acc x)
]

is_set-grow :
    (id : NsId) (below rest : Forest)
    → is_set (grow (branch id below) rest) ≡ true
    → (forest_contains rest id ≡ false) × (is_set below ≡ true) × (is_set rest ≡ true)
unfolding is_set
is_set-grow id below rest h = (ground (arith, h), ground (arith, h), ground (arith, h))

contains-first :
    (id : NsId) (below rest : Forest) → forest_contains (grow (branch id below) rest) id ≡ true
unfolding forest_contains
contains-first id below rest = ground (arith, ns_id_beq_iff id id)

contains-rest :
    (id : NsId) (below rest : Forest) (x : NsId)
    → forest_contains rest x ≡ true
    → forest_contains (grow (branch id below) rest) x ≡ true
unfolding forest_contains
contains-rest id below rest x m = ground (arith, m)

-- The conversion of a set that has nothing in common with the one so far.
hierarchies_try_into-from :
    (acc forest : Forest)
    → is_set forest ≡ true
    → ((x : NsId) → forest_contains forest x ≡ true → forest_contains acc x ≡ false)
    → hierarchies_try_into acc (hierarchies_from forest) ≡ ok (forest_append acc forest)
unfolding hierarchies_try_into hierarchies_from is_set forest_contains forest_insert forest_append
hierarchies_try_into-from acc bare h apart = ap ok (sym (forest_append-bare acc))
hierarchies_try_into-from acc (grow (branch id below) rest) h apart =
    let (fresh, below_set, rest_set) = is_set-grow id below rest h in
    let clear = apart id (contains-first id below rest) in
    let inner = hierarchies_try_into-from bare below below_set (λ x m. refl) in
    let outer =
      hierarchies_try_into-from (push_tree (branch id below) acc) rest rest_set (λ x m.
        push-apart acc id below rest x fresh m (apart x (contains-rest id below rest x m))) in
    rw (inner, clear) (outer ∙ ap ok (forest_append-push (branch id below) acc rest))

-- The hierarchy of the `.proto` file that a set of hierarchies is converted to gives it back.
pub hierarchy_try_into-from :
    (id : NsId) (forest : Forest)
    → is_set forest ≡ true
    → hierarchy_try_into (hierarchy_from (branch id forest)) ≡ ok (branch id forest)
unfolding hierarchy_try_into hierarchy_from forest_append
hierarchy_try_into-from id forest h =
    rw (hierarchies_try_into-from bare forest h (λ x m. refl)) refl

-- The namespaces below one are a set.
unfoldable is_distinct : List NsId → Bool
is_distinct [] = true
is_distinct (x ∷ xs) = not (contains xs x) && is_distinct xs

insert-is_distinct :
    (x : NsId) (xs : List NsId) → is_distinct xs ≡ true → is_distinct (insert x xs) ≡ true
unfolding is_distinct insert
insert-is_distinct x xs h = ground (arith, h)

extend-is_distinct : (xs ys : List NsId) → is_distinct xs ≡ true → is_distinct (extend xs ys) ≡ true
unfolding extend
extend-is_distinct xs [] h = h
extend-is_distinct xs (y ∷ ys) h = extend-is_distinct (insert y xs) ys (insert-is_distinct y xs h)

forest_of-contains :
    (children : NsId → Forest) (ids : List NsId) (x : NsId)
    → forest_contains (forest_of children ids) x ≡ contains ids x
unfolding forest_of forest_contains contains
forest_of-contains children [] x = refl
forest_of-contains children (id ∷ ids) x = ground (arith, forest_of-contains children ids x)

forest_of-is_set :
    (children : NsId → Forest) (ids : List NsId)
    → ((x : NsId) → is_set (children x) ≡ true)
    → is_distinct ids ≡ true
    → is_set (forest_of children ids) ≡ true
unfolding forest_of is_set is_distinct
forest_of-is_set children [] each h = refl
forest_of-is_set children (id ∷ ids) each h =
    ground
      (arith, h, each id, forest_of-contains children ids id, forest_of-is_set children ids each)

populate-is_set :
    (fuel : ℕ) (parent_id : NsId) (id_map : List (NsId × NsId))
    → is_set (populate fuel parent_id id_map) ≡ true
unfolding populate children_ids is_distinct is_set
populate-is_set zero parent_id id_map = refl
populate-is_set (suc fuel) parent_id id_map =
    forest_of-is_set _ _ (λ x. populate-is_set fuel x (without parent_id id_map))
      (extend-is_distinct [] _ refl)

module _ (kernel : Kernel) (get_parent : NsId → ℕ ⊎ NsId) where
  -- A created hierarchy, converted to the message of the `.proto` file and back, is the same again, where
  -- a set is in the order of insertion: no two children of a namespace are equal, at any depth, so the
  -- sets lose none.
  pub create_hierarchy-try_into :
      (fuel : ℕ) (ns_type : NsType) (tree : Tree)
      → create_hierarchy kernel get_parent fuel ns_type ≡ ok tree
      → hierarchy_try_into (hierarchy_from tree) ≡ ok tree
  unfolding create_hierarchy
  create_hierarchy-try_into fuel ns_type tree h = >>=-elim (get_pid_list kernel) _ h λ pids p h1.
      >>=-elim (id_map_of kernel get_parent fuel ns_type pids) _ h1 λ id_map q h2.
        >>=-elim (unwrap (find_root id_map)) _ h2 λ root r h3.
          subst (λ t. hierarchy_try_into (hierarchy_from t) ≡ ok t) (cc h3)
            (hierarchy_try_into-from root _ (populate-is_set (length id_map) root id_map))
