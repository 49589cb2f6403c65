-- ===== src/Collect/Trees.antt =====
-- The hierarchies of src/c_config/ns.rs: the edges that `populate` makes, and its fuel.
use checkc.Base.{
  ℕ, zero, suc, ◌≤◌, ◌<◌, ◌≡◌, refl, ◌∙◌, sym, ap, true, false, not, ◌&&◌, List, [], ◌∷◌, ◌++◌, map,
  arith, ◌⊎◌, inl, inr, ◌==◌, nat_eq, pair_eq, is_empty, length, Bool-cases,
}
use checkc.Base.Sets.{contains, extend, filter, contains-append, contains-extend, contains-filter}
use checkc.Proto.Ns.{NsId, ns_id_eq, ns_id_beq_iff}
use checkc.Collect.Namespaces.{
  Forest, branch, bare, grow, without, children_ids, forest_of, populate, ns_info_eq,
}

-- The pairs of a parent and a child in a forest.
unfoldable pub edges : NsId → Forest → List (NsId × NsId)
edges parent_id bare = []
edges parent_id (grow (branch id children) rest) =
    (parent_id, id) ∷ edges id children ++ edges parent_id rest

map-filter-contains :
    (parent_id id : NsId) (id_map : List (NsId × NsId))
    → contains
        (map (λ (p : NsId × NsId). p.1) (filter (λ (p : NsId × NsId). p.0 == parent_id) id_map))
        id
      ≡ contains id_map (parent_id, id)
unfolding filter contains
map-filter-contains parent_id id [] = refl
map-filter-contains parent_id id ((p, c) ∷ id_map) = ground (
  arith,
  map-filter-contains parent_id id id_map,
  ns_id_beq_iff p parent_id,
  ns_id_beq_iff parent_id p,
)

pub children_ids-contains :
    (parent_id id : NsId) (id_map : List (NsId × NsId))
    → contains (children_ids parent_id id_map) id ≡ contains id_map (parent_id, id)
unfolding children_ids contains
children_ids-contains parent_id id id_map =
    contains-extend []
      (map (λ (p : NsId × NsId). p.1) (filter (λ (p : NsId × NsId). p.0 == parent_id) id_map)) id
    ∙ map-filter-contains parent_id id id_map

-- An edge of a forest of such children starts at the parent, or stands in a child's own forest.
forest_of-edges :
    (children : NsId → Forest) (parent_id : NsId) (ids : List NsId) (p c : NsId)
    → contains (edges parent_id (forest_of children ids)) (p, c) ≡ true
    → ((p ≡ parent_id) × (contains ids c ≡ true))
      ⊎ ((id : NsId) × (contains ids id ≡ true) × (contains (edges id (children id)) (p, c) ≡ true))
unfolding edges forest_of contains
forest_of-edges children parent_id [] p c h = absurd (cc h)
forest_of-edges children parent_id (id ∷ ids) p c h =
    elim (Bool-cases (p == parent_id && c == id)) [
      | inl y ↦ inl ((ns_id_beq_iff p parent_id).0 (ground (arith, y)), ground (arith, y))
      | inr n ↦ elim (Bool-cases (contains (edges id (children id)) (p, c))) [
        | inl y ↦ inr (id, ground (arith, ns_id_beq_iff id id), y)
        | inr m ↦
            elim (forest_of-edges children parent_id ids p c (
              ground (
                arith,
                h,
                n,
                m,
                contains-append (edges id (children id)) (edges parent_id (forest_of children ids))
                    (p, c),
              ))) [
                | inl (e, k) ↦ inl (e, ground (arith, k))
                | inr (x, k, l) ↦ inr (x, ground (arith, k), l)
              ]
      ]
    ]

pub without-contains :
    (parent_id p c : NsId) (id_map : List (NsId × NsId))
    → contains (without parent_id id_map) (p, c) ≡ (not (c == parent_id) && contains id_map (p, c))
unfolding without
without-contains parent_id p c id_map = contains-filter (λ q. not (q.1 == parent_id)) id_map (p, c)

bare-no_edges : (parent_id p c : NsId) → contains (edges parent_id bare) (p, c) ≡ true → ⊥
unfolding edges contains
bare-no_edges parent_id p c h = cc h

-- Every edge of a populated hierarchy is one of the pairs it was made from, and none leads back to the
-- namespace at its top.
pub populate-edges :
    (fuel : ℕ) (parent_id : NsId) (id_map : List (NsId × NsId)) (p c : NsId)
    → contains (edges parent_id (populate fuel parent_id id_map)) (p, c) ≡ true
    → (contains id_map (p, c) ≡ true) × ((c == parent_id) ≡ false)
unfolding populate
populate-edges zero parent_id id_map p c h = absurd (bare-no_edges parent_id p c h)
populate-edges (suc fuel) parent_id id_map p c h =
    elim (forest_of-edges (λ child. populate fuel child (without parent_id id_map)) parent_id _ p c
      h) [
        | inl (e, k) ↦
            let m = children_ids-contains parent_id c (without parent_id id_map) in
            let w = without-contains parent_id parent_id c id_map in
            (ap (λ q. contains id_map (q, c)) e ∙ ground (arith, k, m, w), ground (arith, k, m, w))
        | inr (id, k, l) ↦
            let (inside, _) = populate-edges fuel id (without parent_id id_map) p c l in
            (
              ground (arith, inside, without-contains parent_id p c id_map),
              ground (arith, inside, without-contains parent_id p c id_map),
            )
      ]

pub length-without :
    (parent_id : NsId) (id_map : List (NsId × NsId))
    → length (without parent_id id_map) ≤ length id_map
unfolding without filter
length-without parent_id [] = omega arith
length-without parent_id (q ∷ id_map) = ground (arith, length-without parent_id id_map)

-- A child's own pairs are fewer.
pub without-lt :
    (p c : NsId) (id_map : List (NsId × NsId))
    → contains id_map (p, c) ≡ true
    → length (without c id_map) < length id_map
unfolding without filter contains
without-lt p c [] h = absurd (cc h)
without-lt p c ((q, d) ∷ id_map) h =
    ground
      (arith, without-lt p c id_map, length-without c id_map, ns_id_beq_iff c d, ns_id_beq_iff d c)

forest_of-same :
    (f g : NsId → Forest) (ids : List NsId)
    → ((id : NsId) → contains ids id ≡ true → f id ≡ g id)
    → forest_of f ids ≡ forest_of g ids
unfolding forest_of contains
forest_of-same f g [] h = refl
forest_of-same f g (id ∷ ids) h =
    rw
      (
        h id (ground (arith, ns_id_beq_iff id id)),
        forest_of-same f g ids (λ x m. h x (ground (arith, m))),
      )
      refl

forest_of-nil : (f : NsId → Forest) (ids : List NsId) → is_empty ids ≡ true → forest_of f ids ≡ bare
unfolding forest_of
forest_of-nil f [] h = refl
forest_of-nil f (id ∷ ids) h = absurd (cc h)

children_ids-nil :
    (parent_id : NsId) (id_map : List (NsId × NsId))
    → length id_map ≤ 0
    → is_empty (children_ids parent_id id_map) ≡ true
unfolding children_ids filter extend
children_ids-nil parent_id [] h = refl
children_ids-nil parent_id (q ∷ id_map) h = absurd (omega arith)

populate_enough :
    (f g : ℕ) (parent_id : NsId) (id_map : List (NsId × NsId))
    → length (without parent_id id_map) ≤ f
    → length (without parent_id id_map) ≤ g
    → populate f parent_id id_map ≡ populate g parent_id id_map
unfolding populate
populate_enough zero zero parent_id id_map a b = refl
populate_enough zero (suc g) parent_id id_map a b =
    sym (forest_of-nil _ _ (children_ids-nil parent_id (without parent_id id_map) a))
populate_enough (suc f) zero parent_id id_map a b =
    forest_of-nil _ _ (children_ids-nil parent_id (without parent_id id_map) b)
populate_enough (suc f) (suc g) parent_id id_map a b =
    forest_of-same _ _ (children_ids parent_id (without parent_id id_map)) (λ id m.
      let smaller =
        without-lt parent_id id (without parent_id id_map)
          (sym (children_ids-contains parent_id id (without parent_id id_map)) ∙ m) in
      populate_enough f g id (without parent_id id_map) (omega arith) (omega arith))

-- The number of pairs is fuel enough to populate a hierarchy: more changes nothing.
populate_fuel :
    (fuel : ℕ) (parent_id : NsId) (id_map : List (NsId × NsId))
    → length id_map ≤ fuel
    → populate fuel parent_id id_map ≡ populate (length id_map) parent_id id_map
populate_fuel fuel parent_id id_map h =
    populate_enough fuel (length id_map) parent_id id_map
      (omega (arith, length-without parent_id id_map)) (length-without parent_id id_map)
