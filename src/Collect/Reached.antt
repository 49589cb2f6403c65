-- ===== src/Collect/Reached.antt =====
-- The hierarchies of src/c_config/ns.rs: which namespaces `populate` and `create_hierarchy` hold.
use checkc.Base.{
  ℕ, zero, suc, ◌≤◌, ◌≡◌, refl, ◌∙◌, sym, ap, Bool, true, false, ◌||◌, List, [], ◌∷◌, arith, ◌⊎◌,
  inl, inr, ◌==◌, nat_eq, pair_eq, length, Bool-cases,
}
use checkc.Base.Sets.{contains}
use checkc.Proto.Ns.{NsId, ns_id_eq, ns_id_beq_iff}
use checkc.Collect.Namespaces.{
  Forest, branch, bare, grow, without, children_ids, forest_of, populate,
}
use checkc.Collect.Trees.{children_ids-contains, without-contains, without-lt}

-- Whether a namespace is in a forest, at any depth.
unfoldable pub holds : Forest → NsId → Bool
holds bare x = false
holds (grow (branch id children) rest) x = x == id || holds children x || holds rest x

-- A line of pairs from a namespace down to another.
pub data Reach (id_map : List (NsId × NsId)) (top : NsId) : NsId → Type 0 where
  below : (c : NsId) → contains id_map (top, c) ≡ true → Reach id_map top c
  further : (q c : NsId) → Reach id_map top q → contains id_map (q, c) ≡ true → Reach id_map top c

-- A child of a namespace from which another one is reached without that namespace.
abbrev FromChild : List (NsId × NsId) → NsId → NsId → Type 0
FromChild id_map top x =
    (c : NsId) × (contains (without top id_map) (top, c) ≡ true)
    × ((c ≡ x) ⊎ Reach (without top id_map) c x)

without-other :
    (top p x : NsId) (id_map : List (NsId × NsId))
    → (x == top) ≡ false
    → contains id_map (p, x) ≡ true
    → contains (without top id_map) (p, x) ≡ true
without-other top p x id_map n m = ground (arith, n, m, without-contains top p x id_map)

-- A line to another namespace can leave the top once and for all.
Reach-FromChild :
    (id_map : List (NsId × NsId)) (top x : NsId)
    → Reach id_map top x
    → (x == top) ≡ false
    → FromChild id_map top x
Reach-FromChild id_map top x (below c m) n = (x, without-other top top x id_map n m, inl refl)
Reach-FromChild id_map top x (further q c r m) n = elim (Bool-cases (q == top)) [
  | inl y ↦ (
    x,
    without-other top top x id_map n
        (ap (λ p. contains id_map (p, x)) (sym ((ns_id_beq_iff q top).0 y)) ∙ m),
    inl refl,
  )
  | inr k ↦
      let inside = without-other top q x id_map n m in
      let (d, l, s) = Reach-FromChild id_map top q r k in
      (
        d,
        l,
        inr (elim s [
          | inl e ↦ below x (ap (λ p. contains (without top id_map) (p, x)) e ∙ inside)
          | inr t ↦ further q x t inside
        ]),
      )
]

first_holds : (a b c : Bool) → (a ≡ true) ⊎ (b ≡ true) → (a || b || c) ≡ true
first_holds a b c h = ground (arith, h)

last_holds : (a b c : Bool) → c ≡ true → (a || b || c) ≡ true
last_holds a b c h = ground (arith, h)

or_right : (a b : Bool) → (a || b) ≡ true → a ≡ false → b ≡ true
or_right a b h k = ground (arith, h, k)

-- A child of a forest holds what its own forest holds.
forest_of-holds :
    (children : NsId → Forest) (ids : List NsId) (c x : NsId)
    → contains ids c ≡ true
    → ((x == c) ≡ true) ⊎ (holds (children c) x ≡ true)
    → holds (forest_of children ids) x ≡ true
unfolding forest_of holds contains
forest_of-holds children [] c x m h = absurd (cc m)
forest_of-holds children (id ∷ ids) c x m h = elim (Bool-cases (c == id)) [
  | inl y ↦
      let e = (ns_id_beq_iff c id).0 y in
      elim h [
        | inl k ↦ first_holds (x == id) _ _ (inl (ap (λ i. x == i) (sym e) ∙ k))
        | inr k ↦
            first_holds _ (holds (children id) x) _
              (inr (ap (λ i. holds (children i) x) (sym e) ∙ k))
      ]
  | inr n ↦
      last_holds (x == id) (holds (children id) x) _
        (forest_of-holds children ids c x (or_right (c == id) (contains ids c) m n) h)
]

empty-contains :
    (id_map : List (NsId × NsId)) (p c : NsId)
    → length id_map ≤ 0
    → contains id_map (p, c) ≡ true
    → ⊥
unfolding contains
empty-contains [] p c h m = cc m
empty-contains (q ∷ id_map) p c h m = omega arith

-- What is reached from a namespace is in its populated forest, if the fuel is at least the number of
-- pairs that do not lead back to it.
pub populate-holds :
    (fuel : ℕ) (top x : NsId) (id_map : List (NsId × NsId))
    → length (without top id_map) ≤ fuel
    → Reach id_map top x
    → (x == top) ≡ false
    → holds (populate fuel top id_map) x ≡ true
unfolding populate
populate-holds zero top x id_map h r n =
    let (c, m, _) = Reach-FromChild id_map top x r n in
    absurd (empty-contains (without top id_map) top c h m)
populate-holds (suc fuel) top x id_map h r n =
    let (c, m, s) = Reach-FromChild id_map top x r n in
    forest_of-holds _ (children_ids top (without top id_map)) c x
      (children_ids-contains top c (without top id_map) ∙ m)
      (elim (Bool-cases (x == c)) [
        | inl y ↦ inl y
        | inr k ↦ inr (elim s [
          | inl e ↦ absurd (ground (arith, k, e, ns_id_beq_iff x c))
          | inr t ↦
              populate-holds fuel c x (without top id_map)
                (omega (arith, without-lt top c (without top id_map) m)) t k
        ])
      ])
