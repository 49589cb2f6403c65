-- ===== src/Collect/FoundPairs.antt =====
-- The pairs of src/c_config/ns.rs, of which the hierarchies are made: which namespaces have one.

use checkc.Base.{
  or_intro, or_elim, ◌≡◌, refl, ◌∙◌, sym, ap, Bool, true, false, ◌||◌, some, List, [], ◌∷◌, ◌++◌,
  map, arith, ◌⊎◌, inl, inr, ◌==◌, nat_eq, pair_eq, Bool-cases,
}
use checkc.Base.Sets.{contains, contains-append}
use checkc.Proto.Ns.{NsId, ns_id_eq, ns_id_beq_iff}
use checkc.Collect.Namespaces.{Forest, branch, bare, grow, find_root}
use checkc.Collect.Trees.{edges}
use checkc.Collect.Reached.{holds, Reach, below, further}

-- The namespaces that have a pair: a pair's second one is the child.
unfoldable pub found : List (NsId × NsId) → NsId → Bool
found id_map x = contains (map (λ (p : NsId × NsId). p.1) id_map) x

at_head :
    (p x c : NsId) (xs : List (NsId × NsId))
    → (x == c) ≡ true
    → contains ((p, c) ∷ xs) (p, x) ≡ true
unfolding contains
at_head p x c xs y = ground (arith, y, ns_id_beq_iff p p)

pub none_found : (x : NsId) → found [] x ≡ true → ⊥
unfolding found contains
none_found x m = cc m

pub found-append :
    (xs ys : List (NsId × NsId)) (x : NsId) → found (xs ++ ys) x ≡ (found xs x || found ys x)
unfolding found contains
found-append [] ys x = refl
found-append (p ∷ xs) ys x = ground (arith, found-append xs ys x)

pub found-contains :
    (id_map : List (NsId × NsId)) (p x : NsId)
    → contains id_map (p, x) ≡ true
    → found id_map x ≡ true
unfolding found contains
found-contains [] p x m = cc m
found-contains ((q, c) ∷ id_map) p x m = ground (arith, m, found-contains id_map p x)

Reach-mono :
    (xs ys : List (NsId × NsId)) (top : NsId)
    → ((p c : NsId) → contains xs (p, c) ≡ true → contains ys (p, c) ≡ true)
    → (x : NsId) → Reach xs top x
    → Reach ys top x
Reach-mono xs ys top more x (below c m) = below x (more top x m)
Reach-mono xs ys top more x (further q c r m) =
    further q x (Reach-mono xs ys top more q r) (more q x m)

in_first :
    (e q : NsId × NsId) (xs ys : List (NsId × NsId))
    → contains xs q ≡ true
    → contains (e ∷ xs ++ ys) q ≡ true
unfolding contains
in_first e q xs ys m = or_intro (q == e) _ (inr (contains-append xs ys q ∙ or_intro _ _ (inl m)))

in_last :
    (e q : NsId × NsId) (xs ys : List (NsId × NsId))
    → contains ys q ≡ true
    → contains (e ∷ xs ++ ys) q ≡ true
unfolding contains
in_last e q xs ys m = or_intro (q == e) _ (inr (contains-append xs ys q ∙ or_intro _ _ (inr m)))

pub holds-edges :
    (top : NsId) (forest : Forest) (x : NsId)
    → holds forest x ≡ true
    → (p : NsId) × (contains (edges top forest) (p, x) ≡ true)
unfolding holds edges
holds-edges top bare x h = absurd (cc h)
holds-edges top (grow (branch id children) rest) x h =
    elim (or_elim (x == id || holds children x) (holds rest x) h) [
      | inl y ↦ elim (or_elim (x == id) (holds children x) y) [
        | inl z ↦ (top, at_head top x id _ z)
        | inr z ↦
            let (p, m) = holds-edges id children x z in
            (p, in_first (top, id) (p, x) _ (edges top rest) m)
      ]
      | inr n ↦
          let (p, m) = holds-edges top rest x n in
          (p, in_last (top, id) (p, x) (edges id children) _ m)
    ]

pub find_root-contains :
    (id_map : List (NsId × NsId)) (root : NsId)
    → find_root id_map ≡ some root
    → found id_map root ≡ true
unfolding find_root found contains
find_root-contains [] root h = cc h
find_root-contains ((p, c) ∷ id_map) root h = elim (Bool-cases (p == c)) [
  | inl y ↦
      let e : p ≡ root = cc (h, y) in or_intro (root == c) _ (inl (ap (λ i. i == c) (sym e) ∙ y))
  | inr n ↦ or_intro (root == c) _ (inr (find_root-contains id_map root (cc (h, n))))
]

-- All that are found are the top, or reached from it.
abbrev pub AreReached : NsId → List (NsId × NsId) → Type 0
AreReached root id_map = (x : NsId) → found id_map x ≡ true → (x ≡ root) ⊎ Reach id_map root x

pub AreReached-append :
    (root : NsId) (xs ys : List (NsId × NsId))
    → AreReached root xs
    → AreReached root ys
    → AreReached root (xs ++ ys)
AreReached-append root xs ys h k x m =
    elim (or_elim (found xs x) (found ys x) (sym (found-append xs ys x) ∙ m)) [
      | inl y ↦ elim (h x y) [
        | inl e ↦ inl e
        | inr r ↦ inr (
            Reach-mono xs (xs ++ ys) root
              (λ p c l. contains-append xs ys (p, c) ∙ or_intro _ _ (inl l)) x r)
      ]
      | inr y ↦ elim (k x y) [
        | inl e ↦ inl e
        | inr r ↦ inr (
            Reach-mono ys (xs ++ ys) root
              (λ p c l. contains-append xs ys (p, c) ∙ or_intro _ _ (inr l)) x r)
      ]
    ]

-- One pair more, whose first one was found.
pub AreReached-cons :
    (root p c : NsId) (xs : List (NsId × NsId))
    → found xs p ≡ true
    → AreReached root xs
    → AreReached root ((p, c) ∷ xs)
unfolding found contains
AreReached-cons root p c xs m h x l = elim (or_elim (x == c) (found xs x) l) [
  | inl y ↦ elim (h p m) [
    | inl e ↦ inr (below x (ap (λ i. contains ((p, c) ∷ xs) (i, x)) (sym e) ∙ at_head p x c xs y))
    | inr r ↦ inr (
        further p x (Reach-mono xs ((p, c) ∷ xs) root (λ q d k. or_intro _ _ (inr k)) p r)
          (at_head p x c xs y))
  ]
  | inr y ↦ elim (h x y) [
    | inl e ↦ inl e
    | inr r ↦ inr (Reach-mono xs ((p, c) ∷ xs) root (λ q d k. or_intro _ _ (inr k)) x r)
  ]
]

pub found-head : (p c : NsId) (xs : List (NsId × NsId)) → found ((p, c) ∷ xs) c ≡ true
unfolding found contains
found-head p c xs = or_intro _ _ (inl ((ns_id_beq_iff c c).1 refl))

pub AreReached-self : (root : NsId) → AreReached root ((root, root) ∷ [])
unfolding found contains
AreReached-self root x m = elim (or_elim (x == root) false m) [
  | inl y ↦ inl ((ns_id_beq_iff x root).0 y)
  | inr n ↦ absurd (cc n)
]
