-- ===== src/Collect/Found.antt =====
-- `create_hierarchy` of src/c_config/ns.rs: it holds the namespaces that were found.
use mathlib.Core.Path.{subst}
use checkc.Base.{
  or_intro, or_elim, same_truth, ℕ, zero, suc, ◌≡◌, refl, ◌∙◌, sym, ap, true, false, ◌||◌, List, [],
  ◌∷◌, ◌++◌, Outcome, ok, err, panic, ◌>>=◌, >>=-elim, unwrap, unwrap-eq-ok, ◌⊎◌, inl, inr, ◌==◌,
  nat_eq, nat_beq_iff, pair_eq, length, Bool-cases, if◌then◌else◌, ioctl_failed, io_error,
}
use checkc.Base.Int.{ℤ}
use checkc.Proto.Ns.{NsId, NsType, ns_id_eq, ns_id_beq_iff}
use checkc.Collect.Kernel.{Kernel}
use checkc.Collect.Process.{eperm, get_pid_list, or_error, ns_path}
use checkc.Collect.Namespaces.{
  Forest, branch, populate, lineage, ns_get_parent_ns, id_map_of, find_root, create_hierarchy,
}
use checkc.Collect.Trees.{populate-edges, length-without}
use checkc.Collect.Reached.{holds, populate-holds}
use checkc.Collect.FoundPairs.{
  found, none_found, found-contains, find_root-contains, AreReached, AreReached-append,
  AreReached-cons, found-head, AreReached-self, holds-edges,
}

module _ (kernel : Kernel) (get_parent : NsId → ℕ ⊎ NsId) (root : NsId)
    (only : (id : NsId) → get_parent id ≡ inl eperm → id ≡ root) where
  lineage-AreReached :
      (fuel : ℕ) (id : NsId) (pairs : List (NsId × NsId))
      → lineage kernel get_parent fuel id ≡ ok pairs
      → (found pairs id ≡ true) × AreReached root pairs
  unfolding lineage
  lineage-AreReached zero id pairs h = absurd (cc h)
  lineage-AreReached (suc fuel) id pairs h =
      by_parent (get_parent id) refl (lineage-AreReached fuel) h
    where
      by_parent :
          (o : ℕ ⊎ NsId)
          → get_parent id ≡ o
          → ((above : NsId) (rest : List (NsId × NsId))
              → lineage kernel get_parent fuel above ≡ ok rest
              → (found rest above ≡ true) × AreReached root rest)
          → elim o [
            | inl errno ↦ if errno == eperm then ok ((id, id) ∷ []) else err (ioctl_failed errno)
            | inr parent_id ↦
                lineage kernel get_parent fuel parent_id >>= λ rest. ok ((parent_id, id) ∷ rest)
          ]
            ≡ ok pairs
          → (found pairs id ≡ true) × AreReached root pairs
      by_parent (inl errno) e later k = elim (Bool-cases (errno == eperm)) [
        | inl y ↦
            let same : (id, id) ∷ [] ≡ pairs = cc (k, y) in
            let top = only id (e ∙ ap inl ((nat_beq_iff errno eperm).0 y)) in
            subst (λ ps. (found ps id ≡ true) × AreReached root ps) same
              (
                found-head id id [],
                subst (λ i. AreReached root ((i, i) ∷ [])) (sym top) (AreReached-self root),
              )
        | inr n ↦ absurd (cc (k, n))
      ]
      by_parent (inr parent_id) e later k =
          >>=-elim (lineage kernel get_parent fuel parent_id) _ k λ rest p q.
            let (m, reached) = later parent_id rest p in
            let same : (parent_id, id) ∷ rest ≡ pairs = cc q in
            subst (λ ps. (found ps id ≡ true) × AreReached root ps) same
              (found-head parent_id id rest, AreReached-cons root parent_id id rest m reached)

  id_map-AreReached :
      (fuel : ℕ) (ns_type : NsType) (pids : List ℤ) (id_map : List (NsId × NsId))
      → id_map_of kernel get_parent fuel ns_type pids ≡ ok id_map
      → AreReached root id_map
  unfolding id_map_of ns_get_parent_ns
  id_map-AreReached fuel ns_type [] id_map h =
      let same : [] ≡ id_map = cc h in subst (AreReached root) same (λ x m. absurd (none_found x m))
  id_map-AreReached fuel ns_type (pid ∷ pids) id_map h =
      by_result (ns_get_parent_ns kernel get_parent fuel pid ns_type)
        (λ pairs e.
          >>=-elim (or_error io_error (kernel.ns_file (ns_path pid ns_type))) _ e
            λ id p q. (lineage-AreReached fuel id pairs q).1)
        (id_map-AreReached fuel ns_type pids) h
    where
      by_result :
          (o : Outcome (List (NsId × NsId)))
          → ((pairs : List (NsId × NsId)) → o ≡ ok pairs → AreReached root pairs)
          → ((others : List (NsId × NsId))
              → id_map_of kernel get_parent fuel ns_type pids ≡ ok others
              → AreReached root others)
          → elim o [
            | panic ↦ panic
            | err e ↦ id_map_of kernel get_parent fuel ns_type pids
            | ok pairs ↦
                id_map_of kernel get_parent fuel ns_type pids >>= λ others. ok (pairs ++ others)
          ]
            ≡ ok id_map
          → AreReached root id_map
      by_result panic each later k = absurd (cc k)
      by_result (err e) each later k = later id_map k
      by_result (ok pairs) each later k =
          >>=-elim (id_map_of kernel get_parent fuel ns_type pids) _ k λ others p q.
            let same : pairs ++ others ≡ id_map = cc q in
            subst (AreReached root) same
              (AreReached-append root pairs others (each pairs refl) (later others p))

differs : (x y : NsId) → (x == y) ≡ false → x ≡ y → ⊥
differs x y n e = cc (n, (ns_id_beq_iff x y).1 e)

-- A populated hierarchy of which all namespaces are reached.
populate-found :
    (id_map : List (NsId × NsId)) (root x : NsId)
    → found id_map root ≡ true
    → AreReached root id_map
    → (x == root || holds (populate (length id_map) root id_map) x) ≡ found id_map x
populate-found id_map root x top reached =
    same_truth (x == root || holds (populate (length id_map) root id_map) x) (found id_map x)
      (λ h. elim (or_elim (x == root) (holds (populate (length id_map) root id_map) x) h) [
        | inl y ↦ ap (found id_map) ((ns_id_beq_iff x root).0 y) ∙ top
        | inr n ↦
            let (p, m) = holds-edges root (populate (length id_map) root id_map) x n in
            found-contains id_map p x (populate-edges (length id_map) root id_map p x m).0
      ])
      (λ m. elim (Bool-cases (x == root)) [
        | inl y ↦ or_intro (x == root) (holds (populate (length id_map) root id_map) x) (inl y)
        | inr n ↦ or_intro (x == root) (holds (populate (length id_map) root id_map) x) (
            inr (elim (reached x m) [
              | inl e ↦ absurd (differs x root n e)
              | inr r ↦
                  populate-holds (length id_map) root x id_map (length-without root id_map) r n
            ]))
      ])

module _ (kernel : Kernel) (get_parent : NsId → ℕ ⊎ NsId) where
  -- Where only the namespace at its top has none above it, a created hierarchy holds a namespace
  -- exactly if that is the second one of a pair that was found for a listed process.
  pub create_hierarchy-found :
      (fuel : ℕ) (ns_type : NsType) (root : NsId) (forest : Forest) (pids : List ℤ)
      (id_map : List (NsId × NsId))
      → ((id : NsId) → get_parent id ≡ inl eperm → id ≡ root)
      → get_pid_list kernel ≡ ok pids
      → id_map_of kernel get_parent fuel ns_type pids ≡ ok id_map
      → create_hierarchy kernel get_parent fuel ns_type ≡ ok (branch root forest)
      → (x : NsId) → (x == root || holds forest x) ≡ found id_map x
  unfolding create_hierarchy
  create_hierarchy-found fuel ns_type root forest pids id_map only listed mapped created x =
      >>=-elim (get_pid_list kernel) _ created λ pids' p h1.
        >>=-elim (id_map_of kernel get_parent fuel ns_type pids') _ h1 λ id_map' q h2.
          >>=-elim (unwrap (find_root id_map')) _ h2 λ root' r h3.
            let e : root' ≡ root = cc h3 in
            let f : id_map' ≡ id_map = cc (listed, p, mapped, q) in
            let g : populate (length id_map) root id_map ≡ forest = cc (e, f, h3) in
            let top =
              find_root-contains id_map root (unwrap-eq-ok (find_root id_map) (cc (r, e, f))) in
            ap (λ t. x == root || holds t x) (sym g)
            ∙ populate-found id_map root x top
                (id_map-AreReached kernel get_parent root only fuel ns_type pids id_map mapped)
