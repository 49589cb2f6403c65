-- ===== src/Pipeline/Spaces.antt =====
-- The active namespaces of a container (`EvalResult::from_config`, src/evaluation/mod.rs): those of
-- its own that its user namespace owns.
use checkc.Base.{
  ◌≡◌, refl, Bool, false, ◌&&◌, ◌||◌, Option, none, some, List, [], ◌∷◌, arith, ok, >>=-elim,
  unwrap, unwrap-eq-ok, is_some, ◌==◌, option_eq, Option-cases, inl, inr,
}
use checkc.Base.Sets.{contains, any, contains-insert}
use checkc.Base.Maps
use checkc.Proto.Ns.{
  NsType, NsId, NsInfo, user, ns_type_eq, ns_type_beq_iff, ns_id_eq, ns_id_beq_iff,
}
use checkc.Evaluation.{add_owned, find_type, active_namespaces}

-- A namespace of this type, owned by the given one, is in the map.
unfoldable pub is_owned : Option NsId → List (NsType × NsInfo) → NsType → Bool
is_owned owner unshared_ns t =
    any (λ (p : NsType × NsInfo). p.0 == t && p.1.owner == owner) unshared_ns

-- The identifier of the user namespace that the container is in: its own one, or the host's.
abbrev pub user_ns_id_of : Option NsInfo → Option NsInfo → Option NsId
user_ns_id_of (some user_ns) shared = user_ns.id
user_ns_id_of none (some user_ns) = user_ns.id
user_ns_id_of none none = none

add_owned-contains :
    (owner : Option NsId) (unshared_ns : List (NsType × NsInfo)) (ns_set : List NsType)
    {found : List NsType}
    → add_owned owner unshared_ns ns_set ≡ ok found
    → (t : NsType) → contains found t ≡ (contains ns_set t || is_owned owner unshared_ns t)
unfolding add_owned is_owned any
add_owned-contains owner [] ns_set h t = ground arith
add_owned-contains owner ((k, ns_info) ∷ rest) ns_set h t =
    >>=-elim (unwrap ns_info.owner) _ h λ o i h1. >>=-elim (unwrap owner) _ h1 λ id j h2. ground (
      arith,
      add_owned-contains owner rest _ h2 t,
      contains-insert k ns_set t,
      unwrap-eq-ok ns_info.owner i,
      unwrap-eq-ok owner j,
      ns_id_beq_iff o id,
      ns_type_beq_iff k t,
      ns_type_beq_iff t k,
    )

no_key-is_owned :
    (owner : Option NsId) (m : List (NsType × NsInfo)) (t : NsType)
    → Maps.lookup t m ≡ none
    → is_owned owner m t ≡ false
unfolding is_owned any Maps.lookup
no_key-is_owned owner [] t h = refl
no_key-is_owned owner ((k, ns_info) ∷ m) t h = ground (arith, no_key-is_owned owner m t)

module _ (unshared_ns : List (NsType × NsInfo)) (shared_host : List NsInfo) where
  -- Where the search for the active namespaces returned, a namespace type is active exactly if it is
  -- `User` and the container has a user namespace of its own, or the container has a namespace of
  -- this type that is owned by the user namespace it is in.
  pub active_namespaces-exact :
      {found : List NsType}
      → active_namespaces unshared_ns shared_host ≡ ok found
      → (t : NsType)
      → contains found t ≡ (
          (t == user && is_some (Maps.lookup user unshared_ns))
          || is_owned
              (user_ns_id_of (Maps.lookup user unshared_ns) (find_type user shared_host))
              unshared_ns
              t)
  unfolding active_namespaces contains
  active_namespaces-exact {found} h t = elim (Option-cases (Maps.lookup user unshared_ns)) [
    | inl e ↦
        >>=-elim (unwrap (find_type user shared_host))
          (λ user_ns. add_owned user_ns.id unshared_ns []) {b = found} (cc (h, e))
          λ user_ns i h1.
            rw (e, unwrap-eq-ok (find_type user shared_host) i)
              (ground (arith, add_owned-contains user_ns.id unshared_ns [] h1 t))
    | inr (user_ns, e) ↦ rw e (
        ground (
          arith,
          add_owned-contains user_ns.id unshared_ns (user ∷ []) {found = found} (cc (h, e)) t,
        ))
  ]

  -- So the user namespace is active exactly if the container has one of its own.
  pub active_namespaces-user :
      {found : List NsType}
      → active_namespaces unshared_ns shared_host ≡ ok found
      → contains found user ≡ is_some (Maps.lookup user unshared_ns)
  active_namespaces-user h = elim (Option-cases (Maps.lookup user unshared_ns)) [
    | inl e ↦ ground (
      arith,
      active_namespaces-exact h user,
      no_key-is_owned (user_ns_id_of (Maps.lookup user unshared_ns) (find_type user shared_host))
          unshared_ns user e,
    )
    | inr (user_ns, e) ↦ ground (arith, active_namespaces-exact h user, ns_type_beq_iff user user)
  ]
