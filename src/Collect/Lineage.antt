-- ===== src/Collect/Lineage.antt =====
-- `ns_config` and the line of parents of a namespace (src/c_config/ns.rs).
use checkc.Base.{
  ℕ, zero, suc, ◌<◌, ◌≡◌, ◌≢◌, refl, ◌∙◌, sym, ap, not, ◌&&◌, List, [], ◌∷◌, arith, Outcome, ok,
  err, panic, ◌>>=◌, >>=-elim, ◌⊎◌, inl, inr, ◌==◌, nat_eq, pair_eq, Bool-cases,
}
use checkc.Base.Int.{ℤ}
use checkc.Base.Sets.{
  contains, difference, intersection, contains-intersection, contains-difference,
}
use checkc.Proto.Ns.{NsId, NsInfo, NsConfig, NsType, ns_id_eq}
use checkc.Collect.Kernel.{Kernel}
use checkc.Collect.Process.{eperm}
use checkc.Collect.Namespaces.{lineage, ns_config, parse_proc_ns, create_hierarchy, ns_info_eq}

-- The two fields, where there is a result.
abbrev unshared_of : Outcome NsConfig → List NsInfo
unshared_of panic = []
unshared_of (err _) = []
unshared_of (ok config) = config.unshared

abbrev shared_of : Outcome NsConfig → List NsInfo
shared_of panic = []
shared_of (err _) = []
shared_of (ok config) = config.shared_host

module _ (kernel : Kernel) (get_parent : NsId → ℕ ⊎ NsId) where
  -- Of the namespaces of a container, the configuration holds as unshared those that the host's init
  -- process is not in, and as shared those that it is in.
  pub ns_config-exact :
      (fuel : ℕ) (init_pid c_init_pid : ℤ) {config : NsConfig} {host container : List NsInfo}
      → ns_config kernel get_parent fuel init_pid c_init_pid ≡ ok config
      → parse_proc_ns kernel get_parent init_pid ≡ ok host
      → parse_proc_ns kernel get_parent c_init_pid ≡ ok container
      → (ns : NsInfo)
      → (contains config.unshared ns ≡ (contains container ns && not (contains host ns)))
        × (contains config.shared_host ns ≡ (contains container ns && contains host ns))
  unfolding ns_config
  ns_config-exact fuel init_pid c_init_pid {config} {host} {container} h a b ns =
      >>=-elim (parse_proc_ns kernel get_parent init_pid) _ h λ host' i h1.
        >>=-elim (parse_proc_ns kernel get_parent c_init_pid) _ h1 λ container' j h2.
          >>=-elim (create_hierarchy kernel get_parent fuel NsType.user) _ h2 λ user_hierarchy k h3.
            >>=-elim (create_hierarchy kernel get_parent fuel NsType.pid) _ h3 λ pid_hierarchy l h4.
              let same_host : host' ≡ host = cc (i, a) in
              let same_container : container' ≡ container = cc (j, b) in
              let unshared : difference container' host' ≡ config.unshared = ap unshared_of h4 in
              let shared : intersection container' host' ≡ config.shared_host = ap shared_of h4 in
              (
                sym (ap (λ xs. contains xs ns) unshared)
                    ∙ rw (same_host, same_container)
                        (ground (arith, contains-difference container host ns)),
                sym (ap (λ xs. contains xs ns) shared)
                    ∙ rw (same_host, same_container)
                        (ground (arith, contains-intersection container host ns)),
              )

  -- Where a rank falls from every namespace to its parent, the rank is fuel enough for the line of
  -- parents: it does not panic.
  pub lineage_ends :
      (rank : NsId → ℕ)
      → ((id parent_id : NsId) → get_parent id ≡ inr parent_id → rank parent_id < rank id)
      → (fuel : ℕ) (id : NsId) → rank id < fuel
      → lineage kernel get_parent fuel id ≢ panic
  unfolding lineage
  lineage_ends rank falls zero id h = absurd (omega arith)
  lineage_ends rank falls (suc fuel) id h =
      by_parent (get_parent id) refl (λ parent_id e.
        lineage_ends rank falls fuel parent_id (omega (arith, falls id parent_id e)))
    where
      no_panic :
          (parent_id : NsId) (rest : Outcome (List (NsId × NsId)))
          → rest ≢ panic
          → (rest >>= λ pairs. ok ((parent_id, id) ∷ pairs)) ≢ panic
      no_panic parent_id panic n e = n refl
      no_panic parent_id (err x) n e = cc e
      no_panic parent_id (ok x) n e = cc e

      by_parent :
          (o : ℕ ⊎ NsId)
          → get_parent id ≡ o
          → ((parent_id : NsId)
              → get_parent id ≡ inr parent_id
              → lineage kernel get_parent fuel parent_id ≢ panic)
          → lineage kernel get_parent (suc fuel) id ≢ panic
      by_parent (inl errno) e later p = elim (Bool-cases (errno == eperm)) [
        | inl y ↦ cc (p, e, y)
        | inr y ↦ cc (p, e, y)
      ]
      by_parent (inr parent_id) e later p =
          no_panic parent_id (lineage kernel get_parent fuel parent_id) (later parent_id e)
            (cc (p, e))
