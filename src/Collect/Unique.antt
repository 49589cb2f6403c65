-- ===== src/Collect/Unique.antt =====
-- `unique_mapping` (src/c_config/user_ns.rs) process by process: which ones are looked at, and whether
-- they share a user.
use mathlib.Core.Path.{subst}
use checkc.Base.{
  ℕ, ◌+◌, ◌^◌, ◌≤◌, ◌<◌, ◌≡◌, refl, sym, ap, ◌∙◌, ◌↔◌, ◌⊎◌, inl, inr, max, Bool, true, false, List,
  [], ◌∷◌, arith, Outcome, ok, err, panic, >>=-elim, ◌==◌, option_eq, if◌then◌else◌, Bool-cases,
}
use checkc.Base.Int.{ℤ, int_eq, int_beq_iff}
use checkc.Base.Sets.{contains}
use checkc.Proto.Ns.{NsType, NsInfo, ns_id_eq}
use checkc.Proto.Host.{IdMapping}
use checkc.Collect.Kernel.{Kernel}
use checkc.Collect.Process.{info_by_ns_type}
use checkc.Collect.UserNs.{
  add_u32, overlaps, has_overlap, is_init_child, from_pid, check_info, check_processes,
}

-- The end of an entry is a `u32`.
abbrev pub IsBounded : IdMapping → Type 0
IsBounded m = m.parent + m.range < 2 ^ 32

-- An entry that the kernel accepts: it is not empty, and its end is a `u32`.
abbrev pub IsRange : IdMapping → Type 0
IsRange m = (0 < m.range) × IsBounded m

-- A user of the parent namespace that an entry maps to.
abbrev pub Covers : IdMapping → ℕ → Type 0
Covers m x = (m.parent ≤ x) × (x < m.parent + m.range)

pub add_u32-small : (a b : ℕ) → a + b < 2 ^ 32 → add_u32 a b ≡ a + b
unfolding add_u32
add_u32-small a b h = omega arith

-- Two entries that the kernel accepts overlap exactly if they share a user.
pub overlaps-exact :
    (p m : IdMapping)
    → IsRange p
    → IsRange m
    → (overlaps p m ≡ true) ↔ ((x : ℕ) × Covers p x × Covers m x)
unfolding overlaps
overlaps-exact p m (hp, bp) (hm, bm) = (
  λ h. (
    max p.parent m.parent,
    ground (arith, add_u32-small p.parent p.range bp, add_u32-small m.parent m.range bm),
    ground (arith, add_u32-small p.parent p.range bp, add_u32-small m.parent m.range bm),
  ),
  λ (x, cp, cm).
      ground (arith, add_u32-small p.parent p.range bp, add_u32-small m.parent m.range bm),
)

module _ (kernel : Kernel) (user_ns init_user_ns : NsInfo) (uid_mapping : List IdMapping) where
  -- A process in another child of the initial user namespace.
  pub record InitChild (process : ℤ) : Type 0 where
    pub info : NsInfo
    pub found : info_by_ns_type kernel process NsType.user ≡ ok info
    pub child : is_init_child user_ns init_user_ns info ≡ true

  -- Its mappings are there and overlap with the container's, or not.
  abbrev pub Overlaps : ℤ → Bool → Type 0
  Overlaps process b =
      (maps : List IdMapping × List IdMapping) × (from_pid kernel process ≡ ok maps)
      × (has_overlap maps.0 uid_mapping ≡ b)

  -- What a step that does not answer `false` has seen.
  check_info-true :
      (process : ℤ) (o : Outcome NsInfo) (rest : Outcome Bool)
      → check_info kernel user_ns init_user_ns uid_mapping process o rest ≡ ok true
      → (rest ≡ ok true)
        × ((info : NsInfo)
            → o ≡ ok info
            → is_init_child user_ns init_user_ns info ≡ true
            → Overlaps process false)
  unfolding check_info
  check_info-true process panic rest h = absurd (cc h)
  check_info-true process (err e) rest h = (h, λ info i s. absurd (cc i))
  check_info-true process (ok found) rest h =
      elim (Bool-cases (is_init_child user_ns init_user_ns found)) [
        | inr n ↦ (cc (h, n), λ info i s. absurd (cc (i, s, n)))
        | inl y ↦
            >>=-elim (from_pid kernel process)
              (λ maps. if has_overlap maps.0 uid_mapping then ok false else rest) {b = true}
              (cc (h, y))
              λ maps e k. elim (Bool-cases (has_overlap maps.0 uid_mapping)) [
                | inl o ↦ absurd (cc (k, o))
                | inr o ↦ (cc (k, o), λ info i s. (maps, e, o))
              ]
      ]

  pub check_processes-true :
      (pids : List ℤ)
      → check_processes kernel user_ns init_user_ns uid_mapping pids ≡ ok true
      → (process : ℤ) → contains pids process ≡ true
      → InitChild process
      → Overlaps process false
  unfolding check_processes contains
  check_processes-true [] h process m s = absurd (cc m)
  check_processes-true (p ∷ pids) h process m s =
      let (rest, here) = check_info-true p (info_by_ns_type kernel p NsType.user) _ h in
      elim (Bool-cases (process == p)) [
        | inl e ↦
            let same : p ≡ process = sym ((int_beq_iff process p).0 e) in
            subst (λ q. Overlaps q false) same
              (here s.info (ap (λ q. info_by_ns_type kernel q NsType.user) same ∙ s.found) s.child)
        | inr n ↦ check_processes-true pids rest process (cc (m, n)) s
      ]

  check_info-false :
      (process : ℤ) (o : Outcome NsInfo) (rest : Outcome Bool)
      → check_info kernel user_ns init_user_ns uid_mapping process o rest ≡ ok false
      → (rest ≡ ok false)
        ⊎ ((info : NsInfo) × (o ≡ ok info)
            × (is_init_child user_ns init_user_ns info ≡ true)
            × Overlaps process true)
  unfolding check_info
  check_info-false process panic rest h = absurd (cc h)
  check_info-false process (err e) rest h = inl h
  check_info-false process (ok found) rest h =
      elim (Bool-cases (is_init_child user_ns init_user_ns found)) [
        | inr n ↦ inl (cc (h, n))
        | inl y ↦
            >>=-elim (from_pid kernel process)
              (λ maps. if has_overlap maps.0 uid_mapping then ok false else rest) {b = false}
              (cc (h, y))
              λ maps e k. elim (Bool-cases (has_overlap maps.0 uid_mapping)) [
                | inl o ↦ inr (found, refl, y, (maps, e, o))
                | inr o ↦ inl (cc (k, o))
              ]
      ]

  pub check_processes-false :
      (pids : List ℤ)
      → check_processes kernel user_ns init_user_ns uid_mapping pids ≡ ok false
      → (process : ℤ) × (contains pids process ≡ true) × InitChild process × Overlaps process true
  unfolding check_processes contains
  check_processes-false [] h = absurd (cc h)
  check_processes-false (p ∷ pids) h =
      elim (check_info-false p (info_by_ns_type kernel p NsType.user) _ h) [
        | inl rest ↦
            let (process, m, s, o) = check_processes-false pids rest in
            (process, ground (arith, m), s, o)
        | inr (info, i, s, o) ↦
            (p, ground (arith, int_beq_iff p p), record { info = info; found = i; child = s }, o)
      ]
