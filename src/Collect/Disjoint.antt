-- ===== src/Collect/Disjoint.antt =====
-- `unique_mapping` (src/c_config/user_ns.rs) over all processes.
use checkc.Base.{
  ℕ, ◌≢◌, ◌↔◌, inl, inr, or_elim, option_eq, option_beq_iff, ◌+◌, ◌≤◌, ◌≡◌, refl, ◌⊎◌, Bool, true,
  false, not, List, [], ◌∷◌, arith, Outcome, ok, err, panic, ◌>>=◌, >>=-elim, All, ◌==◌,
}
use checkc.Base.Int.{ℤ, pos, int_eq}
use checkc.Base.Sets.{filter, any, contains, contains-filter}
use checkc.Proto.Ns.{NsType, NsInfo, ns_id_eq}
use checkc.Proto.Host.{IdMapping}
use checkc.Collect.Kernel.{Kernel}
use checkc.Collect.Process.{get_pid_list, info_by_ns_type}
use checkc.Collect.UserNs.{
  overlaps, has_overlap, is_init_child, from_pid, check_processes, unique_mapping,
}
use checkc.Collect.Unique.{
  IsBounded, IsRange, Covers, overlaps-exact, add_u32-small, check_processes-true,
  check_processes-false,
}

-- Two entries share no user.
abbrev pub AreApart : IdMapping → IdMapping → Type 0
AreApart p m = (p.parent + p.range ≤ m.parent) ⊎ (m.parent + m.range ≤ p.parent)

overlaps-AreApart :
    (p m : IdMapping) → IsBounded p → IsBounded m → overlaps p m ≡ false → AreApart p m
unfolding overlaps
overlaps-AreApart p m bp bm h =
    ground (arith, add_u32-small p.parent p.range bp, add_u32-small m.parent m.range bm)

any-AreApart :
    (p : IdMapping) (ms : List IdMapping)
    → IsBounded p
    → All IsBounded ms
    → any (overlaps p) ms ≡ false
    → All (AreApart p) ms
unfolding any
any-AreApart p [] bp bms h = tt
any-AreApart p (m ∷ ms) bp bms h =
    (overlaps-AreApart p m bp bms.0 (ground arith), any-AreApart p ms bp bms.1 (ground arith))

has_overlap-AreApart :
    (ps ms : List IdMapping)
    → All IsBounded ps
    → All IsBounded ms
    → has_overlap ps ms ≡ false
    → All (λ p. All (AreApart p) ms) ps
unfolding has_overlap any
has_overlap-AreApart [] ms bps bms h = tt
has_overlap-AreApart (p ∷ ps) ms bps bms h = (
  any-AreApart p ms bps.0 bms (ground arith),
  has_overlap-AreApart ps ms bps.1 bms (ground arith),
)

-- A user that one of the entries maps to.
abbrev pub Covered : List IdMapping → ℕ → Type 0
Covered [] x = ⊥
Covered (m ∷ ms) x = Covers m x ⊎ Covered ms x

any-Covered :
    (p : IdMapping) (ms : List IdMapping)
    → IsRange p
    → All IsRange ms
    → any (overlaps p) ms ≡ true
    → (x : ℕ) × Covers p x × Covered ms x
unfolding any
any-Covered p [] bp bms h = absurd (cc h)
any-Covered p (m ∷ ms) bp bms h = elim (or_elim (overlaps p m) (any (overlaps p) ms) h) [
  | inl y ↦ let (x, c, d) = (overlaps-exact p m bp bms.0).0 y in (x, c, inl d)
  | inr k ↦ let (x, c, d) = any-Covered p ms bp bms.1 k in (x, c, inr d)
]

has_overlap-Covered :
    (ps ms : List IdMapping)
    → All IsRange ps
    → All IsRange ms
    → has_overlap ps ms ≡ true
    → (x : ℕ) × Covered ps x × Covered ms x
unfolding has_overlap any
has_overlap-Covered [] ms bps bms h = absurd (cc h)
has_overlap-Covered (p ∷ ps) ms bps bms h =
    elim (or_elim (any (overlaps p) ms) (has_overlap ps ms) h) [
      | inl y ↦ let (x, c, d) = any-Covered p ms bps.0 bms y in (x, inl c, d)
      | inr k ↦ let (x, c, d) = has_overlap-Covered ps ms bps.1 bms k in (x, inr c, d)
    ]

-- A user namespace that the initial one owns, and that is neither that nor the container's.
abbrev pub IsOtherChild : NsInfo → NsInfo → NsInfo → Type 0
IsOtherChild user_ns init_user_ns info =
    (info.owner ≡ init_user_ns.id) × (info.id ≢ user_ns.id) × (info.id ≢ init_user_ns.id)

is_init_child_iff :
    (user_ns init_user_ns info : NsInfo)
    → (is_init_child user_ns init_user_ns info ≡ true) ↔ IsOtherChild user_ns init_user_ns info
unfolding is_init_child
is_init_child_iff user_ns init_user_ns info = ground (
  arith,
  option_beq_iff info.id user_ns.id,
  option_beq_iff info.owner init_user_ns.id,
  option_beq_iff info.id init_user_ns.id,
)

module _ (kernel : Kernel) (pid : ℤ) where
  -- What the answer was computed from.
  record Answered (answer : Bool) : Type 0 where
    pub user_ns : NsInfo
    pub maps : List IdMapping × List IdMapping
    pub init_user_ns : NsInfo
    pub all_pids : List ℤ
    pub own : info_by_ns_type kernel pid NsType.user ≡ ok user_ns
    pub mapped : from_pid kernel pid ≡ ok maps
    pub initial : info_by_ns_type kernel (pos 1) NsType.user ≡ ok init_user_ns
    pub listed : get_pid_list kernel ≡ ok all_pids
    pub checked :
        check_processes kernel user_ns init_user_ns maps.0
          (filter (λ entry. not (entry == pid)) all_pids)
        ≡ ok answer

  unique_mapping-Answered :
      {answer : Bool} → unique_mapping kernel pid ≡ ok answer → Answered answer
  unfolding unique_mapping
  unique_mapping-Answered {answer} h =
      >>=-elim (info_by_ns_type kernel pid NsType.user) _ h λ user_ns i h1.
        >>=-elim (from_pid kernel pid) _ h1 λ maps j h2.
          >>=-elim (info_by_ns_type kernel (pos 1) NsType.user) _ h2 λ init_user_ns k h3.
            by_pids user_ns maps init_user_ns i j k (get_pid_list kernel) refl h3
    where
      by_pids :
          (user_ns : NsInfo) (maps : List IdMapping × List IdMapping) (init_user_ns : NsInfo)
          → info_by_ns_type kernel pid NsType.user ≡ ok user_ns
          → from_pid kernel pid ≡ ok maps
          → info_by_ns_type kernel (pos 1) NsType.user ≡ ok init_user_ns
          → (pids : Outcome (List ℤ)) → get_pid_list kernel ≡ pids
          → (elim pids [ ok all_pids ↦ ok all_pids | err e ↦ panic | panic ↦ panic ] >>= λ all_pids.
              check_processes kernel user_ns init_user_ns maps.0
                (filter (λ entry. not (entry == pid)) all_pids))
            ≡ ok answer
          → Answered answer
      by_pids user_ns maps init_user_ns i j k panic l h = absurd (cc h)
      by_pids user_ns maps init_user_ns i j k (err e) l h = absurd (cc h)
      by_pids user_ns maps init_user_ns i j k (ok all_pids) l h = record {
        user_ns = user_ns;
        maps = maps;
        init_user_ns = init_user_ns;
        all_pids = all_pids;
        own = i;
        mapped = j;
        initial = k;
        listed = l;
        checked = h;
      }

  -- Where the mapping of a container is unique, the user entries of every other process whose user
  -- namespace is owned by the initial one, and is neither that nor the container's, are apart from
  -- the container's user entries, if all of them have an end that is a `u32`.
  pub unique_mapping-AreApart :
      (process : ℤ) {pids : List ℤ} {user_ns init_user_ns info : NsInfo}
      {own theirs : List IdMapping × List IdMapping}
      → unique_mapping kernel pid ≡ ok true
      → get_pid_list kernel ≡ ok pids
      → contains pids process ≡ true
      → (process == pid) ≡ false
      → info_by_ns_type kernel pid NsType.user ≡ ok user_ns
      → info_by_ns_type kernel (pos 1) NsType.user ≡ ok init_user_ns
      → info_by_ns_type kernel process NsType.user ≡ ok info
      → IsOtherChild user_ns init_user_ns info
      → from_pid kernel pid ≡ ok own
      → from_pid kernel process ≡ ok theirs
      → All IsBounded own.0
      → All IsBounded theirs.0
      → All (λ p. All (AreApart p) own.0) theirs.0
  unique_mapping-AreApart process {pids} {user_ns} {init_user_ns} {info} {own} {theirs} h l m n u i
        f s o t bo bt =
      let a = unique_mapping-Answered h in
      let checked : check_processes kernel user_ns init_user_ns own.0
            (filter (λ entry. not (entry == pid)) pids)
          ≡ ok true =
        cc (a.checked, a.own, a.mapped, a.initial, a.listed, u, i, l, o) in
      let (maps, e, none_shared) =
        check_processes-true kernel user_ns init_user_ns own.0 _ checked process
          (ground (arith, contains-filter (λ entry. not (entry == pid)) pids process))
          (record {
            info = info;
            found = f;
            child = (is_init_child_iff user_ns init_user_ns info).1 s;
          }) in
      has_overlap-AreApart theirs.0 own.0 bt bo (cc (none_shared, e, t))

  -- Where the mapping of a container is not unique, and the user entries of the container and of the
  -- listed processes are ones that the kernel accepts, another listed process, whose user namespace is
  -- owned by the initial one, and is neither that nor the container's, shares a user with the container.
  pub unique_mapping-Covered :
      {pids : List ℤ} {user_ns init_user_ns : NsInfo} {own : List IdMapping × List IdMapping}
      → unique_mapping kernel pid ≡ ok false
      → get_pid_list kernel ≡ ok pids
      → info_by_ns_type kernel pid NsType.user ≡ ok user_ns
      → info_by_ns_type kernel (pos 1) NsType.user ≡ ok init_user_ns
      → from_pid kernel pid ≡ ok own
      → All IsRange own.0
      → ((process : ℤ) (maps : List IdMapping × List IdMapping)
          → contains pids process ≡ true
          → from_pid kernel process ≡ ok maps
          → All IsRange maps.0)
      → (process : ℤ) × (info : NsInfo) × (theirs : List IdMapping × List IdMapping) × (x : ℕ)
        × (contains pids process ≡ true)
        × ((process == pid) ≡ false)
        × (info_by_ns_type kernel process NsType.user ≡ ok info)
        × (from_pid kernel process ≡ ok theirs)
        × IsOtherChild user_ns init_user_ns info
        × Covered theirs.0 x
        × Covered own.0 x
  unique_mapping-Covered {pids} {user_ns} {init_user_ns} {own} h l u i o bo accepted =
      let a = unique_mapping-Answered h in
      let checked : check_processes kernel user_ns init_user_ns own.0
            (filter (λ entry. not (entry == pid)) pids)
          ≡ ok false =
        cc (a.checked, a.own, a.mapped, a.initial, a.listed, u, i, l, o) in
      let (process, m, s, (theirs, e, shared)) =
        check_processes-false kernel user_ns init_user_ns own.0 _ checked in
      let kept = contains-filter (λ entry. not (entry == pid)) pids process in
      let listed : contains pids process ≡ true = ground (arith, kept, m) in
      let (x, there, here) =
        has_overlap-Covered theirs.0 own.0 (accepted process theirs listed e) bo shared in
      (
        process,
        s.info,
        theirs,
        x,
        listed,
        ground (arith, kept, m),
        s.found,
        e,
        (is_init_child_iff user_ns init_user_ns s.info).0 s.child,
        there,
        here,
      )
