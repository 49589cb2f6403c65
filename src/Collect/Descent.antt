-- ===== src/Collect/Descent.antt =====
-- `get_container_pids` (src/lib.rs) as a relation: a process belongs to the container if its line of
-- parents reaches the container's init process.
use mathlib.Core.Path.{subst}
use checkc.Base.{
  ℕ, zero, suc, ◌<◌, ◌≡◌, refl, ◌∙◌, sym, ap, ◌↔◌, ◌⊎◌, inl, inr, String, Bool, true, false, ◌&&◌,
  ◌||◌, Option, none, some, List, [], ◌∷◌, arith, Outcome, ok, err, panic, >>=-elim, Returns,
  Bool-cases, ◌==◌,
}
use checkc.Base.Int.{ℤ, pos, int_eq, int_ltb, int_beq_iff}
use checkc.Base.Sets.{contains}
use checkc.Collect.Kernel.{Kernel}
use checkc.Collect.Process.{get_pid_list}
use checkc.Collect.Ancestry.{
  Step, vanished, found, at, walk_step, walk, on_step, add_reached, descendants, get_container_pids,
}

-- Membership in a list that may be missing.
abbrev contains_some : Option (List ℤ) → ℤ → Bool
contains_some none q = false
contains_some (some pids) q = contains pids q

abbrev contains_of : Outcome (Option (List ℤ)) → ℤ → Bool
contains_of panic q = false
contains_of (err _) q = false
contains_of (ok o) q = contains_some o q

module _ (kernel : Kernel) (stat : String → ℕ ⊎ (ℕ ⊎ String)) (parent_of : String → Option String)
    (cinit_pid : ℤ) where
  abbrev pub step : ℤ → Outcome Step
  step current = walk_step kernel stat parent_of cinit_pid current

  -- The line of parents of a process reaches the container's init process.
  pub data Descends : ℤ → Type 0 where
    child : (p : ℤ) → int_ltb (pos 1) p ≡ true → step p ≡ ok found → Descends p
    below :
        (p parent : ℤ)
        → int_ltb (pos 1) p ≡ true
        → step p ≡ ok (at parent)
        → Descends parent
        → Descends p

  on_step-Descends :
      (next : ℤ → Outcome (Option Bool)) (p : ℤ) (s : Step)
      → int_ltb (pos 1) p ≡ true
      → step p ≡ ok s
      → on_step next s ≡ ok (some true)
      → ((parent : ℤ) → next parent ≡ ok (some true) → Descends parent)
      → Descends p
  unfolding on_step
  on_step-Descends next p vanished y e k above = absurd (cc k)
  on_step-Descends next p found y e k above = child p y e
  on_step-Descends next p (at parent) y e k above = below p parent y e (above parent k)

  walk-Descends :
      (fuel : ℕ) (p : ℤ) → walk kernel stat parent_of fuel cinit_pid p ≡ ok (some true) → Descends p
  unfolding walk
  walk-Descends zero p h = absurd (cc h)
  walk-Descends (suc fuel) p h = elim (Bool-cases (int_ltb (pos 1) p)) [
    | inr n ↦ absurd (cc (h, n))
    | inl y ↦
        >>=-elim (step p) (on_step (walk kernel stat parent_of fuel cinit_pid)) {b = some true}
          (cc (h, y)) λ s e k. on_step-Descends _ p s y e k (λ parent. walk-Descends fuel parent)
  ]

  Descends-walk :
      (p : ℤ)
      → Descends p
      → (fuel : ℕ) (b : Bool) → walk kernel stat parent_of fuel cinit_pid p ≡ ok (some b)
      → b ≡ true
  unfolding walk on_step
  Descends-walk p d zero b h = absurd (cc h)
  Descends-walk p (child _ y e) (suc fuel) b h = cc (h, y, e)
  Descends-walk p (below _ parent y e d) (suc fuel) b h =
      Descends-walk parent d fuel b (cc (h, y, e))

  -- Where, from every process but the first, a step returns and a rank falls to the parent it finds, the
  -- rank is fuel enough: the walk answers.
  pub walk-Returns :
      (rank : ℤ → ℕ)
      → ((q parent : ℤ) → int_ltb (pos 1) q ≡ true → step q ≡ ok (at parent) → rank parent < rank q)
      → ((q : ℤ) → int_ltb (pos 1) q ≡ true → Returns (step q))
      → (fuel : ℕ) (p : ℤ) → rank p < fuel
      → (b : Bool) × (walk kernel stat parent_of fuel cinit_pid p ≡ ok (some b))
  unfolding walk on_step
  walk-Returns rank falls returns zero p h = absurd (omega arith)
  walk-Returns rank falls returns (suc fuel) p h = elim (Bool-cases (int_ltb (pos 1) p)) [
    | inr n ↦ (false, rw n refl)
    | inl y ↦ by_step (returns p y).0 (returns p y).1 y (λ parent e.
        walk-Returns rank falls returns fuel parent (omega (arith, falls p parent y e)))
  ]
    where
      by_step :
          (s : Step)
          → step p ≡ ok s
          → int_ltb (pos 1) p ≡ true
          → ((parent : ℤ)
              → step p ≡ ok (at parent)
              → (b : Bool) × (walk kernel stat parent_of fuel cinit_pid parent ≡ ok (some b)))
          → (b : Bool) × (walk kernel stat parent_of (suc fuel) cinit_pid p ≡ ok (some b))
      by_step vanished e y above = (false, rw (y, e) refl)
      by_step found e y above = (true, rw (y, e) refl)
      by_step (at parent) e y above = let (b, k) = above parent e in (b, rw (y, e) k)

  add_reached-some :
      (p : ℤ) (reached : Option Bool) (others : Option (List ℤ)) {pids : List ℤ}
      → add_reached p reached others ≡ some pids
      → (b : Bool) × (rest : List ℤ) × (reached ≡ some b)
        × (others ≡ some rest)
        × ((q : ℤ) → contains pids q ≡ ((b && q == p) || contains rest q))
  unfolding add_reached contains
  add_reached-some p none others h = absurd (cc h)
  add_reached-some p (some b) none h = absurd (cc h)
  add_reached-some p (some true) (some rest) h =
      (true, rest, refl, refl, λ q. ap (λ o. contains_some o q) (sym h))
  add_reached-some p (some false) (some rest) h =
      (false, rest, refl, refl, λ q. ap (λ o. contains_some o q) (sym h))

  cons_exact :
      (fuel : ℕ) (q p : ℤ) (all_pids : List ℤ) (b : Bool) (pids rest : List ℤ)
      → walk kernel stat parent_of fuel cinit_pid q ≡ ok (some b)
      → contains pids p ≡ ((b && p == q) || contains rest p)
      → ((contains rest p ≡ true) ↔ ((contains all_pids p ≡ true) × Descends p))
      → (contains pids p ≡ true) ↔ (((p == q || contains all_pids p) ≡ true) × Descends p)
  cons_exact fuel q p all_pids b pids rest w has (ih, hi) = (
    λ m. elim (Bool-cases (b && p == q)) [
      | inl y ↦
          let same : q ≡ p = sym ((int_beq_iff p q).0 (ground (arith, y))) in
          let reached : walk kernel stat parent_of fuel cinit_pid q ≡ ok (some true) =
            w ∙ ap (λ b. ok (some b)) (ground (arith, y)) in
          (ground (arith, y), subst Descends same (walk-Descends fuel q reached))
      | inr n ↦ let (a, d) = ih (ground (arith, m, n, has)) in (ground (arith, a), d)
    ],
    λ (a, d). elim (Bool-cases (p == q)) [
      | inl y ↦
          let same : p ≡ q = (int_beq_iff p q).0 y in
          let yes = Descends-walk q (subst Descends same d) fuel b w in ground (arith, has, yes, y)
      | inr n ↦ let m = hi (ground (arith, a, n), d) in ground (arith, has, m)
    ],
  )

  descendants-exact :
      (fuel : ℕ) (all_pids : List ℤ) {pids : List ℤ}
      → descendants kernel stat parent_of fuel cinit_pid all_pids ≡ ok (some pids)
      → (p : ℤ) → (contains pids p ≡ true) ↔ ((contains all_pids p ≡ true) × Descends p)
  unfolding descendants contains
  descendants-exact fuel [] {pids} h p =
      let none_found : contains pids p ≡ false = ap (λ o. contains_of o p) (sym h) in
      (λ m. absurd (cc (m, none_found)), λ x. absurd (cc x.0))
  descendants-exact fuel (q ∷ all_pids) {pids} h p =
      >>=-elim (walk kernel stat parent_of fuel cinit_pid q) _ h λ reached e h1.
        >>=-elim (descendants kernel stat parent_of fuel cinit_pid all_pids) _ h1 λ others k h2.
          let (b, rest, r, o, has) = add_reached-some q reached others (cc h2) in
          cons_exact fuel q p all_pids b pids rest (cc (e, r)) (has p)
            (descendants-exact fuel all_pids {pids = rest} (cc (k, o)) p)

  -- Where the collection of a container's processes answers, a process is among them exactly if it is
  -- the init process, or listed with a line of parents that reaches the init process.
  pub get_container_pids-exact :
      (fuel : ℕ) {all_pids pids : List ℤ}
      → get_pid_list kernel ≡ ok all_pids
      → get_container_pids kernel stat parent_of fuel cinit_pid ≡ ok (some pids)
      → (p : ℤ)
      → (contains pids p ≡ true)
        ↔ (((p == cinit_pid) ≡ true) ⊎ ((contains all_pids p ≡ true) × Descends p))
  unfolding get_container_pids
  get_container_pids-exact fuel {all_pids} {pids} l h p =
      >>=-elim (get_pid_list kernel) _ h λ all_pids' e h1.
        >>=-elim (descendants kernel stat parent_of fuel cinit_pid all_pids') _ h1 λ others k h2.
          let (b, rest, r, o, has) =
            add_reached-some cinit_pid (some true) others {pids = pids} (cc h2) in
          let same : all_pids' ≡ all_pids = cc (l, e) in
          let ih = descendants-exact fuel all_pids {pids = rest} (cc (k, o, same)) p in
          let here : contains pids p ≡ (p == cinit_pid || contains rest p) =
            ground (arith, has p, r) in
          (
            λ m. elim (Bool-cases (p == cinit_pid)) [
              | inl y ↦ inl y
              | inr n ↦ inr (ih.0 (ground (arith, here, m, n)))
            ],
            λ x. elim x [
              | inl y ↦ ground (arith, here, y)
              | inr d ↦ let m = ih.1 d in ground (arith, here, m)
            ],
          )
