-- ===== src/Collect/CgroupLimits.antt =====
-- The memory limit that `cgroup_config` (src/c_config/cgroup.rs) reports is one of an ancestor, and
-- the search for it ends.
use checkc.Base.{
  ℕ, ◌≡◌, ◌≢◌, refl, ◌∙◌, ap, String, Bool, false, Option, none, some, List, [], ◌∷◌, ◌++◌, Outcome,
  ok, err, panic, >>=-elim, Returns, ◌==◌, string_eq, list_eq, ◌⊎◌, inl, inr, Bool-cases,
}
use checkc.Base.Int.{ℤ}
use checkc.Base.Maps
use checkc.Proto.Host.{CgroupConfig}
use checkc.Collect.Kernel.{Kernel}
use checkc.Collect.Cgroup.{
  cgroup_root, cgroup_path, trim, get_cgroup, memory_walk, memory_step, get_cpu_max, get_memory_max,
  get_cgroup_controllers, add_limit, cgroup_config,
}

-- A directory, and those above it.
pub data IsAncestor : List String → List String → Type 0 where
  itself : (path : List String) → IsAncestor path path
  above :
      (level path : List String) (c : String) → IsAncestor level path → IsAncestor level (c ∷ path)

abbrev is_blank : Outcome String → Bool
is_blank panic = false
is_blank (err _) = false
is_blank (ok s) = s == ""

abbrev lookup_in : Outcome CgroupConfig → Option String
lookup_in panic = none
lookup_in (err _) = none
lookup_in (ok config) = Maps.lookup "memory.max" config.interface_files

-- A step that answers passes on what stands above it, or the line of its own file.
memory_step-stated :
    (o : Option (ℕ ⊎ String)) (parents : Outcome String) {limit : String}
    → memory_step o parents ≡ ok limit
    → (parents ≡ ok limit) ⊎ ((o ≡ some (inr limit)) × ((trim limit == "max") ≡ false))
unfolding memory_step
memory_step-stated none parents h = inl h
memory_step-stated (some (inl errno)) parents h = absurd (cc h)
memory_step-stated (some (inr line)) parents {limit} h = elim (Bool-cases (trim line == "max")) [
  | inl y ↦ inl (cc (h, y))
  | inr y ↦ let same : line ≡ limit = cc (h, y) in inr (ap (λ l. some (inr l)) same, cc (y, same))
]

memory_step-Returns :
    (o : Option (ℕ ⊎ String)) (parents : Outcome String)
    → ((errno : ℕ) → o ≢ some (inl errno))
    → Returns parents
    → Returns (memory_step o parents)
unfolding memory_step
memory_step-Returns none parents readable r = r
memory_step-Returns (some (inl errno)) parents readable r = absurd (readable errno refl)
memory_step-Returns (some (inr line)) parents readable (answer, e) =
    elim (Bool-cases (trim line == "max")) [ inl y ↦ (answer, rw y e) | inr y ↦ (line, rw y refl) ]

limit-of_files :
    (cpu_max memory_max : String) {limit : String}
    → Maps.lookup "memory.max" (add_limit "memory.max" memory_max (add_limit "cpu.max" cpu_max []))
      ≡ some limit
    → ((limit == "") ≡ false) × (memory_max ≡ limit)
unfolding add_limit Maps.lookup Maps.insert
limit-of_files cpu_max memory_max h = elim (Bool-cases (memory_max == "")) [
  | inl m ↦ elim (Bool-cases (cpu_max == "")) [
    | inl c ↦ absurd (cc (h, m, c))
    | inr c ↦ absurd (cc (h, m, c))
  ]
  | inr m ↦ elim (Bool-cases (cpu_max == "")) [
    | inl c ↦ (cc (h, m, c), cc (h, m, c))
    | inr c ↦ (cc (h, m, c), cc (h, m, c))
  ]
]

module _ (kernel : Kernel) (first_line : List String → String → Option (ℕ ⊎ String)) where
  -- A limit that an ancestor of a cgroup states.
  pub record IsLimit (path : List String) (limit : String) : Type 0 where
    pub level : List String
    pub ancestor : IsAncestor level path
    pub stated : first_line level "memory.max" ≡ some (inr limit)
    pub limited : (trim limit == "max") ≡ false

  raise :
      (c : String) (path : List String) (limit : String)
      → IsLimit path limit
      → IsLimit (c ∷ path) limit
  raise c path limit h = record {
    level = h.level;
    ancestor = above h.level path c h.ancestor;
    stated = h.stated;
    limited = h.limited;
  }

  memory_walk-IsLimit :
      (path : List String) {limit : String}
      → memory_walk kernel first_line path ≡ ok limit
      → (limit == "") ≡ false
      → IsLimit path limit
  unfolding memory_walk
  memory_walk-IsLimit [] h n = absurd (cc h)
  memory_walk-IsLimit (c ∷ parent) {limit} h n = elim (Bool-cases ((c ∷ parent) == cgroup_root)) [
    | inl y ↦ let e : ok "" ≡ ok limit = cc (h, y) in absurd (cc (ap (λ o. is_blank o) e, n))
    | inr y ↦
        elim (memory_step-stated (first_line (c ∷ parent) "memory.max")
          (memory_walk kernel first_line parent) {limit = limit} (cc (h, y))) [
            | inl k ↦ raise c parent limit (memory_walk-IsLimit parent k n)
            | inr (e, m) ↦ record {
              level = c ∷ parent;
              ancestor = itself (c ∷ parent);
              stated = e;
              limited = m;
            }
          ]
  ]

  -- The memory limit in a collected configuration is one that the cgroup of the process or one above
  -- it states, and does not say `max`.
  pub cgroup_config-memory_max :
      (controllers_file : List String → ℕ ⊎ List String) (pid : ℤ) {config : CgroupConfig}
      {limit : String}
      → cgroup_config kernel first_line controllers_file pid ≡ ok config
      → Maps.lookup "memory.max" config.interface_files ≡ some limit
      → (cgroup : String) × (get_cgroup kernel first_line pid ≡ ok cgroup)
        × IsLimit (cgroup_path cgroup) limit
  unfolding cgroup_config get_memory_max
  cgroup_config-memory_max controllers_file pid {config} {limit} h l =
      >>=-elim (get_cgroup kernel first_line pid) _ h λ cgroup i h1.
        >>=-elim (get_cgroup_controllers kernel first_line controllers_file pid) _ h1
          λ controllers j h2. >>=-elim (get_cpu_max kernel first_line pid) _ h2 λ cpu_max k h3.
            >>=-elim (get_memory_max kernel first_line pid) _ h3 λ memory_max m h4.
              >>=-elim (get_cgroup kernel first_line pid) _ m λ cgroup' i' walked.
                let (filled, same) =
                  limit-of_files cpu_max memory_max (ap (λ o. lookup_in o) h4 ∙ l) in
                (
                  cgroup,
                  i,
                  memory_walk-IsLimit (cgroup_path cgroup) (cc (walked, i, i', same)) filled,
                )

module _ (kernel : Kernel) (first_line : List String → String → Option (ℕ ⊎ String)) where
  -- Below the root of the cgroups the search for the memory limit ends with an answer, if no file that
  -- opens fails to be read.
  pub memory_walk-Returns :
      (below : List String)
      → ((path : List String) (errno : ℕ) → first_line path "memory.max" ≢ some (inl errno))
      → Returns (memory_walk kernel first_line (below ++ cgroup_root))
  unfolding memory_walk
  memory_walk-Returns [] readable = ("", refl)
  memory_walk-Returns (c ∷ below) readable =
      elim (Bool-cases ((c ∷ below ++ cgroup_root) == cgroup_root)) [
        | inl y ↦ ("", rw y refl)
        | inr y ↦
            let (answer, e) =
              memory_step-Returns (first_line (c ∷ below ++ cgroup_root) "memory.max")
                (memory_walk kernel first_line (below ++ cgroup_root))
                (readable (c ∷ below ++ cgroup_root)) (memory_walk-Returns below readable) in
            (answer, rw y e)
      ]
