-- ===== src/Collect/FlagRecord.antt =====
-- What the flag files of src/c_config/fs.rs are in the configuration: those that the container wrote, each
-- once; and mount namespaces that the evaluation of the flag files returns on.

use mathlib.Core.List.{append_assoc, append-nil}
use checkc.Base.{
  ℕ, ◌≡◌, refl, ◌∙◌, ap, sym, String, Bool, true, false, Option, none, some, List, [], ◌∷◌, ◌++◌,
  map, Outcome, ok, err, panic, inl, inr, nat_eq, string_eq, if◌then◌else◌, All, Bool-cases, arith,
  option_eq,
}
use checkc.Base.Effects.{
  Effect, pure, >>=-eq-ok, traverse_effect, Keeps, >>=-Keeps, traverse_effect-Keeps,
}
use checkc.Base.Sets.{contains, contains-append}
use checkc.Base.Text.{◌<>◌}
use checkc.Proto.Host.{MountNamespace}
use checkc.Collect.Kernel.{Kernel}
use checkc.Collect.Context.{Context}
use checkc.Collect.MountIds.{HasNoFlags}
use checkc.Collect.FlagFiles.{
  DiskCalls, concat, created_flag, write_flag, mark_found, mark_mount, mark_namespace, flag_skip_fs,
}

-- The flag files of all namespaces.
abbrev pub all_flags : List MountNamespace → List String
all_flags [] = []
all_flags (mountns ∷ namespaces) = mountns.flag_files ++ all_flags namespaces

abbrev pub in_ok : {A : Type 0} → A → Outcome A → A
in_ok default panic = default
in_ok default (err e) = default
in_ok default (ok a) = a

-- No member occurs twice.
abbrev pub Distinct : List String → Type 0
Distinct [] = Unit {0}
Distinct (x ∷ xs) = (contains xs x ≡ false) × Distinct xs

-- A file that the process has created is a file.
abbrev pub KeepsFiles : DiskCalls → Type 0
KeepsFiles disk =
    (path : String) (context : Context)
    → contains context.created path ≡ true
    → disk.is_file path context ≡ true

Distinct-snoc :
    (xs : List String) (x : String) → contains xs x ≡ false → Distinct xs → Distinct (xs ++ x ∷ [])
unfolding contains
Distinct-snoc [] x h k = (refl, tt)
Distinct-snoc (y ∷ xs) x h k = (
  ground
      (arith, h, k.0, contains-append xs (x ∷ []) y, string_eq.beq_iff x y, string_eq.beq_iff y x),
  Distinct-snoc xs x (ground (arith, h)) k.1,
)

-- A call that lists what it has created.
abbrev pub Lists : {A : Type 0} → (A → List String) → Effect Context A → Type 0
Lists {A} written call =
    (context after : Context) (a : A)
    → call context ≡ (ok a, after)
    → after.created ≡ context.created ++ written a

-- A call that returned at once, and lists nothing.
nothing-Lists :
    {A : Type 0} (out : A → List String) (a b : A) (context after : Context)
    → ◌≡◌ {A = Outcome A × Context} (ok a, context) (ok b, after)
    → out a ≡ []
    → after.created ≡ context.created ++ out b
nothing-Lists {A} out a b context after h e =
    sym (ap (λ (r : Outcome A × Context). r.1.created) h)
    ∙ sym (append-nil context.created)
    ∙ ap (λ l. context.created ++ l) (sym e)
    ∙ ap (λ (r : Outcome A × Context). context.created ++ out (in_ok a r.0)) h

module _ {A B : Type 0} (P : A → Type 0) (f : A → Effect Context B)
    (written : B → List String) where
  pub traverse_effect-Lists :
      ((a : A) → P a → Lists written (f a))
      → (xs : List A) → All P xs
      → Lists (λ ys. concat (map written ys)) (traverse_effect f xs)
  unfolding traverse_effect
  traverse_effect-Lists each [] p context after ys h =
      nothing-Lists (λ l. concat (map written l)) [] ys context after h refl
  traverse_effect-Lists each (x ∷ xs) p context after ys h =
      let (y, c, e, h1) = >>=-eq-ok (f x) _ context after h in
      let (zs, d, k, h2) = >>=-eq-ok (traverse_effect f xs) _ c after h1 in
      sym (ap (λ (r : Outcome (List B) × Context). r.1.created) h2)
      ∙ traverse_effect-Lists each xs p.1 c d zs k
      ∙ ap (λ l. l ++ concat (map written zs)) (each x p.0 context c y e)
      ∙ append_assoc context.created (written y) (concat (map written zs))
      ∙ ap
          (λ (r : Outcome (List B) × Context).
            context.created ++ concat (map written (in_ok [] r.0)))
          h2

All-trivial : (xs : List String) → All (λ _. Unit {0}) xs
All-trivial [] = tt
All-trivial (x ∷ xs) = (tt, All-trivial xs)

concat-map_id : (xss : List (List String)) → concat (map (λ ws. ws) xss) ≡ concat xss
concat-map_id [] = refl
concat-map_id (xs ∷ xss) = rw (concat-map_id xss)

pub concat-all_flags :
    (namespaces : List MountNamespace)
    → concat (map (λ (m : MountNamespace). m.flag_files) namespaces) ≡ all_flags namespaces
concat-all_flags [] = refl
concat-all_flags (m ∷ namespaces) = rw (concat-all_flags namespaces)

module _ (kernel : Kernel) (mounts_match mountinfo_match : String → Option (String × String))
    (disk : DiskCalls) where
  created_flag-Lists :
      (o : Option ℕ) (path : String)
      → Lists (λ ws. ws) (created_flag kernel mounts_match mountinfo_match disk o path)
  unfolding created_flag
  created_flag-Lists (some errno) path context after ws h =
      nothing-Lists (λ l. l) [] ws context after h refl
  created_flag-Lists none path context after ws h = cc h

  write_flag-Lists :
      (path : String) → Lists (λ ws. ws) (write_flag kernel mounts_match mountinfo_match disk path)
  unfolding write_flag
  write_flag-Lists path context after ws h = by_test (disk.is_file path context) h
    where
      by_test :
          (b : Bool)
          → (if b
              then (ok [], context)
              else created_flag kernel mounts_match mountinfo_match disk
                  (disk.create path context)
                  path
                  context)
            ≡ (ok ws, after)
          → after.created ≡ context.created ++ ws
      by_test true k = nothing-Lists (λ l. l) [] ws context after k refl
      by_test false k = created_flag-Lists (disk.create path context) path context after ws k

  mark_found-Lists :
      (flag_file mp : String) (o : Option (String × String))
      → Lists (λ ws. ws) (mark_found kernel mounts_match mountinfo_match disk flag_file mp o)
  unfolding mark_found
  mark_found-Lists flag_file mp none context after ws h = cc h
  mark_found-Lists flag_file mp (some (fs_type, mountpoint)) context after ws h =
      by_test (contains flag_skip_fs fs_type) h
    where
      by_test :
          (b : Bool)
          → (if b
                then pure []
                else write_flag kernel mounts_match mountinfo_match disk
                    (mountpoint <> "/" <> flag_file))
              context
            ≡ (ok ws, after)
          → after.created ≡ context.created ++ ws
      by_test true k = nothing-Lists (λ l. l) [] ws context after k refl
      by_test false k = write_flag-Lists (mountpoint <> "/" <> flag_file) context after ws k

  pub mark_namespace-Lists :
      (flag_file : String) (mountns : MountNamespace)
      → HasNoFlags mountns
      → Lists
          (λ m. m.flag_files)
          (mark_namespace kernel mounts_match mountinfo_match disk flag_file mountns)
  unfolding mark_namespace mark_mount
  mark_namespace-Lists flag_file mountns none_yet context after m h =
      let mark = mark_mount kernel mounts_match mountinfo_match disk flag_file in
      let (ws, c, e, h1) = >>=-eq-ok (traverse_effect mark mountns.mountinfo) _ context after h in
      sym (ap (λ (r : Outcome MountNamespace × Context). r.1.created) h1)
      ∙ traverse_effect-Lists (λ _. Unit {0}) mark (λ l. l)
          (λ mp _. mark_found-Lists flag_file mp (mountinfo_match mp)) mountns.mountinfo
          (All-trivial mountns.mountinfo) context c ws e
      ∙ ap (λ l. context.created ++ l) (concat-map_id ws ∙ ap (λ l. l ++ concat ws) (sym none_yet))
      ∙ ap
          (λ (r : Outcome MountNamespace × Context).
            context.created ++ (in_ok mountns r.0).flag_files)
          h1

  -- Each file is created once.
  created_flag-Distinct :
      (o : Option ℕ) (path : String) (context : Context)
      → contains context.created path ≡ false
      → Distinct context.created
      → Distinct (created_flag kernel mounts_match mountinfo_match disk o path context).1.created
  unfolding created_flag
  created_flag-Distinct (some errno) path context fresh h = h
  created_flag-Distinct none path context fresh h = Distinct-snoc context.created path fresh h

  module _ (keeps : KeepsFiles disk) where
    abbrev pub Once : {A : Type 0} → Effect Context A → Type 0
    Once call = Keeps (λ (context : Context). Distinct context.created) call

    write_flag-Once :
        (path : String) → Once (write_flag kernel mounts_match mountinfo_match disk path)
    unfolding write_flag
    write_flag-Once path context h = by_test (disk.is_file path context) refl
      where
        by_test :
            (b : Bool)
            → disk.is_file path context ≡ b
            → Distinct
                (if b
                  then (ok [], context)
                  else created_flag kernel mounts_match mountinfo_match disk
                      (disk.create path context)
                      path
                      context).1.created
        by_test true e = h
        by_test false e =
            created_flag-Distinct (disk.create path context) path context
              (ground (arith, e, keeps path context)) h

    mark_found-Once :
        (flag_file mp : String) (o : Option (String × String))
        → Once (mark_found kernel mounts_match mountinfo_match disk flag_file mp o)
    unfolding mark_found
    mark_found-Once flag_file mp none context h = h
    mark_found-Once flag_file mp (some (fs_type, mountpoint)) context h =
        elim (Bool-cases (contains flag_skip_fs fs_type)) [
          | inl e ↦ rw e h
          | inr e ↦ rw e (write_flag-Once (mountpoint <> "/" <> flag_file) context h)
        ]

    pub mark_namespace-Once :
        (flag_file : String) (mountns : MountNamespace)
        → Once (mark_namespace kernel mounts_match mountinfo_match disk flag_file mountns)
    unfolding mark_namespace mark_mount
    mark_namespace-Once flag_file mountns =
        let mark = mark_mount kernel mounts_match mountinfo_match disk flag_file in
        >>=-Keeps (λ (c : Context). Distinct c.created) (traverse_effect mark mountns.mountinfo) _
          (traverse_effect-Keeps (λ (c : Context). Distinct c.created) mark
            (λ mp. mark_found-Once flag_file mp (mountinfo_match mp)) mountns.mountinfo)
          (λ ws context h. h)
