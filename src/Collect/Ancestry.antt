-- ===== src/Collect/Ancestry.antt =====
-- `get_container_pids` of src/lib.rs: the processes below the container's init process. The expression
-- for the parent in `/proc/<pid>/stat` is matched by the crate `regex`, a parameter here.
use checkc.Base.{
  ℕ, zero, suc, String, Bool, true, false, Option, none, some, List, [], ◌∷◌, Outcome, ok, err,
  ◌>>=◌, ◌⊎◌, inl, inr, ◌==◌, nat_eq, if◌then◌else◌, unwrap, get_elem?, value_error, my_io_error,
}
use checkc.Base.Int.{ℤ, pos, int_eq, int_ltb}
use checkc.Base.Text.{◌<>◌}
use checkc.Base.Paths.{split_on}
use checkc.Collect.Kernel.{Kernel}
use checkc.Collect.Numbers.{show_int, parse_i32}
use checkc.Collect.Process.{get_pid_list}

-- What a step of the walk to the ancestors finds.
pub data Step : Type 0 where
  vanished : Step
  found : Step
  at : ℤ → Step

unfoldable pub stat_path : ℤ → String
stat_path current = "/proc/" <> show_int current <> "/stat"

-- The rest of the inner loop after a step.
unfoldable pub on_step : (ℤ → Outcome (Option Bool)) → Step → Outcome (Option Bool)
on_step next vanished = ok (some false)
on_step next found = ok (some true)
on_step next (at ppid) = next ppid

-- A process in front of the others, if it was reached.
unfoldable pub add_reached : ℤ → Option Bool → Option (List ℤ) → Option (List ℤ)
add_reached p none others = none
add_reached p (some b) none = none
add_reached p (some b) (some others) = some (if b then p ∷ others else others)

module _ (kernel : Kernel) (stat : String → ℕ ⊎ (ℕ ⊎ String))
    (parent_of : String → Option String) where
  -- The parent in a text of `/proc/<pid>/stat`.
  unfoldable pub parse_parent : ℤ → String → Outcome ℤ
  parse_parent current proc_stat = elim (parent_of proc_stat) [
    | none ↦
        err (value_error "Failed to parse PPID from /proc/<pid>/stat" proc_stat (stat_path current))
    | some ppid ↦ elim (parse_i32 ppid) [
      | some parent ↦ ok parent
      | none ↦ unwrap (get_elem? (split_on 32 proc_stat) 3) >>= λ token.
          err (value_error "Failed to parse PPID from value" token (stat_path current))
    ]
  ]

  -- The body of the inner loop. A file that cannot be opened is that of a process that vanished; one
  -- that cannot be read is an error.
  unfoldable pub walk_step : ℤ → ℤ → Outcome Step
  walk_step cinit_pid current = elim (stat (stat_path current)) [
    | inl errno ↦ ok vanished
    | inr (inl errno) ↦ err (my_io_error (stat_path current) errno)
    | inr (inr proc_stat) ↦
        parse_parent current proc_stat >>= λ ppid. ok (if ppid == cinit_pid then found else at ppid)
  ]

  -- The inner loop, from a process up: whether the container's init process is reached. The fuel is
  -- for the walk; `none` is that it ran out.
  unfoldable pub walk : ℕ → ℤ → ℤ → Outcome (Option Bool)
  walk zero cinit_pid current = ok none
  walk (suc fuel) cinit_pid current =
      if int_ltb (pos 1) current
      then walk_step cinit_pid current >>= on_step (walk fuel cinit_pid)
      else ok (some false)

  -- The outer loop: the processes from which the walk reaches the container's init process.
  unfoldable pub descendants : ℕ → ℤ → List ℤ → Outcome (Option (List ℤ))
  descendants fuel cinit_pid [] = ok (some [])
  descendants fuel cinit_pid (p ∷ all_pids) = do
    reached ← walk fuel cinit_pid p
    others ← descendants fuel cinit_pid all_pids
    ok (add_reached p reached others)

  unfoldable pub get_container_pids : ℕ → ℤ → Outcome (Option (List ℤ))
  unfolding add_reached
  get_container_pids fuel cinit_pid = do
    all_pids ← get_pid_list kernel
    others ← descendants fuel cinit_pid all_pids
    ok (add_reached cinit_pid (some true) others)
