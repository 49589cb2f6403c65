-- ===== src/Collect/SeccompMode.antt =====
-- The mode that src/c_config/seccomp.rs collects, as the evaluation reads it.
use mathlib.Core.Path.{subst}
use mathlib.Core.Option.{some-injective}
use text.Mathlib.TextEquality.{Char-path}
use text.Mathlib.TextLemmas.{nil-append, cons-append}
use Prim.Native.Char.{code}
use checkc.Base.{
  ℕ, ◌≡◌, refl, ◌∙◌, sym, ap, true, Option, none, some, List, [], ◌∷◌, ◌++◌, ok, String, inr, inl,
  All, Bool-cases, nat_beq, nat_beq_iff,
}
use checkc.Base.Int.{ℤ}
use checkc.Base.Text.{◌<>◌, show_ℕ}
use checkc.Proto.Host.{
  SeccompMode, SeccompConfig, seccomp_config_mode, seccomp_mode_from_i32, seccomp_mode_to_i32,
  seccomp_mode_from_i32-to_i32, seccomp_mode_disabled, seccomp_mode_strict, seccomp_mode_filter,
  unspecified,
}
use checkc.Collect.Kernel.{Kernel}
use checkc.Collect.Numbers.{show_int, is_digit, decimal}
use checkc.Collect.Status.{
  find_mode, mode_of_line, starts_with, only_digits, parse_c_uint, mode_try_from, seccomp_config,
  syscall_result,
}

seccomp_config_mode-to_i32 :
    (c : SeccompConfig) (m : SeccompMode)
    → c.mode_number ≡ seccomp_mode_to_i32 m
    → seccomp_config_mode c ≡ m
unfolding seccomp_config_mode
seccomp_config_mode-to_i32 c m h = cc (ap seccomp_mode_from_i32 h, seccomp_mode_from_i32-to_i32 m)

-- The number of a mode in the kernel (linux/seccomp.h).
abbrev pub linux_number : SeccompMode → Option ℕ
linux_number seccomp_mode_disabled = some 0
linux_number seccomp_mode_strict = some 1
linux_number seccomp_mode_filter = some 2
linux_number unspecified = none

-- The line on which the kernel prints it.
abbrev pub status_line : ℕ → String
status_line n = "Seccomp:\t" <> show_ℕ n

abbrev pub StartsWith : String → String → Type 0
StartsWith prefix line = (rest : String) × (line ≡ prefix <> rest)

starts_with-StartsWith :
    (prefix line : String) → starts_with prefix line ≡ true → StartsWith prefix line
unfolding starts_with
starts_with-StartsWith String.[] line h = (line, sym (nil-append line))
starts_with-StartsWith (String.◌∷◌ p ps) String.[] h = absurd (cc h)
starts_with-StartsWith (String.◌∷◌ p ps) (String.◌∷◌ c s) h =
    elim (Bool-cases (nat_beq (code p) (code c))) [
      | inl y ↦
          let (rest, e) = starts_with-StartsWith ps s (cc (h, y)) in
          let same : p ≡ c = Char-path p c ((nat_beq_iff (code p) (code c)).0 y) in
          (
            rest,
            ap (String.◌∷◌ c) e
                ∙ ap (λ x. String.◌∷◌ x (ps <> rest)) (sym same)
                ∙ sym (cons-append p ps rest),
          )
      | inr n ↦ absurd (cc (h, n))
    ]

pub starts_with-append : (prefix rest : String) → starts_with prefix (prefix <> rest) ≡ true
unfolding starts_with
starts_with-append String.[] rest = refl
starts_with-append (String.◌∷◌ p ps) rest =
    ap (starts_with (String.◌∷◌ p ps)) (cons-append p ps rest)
    ∙ rw ((nat_beq_iff (code p) (code p)).1 refl) (starts_with-append ps rest)

-- The lines before the mode's do not count.
find_mode-skip :
    (before : List String) (line : String) (after : List String)
    → All (λ other. StartsWith "Seccomp:" other → ⊥) before
    → starts_with "Seccomp:" line ≡ true
    → find_mode (before ++ line ∷ after) ≡ mode_of_line line
unfolding find_mode
find_mode-skip [] line after h k = rw k refl
find_mode-skip (other ∷ before) line after h k = elim (Bool-cases (starts_with "Seccomp:" other)) [
  | inl y ↦ absurd (h.0 (starts_with-StartsWith "Seccomp:" other y))
  | inr n ↦ rw n (find_mode-skip before line after h.1 k)
]

-- The line is found, and its mode is read.
abbrev IsRead : SeccompMode → ℕ → Type 0
IsRead m n = (starts_with "Seccomp:" (status_line n) ≡ true) × (mode_of_line (status_line n) ≡ ok m)

mode_of_line-linux_number : (m : SeccompMode) (n : ℕ) → linux_number m ≡ some n → IsRead m n
unfolding starts_with mode_of_line only_digits parse_c_uint mode_try_from is_digit decimal show_ℕ
mode_of_line-linux_number seccomp_mode_disabled n h =
    subst (IsRead seccomp_mode_disabled) (some-injective 0 n h) (refl, refl)
mode_of_line-linux_number seccomp_mode_strict n h =
    subst (IsRead seccomp_mode_strict) (some-injective 1 n h) (refl, refl)
mode_of_line-linux_number seccomp_mode_filter n h =
    subst (IsRead seccomp_mode_filter) (some-injective 2 n h) (refl, refl)
mode_of_line-linux_number unspecified n h = absurd (cc h)

-- Where the status of a process has a line for the mode of seccomp, as the kernel prints it, and no line
-- before that starts with Seccomp: , the configuration is collected, and the evaluation reads that mode
-- from it.
pub seccomp_config-linux_number :
    (kernel : Kernel) (remount_sysfs : Option String) (pid : ℤ) (before after : List String)
    (m : SeccompMode) (n : ℕ)
    → kernel.lines ("/proc/" <> show_int pid <> "/status") ≡ inr (before ++ status_line n ∷ after)
    → All (λ other. StartsWith "Seccomp:" other → ⊥) before
    → linux_number m ≡ some n
    → (c : SeccompConfig) × (seccomp_config kernel remount_sysfs pid ≡ ok c)
      × (seccomp_config_mode c ≡ m)
unfolding seccomp_config
seccomp_config-linux_number kernel remount_sysfs pid before after m n status first number =
    let (starts, reads) = mode_of_line-linux_number m n number in
    let read = find_mode-skip before (status_line n) after first starts ∙ reads in
    let config : SeccompConfig = record {
      mode_number = seccomp_mode_to_i32 m;
      syscall_map = ("mount: remount sysfs", syscall_result remount_sysfs) ∷ [];
    } in
    (config, rw (status, read) refl, seccomp_config_mode-to_i32 config m refl)
