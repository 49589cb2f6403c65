-- ===== src/Tests/Status.antt =====
-- The mode of seccomp (src/c_config/seccomp.rs) at a concrete kernel.
use checkc.Base.{
  ◌≡◌, refl, ◌∙◌, ap, String, true, none, List, [], ◌∷◌, ok, inl, inr, ◌==◌, nat_eq, string_eq,
  if◌then◌else◌,
}
use checkc.Base.Int.{pos}
use checkc.Base.Text.{show_ℕ}
use checkc.Proto.Host.{SeccompConfig, seccomp_mode_to_i32, seccomp_config_mode, seccomp_mode_filter}
use checkc.Collect.Kernel.{Kernel}
use checkc.Collect.Numbers.{show_int, is_digit, decimal}
use checkc.Collect.Status.{
  find_mode, only_digits, parse_c_uint, mode_try_from, starts_with, seccomp_config,
}
use checkc.Collect.SeccompMode.{StartsWith, starts_with-append, seccomp_config-linux_number}

abbrev status : List String
status = "Name:\tsh" ∷ "Seccomp:\t2" ∷ "Seccomp_filters:\t1" ∷ []

abbrev kernel : Kernel
kernel = record {
  lines = λ path. if path == "/proc/7/status" then inr status else inl 2;
  proc_dirs = inl 2;
  ns_file = λ path. inl 2;
  ns_owner = λ path. inl 2;
}

abbrev seccomp_of_seven : SeccompConfig
seccomp_of_seven = record {
  mode_number = pos 3;
  syscall_map = ("mount: remount sysfs", record { success = true; info = "" }) ∷ [];
}

seccomp_collected : seccomp_config kernel none (pos 7) ≡ ok seccomp_of_seven
unfolding seccomp_config show_int show_ℕ find_mode starts_with parse_c_uint only_digits is_digit
    decimal mode_try_from seccomp_mode_to_i32
seccomp_collected = refl

name_first : StartsWith "Seccomp:" "Name:\tsh" → ⊥
unfolding starts_with
name_first (rest, e) =
    let found : starts_with "Seccomp:" "Name:\tsh" ≡ true =
      ap (starts_with "Seccomp:") e ∙ starts_with-append "Seccomp:" rest in
    cc found

seccomp_config-linux_number_example :
    (c : SeccompConfig) × (seccomp_config kernel none (pos 7) ≡ ok c)
    × (seccomp_config_mode c ≡ seccomp_mode_filter)
unfolding show_int show_ℕ
seccomp_config-linux_number_example =
    seccomp_config-linux_number kernel none (pos 7) ("Name:\tsh" ∷ []) ("Seccomp_filters:\t1" ∷ [])
      seccomp_mode_filter 2 refl (name_first, tt) refl
