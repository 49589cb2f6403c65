-- ===== src/Tests/Sources.antt =====
-- Capabilities and processes (src/c_config/caps.rs and src/lib.rs) at a concrete kernel.
use checkc.Collect.Namespaces.{ns_info_eq}
use checkc.Collect.Process.{get_pid_list, get_pid_list}
use checkc.Config.{range_from}
use checkc.Base.Sets.{contains, insert, filter}
use checkc.Base.Paths.{prepend, prepend}
use checkc.Collect.Numbers.{
  signed_option, signed_option, signed, decimal, parse_i32, has_digit, show_int, is_digit,
  is_ascii_whitespace, pieces, words,
}
use checkc.Base.{
  ℕ, ◌-◌, ◌<◌, ◌≡◌, refl, ◌↔◌, String, Bool, true, not, ◌&&◌, Option, some, List, [], ◌∷◌, ◌⊎◌, inr,
  ok, arith, ◌==◌, if◌then◌else◌, string_eq, nat_eq, pair_eq, Returns,
}
use checkc.Base.Int.{ℤ, pos, int_eq, int_ltb}
use checkc.Base.Text.{show_digit, show_digit, show_fuel, show_ℕ, text_contains, ◌<>◌}
use checkc.Proto.Ns.{ns_id_eq}
use checkc.Proto.Caps.{
  capability_to_i32, capability_from_i32, capability_number, Capability, CapsConfig, capability_eq,
  cap_prm_values,
}
use checkc.Collect.Caps.{
  assign_all, assign, capability_last, capability_first, is_set, decode, decode_caps, hex_digit,
  hex_digits, push_hex, parse_hex, last, cap_set_show, find_line, parse_set, parse_proc_status,
  caps_config, CapSet,
}
use checkc.Collect.CapConfig.{Parsed, caps_config-cap_prm}
use checkc.Collect.Ancestry.{
  stat_path, stat_path, parse_parent, add_reached, on_step, walk_step, walk, descendants,
  get_container_pids, at,
}
use checkc.Collect.Descent.{Descends, get_container_pids-exact, walk-Returns}
use checkc.Collect.Cgroup.{}
use checkc.Tests.Collection.{kernel_apart}

-- The mask 0x80000 is CAP_SYS_PTRACE.
abbrev ptrace_only : CapsConfig
ptrace_only = record {
  cap_inh = [];
  cap_prm = pos 20 ∷ [];
  cap_eff = [];
  cap_bnd = [];
  cap_amb = [];
}

ptrace_collected : caps_config kernel_apart (pos 7) ≡ ok ptrace_only
unfolding caps_config parse_proc_status parse_set find_line text_contains cap_set_show last words
    pieces is_ascii_whitespace is_digit prepend filter parse_hex push_hex hex_digits hex_digit
    decode_caps decode is_set capability_first capability_last capability_number range_from
    capability_from_i32 capability_to_i32 insert contains assign assign_all show_int show_ℕ
    show_fuel show_digit
ptrace_collected = refl

caps_config-cap_prm_example :
    (status_content : List String) × (caps : List Capability) × (parsed : Parsed status_content
      CapSet.cap_prm caps)
    × (kernel_apart.lines ("/proc/" <> show_int (pos 7) <> "/status") ≡ inr status_content)
    × (contains (cap_prm_values ptrace_only.cap_prm) Capability.cap_sys_ptrace ≡ (
        not (Capability.cap_sys_ptrace == Capability.unspecified)
        && is_set parsed.mask (capability_number Capability.cap_sys_ptrace - 1)))
caps_config-cap_prm_example =
    caps_config-cap_prm kernel_apart (pos 7) Capability.cap_sys_ptrace ptrace_collected

-- Process 9 is a child of process 7.
abbrev stat : String → ℕ ⊎ (ℕ ⊎ String)
stat path = if path == "/proc/9/stat" then inr (inr "7") else inr (inr "1")

abbrev parent_of : String → Option String
parent_of text = some text

container_found :
    get_container_pids kernel_apart stat parent_of 3 (pos 7) ≡ ok (some (pos 7 ∷ pos 9 ∷ []))
unfolding get_container_pids descendants walk walk_step on_step add_reached parse_parent stat_path
    get_pid_list has_digit is_digit parse_i32 decimal signed signed_option filter show_int show_ℕ
    show_fuel show_digit
container_found = refl

pids_listed : get_pid_list kernel_apart ≡ ok (pos 7 ∷ pos 9 ∷ [])
unfolding get_pid_list has_digit is_digit parse_i32 decimal signed signed_option filter
pids_listed = refl

get_container_pids-exact_example : (contains (pos 7 ∷ pos 9 ∷ []) (pos 9) ≡ true) ↔ (
    ((pos 9 == pos 7) ≡ true)
    ⊎ ((contains (pos 7 ∷ pos 9 ∷ []) (pos 9) ≡ true)
        × Descends kernel_apart stat parent_of (pos 7) (pos 9)))
get_container_pids-exact_example =
    get_container_pids-exact kernel_apart stat parent_of (pos 7) 3 pids_listed container_found
      (pos 9)

-- Every process is a child of the first.
abbrev stat_of_one : String → ℕ ⊎ (ℕ ⊎ String)
stat_of_one path = inr (inr "1")

abbrev rank : ℤ → ℕ
rank p = if int_ltb (pos 1) p then 1 else 0

rank_falls :
    (q parent : ℤ)
    → int_ltb (pos 1) q ≡ true
    → walk_step kernel_apart stat_of_one parent_of (pos 7) q ≡ ok (at parent)
    → rank parent < rank q
unfolding walk_step parse_parent stat_path parse_i32 decimal signed signed_option is_digit
rank_falls q parent y h = ground (arith, y, h)

step-Returns :
    (q : ℤ)
    → int_ltb (pos 1) q ≡ true
    → Returns (walk_step kernel_apart stat_of_one parent_of (pos 7) q)
unfolding walk_step parse_parent stat_path parse_i32 decimal signed signed_option is_digit
step-Returns q y = (at (pos 1), refl)

walk-Returns_example :
    (b : Bool) × (walk kernel_apart stat_of_one parent_of 2 (pos 7) (pos 9) ≡ ok (some b))
walk-Returns_example =
    walk-Returns kernel_apart stat_of_one parent_of (pos 7) rank rank_falls step-Returns 2 (pos 9)
      (omega arith)
