-- ===== src/Tests/Unique.antt =====
-- `unique_mapping` (src/c_config/user_ns.rs) at a concrete kernel.
use mathlib.Core.Path.{subst}
use checkc.Base.Paths.{prepend, prepend}
use checkc.Base.Text.{show_digit, show_digit, show_fuel, show_ℕ}
use checkc.Collect.Numbers.{
  signed_option, signed_option, signed, decimal, parse_i32, has_digit, is_digit, push_digit,
  parse_digits, parse_u32, tabs_to_spaces, is_ascii_whitespace, pieces, words, show_int,
}
use checkc.Base.{
  ℕ, ◌≡◌, refl, ◌↔◌, true, false, some, List, [], ◌∷◌, ok, arith, All, ◌==◌, inl, inr, Bool-cases,
}
use checkc.Base.Int.{ℤ, pos, int_eq, int_beq_iff}
use checkc.Base.Sets.{filter, filter, any, contains}
use checkc.Proto.Ns.{ns_type_to_i32, ns_type_to_i32, ns_type_number, ns_type_beq, NsType, NsInfo}
use checkc.Proto.Host.{IdMapping}
use checkc.Collect.Process.{
  ns_get_owner_user_ns, ns_get_owner_user_ns, ns_type_show, ns_path, from_type, get_pid_list,
  info_by_ns_type,
}
use checkc.Collect.UserNs.{
  mapping_of_words, mapping_of_words, mapping_try_from, mapping_of_line, add_u32, check_info,
  check_processes, overlaps, has_overlap, is_init_child, from_pid, unique_mapping,
}
use checkc.Collect.Unique.{Covers, IsRange, overlaps-exact}
use checkc.Collect.Disjoint.{
  AreApart, Covered, IsOtherChild, unique_mapping-AreApart, unique_mapping-Covered,
}
use checkc.Tests.Collection.{kernel_apart, kernel_overlap, id_of}

abbrev range : ℕ → ℕ → IdMapping
range parent count = record { current = 0; parent = parent; range = count }

overlaps-exact_example :
    (overlaps (range 10 5) (range 12 9) ≡ true)
    ↔ ((x : ℕ) × Covers (range 10 5) x × Covers (range 12 9) x)
overlaps-exact_example =
    overlaps-exact (range 10 5) (range 12 9) (omega arith, omega arith) (omega arith, omega arith)

abbrev user_info : ℕ → NsInfo
user_info st_ino = record { type_number = pos 7; id = some (id_of st_ino); owner = some (id_of 1) }

abbrev own : List IdMapping × List IdMapping
own = (range 100000 65536 ∷ [], [])

abbrev theirs : List IdMapping × List IdMapping
theirs = (range 300000 1000 ∷ [], [])

apart_unique : unique_mapping kernel_apart (pos 7) ≡ ok true
unfolding unique_mapping check_processes check_info is_init_child has_overlap any overlaps add_u32
    info_by_ns_type from_type ns_path show_int show_ℕ show_fuel show_digit ns_type_show
    ns_get_owner_user_ns ns_type_beq ns_type_number ns_type_to_i32 from_pid mapping_of_line
    mapping_try_from mapping_of_words words pieces is_ascii_whitespace prepend filter tabs_to_spaces
    parse_u32 parse_digits push_digit is_digit get_pid_list has_digit parse_i32 decimal signed
    signed_option
apart_unique = refl

apart_pids : get_pid_list kernel_apart ≡ ok (pos 7 ∷ pos 9 ∷ [])
unfolding get_pid_list has_digit is_digit parse_i32 decimal signed signed_option filter
apart_pids = refl

info_seven : info_by_ns_type kernel_apart (pos 7) NsType.user ≡ ok (user_info 200)
unfolding info_by_ns_type from_type ns_path show_int show_ℕ show_fuel show_digit ns_type_show
    ns_get_owner_user_ns ns_type_beq ns_type_number ns_type_to_i32
info_seven = refl

info_nine : info_by_ns_type kernel_apart (pos 9) NsType.user ≡ ok (user_info 300)
unfolding info_by_ns_type from_type ns_path show_int show_ℕ show_fuel show_digit ns_type_show
    ns_get_owner_user_ns ns_type_beq ns_type_number ns_type_to_i32
info_nine = refl

info_one : info_by_ns_type kernel_apart (pos 1) NsType.user ≡ ok (user_info 1)
unfolding info_by_ns_type from_type ns_path show_int show_ℕ show_fuel show_digit ns_type_show
    ns_get_owner_user_ns ns_type_beq ns_type_number ns_type_to_i32
info_one = refl

maps_seven : from_pid kernel_apart (pos 7) ≡ ok own
unfolding from_pid mapping_of_line mapping_try_from mapping_of_words words pieces
    is_ascii_whitespace prepend filter tabs_to_spaces parse_u32 parse_digits push_digit is_digit
    show_int show_ℕ show_fuel show_digit
maps_seven = refl

maps_nine : from_pid kernel_apart (pos 9) ≡ ok theirs
unfolding from_pid mapping_of_line mapping_try_from mapping_of_words words pieces
    is_ascii_whitespace prepend filter tabs_to_spaces parse_u32 parse_digits push_digit is_digit
    show_int show_ℕ show_fuel show_digit
maps_nine = refl

nine_child : IsOtherChild (user_info 200) (user_info 1) (user_info 300)
nine_child = ground arith

nine_listed : contains (pos 7 ∷ pos 9 ∷ []) (pos 9) ≡ true
unfolding contains
nine_listed = refl

unique_mapping-AreApart_example : All (λ p. All (AreApart p) own.0) theirs.0
unique_mapping-AreApart_example =
    unique_mapping-AreApart kernel_apart (pos 7) (pos 9) apart_unique apart_pids nine_listed refl
      info_seven info_one info_nine nine_child maps_seven maps_nine (omega arith, tt)
      (omega arith, tt)

overlap_found : unique_mapping kernel_overlap (pos 7) ≡ ok false
unfolding unique_mapping check_processes check_info is_init_child has_overlap any overlaps add_u32
    info_by_ns_type from_type ns_path show_int show_ℕ show_fuel show_digit ns_type_show
    ns_get_owner_user_ns ns_type_beq ns_type_number ns_type_to_i32 from_pid mapping_of_line
    mapping_try_from mapping_of_words words pieces is_ascii_whitespace prepend filter tabs_to_spaces
    parse_u32 parse_digits push_digit is_digit get_pid_list has_digit parse_i32 decimal signed
    signed_option
overlap_found = refl

overlap_pids : get_pid_list kernel_overlap ≡ ok (pos 7 ∷ pos 9 ∷ [])
unfolding get_pid_list has_digit is_digit parse_i32 decimal signed signed_option filter
overlap_pids = refl

overlap_seven : info_by_ns_type kernel_overlap (pos 7) NsType.user ≡ ok (user_info 200)
unfolding info_by_ns_type from_type ns_path show_int show_ℕ show_fuel show_digit ns_type_show
    ns_get_owner_user_ns ns_type_beq ns_type_number ns_type_to_i32
overlap_seven = refl

overlap_one : info_by_ns_type kernel_overlap (pos 1) NsType.user ≡ ok (user_info 1)
unfolding info_by_ns_type from_type ns_path show_int show_ℕ show_fuel show_digit ns_type_show
    ns_get_owner_user_ns ns_type_beq ns_type_number ns_type_to_i32
overlap_one = refl

nine_overlap : from_pid kernel_overlap (pos 9) ≡ ok (range 100010 5 ∷ [], [])
unfolding from_pid mapping_of_line mapping_try_from mapping_of_words words pieces
    is_ascii_whitespace prepend filter tabs_to_spaces parse_u32 parse_digits push_digit is_digit
    show_int show_ℕ show_fuel show_digit
nine_overlap = refl

seven_overlap : from_pid kernel_overlap (pos 7) ≡ ok own
unfolding from_pid mapping_of_line mapping_try_from mapping_of_words words pieces
    is_ascii_whitespace prepend filter tabs_to_spaces parse_u32 parse_digits push_digit is_digit
    show_int show_ℕ show_fuel show_digit
seven_overlap = refl

accepted :
    (process : ℤ) (maps : List IdMapping × List IdMapping)
    → contains (pos 7 ∷ pos 9 ∷ []) process ≡ true
    → from_pid kernel_overlap process ≡ ok maps
    → All IsRange maps.0
unfolding contains
accepted process maps m e = elim (Bool-cases (process == pos 7)) [
  | inl y ↦
      let same : own ≡ maps = cc (seven_overlap, e, (int_beq_iff process (pos 7)).0 y) in
      subst (λ (x : List IdMapping × List IdMapping). All IsRange x.0) same
        ((omega arith, omega arith), tt)
  | inr n ↦
      let nine : process ≡ pos 9 = (int_beq_iff process (pos 9)).0 (ground (arith, m, n)) in
      let same : (range 100010 5 ∷ [], []) ≡ maps = cc (nine_overlap, e, nine) in
      subst (λ (x : List IdMapping × List IdMapping). All IsRange x.0) same
        ((omega arith, omega arith), tt)
]

unique_mapping-Covered_example :
    (process : ℤ) × (info : NsInfo) × (theirs : List IdMapping × List IdMapping) × (x : ℕ)
    × (contains (pos 7 ∷ pos 9 ∷ []) process ≡ true)
    × ((process == pos 7) ≡ false)
    × (info_by_ns_type kernel_overlap process NsType.user ≡ ok info)
    × (from_pid kernel_overlap process ≡ ok theirs)
    × IsOtherChild (user_info 200) (user_info 1) info
    × Covered theirs.0 x
    × Covered own.0 x
unique_mapping-Covered_example =
    unique_mapping-Covered kernel_overlap (pos 7) overlap_found overlap_pids overlap_seven
      overlap_one seven_overlap ((omega arith, omega arith), tt) accepted
