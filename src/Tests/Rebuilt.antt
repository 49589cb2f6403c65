-- ===== src/Tests/Rebuilt.antt =====
-- The hierarchies of src/c_config/ns.rs, converted to the message and back, and the lines of
-- src/c_config/user_ns.rs; helpers without a caller.
use checkc.Base.{err, my_io_error, true, false, none}
use checkc.Base.Sets.{any}
use checkc.Evaluation.{contains_ns_type, capability_is_set}
use checkc.Proto.Ns.{ns_info_type, ns_type_from_i32, ns_type_beq, ns_type_number, ns_type_eq}
use checkc.Proto.Caps.{Capability, capability_beq, capability_eq}
use checkc.Proto.Host.{SeccompMode}
use checkc.Collect.Status.{mode_show}
use checkc.Collect.Process.{log_open_fds}
use checkc.Base.{
  ℕ, ◌≡◌, ◌↔◌, refl, List, [], ◌∷◌, ◌⊎◌, inl, inr, ok, ◌==◌, nat_eq, string_eq, if◌then◌else◌,
}
use checkc.Base.Sets.{filter, extend, insert, contains}
use checkc.Base.Text.{show_ℕ}
use checkc.Collect.Kernel.{Kernel}
use checkc.Collect.Numbers.{
  has_digit, is_digit, parse_i32, signed_option, decimal, signed, show_int,
}
use checkc.Collect.Process.{get_pid_list, ns_path, ns_type_show}
use checkc.Proto.Ns.{NsId, NsType}
use checkc.Collect.Namespaces.{
  Tree, branch, bare, grow, hierarchy_from, create_hierarchy, ns_get_parent_ns,
}
use checkc.Proto.Host.{IdMapping}
use checkc.Collect.UserNs.{mapping_try_from}
use checkc.Collect.MapLine.{id_map_line, Fits, mapping_try_from-line}
use checkc.Base.Int.{pos}
use checkc.Collect.Process.{eperm}
use checkc.Collect.Namespaces.{id_map_of}
use checkc.Proto.Ns.{ns_id_eq, ns_id_beq_iff}
use checkc.Base.{◌||◌, Bool-cases}
use checkc.Collect.Reached.{holds}
use checkc.Collect.FoundPairs.{found}
use checkc.Collect.Found.{create_hierarchy-found}
use checkc.Collect.Rebuild.{
  hierarchy_try_into, create_hierarchy-try_into, display_hierarchy, display_children,
}

abbrev id_of : ℕ → NsId
id_of n = record { st_dev = 4; st_ino = n }

abbrev two_spaces : Kernel
two_spaces = record {
  lines = λ path. inl 2;
  proc_dirs = inr ("1" ∷ "7" ∷ []);
  ns_file = λ path. inr (id_of (if path == "/proc/7/ns/user" then 2 else 1));
  ns_owner = λ path. inl 2;
}

abbrev above : NsId → ℕ ⊎ NsId
above id = if id == id_of 1 then inl 1 else inr (id_of 1)

abbrev one_below : Tree
one_below = branch (id_of 1) (grow (branch (id_of 2) bare) bare)

created_one_below : create_hierarchy two_spaces above 3 NsType.user ≡ ok one_below
unfolding create_hierarchy get_pid_list filter has_digit is_digit parse_i32 signed_option decimal
    signed ns_get_parent_ns ns_path show_int show_ℕ ns_type_show extend insert contains
created_one_below = refl

create_hierarchy-try_into_example : hierarchy_try_into (hierarchy_from one_below) ≡ ok one_below
create_hierarchy-try_into_example =
    create_hierarchy-try_into two_spaces above 3 NsType.user one_below created_one_below

abbrev pairs : List (NsId × NsId)
pairs = (id_of 1, id_of 1) ∷ (id_of 1, id_of 2) ∷ (id_of 1, id_of 1) ∷ []

pids_listed : get_pid_list two_spaces ≡ ok (pos 1 ∷ pos 7 ∷ [])
unfolding get_pid_list filter has_digit is_digit parse_i32 signed_option decimal signed
pids_listed = refl

pairs_mapped : id_map_of two_spaces above 3 NsType.user (pos 1 ∷ pos 7 ∷ []) ≡ ok pairs
unfolding id_map_of ns_get_parent_ns ns_path show_int show_ℕ ns_type_show
pairs_mapped = refl

only_first : (id : NsId) → above id ≡ inl eperm → id ≡ id_of 1
only_first id h = elim (Bool-cases (id == id_of 1)) [
  | inl y ↦ (ns_id_beq_iff id (id_of 1)).0 y
  | inr n ↦ absurd (cc (h, n))
]

create_hierarchy-found_example :
    (id_of 2 == id_of 1 || holds (grow (branch (id_of 2) bare) bare) (id_of 2))
    ≡ found pairs (id_of 2)
create_hierarchy-found_example =
    create_hierarchy-found two_spaces above 3 NsType.user (id_of 1)
      (grow (branch (id_of 2) bare) bare) (pos 1 ∷ pos 7 ∷ []) pairs only_first pids_listed
      pairs_mapped created_one_below (id_of 2)

displayed : display_hierarchy one_below ≡ " [1]\n    [2]\n"
unfolding display_hierarchy display_children show_ℕ
displayed = refl

abbrev whole_range : IdMapping
whole_range = record { current = 0; parent = 100000; range = 65536 }

mapping_try_from-line_example :
    (mapping_try_from (id_map_line 9 4 4 whole_range) ≡ ok whole_range) ↔ Fits whole_range
mapping_try_from-line_example = mapping_try_from-line 9 4 4 whole_range

-- The helpers of src/evaluation/mod.rs, src/c_config/seccomp.rs and src/lib.rs that have no caller.
user_found :
    contains_ns_type (record { type_number = pos 7; id = none; owner = none } ∷ []) NsType.user
    ≡ true
unfolding contains_ns_type ns_info_type ns_type_from_i32 ns_type_beq ns_type_number any
user_found = refl

chown_found : capability_is_set (Capability.cap_chown ∷ []) Capability.cap_kill ≡ false
unfolding capability_is_set capability_beq any
chown_found = refl

filter_named : mode_show SeccompMode.seccomp_mode_filter ≡ "SECCOMP_MODE_FILTER"
unfolding mode_show
filter_named = refl

fds_denied : log_open_fds (inl 13) ≡ err (my_io_error "/proc/self/fd" 13)
unfolding log_open_fds
fds_denied = refl
