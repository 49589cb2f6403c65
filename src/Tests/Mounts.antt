-- ===== src/Tests/Mounts.antt =====
-- The mount namespaces (src/c_config/fs.rs) at a concrete kernel.
use checkc.Base.{
  ◌≤◌, ◌≡◌, refl, String, Option, none, some, List, [], ◌∷◌, ok, inl, inr, ◌==◌, nat_eq, string_eq,
  if◌then◌else◌, All, option_eq,
}
use checkc.Base.Int.{pos, int_eq}
use checkc.Base.Sets.{contains, filter, any}
use checkc.Base.Text.{show_ℕ, show_fuel, show_digit}
use checkc.Proto.Ns.{NsId, ns_id_eq}
use checkc.Proto.Host.{MountNamespace}
use checkc.Evaluation.FlagMatches.{IsIdentified}
use checkc.Collect.Kernel.{Kernel}
use checkc.Collect.Process.{get_pid_list, from_type, ns_path, ns_type_show}
use checkc.Collect.Numbers.{
  show_int, is_digit, decimal, has_digit, parse_i32, signed, signed_option,
}
use checkc.Collect.Mounts.{
  get_mountinfos, unwrap_result, is_selected, count_matches, info_by_pid, push_pid,
  collect_mountinfos, keep_mount, keep_mountinfo, new_namespace, on_count, push_new, with_id,
  with_info,
}
use checkc.Collect.Status.{starts_with}
use checkc.Collect.MountSpaces.{get_mountinfos-IsSound}
use checkc.Collect.MountIds.{HasNoFlags, occurrences_of}

-- Processes 1 and 2 share a mount namespace, 3 has its own.
abbrev own_space : NsId
own_space = record { st_dev = 4; st_ino = 40 }

abbrev host_space : NsId
host_space = record { st_dev = 4; st_ino = 10 }

abbrev kernel : Kernel
kernel = record {
  lines = λ path. inr ("/dev/sda1 / ext4" ∷ "proc /proc proc" ∷ []);
  proc_dirs = inr ("1" ∷ "2" ∷ "3" ∷ "bus" ∷ []);
  ns_file = λ path. if path == "/proc/3/ns/mnt" then inr own_space else inr host_space;
  ns_owner = λ path. inl 1;
}

abbrev line_match : String → Option (String × String)
line_match line = if line == "proc /proc proc" then some ("proc", "/proc") else some ("ext4", "/")

three_listed : get_pid_list kernel ≡ ok (pos 1 ∷ pos 2 ∷ pos 3 ∷ [])
unfolding get_pid_list filter has_digit is_digit parse_i32 signed_option decimal signed
three_listed = refl

two_spaces :
    get_mountinfos kernel line_match line_match none
    ≡ ok (
        record {
          ns_id = some host_space;
          ns_pids = pos 1 ∷ pos 2 ∷ [];
          mounts = "/dev/sda1 / ext4" ∷ [];
          mountinfo = "/dev/sda1 / ext4" ∷ [];
          flag_files = [];
        }
        ∷ record {
          ns_id = some own_space;
          ns_pids = pos 3 ∷ [];
          mounts = "/dev/sda1 / ext4" ∷ [];
          mountinfo = "/dev/sda1 / ext4" ∷ [];
          flag_files = [];
        }
        ∷ [])
unfolding get_mountinfos get_pid_list unwrap_result filter has_digit is_digit parse_i32
    signed_option decimal signed is_selected from_type ns_path show_int show_ℕ ns_type_show
    count_matches info_by_pid push_pid any contains show_digit show_fuel collect_mountinfos
    keep_mount keep_mountinfo new_namespace on_count push_new with_id with_info starts_with
two_spaces = refl

get_mountinfos-IsSound_example :
    (namespaces : List MountNamespace) × (get_mountinfos kernel line_match line_match none
      ≡ ok namespaces)
    × All IsIdentified namespaces
    × ((id : NsId) → occurrences_of id namespaces ≤ 1)
    × All HasNoFlags namespaces
get_mountinfos-IsSound_example =
    get_mountinfos-IsSound kernel line_match line_match none three_listed
