-- ===== src/Collect/Cgroup.antt =====
-- src/c_config/cgroup.rs. A path is the list of its components, from the last one up.
use Prim.Native.Char.{code}
use checkc.Base.{
  ℕ, String, Bool, not, ◌&&◌, ◌||◌, Option, none, some, List, [], ◌∷◌, ◌++◌, map, Outcome, ok, err,
  panic, ◌>>=◌, unwrap, leb, ◌==◌, nat_eq, string_eq, list_eq, if◌then◌else◌, io_error,
  cgroup_error, ◌⊎◌, inl, inr, is_empty,
}
use checkc.Base.Int.{ℤ}
use checkc.Base.Sets.{extend}
use checkc.Base.Maps
use checkc.Base.Text.{◌<>◌}
use checkc.Base.Paths.{components, split_on}
use checkc.Proto.Cgroup.{Controller, controller_eq, controller_to_i32}
use checkc.Proto.Host.{CgroupConfig}
use checkc.Collect.Kernel.{Kernel}
use checkc.Collect.Numbers.{show_int, words}
use checkc.Collect.Process.{or_error}

-- `Controller::try_from`; the code that calls it drops the error.
unfoldable pub controller_try_from : String → Option Controller
controller_try_from value =
    if value == "cpu"
    then some Controller.cpu
    else if value == "cpuset"
    then some Controller.cpuset
    else if value == "freezer"
    then some Controller.freezer
    else if value == "hugetlb"
    then some Controller.hugetlb
    else if value == "io"
    then some Controller.io
    else if value == "memory"
    then some Controller.memory
    else if value == "perf_event"
    then some Controller.perf_event
    else if value == "pids"
    then some Controller.pids
    else if value == "rdma"
    then some Controller.rdma
    else if value == "misc"
    then some Controller.misc
    else none

-- `filter_map`.
unfoldable pub known_controllers : List String → List Controller
known_controllers [] = []
known_controllers (entry ∷ entries) =
    let rest = known_controllers entries in
    elim (controller_try_from entry) [ none ↦ rest | some controller ↦ controller ∷ rest ]

unfoldable pub flatten_words : List String → List String
flatten_words [] = []
flatten_words (line ∷ lines) = words line ++ flatten_words lines

-- `char::is_whitespace`.
unfoldable pub is_whitespace : ℕ → Bool
is_whitespace c =
    (leb 9 c && leb c 13)
    || c == 32
    || c == 0x85
    || c == 0xA0
    || c == 0x1680
    || (leb 0x2000 c && leb c 0x200A)
    || c == 0x2028
    || c == 0x2029
    || c == 0x202F
    || c == 0x205F
    || c == 0x3000

unfoldable pub trim_start : String → String
trim_start String.[] = ""
trim_start (String.◌∷◌ c s) =
    let rest = trim_start s in if is_whitespace (code c) then rest else String.◌∷◌ c s

unfoldable pub trim_end : String → String
trim_end String.[] = ""
trim_end (String.◌∷◌ c s) =
    let rest = trim_end s in if rest == "" && is_whitespace (code c) then "" else String.◌∷◌ c rest

-- `trim`.
unfoldable pub trim : String → String
unfolding trim_start trim_end
trim s = trim_end (trim_start s)

-- `strip_prefix("0::/")`.
unfoldable pub strip : List ℕ → String → Option String
strip [] s = some s
strip (p ∷ ps) String.[] = none
strip (p ∷ ps) (String.◌∷◌ c s) = let rest = strip ps s in if code c == p then rest else none

unfoldable pub strip_hierarchy : String → Option String
unfolding strip
strip_hierarchy s = strip (48 ∷ 58 ∷ 58 ∷ 47 ∷ []) s

-- `/sys/fs/cgroup`, from the last component up.
abbrev pub cgroup_root : List String
cgroup_root = "cgroup" ∷ "fs" ∷ "sys" ∷ "/" ∷ []

unfoldable pub reverse_onto : List String → List String → List String
reverse_onto [] ys = ys
reverse_onto (x ∷ xs) ys = reverse_onto xs (x ∷ ys)

-- `PathBuf::from("/sys/fs/cgroup").join(cgroup)`: an absolute path replaces the root.
unfoldable pub cgroup_path : String → List String
unfolding reverse_onto
cgroup_path cgroup = elim (split_on 47 cgroup) [
  | [] ↦ cgroup_root
  | piece ∷ pieces ↦
      if piece == "" && not (is_empty pieces)
      then reverse_onto (components cgroup) []
      else reverse_onto (components ("/sys/fs/cgroup/" <> cgroup)) []
]

-- The bodies of the two loops: what a file says, and the answer of the directories above it.
unfoldable pub cpu_step : Option (ℕ ⊎ String) → Outcome String → Outcome String
cpu_step none above = above
cpu_step (some content) above = or_error io_error content

unfoldable pub memory_step : Option (ℕ ⊎ String) → Outcome String → Outcome String
memory_step none above = above
memory_step (some content) above = do
  line ← or_error io_error content
  if trim line == "max" then above else ok line

-- An entry for each limit that is not empty.
unfoldable pub add_limit : String → String → List (String × String) → List (String × String)
add_limit file limit interface_files =
    if limit == "" then interface_files else Maps.insert file limit interface_files

-- The first line of a file, with its end; `none` where the file cannot be opened.
module _ (kernel : Kernel) (first_line : List String → String → Option (ℕ ⊎ String)) where
  unfoldable pub get_cgroup : ℤ → Outcome String
  get_cgroup pid =
      or_error io_error (kernel.lines ("/proc/" <> show_int pid <> "/cgroup")) >>= λ cgroups.
      elim cgroups [
        | [] ↦ err cgroup_error
        | cgroup ∷ others ↦
            if is_empty others then unwrap (strip_hierarchy cgroup) else err cgroup_error
      ]

  -- The loop of `get_cpu_max`: the first file that opens.
  unfoldable pub cpu_walk : List String → Outcome String
  cpu_walk [] = panic
  cpu_walk (c ∷ parent) =
      let above = cpu_walk parent in
      if (c ∷ parent) == cgroup_root
      then ok ""
      else cpu_step (first_line (c ∷ parent) "cpu.max") above

  -- The loop of `get_memory_max`: the first file that opens and does not say `max`.
  unfoldable pub memory_walk : List String → Outcome String
  memory_walk [] = panic
  memory_walk (c ∷ parent) =
      let above = memory_walk parent in
      if (c ∷ parent) == cgroup_root
      then ok ""
      else memory_step (first_line (c ∷ parent) "memory.max") above

  unfoldable pub get_cpu_max : ℤ → Outcome String
  get_cpu_max pid = do pid_cgroup ← get_cgroup pid; cpu_walk (cgroup_path pid_cgroup)

  unfoldable pub get_memory_max : ℤ → Outcome String
  get_memory_max pid = do pid_cgroup ← get_cgroup pid; memory_walk (cgroup_path pid_cgroup)

  -- A file of controllers that cannot be opened panics.
  unfoldable pub get_cgroup_controllers :
      (List String → ℕ ⊎ List String) → ℤ → Outcome (List Controller)
  unfolding flatten_words
  get_cgroup_controllers controllers_file pid = get_cgroup pid >>= λ pid_cgroup.
      elim (controllers_file (cgroup_path pid_cgroup)) [
        | inl errno ↦ panic
        | inr lines ↦ ok (extend [] (known_controllers (flatten_words lines)))
      ]

  unfoldable pub cgroup_config : (List String → ℕ ⊎ List String) → ℤ → Outcome CgroupConfig
  unfolding add_limit
  cgroup_config controllers_file pid = do
    cgroup ← get_cgroup pid
    controllers ← get_cgroup_controllers controllers_file pid
    cpu_max ← get_cpu_max pid
    memory_max ← get_memory_max pid
    ok (record {
      cgroup = cgroup;
      controllers = map controller_to_i32 controllers;
      interface_files = add_limit "memory.max" memory_max (add_limit "cpu.max" cpu_max []);
    })
