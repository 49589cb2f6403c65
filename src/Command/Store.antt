-- ===== src/Command/Store.antt =====
-- `store_report` of src/main.rs, on a disk of files and folders, and the reading of a report.
use Prim.Native.Char.{code}
use checkc.Base.{
  ℕ, String, Bool, true, false, Option, none, some, List, ok, err, panic, ◌⊎◌, inl, inr, ◌==◌,
  nat_eq, string_eq, if◌then◌else◌, io_error, ◌||◌,
}
use checkc.Base.Effects.{Effect}
use checkc.Base.Maps
use checkc.Base.Text.{◌<>◌}

pub data Node : Type 0 where
  file : String → Node
  folder : Node

-- What is at each path.
abbrev pub Disk : Type 0
Disk = List (String × Node)

-- What the system decides: whether a file may be created or opened (an error number where not), and
-- whether all of a text can be written (an error number, and the part that was).
pub record FileCalls : Type 0 where
  pub create : String → Disk → Option ℕ
  pub write_all : String → String → Disk → Option (ℕ × String)
  pub open_file : String → Disk → Option ℕ

abbrev pub is_file_node : Option Node → Bool
is_file_node (some (file text)) = true
is_file_node (some folder) = false
is_file_node none = false

abbrev pub is_folder_node : Option Node → Bool
is_folder_node (some (file text)) = false
is_folder_node (some folder) = true
is_folder_node none = false

-- `Path::is_file` and `Path::is_dir`.
unfoldable pub is_file : String → Disk → Bool
is_file path disk = is_file_node (Maps.lookup path disk)

unfoldable pub is_dir : String → Disk → Bool
is_dir path disk = is_folder_node (Maps.lookup path disk)

unfoldable pub ends_with_slash : String → Bool
ends_with_slash String.[] = false
ends_with_slash (String.◌∷◌ c String.[]) = code c == 47
ends_with_slash (String.◌∷◌ c (String.◌∷◌ d s)) = ends_with_slash (String.◌∷◌ d s)

-- `Path::join` of a name.
unfoldable pub join_path : String → String → String
join_path base name =
    if base == "" || ends_with_slash base then base <> name else base <> "/" <> name

-- The path of the report: in a folder it has the default name.
unfoldable pub report_path : String → String → Disk → String
unfolding is_dir join_path
report_path out default_file disk = if is_dir out disk then join_path out default_file else out

module _ (calls : FileCalls) where
  -- The end of a write. The flush of a file has nothing left to do.
  unfoldable pub written : String → String → Option (ℕ × String) → Effect Disk (Unit {0})
  written p text none disk = (ok tt, Maps.insert p (file text) disk)
  written p text (some (errno, part)) disk = (err (io_error errno), Maps.insert p (file part) disk)

  -- A file that was created is empty.
  unfoldable pub created : String → String → Option ℕ → Effect Disk (Unit {0})
  unfolding written
  created p text (some errno) disk = (err (io_error errno), disk)
  created p text none disk =
      let empty = Maps.insert p (file "") disk in
      written p text (calls.write_all p text empty) empty

  -- A file at the path is not overwritten.
  unfoldable pub store_report : String → String → String → Effect Disk (Unit {0})
  unfolding is_file report_path created
  store_report out text default_file disk =
      if is_file out disk
      then (panic, disk)
      else let p = report_path out default_file disk in created p text (calls.create p disk) disk

  -- `File::open` and what can be read from it: nothing from a folder.
  unfoldable pub text_of : Option Node → ℕ ⊎ Option String
  text_of none = inl 2
  text_of (some (file text)) = inr (some text)
  text_of (some folder) = inr none

  unfoldable pub opened : Option ℕ → String → Disk → ℕ ⊎ Option String
  unfolding text_of
  opened (some errno) path disk = inl errno
  opened none path disk = text_of (Maps.lookup path disk)

  unfoldable pub read_file : String → Disk → ℕ ⊎ Option String
  unfolding opened
  read_file path disk = opened (calls.open_file path disk) path disk
