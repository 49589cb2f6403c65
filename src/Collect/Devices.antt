-- ===== src/Collect/Devices.antt =====
-- src/c_config/device.rs: the devices in `/dev`, and those that mknod can make.
use Prim.Native.Nat.{bit_and}
use text.Mathlib.TextEquality.{eq_iff}
use checkc.Base.{
  ℕ, String, Bool, true, false, not, ◌&&◌, ◌||◌, Option, none, some, List, [], ◌∷◌, Outcome, ok,
  err, panic, ◌>>=◌, ◌⊎◌, inl, inr, ◌==◌, ◌↔◌, ◌≡◌, nat_eq, string_eq, option_eq, option_beq_iff,
  if◌then◌else◌, Eq, device_error, value_error, arith,
}
use checkc.Base.Sets.{extend}
use checkc.Base.Text.{show_ℕ}
use checkc.Proto.Device.{
  DeviceType, char, block, socket, fifo, Device, device_id_eq, device_type_to_i32,
}

-- `S_IFMT`, and the types of a file under it.
abbrev pub s_ifmt : ℕ
s_ifmt = 0xF000

-- `Type::try_from`; the code that calls it drops the error.
unfoldable pub type_try_from : ℕ → Option DeviceType
type_try_from value =
    if bit_and value s_ifmt == 0x6000
    then some block
    else if bit_and value s_ifmt == 0x2000
    then some char
    else if bit_and value s_ifmt == 0xC000
    then some socket
    else if bit_and value s_ifmt == 0x1000
    then some fifo
    else none

abbrev bool_beq : Bool → Bool → Bool
bool_beq a b = if a then b else not b

-- What `metadata` says of a file, with the numbers of its device.
pub record Metadata : Type 0 where
  pub st_mode : ℕ
  pub major : ℕ
  pub minor : ℕ
  pub st_uid : ℕ
  pub st_gid : ℕ

-- `PartialEq` of `Device`, by its seven fields.
abbrev pub device_beq : Device → Device → Bool
device_beq a b =
    a.file == b.file
    && a.id == b.id
    && a.permissions == b.permissions
    && a.user == b.user
    && a.group == b.group
    && bool_beq a.read_access b.read_access
    && bool_beq a.write_access b.write_access

pub device_beq_iff : (a b : Device) → (device_beq a b ≡ true) ↔ (a ≡ b)
device_beq_iff a b = ground (arith, eq_iff a.file b.file, option_beq_iff a.id b.id)

instance abbrev pub device_eq : Eq Device
device_eq = record { beq = device_beq; beq_iff = device_beq_iff }

-- The file system as the code uses it, with a state of its own: what can be opened depends on it.
pub record Files (S : Type 0) : Type 0 where
  pub canonicalize : String → ℕ ⊎ String
  pub read_link : String → Option String
  pub metadata : String → S → ℕ ⊎ Metadata
  -- Opening a file with `O_RDONLY` and with `O_WRONLY`: the error number where it fails.
  pub open_read : String → S → Option ℕ
  pub open_write : String → S → Option ℕ
  pub chown : String → S → S
  pub chmod : String → ℕ → S → S
  -- The entries of the walk over `/dev` that could be read: a path, and whether it is a directory.
  pub entries : List (String × Bool)
  pub temp_dir : ℕ ⊎ String
  -- Where mknod makes the file: what opening that for reading and for writing answers.
  pub mknod : DeviceType → ℕ → ℕ → Option (Option ℕ × Option ℕ)
  -- The entries of /sys/dev/block and /sys/dev/char that could be read.
  pub sys_dev : DeviceType → ℕ ⊎ List String
  pub close_dir : Option ℕ
  pub uid : ℕ
  pub gid : ℕ

-- Every error of `open` is an access that is not given; some are logged. The descriptor is closed.
unfoldable pub opens : Option ℕ → Bool
opens none = true
opens (some errno) = false

module _ {S : Type 0} (files : Files S) where
  unfoldable pub read_access : String → S → Bool
  unfolding opens
  read_access path s = opens (files.open_read path s)

  unfoldable pub write_access : String → S → Bool
  unfolding opens
  write_access path s = opens (files.open_write path s)

  -- The path that a file stands for; a link that leads nowhere is followed one step.
  unfoldable pub resolve : String → Outcome String
  resolve p = elim (files.canonicalize p) [
    | inr c ↦ ok c
    | inl errno ↦ elim (files.read_link p) [
      | none ↦ err (device_error p (some errno))
      | some c ↦ ok c
    ]
  ]

  -- The retry after chown and chmod: what can be opened now, and the state left behind.
  unfoldable pub retry : String → Bool → Bool → S → (Bool × Bool) × S
  unfolding read_access write_access
  retry path reads writes s =
      let owned = files.chown path s in
      let readable = if reads then owned else files.chmod path 0x124 owned in
      let writable = if writes then readable else files.chmod path 0x1B6 readable in
      ((reads || read_access path writable, writes || write_access path writable), writable)

  unfoldable pub access : String → S → (Bool × Bool) × S
  unfolding retry read_access write_access
  access path s =
      let reads = read_access path s in
      let writes = write_access path s in
      if not reads || not writes then retry path reads writes s else ((reads, writes), s)

  abbrev pub device_of : String → DeviceType → Metadata → Bool × Bool → Device
  device_of path t m rights = record {
    file = path;
    id = some (record { type_number = device_type_to_i32 t; major = m.major; minor = m.minor });
    permissions = bit_and m.st_mode 0x1FF;
    user = m.st_uid;
    group = m.st_gid;
    read_access = rights.0;
    write_access = rights.1;
  }

  unfoldable pub describe : String → Metadata → S → Option DeviceType → Outcome (Device × S)
  unfolding access
  describe path m s none = err (value_error "Unkown st_mode" (show_ℕ m.st_mode) path)
  describe path m s (some t) = ok (device_of path t m (access path s).0, (access path s).1)

  -- The part after the metadata: regular files and directories are none, nor are unknown types.
  unfoldable pub from_metadata : String → Metadata → S → Outcome (Device × S)
  unfolding describe
  from_metadata path m s =
      if bit_and m.st_mode s_ifmt == 0x8000 || bit_and m.st_mode s_ifmt == 0x4000
      then err (device_error path none)
      else describe path m s (type_try_from m.st_mode)

  unfoldable pub from_file : String → S → ℕ ⊎ Metadata → Outcome (Device × S)
  from_file path s (inl errno) = err (device_error path (some errno))
  from_file path s (inr m) = from_metadata path m s

  -- `Device::from_dev_file`. Every failure comes before the file system is changed.
  unfoldable pub from_dev_file : String → S → Outcome (Device × S)
  unfolding resolve
  from_dev_file p s = resolve p >>= λ path. from_file path s (files.metadata path s)

  -- A device in front of what the rest of the walk finds, or only that.
  unfoldable pub add_device :
      (S → Outcome (List Device × S)) → S → Outcome (Device × S) → Outcome (List Device × S)
  add_device rest s panic = panic
  add_device rest s (err e) = rest s
  add_device rest s (ok (device, s')) = do others ← rest s'; ok (device ∷ others.0, others.1)

  -- The chain of filters of `parse_dev`: files whose device cannot be had are left out.
  unfoldable pub walk_dev : List (String × Bool) → S → Outcome (List Device × S)
  walk_dev [] s = ok ([], s)
  walk_dev ((path, is_dir) ∷ entries) s =
      if is_dir then walk_dev entries s else add_device (walk_dev entries) s (from_dev_file path s)

  -- `parse_dev`: a set of the devices found.
  unfoldable pub parse_dev : S → Outcome (List Device × S)
  unfolding walk_dev
  parse_dev s = do found ← walk_dev files.entries s; ok (extend [] found.0, found.1)
