-- ===== src/Collect/Mknod.antt =====
-- The searches of src/c_config/device.rs for devices that mknod can make, and `device_config`.

use checkc.Base.{
  ℕ, String, Bool, ◌||◌, Option, none, some, List, [], ◌∷◌, ◌++◌, Outcome, ok, err, panic, ◌>>=◌,
  traverse, inl, inr, nat_eq, string_eq, option_eq, if◌then◌else◌, io_error,
}
use checkc.Base.Text.{◌<>◌, show_ℕ}
use checkc.Base.Paths.{split_on}
use checkc.Collect.Numbers.{parse_u32}
use checkc.Collect.Process.{or_error}
use checkc.Config.{range_from}
use checkc.Proto.Device.{
  DeviceType, char, block, Device, DeviceId, DeviceConfig, device_id_eq, device_type_to_i32,
}
use checkc.Collect.Devices.{Files, opens, parse_dev}

-- `dev_id[0]` and `dev_id[1]`, parsed: `parse().unwrap()` panics at a text that is no `u32`.
unfoldable pub parsed : Outcome ℕ → Outcome ℕ
parsed (ok n) = ok n
parsed (err e) = panic
parsed panic = panic

unfoldable pub dev_id_of : DeviceType → List String → Outcome DeviceId
unfolding parsed
dev_id_of t (a ∷ b ∷ _) = do
  major ← parsed (parse_u32 a)
  minor ← parsed (parse_u32 b)
  ok (record { type_number = device_type_to_i32 t; major = major; minor = minor })
dev_id_of t _ = panic

module _ {S : Type 0} (files : Files S) where
  -- The devices that mknod made in the temporary directory, if they can be opened at all.
  abbrev pub made_device : String → DeviceType → ℕ → ℕ → Bool × Bool → Device
  made_device path t i j rights = record {
    file = path;
    id = some (record { type_number = device_type_to_i32 t; major = i; minor = j });
    permissions = 0x1C0;
    user = files.uid;
    group = files.gid;
    read_access = rights.0;
    write_access = rights.1;
  }

  unfoldable pub made : String → DeviceType → ℕ → ℕ → Option (Option ℕ × Option ℕ) → List Device
  unfolding opens
  made path t i j none = []
  made path t i j (some (read, write)) =
      if opens read || opens write
      then made_device path t i j (opens read, opens write) ∷ []
      else []

  unfoldable pub try_mknod : String → DeviceType → ℕ → ℕ → List Device
  unfolding made
  try_mknod path t i j = made path t i j (files.mknod t i j)

  unfoldable pub try_numbers : String → ℕ → ℕ → List Device
  try_numbers dir i j =
      let suffix = show_ℕ i <> "_" <> show_ℕ j in
      try_mknod (dir <> "/char_" <> suffix) char i j
      ++ try_mknod (dir <> "/block_" <> suffix) block i j

  unfoldable pub try_minors : String → ℕ → List ℕ → List Device
  try_minors dir i [] = []
  try_minors dir i (j ∷ minors) = try_numbers dir i j ++ try_minors dir i minors

  unfoldable pub try_majors : String → List ℕ → List Device
  try_majors dir [] = []
  try_majors dir (i ∷ majors) = try_minors dir i (range_from 257 0) ++ try_majors dir majors

  -- A search in a temporary directory, which is removed at the end.
  unfoldable pub in_temp_dir : (String → List Device) → Outcome (List Device)
  in_temp_dir search = elim files.temp_dir [
    | inl errno ↦ err (io_error errno)
    | inr dir ↦ elim files.close_dir [ some errno ↦ err (io_error errno) | none ↦ ok (search dir) ]
  ]

  -- `mknod_brute_force`: the majors up to 2^12 and the minors up to 256.
  unfoldable pub mknod_brute_force : Outcome (List Device)
  unfolding try_majors in_temp_dir
  mknod_brute_force = in_temp_dir (λ dir. try_majors dir (range_from 4097 0))

  -- The devices of one kind that are listed in /sys/dev: the names are of the form `major:minor`.
  unfoldable pub sys_devices : DeviceType → Outcome (List DeviceId)
  unfolding dev_id_of
  sys_devices t = do
    names ← or_error io_error (files.sys_dev t)
    traverse (λ name. dev_id_of t (split_on b':' name)) names

  unfoldable pub try_ids : String → DeviceType → List DeviceId → List Device
  unfolding try_mknod
  try_ids prefix t [] = []
  try_ids prefix t (id ∷ ids) =
      try_mknod (prefix <> show_ℕ id.major <> "_" <> show_ℕ id.minor) t id.major id.minor
      ++ try_ids prefix t ids

  -- `_mknod_sys_dev`: mknod on the devices that are listed.
  unfoldable pub mknod_sys_dev : Outcome (List Device)
  unfolding sys_devices try_ids in_temp_dir
  mknod_sys_dev = do
    block_devices ← sys_devices block
    char_devices ← sys_devices char
    in_temp_dir (λ dir.
        try_ids (dir <> "/block_") block block_devices
        ++ try_ids (dir <> "/char_") char char_devices)

  unfoldable pub device_config : S → Outcome DeviceConfig
  device_config s = do
    dev ← parse_dev files s
    mknod ← mknod_brute_force
    ok (record { dev_devices = dev.0; mknod_devices = mknod })
