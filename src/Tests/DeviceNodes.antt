-- ===== src/Tests/DeviceNodes.antt =====
-- The collection of devices (src/c_config/device.rs) from a concrete file system.
use checkc.Base.Sets.{contains, insert, extend}
use checkc.Base.{
  ℕ, ◌≡◌, refl, ap, String, true, false, none, some, List, [], ◌∷◌, inr, ok, Returns, if◌then◌else◌,
  ◌↔◌, ◌==◌, ◌&&◌, nat_eq,
}
use checkc.Base.Int.{pos}
use checkc.Proto.Device.{
  device_type_number, device_type_to_i32, Device, DeviceConfig, char, device_type_eq,
  device_type_beq,
}
use checkc.Evaluation.{dev_whitelist_compliance}
use checkc.Collect.MadeDevices.{IsMade, mknod_brute_force-IsMade}
use checkc.Collect.KnownDevices.{device_config-dev_whitelist_compliance}
use checkc.Base.Paths.{split_on, prepend}
use checkc.Collect.Numbers.{parse_u32, parse_digits, push_digit, is_digit}
use checkc.Base.Text.{show_ℕ}
use checkc.Config.{range_from}
use checkc.Collect.Devices.{
  type_try_from, retry, access, describe, from_metadata, from_file, resolve, from_dev_file,
  add_device, walk_dev, parse_dev, Files, Metadata, device_eq,
}
use checkc.Collect.Mknod.{
  device_config, mknod_brute_force, try_majors, try_mknod, try_numbers, try_minors, made_device,
  mknod_sys_dev,
}

-- One character device, which cannot be opened; mknod is not allowed. The state counts the changes.
abbrev null_metadata : Metadata
null_metadata = record { st_mode = 0x21B6; major = 1; minor = 3; st_uid = 0; st_gid = 0 }

abbrev pub files : Files ℕ
files = record {
  canonicalize = λ path. inr path;
  read_link = λ path. none;
  metadata = λ path s. inr null_metadata;
  open_read = λ path s. some 13;
  open_write = λ path s. some 13;
  chown = λ path s. s;
  chmod = λ path mode s. s;
  entries = ("/dev", true) ∷ ("/dev/null", false) ∷ [];
  temp_dir = inr "/dev/tmp";
  mknod = λ t i j. none;
  sys_dev = λ t. inr [];
  close_dir = none;
  uid = 0;
  gid = 0;
}

no_minors : (dir : String) (i : ℕ) (minors : List ℕ) → try_minors files dir i minors ≡ []
unfolding try_minors try_numbers try_mknod
no_minors dir i [] = refl
no_minors dir i (j ∷ minors) = no_minors dir i minors

no_majors : (dir : String) (majors : List ℕ) → try_majors files dir majors ≡ []
unfolding try_majors
no_majors dir [] = refl
no_majors dir (i ∷ majors) = rw (no_minors dir i (range_from 257 0)) (no_majors dir majors)

abbrev null_device : Device
null_device = record {
  file = "/dev/null";
  id = some (record { type_number = pos 1; major = 1; minor = 3 });
  permissions = 0x1B6;
  user = 0;
  group = 0;
  read_access = false;
  write_access = false;
}

abbrev pub collected : DeviceConfig
collected = record { dev_devices = null_device ∷ []; mknod_devices = [] }

found_null : parse_dev files 0 ≡ ok (null_device ∷ [], 0)
unfolding parse_dev walk_dev add_device from_dev_file resolve from_file from_metadata describe
    access retry type_try_from device_type_to_i32 device_type_number extend insert contains
found_null = refl

made_none : mknod_brute_force files ≡ ok []
unfolding mknod_brute_force
made_none = ap ok (no_majors "/dev/tmp" (range_from 4097 0))

pub devices_collected : device_config files 0 ≡ ok collected
unfolding device_config
devices_collected = rw (found_null, made_none) refl

device_config-dev_whitelist_compliance_example :
    Returns (dev_whitelist_compliance (null_device ∷ []) true)
    × Returns (dev_whitelist_compliance [] true)
device_config-dev_whitelist_compliance_example =
    device_config-dev_whitelist_compliance files 0 true devices_collected

-- Of all numbers mknod makes only those of /dev/null, and opening that for writing fails.
abbrev null_only : Files ℕ
null_only = record {
  canonicalize = λ path. inr path;
  read_link = λ path. none;
  metadata = λ path s. inr null_metadata;
  open_read = λ path s. some 13;
  open_write = λ path s. some 13;
  chown = λ path s. s;
  chmod = λ path mode s. s;
  entries = [];
  temp_dir = inr "/dev/tmp";
  mknod = λ t i j. if t == char && i == 1 && j == 3 then some (none, some 13) else none;
  sys_dev = λ t. inr (if t == char then "1:3" ∷ "4:0" ∷ [] else "8:0" ∷ []);
  close_dir = none;
  uid = 0;
  gid = 0;
}

abbrev made_null : Device
made_null = made_device null_only "/dev/tmp/char_1_3" char 1 3 (true, false)

abbrev all_made : List Device
all_made = try_majors null_only "/dev/tmp" (range_from 4097 0)

all_tried : mknod_brute_force null_only ≡ ok all_made
unfolding mknod_brute_force
all_tried = refl

mknod_brute_force-IsMade_example :
    (contains all_made made_null ≡ true) ↔ IsMade null_only "/dev/tmp" made_null
mknod_brute_force-IsMade_example =
    mknod_brute_force-IsMade null_only "/dev/tmp" all_tried refl made_null

listed_made : mknod_sys_dev null_only ≡ ok (made_null ∷ [])
unfolding mknod_sys_dev parse_u32 parse_digits push_digit is_digit show_ℕ device_type_beq split_on
    prepend
listed_made = refl
