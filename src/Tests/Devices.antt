-- ===== src/Tests/Devices.antt =====
-- The device whitelists (src/evaluation/mod.rs) at concrete inputs.
use checkc.Base.{◌≡◌, refl, true, some, List, [], ◌∷◌, ok, All, false, String, ℕ}
use checkc.Base.Int.{ℤ, pos}
use checkc.Base.Sets.{all, contains, extend, insert}
use checkc.Base.Maps
use checkc.Config.{
  dev_major_whitelist, dev_whitelist_general, dev_whitelist_unprivileged, range_from,
}
use checkc.Proto.Device.{
  char, block, Device, device_type_from_i32, device_type_beq, device_id_type, device_type_of,
  device_type_to_i32, device_type_number,
}
use checkc.Proto.Evaluation.{TestResult}
use checkc.Evaluation.Devices.{
  dev_whitelist_compliance, not_allowed_devices, is_skipped, is_whitelisted,
}
use checkc.Evaluation.Whitelist.{IsDevice, device_complies, dev_whitelist_compliance-exact}

abbrev device : String → ℤ → ℕ → ℕ → Device
device file t major minor = record {
  file = file;
  id = some (record { type_number = t; major = major; minor = minor });
  permissions = 0;
  user = 0;
  group = 0;
  read_access = true;
  write_access = true;
}

-- A null device, a fuse device and a disk.
abbrev devices : List Device
devices =
    device "/dev/null" (pos 1) 1 3
    ∷ device "/dev/fuse" (pos 1) 10 229
    ∷ device "/dev/sda" (pos 0) 8 0
    ∷ []

devices-IsDevice : All IsDevice devices
unfolding device_type_from_i32
devices-IsDevice = ((_, char, refl, refl), ((_, char, refl, refl), ((_, block, refl, refl), tt)))

dev_whitelist_compliance-exact_example :
    (t : TestResult) × (dev_whitelist_compliance devices true ≡ ok t)
    × (t.valid ≡ true)
    × (t.passed ≡ all (device_complies true) devices)
dev_whitelist_compliance-exact_example =
    dev_whitelist_compliance-exact devices true devices-IsDevice

abbrev null_device : List Device
null_device = device "/dev/null" (pos 1) 1 3 ∷ []

null_device_checked :
    dev_whitelist_compliance null_device false
    ≡ ok (record { passed = true; valid = true; info = [] })
unfolding dev_whitelist_compliance not_allowed_devices is_skipped is_whitelisted contains
    dev_major_whitelist dev_whitelist_general dev_whitelist_unprivileged extend insert range_from
    device_type_beq device_id_type device_type_of device_type_from_i32 device_type_to_i32
    device_type_number Maps.lookup
null_device_checked = refl
