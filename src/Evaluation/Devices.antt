-- ===== src/Evaluation/Devices.antt =====
-- `dev_whitelist_compliance` and `category_devices` of src/evaluation/mod.rs.
use checkc.Base.{
  String, Bool, true, not, ◌||◌, ◌&&◌, none, List, [], ◌∷◌, Outcome, ok, ◌>>=◌, unwrap,
  if◌then◌else◌, is_empty, ◌==◌, nat_eq, pair_eq, string_eq,
}
use checkc.Base.Sets.{contains}
use checkc.Base.Maps
use checkc.Base.Maps.{contains_key}
use checkc.Base.Text.{◌<>◌, show_ℕ}
use checkc.Proto.Device.{
  DeviceType, char, block, Device, DeviceId, device_id_type, device_id_eq, device_type_eq,
  device_type_from_i32, device_type_show,
}
use checkc.Proto.Ns.{NsType, ns_type_eq}
use checkc.Proto.Caps.{Capability, capability_eq}
use checkc.Proto.Host.{Config}
use checkc.Proto.Evaluation.{TestResult, Category}
use checkc.Evaluation.Categories.{category_capabilities}
use checkc.Config.{dev_major_whitelist, dev_whitelist_general, dev_whitelist_unprivileged}

-- The three tests in the loop: the device is allowed without further looks.
unfoldable pub is_whitelisted : Bool → DeviceId → Bool
is_whitelisted unprivileged id =
    contains dev_major_whitelist (device_id_type id, id.major)
    || contains_key dev_whitelist_general id
    || (unprivileged && contains_key dev_whitelist_unprivileged id)

-- Devices that are neither character nor block devices are skipped.
unfoldable pub is_skipped : DeviceId → Bool
is_skipped id = not (device_id_type id == char) && not (device_id_type id == block)

-- `dev_str`.
unfoldable pub device_line : DeviceType → DeviceId → String → String
device_line t id file =
    device_type_show t <> " " <> show_ℕ id.major <> ":" <> show_ℕ id.minor <> " at " <> file

-- The type is read from its number, which panics where `r#type()` falls back.
unfoldable pub describe_device : DeviceId → String → Outcome String
unfolding device_line
describe_device id file = do
  t ← unwrap (device_type_from_i32 id.type_number)
  ok (device_line t id file)

-- The loop, which collects `not_allowed_dev`.
unfoldable pub not_allowed_devices : Bool → List Device → Outcome (List String)
not_allowed_devices unprivileged [] = ok []
not_allowed_devices unprivileged (dev ∷ devices) = do
  id ← unwrap dev.id
  let rest = not_allowed_devices unprivileged devices
  if is_skipped id || is_whitelisted unprivileged id
      then rest
      else do dev_str ← describe_device id dev.file; others ← rest; ok (dev_str ∷ others)

unfoldable pub dev_whitelist_compliance : List Device → Bool → Outcome TestResult
dev_whitelist_compliance devices unprivileged = do
  not_allowed_dev ← not_allowed_devices unprivileged devices
  ok (record { passed = is_empty not_allowed_dev; valid = true; info = not_allowed_dev })

abbrev pub device_capabilities : List Capability
device_capabilities =
    Capability.cap_mknod ∷ Capability.cap_sys_rawio ∷ Capability.cap_sys_tty_config ∷ []

unfoldable pub category_devices : Config → List NsType → List Capability → Outcome Category
unfolding category_capabilities
category_devices config ns_set capabilities = do
  device_config ← unwrap config.device_config
  dev ← dev_whitelist_compliance device_config.dev_devices (contains ns_set NsType.user)
  mknod ← dev_whitelist_compliance device_config.mknod_devices (contains ns_set NsType.user)
  ok (record {
    isolation = none;
    capabilities = category_capabilities device_capabilities capabilities;
    tests =
        Maps.insert "mknod_whitelist_compliance" mknod
          (Maps.insert "dev_whitelist_compliance" dev []);
    description = "Capabilities related to device handling, device whitelist compliance";
  })
