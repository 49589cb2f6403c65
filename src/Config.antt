-- ===== src/Config.antt =====
-- src/config/mod.rs: the tables that the collection and the evaluation consult.
pub mod CapSec
use checkc.Base.{ℕ, zero, suc, ◌+◌, String, true, List, [], ◌∷◌, ◌++◌, map, some}
use checkc.Base.Int.{ℤ}
use checkc.Base.Sets.{extend}
use checkc.Proto.Device.{DeviceType, char, DeviceId, Device, device_type_to_i32, device_type_eq}
use checkc.Base.{nat_eq, pair_eq}

-- `FLAG_LOCATION_ALLOW`, `MOUNTPOINT_PATH_SKIPS` and `FLAG_SEARCH_PATH_SKIPS`.
abbrev pub flag_location_allow : List String
flag_location_allow = []

abbrev pub mountpoint_path_skips : List String
mountpoint_path_skips = []

abbrev pub flag_search_path_skips : List String
flag_search_path_skips = []

-- `MOUNTPOINT_FS_SKIPS`.
abbrev pub mountpoint_fs_skips : List String
mountpoint_fs_skips =
    "proc" ∷ "sysfs" ∷ "devtmpfs" ∷ "devpts" ∷ "securityfs" ∷ "cgroup" ∷ "cgroup2" ∷ "pstore"
    ∷ "efivarfs" ∷ "bpf" ∷ "autofs" ∷ "mqueue" ∷ "hugetlbfs" ∷ "debugfs" ∷ "tracefs" ∷ "fusectl"
    ∷ "configfs" ∷ "binfmt_misc" ∷ []

-- `CGROUPS_CONTROLLERS_REQUIRED`.
abbrev pub cgroups_controllers_required : List ℤ
cgroups_controllers_required = []

-- The `n` numbers from `i` on: `i..i + n`.
unfoldable pub range_from : ℕ → ℕ → List ℕ
range_from zero i = []
range_from (suc n) i = i ∷ range_from n (i + 1)

-- `DEV_MAJOR_WHITELIST`: the loop over `136..=143`.
unfoldable pub dev_major_whitelist : List (DeviceType × ℕ)
unfolding range_from
dev_major_whitelist = extend [] (map (λ i. (char, i)) (range_from 8 136))

-- An entry of a whitelist, by its file, major and minor number.
abbrev pub char_device : String → ℕ → ℕ → DeviceId × Device
char_device file major minor =
    let id : DeviceId = record {
      type_number = device_type_to_i32 char;
      major = major;
      minor = minor;
    } in
    (
      id,
      record {
        file = file;
        id = some id;
        permissions = 0;
        user = 0;
        group = 0;
        read_access = true;
        write_access = true;
      },
    )

-- `DEV_WHITELIST_GENERAL`, in two parts.
abbrev pub memory_and_pty_devices : List (DeviceId × Device)
memory_and_pty_devices =
    char_device "/dev/null" 1 3
    ∷ char_device "/dev/zero" 1 5
    ∷ char_device "/dev/full" 1 7
    ∷ char_device "/dev/random" 1 8
    ∷ char_device "/dev/urandom" 1 9
    ∷ char_device "ptmx" 5 2
    ∷ []

abbrev pub tty_and_other_devices : List (DeviceId × Device)
tty_and_other_devices =
    char_device "/dev/tty" 5 0
    ∷ char_device "/dev/tty0" 4 0
    ∷ char_device "/dev/tty1" 4 1
    ∷ char_device "/dev/net/tun" 10 200
    ∷ char_device "/dev/hwrng" 10 183
    ∷ char_device "" 0 0
    ∷ []

unfoldable pub dev_whitelist_general : List (DeviceId × Device)
unfolding device_type_to_i32
dev_whitelist_general = memory_and_pty_devices ++ tty_and_other_devices

-- `DEV_WHITELIST_UNPRIVILEGED`.
unfoldable pub dev_whitelist_unprivileged : List (DeviceId × Device)
unfolding device_type_to_i32
dev_whitelist_unprivileged = char_device "/dev/fuse" 10 229 ∷ []
