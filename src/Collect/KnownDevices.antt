-- ===== src/Collect/KnownDevices.antt =====
-- The devices that src/c_config/device.rs collects: all have identifiers of known types, so that the
-- evaluation's check of them returns.
use Prim.Native.Nat.{bit_and}
use mathlib.Core.Path.{subst}
use checkc.Base.{
  io_error, ◌==◌, nat_eq, ℕ, ◌≡◌, refl, ◌∙◌, ap, String, Bool, true, false, ◌||◌, Option, none,
  some, List, [], ◌∷◌, ◌++◌, Outcome, ok, err, panic, >>=-elim, ◌⊎◌, inl, inr, if◌then◌else◌,
  Bool-cases, All, Returns,
}
use checkc.Base.Sets.{extend, insert, contains}
use checkc.Config.{range_from}
use checkc.Proto.Device.{DeviceType, char, block, Device, DeviceConfig, device_type_from_i32-to_i32}
use checkc.Evaluation.{dev_whitelist_compliance}
use checkc.Evaluation.Whitelist.{IsDevice, dev_whitelist_compliance-exact}
use checkc.Collect.Devices.{
  Files, Metadata, device_eq, type_try_from, device_of, describe, access, resolve, s_ifmt,
  add_device, from_file, from_metadata, from_dev_file, walk_dev, parse_dev, opens,
}
use checkc.Collect.Mknod.{
  made_device, made, in_temp_dir, try_mknod, try_numbers, try_minors, try_majors, mknod_brute_force,
  device_config,
}

All-append : (xs ys : List Device) → All IsDevice xs → All IsDevice ys → All IsDevice (xs ++ ys)
All-append [] ys h k = k
All-append (x ∷ xs) ys h k = (h.0, All-append xs ys h.1 k)

All-if :
    (b : Bool) (xs ys : List Device)
    → All IsDevice xs
    → All IsDevice ys
    → All IsDevice (if b then xs else ys)
All-if true xs ys h k = h
All-if false xs ys h k = k

All-extend : (xs ys : List Device) → All IsDevice xs → All IsDevice ys → All IsDevice (extend xs ys)
unfolding extend insert
All-extend xs [] h k = h
All-extend xs (y ∷ ys) h k =
    All-extend (insert y xs) ys (All-if (contains xs y) xs (y ∷ xs) h (k.0, h)) k.1

-- The parts of a result, where there is one.
abbrev no_device : Device
no_device = record {
  file = "";
  id = none;
  permissions = 0;
  user = 0;
  group = 0;
  read_access = false;
  write_access = false;
}

module _ {S : Type 0} where
  abbrev device_in : Outcome (Device × S) → Device
  device_in panic = no_device
  device_in (err _) = no_device
  device_in (ok found) = found.0

  abbrev devices_in : Outcome (List Device × S) → List Device
  devices_in panic = []
  devices_in (err _) = []
  devices_in (ok found) = found.0

abbrev dev_in : Outcome DeviceConfig → List Device
dev_in panic = []
dev_in (err _) = []
dev_in (ok config) = config.dev_devices

abbrev mknod_in : Outcome DeviceConfig → List Device
mknod_in panic = []
mknod_in (err _) = []
mknod_in (ok config) = config.mknod_devices

-- A search in a temporary directory that returned.
pub in_temp_dir-ok :
    {S : Type 0} (files : Files S) (search : String → List Device) {devices : List Device}
    → in_temp_dir files search ≡ ok devices
    → (dir : String) × (files.temp_dir ≡ inr dir) × (search dir ≡ devices)
unfolding in_temp_dir
in_temp_dir-ok files search {devices} h = by_dir files.temp_dir files.close_dir h
  where
    by_dir :
        (temp_dir : ℕ ⊎ String) (closed : Option ℕ)
        → elim temp_dir [
          | inl errno ↦ err (io_error errno)
          | inr dir ↦ elim closed [ some errno ↦ err (io_error errno) | none ↦ ok (search dir) ]
        ]
          ≡ ok devices
        → (dir : String) × (temp_dir ≡ inr dir) × (search dir ≡ devices)
    by_dir (inl errno) closed k = absurd (cc k)
    by_dir (inr dir) (some errno) k = absurd (cc k)
    by_dir (inr dir) none k = (dir, refl, cc k)

module _ {S : Type 0} (files : Files S) where
  made_device-IsDevice :
      (path : String) (t : DeviceType) (i j : ℕ) (rights : Bool × Bool)
      → IsDevice (made_device files path t i j rights)
  made_device-IsDevice path t i j rights = (_, t, refl, device_type_from_i32-to_i32 t)

  made-IsDevice :
      (path : String) (t : DeviceType) (i j : ℕ) (o : Option (Option ℕ × Option ℕ))
      → All IsDevice (made files path t i j o)
  unfolding made
  made-IsDevice path t i j none = tt
  made-IsDevice path t i j (some (read, write)) =
      All-if (opens read || opens write) _ []
        (made_device-IsDevice path t i j (opens read, opens write), tt) tt

  try_mknod-IsDevice :
      (path : String) (t : DeviceType) (i j : ℕ) → All IsDevice (try_mknod files path t i j)
  unfolding try_mknod
  try_mknod-IsDevice path t i j = made-IsDevice path t i j (files.mknod t i j)

  try_minors-IsDevice :
      (dir : String) (i : ℕ) (minors : List ℕ) → All IsDevice (try_minors files dir i minors)
  unfolding try_minors try_numbers
  try_minors-IsDevice dir i [] = tt
  try_minors-IsDevice dir i (j ∷ minors) =
      All-append _ _
        (All-append _ _ (try_mknod-IsDevice _ char i j) (try_mknod-IsDevice _ block i j))
        (try_minors-IsDevice dir i minors)

  try_majors-IsDevice :
      (dir : String) (majors : List ℕ) → All IsDevice (try_majors files dir majors)
  unfolding try_majors
  try_majors-IsDevice dir [] = tt
  try_majors-IsDevice dir (i ∷ majors) =
      All-append _ _ (try_minors-IsDevice dir i (range_from 257 0)) (try_majors-IsDevice dir majors)

  mknod_brute_force-IsDevice :
      {devices : List Device} → mknod_brute_force files ≡ ok devices → All IsDevice devices
  unfolding mknod_brute_force
  mknod_brute_force-IsDevice h =
      let (dir, _, same) = in_temp_dir-ok files _ h in
      subst (All IsDevice) same (try_majors-IsDevice dir (range_from 4097 0))

  describe-IsDevice :
      (path : String) (m : Metadata) (s : S) (o : Option DeviceType) {found : Device × S}
      → describe files path m s o ≡ ok found
      → IsDevice found.0
  unfolding describe
  describe-IsDevice path m s none h = absurd (cc h)
  describe-IsDevice path m s (some t) {found} h =
      let same : device_of files path t m (access files path s).0 ≡ found.0 = ap device_in h in
      subst IsDevice same (_, t, refl, device_type_from_i32-to_i32 t)

  from_file-IsDevice :
      (path : String) (s : S) (o : ℕ ⊎ Metadata) {found : Device × S}
      → from_file files path s o ≡ ok found
      → IsDevice found.0
  unfolding from_file from_metadata
  from_file-IsDevice path s (inl errno) h = absurd (cc h)
  from_file-IsDevice path s (inr m) {found} h =
      elim (Bool-cases (bit_and m.st_mode s_ifmt == 0x8000 || bit_and m.st_mode s_ifmt == 0x4000)) [
        | inl y ↦ absurd (cc (h, y))
        | inr n ↦ describe-IsDevice path m s (type_try_from m.st_mode) {found = found} (cc (h, n))
      ]

  add_device-IsDevice :
      (rest : S → Outcome (List Device × S)) (s : S) (o : Outcome (Device × S))
      {found : List Device × S}
      → ((one : Device × S) → o ≡ ok one → IsDevice one.0)
      → ((t : S) (others : List Device × S) → rest t ≡ ok others → All IsDevice others.0)
      → add_device files rest s o ≡ ok found
      → All IsDevice found.0
  unfolding add_device
  add_device-IsDevice rest s panic known all_known h = absurd (cc h)
  add_device-IsDevice rest s (err e) {found} known all_known h = all_known s found h
  add_device-IsDevice rest s (ok (device, s')) {found} known all_known h =
      >>=-elim (rest s') _ h λ others e k.
        let same : device ∷ others.0 ≡ found.0 = ap devices_in k in
        subst (All IsDevice) same (known (device, s') refl, all_known s' others e)

  walk_dev-IsDevice :
      (entries : List (String × Bool)) (s : S) (found : List Device × S)
      → walk_dev files entries s ≡ ok found
      → All IsDevice found.0
  unfolding walk_dev from_dev_file
  walk_dev-IsDevice [] s found h =
      let same : [] ≡ found.0 = ap devices_in h in subst (All IsDevice) same tt
  walk_dev-IsDevice ((path, is_dir) ∷ entries) s found h = elim (Bool-cases is_dir) [
    | inl y ↦ walk_dev-IsDevice entries s found (cc (h, y))
    | inr n ↦
        add_device-IsDevice (walk_dev files entries) s (from_dev_file files path s) {found = found}
          (λ one e.
            >>=-elim (resolve files path) _ e
              λ real i k. from_file-IsDevice real s (files.metadata real s) {found = one} k)
          (λ t others e. walk_dev-IsDevice entries t others e) (cc (h, n))
  ]

  -- Every device that is collected, in /dev or by mknod, has an identifier of a known type.
  pub device_config-IsDevice :
      (s : S) {config : DeviceConfig}
      → device_config files s ≡ ok config
      → All IsDevice config.dev_devices × All IsDevice config.mknod_devices
  unfolding device_config parse_dev
  device_config-IsDevice s {config} h = >>=-elim (parse_dev files s) _ h λ dev i h1.
      >>=-elim (mknod_brute_force files) _ h1 λ mknod j h2.
        >>=-elim (walk_dev files files.entries s) _ i λ found k i1.
          let same : extend [] found.0 ≡ dev.0 = ap devices_in i1 in
          let known = All-extend [] found.0 tt (walk_dev-IsDevice files.entries s found k) in
          (
            subst (All IsDevice) (same ∙ ap dev_in h2) known,
            subst (All IsDevice) (ap mknod_in h2) (mknod_brute_force-IsDevice j),
          )

  -- The evaluation's check of the devices returns on those that were collected in /dev and on those that
  -- mknod made, for any container.
  pub device_config-dev_whitelist_compliance :
      (s : S) (unprivileged : Bool) {config : DeviceConfig}
      → device_config files s ≡ ok config
      → Returns (dev_whitelist_compliance config.dev_devices unprivileged)
        × Returns (dev_whitelist_compliance config.mknod_devices unprivileged)
  device_config-dev_whitelist_compliance s unprivileged {config} h =
      let (dev, mknod) = device_config-IsDevice s h in
      let (a, e, _, _) = dev_whitelist_compliance-exact config.dev_devices unprivileged dev in
      let (b, k, _, _) = dev_whitelist_compliance-exact config.mknod_devices unprivileged mknod in
      ((a, e), (b, k))
