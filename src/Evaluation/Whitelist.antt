-- ===== src/Evaluation/Whitelist.antt =====
-- Which devices comply with the whitelists, by type and number.
use checkc.Base.{
  Option-cases, >>=-elim, unwrap-eq-ok, ℕ, zero, suc, ◌≡◌, refl, ◌∙◌, Bool, true, false, ◌&&◌, ◌||◌,
  none, some, List, [], ◌∷◌, map, arith, leb, ok, unwrap, All, is_empty, ◌==◌, nat_eq, pair_eq,
  Bool-cases, inl, inr, String,
}
use checkc.Base.Int.{ℤ, pos, negsuc, int_eq}
use checkc.Base.Sets.{contains, any, all, extend, insert}
use checkc.Base.Maps
use checkc.Base.Maps.{contains_key}
use checkc.Proto.Device.{
  DeviceType, char, block, socket, fifo, Device, DeviceId, device_id_type, device_id_eq,
  device_type_eq, device_type_beq, device_type_from_i32, device_type_to_i32, device_type_of,
}
use checkc.Proto.Evaluation.{TestResult}
use checkc.Config.{dev_major_whitelist, dev_whitelist_general, dev_whitelist_unprivileged}
use checkc.Evaluation.Devices.{
  is_whitelisted, is_skipped, device_line, describe_device, not_allowed_devices,
  dev_whitelist_compliance,
}

-- The numbers of the character devices that every container may have.
abbrev pub general_numbers : List (ℕ × ℕ)
general_numbers =
    (1, 3)
    ∷ (1, 5)
    ∷ (1, 7)
    ∷ (1, 8)
    ∷ (1, 9)
    ∷ (5, 2)
    ∷ (5, 0)
    ∷ (4, 0)
    ∷ (4, 1)
    ∷ (10, 200)
    ∷ (10, 183)
    ∷ (0, 0)
    ∷ []

-- A character device with these numbers is on a whitelist; `/dev/fuse` only for a container with a
-- user namespace of its own.
pub is_allowed_number : Bool → ℕ → ℕ → Bool
is_allowed_number unprivileged major minor =
    (leb 136 major && leb major 143)
    || any (λ (p : ℕ × ℕ). p.0 == major && p.1 == minor) general_numbers
    || (unprivileged && major == 10 && minor == 229)

-- Sockets and pipes comply, character devices by their numbers, block devices never.
pub complies : Bool → DeviceId → Bool
unfolding is_allowed_number
complies unprivileged id = elim (device_id_type id) [
  | block ↦ false
  | char ↦ is_allowed_number unprivileged id.major id.minor
  | socket ↦ true
  | fifo ↦ true
]

major_whitelisted :
    (t : DeviceType) (major : ℕ)
    → contains dev_major_whitelist (t, major) ≡ (t == char && leb 136 major && leb major 143)
unfolding contains dev_major_whitelist extend insert device_type_beq
major_whitelisted block major = ground arith
major_whitelisted char major = ground arith
major_whitelisted socket major = ground arith
major_whitelisted fifo major = ground arith

-- Only a character device has the number of one.
type_number_of_char : (n : ℤ) → (n == pos 1) ≡ (device_type_of n == char)
unfolding device_type_of device_type_beq
type_number_of_char (pos zero) = refl
type_number_of_char (pos (suc zero)) = refl
type_number_of_char (pos (suc (suc zero))) = refl
type_number_of_char (pos (suc (suc (suc zero)))) = refl
type_number_of_char (pos (suc (suc (suc (suc n))))) = ground arith
type_number_of_char (negsuc n) = refl

abbrev device_entry : ℕ × ℕ → DeviceId
device_entry (major, minor) = record {
  type_number = device_type_to_i32 char;
  major = major;
  minor = minor;
}

-- Looking an identifier up among character devices.
contains-device_entry :
    (ps : List (ℕ × ℕ)) (id : DeviceId)
    → contains (map device_entry ps) id
      ≡ (device_id_type id == char && any (λ (p : ℕ × ℕ). p.0 == id.major && p.1 == id.minor) ps)
unfolding contains any device_id_type device_type_to_i32
contains-device_entry [] id = ground arith
contains-device_entry ((major, minor) ∷ ps) id =
    ground (arith, type_number_of_char id.type_number, contains-device_entry ps id)

general_whitelisted :
    (id : DeviceId)
    → contains_key dev_whitelist_general id ≡ (
        device_id_type id == char
        && any (λ (p : ℕ × ℕ). p.0 == id.major && p.1 == id.minor) general_numbers)
unfolding dev_whitelist_general
general_whitelisted id =
    Maps.contains_key-keys dev_whitelist_general id ∙ contains-device_entry general_numbers id

unprivileged_whitelisted :
    (id : DeviceId)
    → contains_key dev_whitelist_unprivileged id
      ≡ (device_id_type id == char && id.major == 10 && id.minor == 229)
unfolding dev_whitelist_unprivileged any
unprivileged_whitelisted id =
    Maps.contains_key-keys dev_whitelist_unprivileged id
    ∙ contains-device_entry ((10, 229) ∷ []) id
    ∙ ground arith

-- The tests of the loop come to `complies`.
allowed-complies :
    (unprivileged : Bool) (id : DeviceId)
    → (is_skipped id || is_whitelisted unprivileged id) ≡ complies unprivileged id
unfolding is_skipped is_whitelisted complies device_type_beq
allowed-complies unprivileged id = by_type (device_id_type id) refl
  where
    by_type :
        (t : DeviceType)
        → device_id_type id ≡ t
        → (is_skipped id || is_whitelisted unprivileged id) ≡ complies unprivileged id
    by_type t e = ground (
      arith,
      major_whitelisted (device_id_type id) id.major,
      general_whitelisted id,
      unprivileged_whitelisted id,
    )

-- A device with an identifier whose type is one of the four.
abbrev pub IsDevice : Device → Type 0
IsDevice dev =
    (id : DeviceId) × (t : DeviceType) × (dev.id ≡ some id)
    × (device_type_from_i32 id.type_number ≡ some t)

abbrev pub device_complies : Bool → Device → Bool
device_complies unprivileged dev = elim dev.id [ none ↦ false | some id ↦ complies unprivileged id ]

not_allowed-Returns :
    (unprivileged : Bool) (devices : List Device)
    → All IsDevice devices
    → (lines : List String) × (not_allowed_devices unprivileged devices ≡ ok lines)
      × (is_empty lines ≡ all (device_complies unprivileged) devices)
unfolding not_allowed_devices describe_device all
not_allowed-Returns unprivileged [] h = ([], refl, refl)
not_allowed-Returns unprivileged (dev ∷ devices) ((id, t, e, f), h) =
    let (lines, r, c) = not_allowed-Returns unprivileged devices h in
    elim (Bool-cases (complies unprivileged id)) [
      | inl y ↦ (lines, rw (e, allowed-complies unprivileged id, y, r), rw (e, y, c))
      | inr n ↦ (
        device_line t id dev.file ∷ lines,
        rw (e, allowed-complies unprivileged id, n, f, r),
        rw (e, n),
      )
    ]

-- On devices with identifiers of known types the check returns, its test is valid, and it passes
-- exactly if every device complies.
pub dev_whitelist_compliance-exact :
    (devices : List Device) (unprivileged : Bool)
    → All IsDevice devices
    → (t : TestResult) × (dev_whitelist_compliance devices unprivileged ≡ ok t)
      × (t.valid ≡ true)
      × (t.passed ≡ all (device_complies unprivileged) devices)
unfolding dev_whitelist_compliance
dev_whitelist_compliance-exact devices unprivileged h =
    let (lines, r, c) = not_allowed-Returns unprivileged devices h in
    (record { passed = is_empty lines; valid = true; info = lines }, rw r, refl, c)

unknown-complies :
    (unprivileged : Bool) (id : DeviceId)
    → device_type_from_i32 id.type_number ≡ none
    → complies unprivileged id ≡ false
unfolding complies device_id_type device_type_of
unknown-complies unprivileged id e = rw (complies, device_id_type, device_type_of, e) refl

not_allowed-IsDevice :
    (unprivileged : Bool) (devices : List Device) {lines : List String}
    → not_allowed_devices unprivileged devices ≡ ok lines
    → All IsDevice devices
unfolding not_allowed_devices describe_device
not_allowed-IsDevice unprivileged [] h = tt
not_allowed-IsDevice unprivileged (dev ∷ devices) {lines} h =
    >>=-elim (unwrap dev.id) _ h λ id i h1.
      elim (Option-cases (device_type_from_i32 id.type_number)) [
        | inl e ↦
            absurd
              (cc (h1, e, allowed-complies unprivileged id, unknown-complies unprivileged id e))
        | inr (t, e) ↦ (
          (id, t, unwrap-eq-ok dev.id i, e),
          elim (Bool-cases (complies unprivileged id)) [
            | inl y ↦
                not_allowed-IsDevice unprivileged devices {lines = lines}
                  (cc (h1, allowed-complies unprivileged id, y))
            | inr n ↦
                >>=-elim (not_allowed_devices unprivileged devices)
                  (λ others. ok (device_line t id dev.file ∷ others)) {b = lines}
                  (cc (h1, e, allowed-complies unprivileged id, n))
                  λ others j k. not_allowed-IsDevice unprivileged devices j
          ],
        )
      ]

-- Conversely, a check returns only on devices with identifiers of known types.
pub dev_whitelist_compliance-IsDevice :
    (devices : List Device) (unprivileged : Bool) {t : TestResult}
    → dev_whitelist_compliance devices unprivileged ≡ ok t
    → All IsDevice devices
unfolding dev_whitelist_compliance
dev_whitelist_compliance-IsDevice devices unprivileged h =
    >>=-elim (not_allowed_devices unprivileged devices) _ h
      λ lines i h1. not_allowed-IsDevice unprivileged devices i
