-- ===== src/Proto/Device.antt =====
-- protos/c_config/device.proto.
use mathlib.Core.Option.{some-injective}
use checkc.Base.{
  ℕ, String, ◌≡◌, refl, sym, ap, ◌∙◌, ◌↔◌, Bool, true, ◌&&◌, Option, none, some, List, [], ◌∷◌,
  arith, nat_beq, get_elem?, Eq, ◌==◌, nat_eq, index-beq_iff,
}
use checkc.Base.Int.{ℤ, pos, negsuc, int_eq, int_beq_iff}

-- `enum Type`.
pub data DeviceType : Type 0 where
  block char socket fifo : DeviceType

-- The number of a value in the `.proto` file.
unfoldable pub device_type_number : DeviceType → ℕ
device_type_number block = 0
device_type_number char = 1
device_type_number socket = 2
device_type_number fifo = 3

abbrev device_type_values : List DeviceType
device_type_values = block ∷ char ∷ socket ∷ fifo ∷ []

-- `DeviceType::from_i32`.
unfoldable pub device_type_from_i32 : ℤ → Option DeviceType
device_type_from_i32 (pos n) = get_elem? device_type_values n
device_type_from_i32 (negsuc n) = none

-- `as i32` and `into`.
unfoldable pub device_type_to_i32 : DeviceType → ℤ
unfolding device_type_number
device_type_to_i32 t = pos (device_type_number t)

-- A value survives its conversion to a number and back.
pub device_type_from_i32-to_i32 :
    (t : DeviceType) → device_type_from_i32 (device_type_to_i32 t) ≡ some t
unfolding device_type_from_i32 device_type_to_i32
device_type_from_i32-to_i32 block = refl
device_type_from_i32-to_i32 char = refl
device_type_from_i32-to_i32 socket = refl
device_type_from_i32-to_i32 fifo = refl

device_type_number-injective :
    (a b : DeviceType) → device_type_number a ≡ device_type_number b → a ≡ b
unfolding device_type_to_i32
device_type_number-injective a b h = some-injective a b (
    sym (device_type_from_i32-to_i32 a)
    ∙ ap (λ n. device_type_from_i32 (pos n)) h
    ∙ device_type_from_i32-to_i32 b)

unfoldable pub device_type_beq : DeviceType → DeviceType → Bool
unfolding device_type_number
device_type_beq a b = nat_beq (device_type_number a) (device_type_number b)

pub device_type_beq_iff : (a b : DeviceType) → (device_type_beq a b ≡ true) ↔ (a ≡ b)
unfolding device_type_beq
device_type_beq_iff a b = index-beq_iff device_type_number device_type_number-injective a b

instance abbrev pub device_type_eq : Eq DeviceType
device_type_eq = record { beq = device_type_beq; beq_iff = device_type_beq_iff }

-- `Display` of a `device::Type` (lib.rs).
unfoldable pub device_type_show : DeviceType → String
device_type_show block = "block"
device_type_show char = "char"
device_type_show socket = "socket"
device_type_show fifo = "fifo"

-- `message Id`.
pub record DeviceId : Type 0 where
  pub type_number : ℤ
  pub major : ℕ
  pub minor : ℕ

abbrev pub device_id_beq : DeviceId → DeviceId → Bool
device_id_beq a b = a.type_number == b.type_number && a.major == b.major && a.minor == b.minor

pub device_id_beq_iff : (a b : DeviceId) → (device_id_beq a b ≡ true) ↔ (a ≡ b)
device_id_beq_iff a b = ground (arith, int_beq_iff a.type_number b.type_number)

instance abbrev pub device_id_eq : Eq DeviceId
device_id_eq = record { beq = device_id_beq; beq_iff = device_id_beq_iff }

-- `id.r#type()`: a number that is no `Type` reads as the default, `Block`.
unfoldable pub device_type_of : ℤ → DeviceType
unfolding device_type_from_i32
device_type_of n = elim (device_type_from_i32 n) [ none ↦ block | some t ↦ t ]

unfoldable pub device_id_type : DeviceId → DeviceType
unfolding device_type_of
device_id_type i = device_type_of i.type_number

-- `message Device`.
pub record Device : Type 0 where
  pub file : String
  pub id : Option DeviceId
  pub permissions : ℕ
  pub user : ℕ
  pub group : ℕ
  pub read_access : Bool
  pub write_access : Bool

-- `message Config`.
pub record DeviceConfig : Type 0 where
  pub dev_devices : List Device
  pub mknod_devices : List Device
