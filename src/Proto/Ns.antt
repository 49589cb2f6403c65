-- ===== src/Proto/Ns.antt =====
-- protos/c_config/ns.proto.
use mathlib.Core.Option.{some-injective}
use checkc.Base.{
  ℕ, String, ◌≡◌, refl, sym, ap, ◌∙◌, ◌↔◌, Bool, true, ◌&&◌, Option, none, some, List, [], ◌∷◌,
  arith, nat_beq, get_elem?, Eq, ◌==◌, nat_eq, index-beq_iff,
}
use checkc.Base.Int.{ℤ, pos, negsuc, int_eq}

-- `enum Type`.
pub data NsType : Type 0 where
  unspecified cgroup ipc network mount pid time user uts : NsType

-- The number of a value in the `.proto` file.
unfoldable pub ns_type_number : NsType → ℕ
ns_type_number unspecified = 0
ns_type_number cgroup = 1
ns_type_number ipc = 2
ns_type_number network = 3
ns_type_number mount = 4
ns_type_number pid = 5
ns_type_number time = 6
ns_type_number user = 7
ns_type_number uts = 8

abbrev ns_type_values : List NsType
ns_type_values = unspecified ∷ cgroup ∷ ipc ∷ network ∷ mount ∷ pid ∷ time ∷ user ∷ uts ∷ []

-- `NsType::from_i32`.
unfoldable pub ns_type_from_i32 : ℤ → Option NsType
ns_type_from_i32 (pos n) = get_elem? ns_type_values n
ns_type_from_i32 (negsuc n) = none

-- `as i32` and `into`.
unfoldable pub ns_type_to_i32 : NsType → ℤ
unfolding ns_type_number
ns_type_to_i32 t = pos (ns_type_number t)

-- A value survives its conversion to a number and back.
pub ns_type_from_i32-to_i32 : (t : NsType) → ns_type_from_i32 (ns_type_to_i32 t) ≡ some t
unfolding ns_type_from_i32 ns_type_to_i32
ns_type_from_i32-to_i32 unspecified = refl
ns_type_from_i32-to_i32 cgroup = refl
ns_type_from_i32-to_i32 ipc = refl
ns_type_from_i32-to_i32 network = refl
ns_type_from_i32-to_i32 mount = refl
ns_type_from_i32-to_i32 pid = refl
ns_type_from_i32-to_i32 time = refl
ns_type_from_i32-to_i32 user = refl
ns_type_from_i32-to_i32 uts = refl

ns_type_number-injective : (a b : NsType) → ns_type_number a ≡ ns_type_number b → a ≡ b
unfolding ns_type_to_i32
ns_type_number-injective a b h = some-injective a b (
    sym (ns_type_from_i32-to_i32 a)
    ∙ ap (λ n. ns_type_from_i32 (pos n)) h
    ∙ ns_type_from_i32-to_i32 b)

unfoldable pub ns_type_beq : NsType → NsType → Bool
unfolding ns_type_number
ns_type_beq a b = nat_beq (ns_type_number a) (ns_type_number b)

pub ns_type_beq_iff : (a b : NsType) → (ns_type_beq a b ≡ true) ↔ (a ≡ b)
unfolding ns_type_beq
ns_type_beq_iff a b = index-beq_iff ns_type_number ns_type_number-injective a b

instance abbrev pub ns_type_eq : Eq NsType
ns_type_eq = record { beq = ns_type_beq; beq_iff = ns_type_beq_iff }

-- `Type::as_str_name`: the name in the `.proto` file.
unfoldable pub ns_type_as_str_name : NsType → String
ns_type_as_str_name unspecified = "TYPE_UNSPECIFIED"
ns_type_as_str_name cgroup = "TYPE_CGROUP"
ns_type_as_str_name ipc = "TYPE_IPC"
ns_type_as_str_name network = "TYPE_NETWORK"
ns_type_as_str_name mount = "TYPE_MOUNT"
ns_type_as_str_name pid = "TYPE_PID"
ns_type_as_str_name time = "TYPE_TIME"
ns_type_as_str_name user = "TYPE_USER"
ns_type_as_str_name uts = "TYPE_UTS"

-- `{:?}` of a `Type`.
unfoldable pub ns_type_debug : NsType → String
ns_type_debug unspecified = "Unspecified"
ns_type_debug cgroup = "Cgroup"
ns_type_debug ipc = "Ipc"
ns_type_debug network = "Network"
ns_type_debug mount = "Mount"
ns_type_debug pid = "Pid"
ns_type_debug time = "Time"
ns_type_debug user = "User"
ns_type_debug uts = "Uts"

-- `message Id`: the device and inode of a namespace file.
pub record NsId : Type 0 where
  pub st_dev : ℕ
  pub st_ino : ℕ

abbrev pub ns_id_beq : NsId → NsId → Bool
ns_id_beq a b = a.st_dev == b.st_dev && a.st_ino == b.st_ino

pub ns_id_beq_iff : (a b : NsId) → (ns_id_beq a b ≡ true) ↔ (a ≡ b)
ns_id_beq_iff a b = ground arith

instance abbrev pub ns_id_eq : Eq NsId
ns_id_eq = record { beq = ns_id_beq; beq_iff = ns_id_beq_iff }

-- `message Info`.
pub record NsInfo : Type 0 where
  pub type_number : ℤ
  pub id : Option NsId
  pub owner : Option NsId

-- `info.r#type()`: a number that is no `Type` reads as the default.
unfoldable pub ns_info_type : NsInfo → NsType
unfolding ns_type_from_i32
ns_info_type i = elim (ns_type_from_i32 i.type_number) [ none ↦ unspecified | some t ↦ t ]

-- `message Hierarchy`.
mutual
  pub data Hierarchy : Type 0 where
    node : Option NsId → Hierarchies → Hierarchy

  pub data Hierarchies : Type 0 where
    nil : Hierarchies
    cons : Hierarchy → Hierarchies → Hierarchies

-- `message Config`.
pub record NsConfig : Type 0 where
  pub unshared : List NsInfo
  pub shared_host : List NsInfo
  pub user_ns_hierarchy : Option Hierarchy
  pub pid_ns_hierarchy : Option Hierarchy
