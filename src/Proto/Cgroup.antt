-- ===== src/Proto/Cgroup.antt =====
-- protos/c_config/cgroup.proto.
use mathlib.Core.Option.{some-injective}
use checkc.Base.{
  ℕ, String, ◌≡◌, refl, sym, ap, ◌∙◌, ◌↔◌, Bool, true, Option, none, some, List, [], ◌∷◌, nat_beq,
  get_elem?, Eq, nat_eq, index-beq_iff,
}
use checkc.Base.Int.{ℤ, pos, negsuc, int_eq}

-- `enum Controller`.
pub data Controller : Type 0 where
  unspecified cpu cpuset freezer hugetlb io memory perf_event pids rdma misc : Controller

-- The number of a value in the `.proto` file.
unfoldable pub controller_number : Controller → ℕ
controller_number unspecified = 0
controller_number cpu = 1
controller_number cpuset = 2
controller_number freezer = 3
controller_number hugetlb = 4
controller_number io = 5
controller_number memory = 6
controller_number perf_event = 7
controller_number pids = 8
controller_number rdma = 9
controller_number misc = 10

abbrev controller_values : List Controller
controller_values =
    unspecified ∷ cpu ∷ cpuset ∷ freezer ∷ hugetlb ∷ io ∷ memory ∷ perf_event ∷ pids ∷ rdma ∷ misc
    ∷ []

-- `Controller::from_i32`.
unfoldable pub controller_from_i32 : ℤ → Option Controller
controller_from_i32 (pos n) = get_elem? controller_values n
controller_from_i32 (negsuc n) = none

-- `as i32` and `into`.
unfoldable pub controller_to_i32 : Controller → ℤ
unfolding controller_number
controller_to_i32 t = pos (controller_number t)

-- A value survives its conversion to a number and back.
pub controller_from_i32-to_i32 :
    (t : Controller) → controller_from_i32 (controller_to_i32 t) ≡ some t
unfolding controller_from_i32 controller_to_i32
controller_from_i32-to_i32 unspecified = refl
controller_from_i32-to_i32 cpu = refl
controller_from_i32-to_i32 cpuset = refl
controller_from_i32-to_i32 freezer = refl
controller_from_i32-to_i32 hugetlb = refl
controller_from_i32-to_i32 io = refl
controller_from_i32-to_i32 memory = refl
controller_from_i32-to_i32 perf_event = refl
controller_from_i32-to_i32 pids = refl
controller_from_i32-to_i32 rdma = refl
controller_from_i32-to_i32 misc = refl

controller_number-injective : (a b : Controller) → controller_number a ≡ controller_number b → a ≡ b
unfolding controller_to_i32
controller_number-injective a b h = some-injective a b (
    sym (controller_from_i32-to_i32 a)
    ∙ ap (λ n. controller_from_i32 (pos n)) h
    ∙ controller_from_i32-to_i32 b)

unfoldable pub controller_beq : Controller → Controller → Bool
unfolding controller_number
controller_beq a b = nat_beq (controller_number a) (controller_number b)

pub controller_beq_iff : (a b : Controller) → (controller_beq a b ≡ true) ↔ (a ≡ b)
unfolding controller_beq
controller_beq_iff a b = index-beq_iff controller_number controller_number-injective a b

instance abbrev pub controller_eq : Eq Controller
controller_eq = record { beq = controller_beq; beq_iff = controller_beq_iff }

-- `{:?}` of a `Controller`.
unfoldable pub controller_debug : Controller → String
controller_debug unspecified = "Unspecified"
controller_debug cpu = "Cpu"
controller_debug cpuset = "Cpuset"
controller_debug freezer = "Freezer"
controller_debug hugetlb = "Hugetlb"
controller_debug io = "Io"
controller_debug memory = "Memory"
controller_debug perf_event = "PerfEvent"
controller_debug pids = "Pids"
controller_debug rdma = "Rdma"
controller_debug misc = "Misc"
