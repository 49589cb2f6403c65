-- ===== src/Proto/Assessment.antt =====
-- protos/assessment/assessment.proto.
use mathlib.Core.Option.{some-injective}
use checkc.Base.{
  ℕ, String, ◌≡◌, refl, sym, ap, ◌∙◌, ◌↔◌, Bool, true, Option, none, some, List, [], ◌∷◌, nat_beq,
  get_elem?, Eq, nat_eq, index-beq_iff,
}
use checkc.Base.Int.{ℤ, pos, negsuc, int_eq}
use checkc.Proto.Evaluation.{Namespaces, Chroot}

-- `enum Criticality`, in increasing order.
pub data Criticality : Type 0 where
  unspecified ok info warn error : Criticality

-- The number of a value in the `.proto` file.
unfoldable pub criticality_number : Criticality → ℕ
criticality_number unspecified = 0
criticality_number ok = 1
criticality_number info = 2
criticality_number warn = 3
criticality_number error = 4

abbrev criticality_values : List Criticality
criticality_values = unspecified ∷ ok ∷ info ∷ warn ∷ error ∷ []

-- `Criticality::from_i32`.
unfoldable pub criticality_from_i32 : ℤ → Option Criticality
criticality_from_i32 (pos n) = get_elem? criticality_values n
criticality_from_i32 (negsuc n) = none

-- `as i32` and `into`.
unfoldable pub criticality_to_i32 : Criticality → ℤ
unfolding criticality_number
criticality_to_i32 t = pos (criticality_number t)

-- A value survives its conversion to a number and back.
pub criticality_from_i32-to_i32 :
    (t : Criticality) → criticality_from_i32 (criticality_to_i32 t) ≡ some t
unfolding criticality_from_i32 criticality_to_i32
criticality_from_i32-to_i32 unspecified = refl
criticality_from_i32-to_i32 ok = refl
criticality_from_i32-to_i32 info = refl
criticality_from_i32-to_i32 warn = refl
criticality_from_i32-to_i32 error = refl

criticality_number-injective :
    (a b : Criticality) → criticality_number a ≡ criticality_number b → a ≡ b
unfolding criticality_to_i32
criticality_number-injective a b h = some-injective a b (
    sym (criticality_from_i32-to_i32 a)
    ∙ ap (λ n. criticality_from_i32 (pos n)) h
    ∙ criticality_from_i32-to_i32 b)

unfoldable pub criticality_beq : Criticality → Criticality → Bool
unfolding criticality_number
criticality_beq a b = nat_beq (criticality_number a) (criticality_number b)

pub criticality_beq_iff : (a b : Criticality) → (criticality_beq a b ≡ true) ↔ (a ≡ b)
unfolding criticality_beq
criticality_beq_iff a b = index-beq_iff criticality_number criticality_number-injective a b

instance abbrev pub criticality_eq : Eq Criticality
criticality_eq = record { beq = criticality_beq; beq_iff = criticality_beq_iff }

-- `Criticality::as_str_name`.
unfoldable pub criticality_as_str_name : Criticality → String
criticality_as_str_name unspecified = "CRITICALITY_UNSPECIFIED"
criticality_as_str_name ok = "CRITICALITY_OK"
criticality_as_str_name info = "CRITICALITY_INFO"
criticality_as_str_name warn = "CRITICALITY_WARN"
criticality_as_str_name error = "CRITICALITY_ERROR"

-- `{:?}` of a `Criticality`.
unfoldable pub criticality_debug : Criticality → String
criticality_debug unspecified = "Unspecified"
criticality_debug ok = "Ok"
criticality_debug info = "Info"
criticality_debug warn = "Warn"
criticality_debug error = "Error"

-- `message SecResult`; the state is the number of a `Criticality`.
pub record SecResult : Type 0 where
  pub state : ℤ
  pub info : List String

-- `SecResult::default()`: state 0, no information.
abbrev pub sec_result_default : SecResult
sec_result_default = record { state = pos 0; info = [] }

-- `message Goal_S1_GlobalResourceModification`.
pub record GoalS1 : Type 0 where
  pub description : String
  pub result : Option SecResult
  pub namespace_conf : Option Namespaces
  pub capabilities : List ℤ
  pub chroot_conf : Option Chroot

-- `message Goal_S2_RestrictedDeviceAccess`.
pub record GoalS2 : Type 0 where
  pub description : String
  pub result : Option SecResult

-- `message Goal_S3_NoContainerDataLeak`.
pub record GoalS3 : Type 0 where
  pub description : String
  pub result : Option SecResult

-- `message Goal_S4_NoAvaiabilityImpact`; no code writes its field `used_cgroup_controllers`.
pub record GoalS4 : Type 0 where
  pub description : String
  pub result : Option SecResult
  pub cgroups_namespace_used : Bool

-- `message AssessmentReport`.
pub record AssessmentReport : Type 0 where
  pub unprivileged : Bool
  pub goal_s1 : Option GoalS1
  pub goal_s2 : Option GoalS2
  pub goal_s3 : Option GoalS3
  pub goal_s4 : Option GoalS4
