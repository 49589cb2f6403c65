-- ===== src/Assessment/Severity.antt =====
-- The state of a result as a number: how it grows, and what the tests make of it.
use checkc.Base.{
  ℕ, String, ◌≡◌, refl, ap, ◌∙◌, ◌⊎◌, inl, inr, Bool, true, false, ◌&&◌, some, Outcome, ok, List,
  arith, max, if◌then◌else◌,
}
use checkc.Base.Int.{ℤ, pos, negsuc, int_max}
use checkc.Proto.Evaluation.{TestResult}
use checkc.Proto.Assessment.{
  Criticality, SecResult, criticality_number, criticality_to_i32, criticality_from_i32,
  criticality_from_i32-to_i32,
}
use checkc.Assessment.State.{append, assess_test, check_valid, initial_result}

-- The number of a criticality that is none of the five is no severity.
abbrev pub magnitude : ℤ → ℕ
magnitude (pos n) = n
magnitude (negsuc n) = 0

abbrev pub severity : SecResult → ℕ
severity r = magnitude r.state

pub magnitude-int_max : (a b : ℤ) → magnitude (int_max a b) ≡ max (magnitude a) (magnitude b)
magnitude-int_max (pos a) (pos b) = ground arith
magnitude-int_max (pos a) (negsuc b) = ground arith
magnitude-int_max (negsuc a) (pos b) = ground arith
magnitude-int_max (negsuc a) (negsuc b) = ground arith

-- Appending raises the severity to the one that is appended.
pub severity-append :
    (r : SecResult) (c : Criticality) (info : List String)
    → severity (append r c info) ≡ max (severity r) (criticality_number c)
unfolding append criticality_to_i32
severity-append r c info = magnitude-int_max r.state (criticality_to_i32 c)

-- A test that is valid and passed leaves a result alone, any other makes it an error.
pub severity-assess_test :
    (name : String) (test : TestResult) (r : SecResult)
    → severity (assess_test name test r)
      ≡ (if test.valid && test.passed then severity r else max (severity r) 4)
unfolding assess_test append criticality_to_i32
severity-assess_test name test r = ground (
  arith,
  severity-append r Criticality.error,
  magnitude-int_max r.state (pos 4),
  magnitude-int_max (int_max r.state (pos 4)) (pos 4),
)

-- The state of a result is the number of a criticality.
pub record IsState (r : SecResult) : Type 0 where
  pub criticality : Criticality
  pub reads : r.state ≡ criticality_to_i32 criticality

int_max-cases : (a b : ℤ) → (int_max a b ≡ a) ⊎ (int_max a b ≡ b)
int_max-cases a b = ground arith

pub append-IsState :
    (r : SecResult) (c : Criticality) (info : List String) → IsState r → IsState (append r c info)
unfolding append
append-IsState r c info h = elim (int_max-cases r.state (criticality_to_i32 c)) [
  | inl e ↦ record { criticality = h.criticality; reads = e ∙ h.reads }
  | inr e ↦ record { criticality = c; reads = e }
]

pub if-IsState : (b : Bool) (r s : SecResult) → IsState r → IsState s → IsState (if b then r else s)
if-IsState true r s h k = h
if-IsState false r s h k = k

pub ruleset state_rules = (append-IsState, if-IsState)

check_valid-IsState :
    (name : String) (test : TestResult) (r : SecResult)
    → IsState r
    → IsState (check_valid name test r)
unfolding check_valid
check_valid-IsState name test r h = search state_rules

pub assess_test-IsState :
    (name : String) (test : TestResult) (r : SecResult)
    → IsState r
    → IsState (assess_test name test r)
unfolding assess_test
assess_test-IsState name test r h = search state_rules

pub initial_result-IsState : IsState initial_result
unfolding initial_result
initial_result-IsState = record { criticality = Criticality.ok; reads = refl }

-- Such a state is read back without a panic, with its severity.
pub IsState-from_i32 :
    (r : SecResult) (s : IsState r) → criticality_from_i32 r.state ≡ some s.criticality
IsState-from_i32 r s = rw s.reads (criticality_from_i32-to_i32 s.criticality)

pub IsState-severity :
    (r : SecResult) (s : IsState r) → severity r ≡ criticality_number s.criticality
unfolding criticality_to_i32
IsState-severity r s = ap magnitude s.reads

-- What a part of the assessment does to a result: it returns, the state stays readable, and the
-- severity is raised to `n`.
pub record Raises (m : Outcome SecResult) (r : SecResult) (n : ℕ) : Type 0 where
  pub result : SecResult
  pub returns : m ≡ ok result
  pub raised : severity result ≡ max (severity r) n
  pub state : IsState result
