-- ===== src/Proto/Evaluation.antt =====
-- protos/evaluation/evaluation.proto.
use checkc.Base.{String, Bool, Option, List}
use checkc.Base.Int.{ℤ}

-- `message TestResult`.
pub record TestResult : Type 0 where
  pub passed : Bool
  pub valid : Bool
  pub info : List String

-- `message Namespaces`: namespace types as numbers.
pub record Namespaces : Type 0 where
  pub active : List ℤ
  pub desired : List ℤ

-- `message Chroot`.
pub record Chroot : Type 0 where
  pub chroot : Bool
  pub pivot_root : Bool

-- `message IsolationMechanisms`; the field `cgroup` holds the one flag of its message `Cgroup`.
pub record IsolationMechanisms : Type 0 where
  pub namespaces : Option Namespaces
  pub chroot : Option Chroot
  pub cgroup : Option Bool

-- `message Category`; the capabilities are numbers.
pub record Category : Type 0 where
  pub isolation : Option IsolationMechanisms
  pub capabilities : List ℤ
  pub tests : List (String × TestResult)
  pub description : String

-- `message EvalInfo`.
pub record EvalInfo : Type 0 where
  pub pids_container : List ℤ
  pub pids_ref_container : List ℤ
  pub pid_host : ℤ
  pub container_root_host : String

-- `message EvalResult`.
pub record EvalResult : Type 0 where
  pub unprivileged : Bool
  pub categories : List (String × Category)
  pub info : Option EvalInfo
