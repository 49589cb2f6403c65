-- ===== src/Command/Main.antt =====
-- `main` of src/main.rs after the arguments are parsed. JSON is a parameter: serde_json writes and reads it.
use checkc.Base.{
  ℕ, ◌≡◌, String, Option, none, some, Outcome, ok, err, panic, ◌⊎◌, inl, inr, Error, if◌then◌else◌,
  io_error, my_io_error, json_error,
}
use checkc.Base.Effects.{Effect, lift, ◌>>=◌}
use checkc.Proto.Host.{Config}
use checkc.Proto.Evaluation.{EvalResult}
use checkc.Proto.Assessment.{AssessmentReport}
use checkc.Evaluation.{from_config}
use checkc.Assessment.{assess_eval_result}
use checkc.Collect.Context.{Context}
use checkc.Collect.Devices.{Files}
use checkc.Collect.Mounts.{unwrap_result}
use checkc.Command.Store.{Disk, FileCalls, is_file, store_report, read_file}
use checkc.Command.Reports.{System, HostArgs, host_config, container_config}
use checkc.Command.Combine.{combine}

-- `serde_json::to_string_pretty` and `serde_json::from_reader` of a message.
pub record Json (A : Type 0) : Type 0 where
  pub to_string_pretty : A → Outcome String
  pub from_reader : String → Outcome A

-- What was written reads back.
abbrev pub ReadsBack : {A : Type 0} → Json A → Type 0
ReadsBack {A} json =
    (a : A) (text : String) → json.to_string_pretty a ≡ ok text → json.from_reader text ≡ ok a

-- `EvalArgs` and `AssArgs`; `ContainerArgs` is its output.
pub record EvalArgs : Type 0 where
  pub container_root_host : String
  pub c_config_container : String
  pub c_config_host : String
  pub output : String

pub record AssArgs : Type 0 where
  pub evaluation_report : String
  pub output : String

pub data Commands : Type 0 where
  host : HostArgs → Commands
  container : String → Commands
  evaluation : EvalArgs → Commands
  assessment : AssArgs → Commands

-- The state that the commands change.
pub record World : Type 0 where
  pub context : Context
  pub files : Disk

abbrev pub on_context : {A : Type 0} → Effect Context A → Effect World A
on_context call w = let r = call w.context in (r.0, record w { context = r.1 })

abbrev pub on_disk : {A : Type 0} → Effect Disk A → Effect World A
on_disk call w = let r = call w.files in (r.0, record w { files = r.1 })

unfoldable pub parsed : {A : Type 0} → Json A → Option String → Outcome A
parsed json none = err (json_error "Is a directory")
parsed json (some text) = json.from_reader text

-- A report, by what its file gave: an error of the opening, or a text.
unfoldable pub loaded : {A : Type 0} → Json A → (ℕ → Error) → ℕ ⊎ Option String → Outcome A
unfolding parsed
loaded json to_error (inl errno) = err (to_error errno)
loaded json to_error (inr text) = parsed json text

-- The same where a text that does not parse panics.
unfoldable pub expected : {A : Type 0} → Json A → (ℕ → Error) → ℕ ⊎ Option String → Outcome A
unfolding parsed
expected json to_error (inl errno) = err (to_error errno)
expected json to_error (inr text) = unwrap_result (parsed json text)

-- A message is written as JSON, and stored.
unfoldable pub store_json :
    {A : Type 0} → FileCalls → Json A → String → A → String → Effect World (Unit {0})
store_json calls json out message default_file = do
  text ← lift (json.to_string_pretty message)
  on_disk (store_report calls out text default_file)

module _ (calls : FileCalls) (config_json : Json Config) (eval_json : Json EvalResult)
    (report_json : Json AssessmentReport) (find_uuid : String → Option String) where
  unfoldable pub run_evaluation : EvalArgs → Effect World (Unit {0})
  unfolding store_json
  run_evaluation args = do
    c_config_container ← λ w. (
      expected config_json (my_io_error args.c_config_container)
          (read_file calls args.c_config_container w.files),
      w,
    )
    c_config_host ← λ w. (
      expected config_json (my_io_error args.c_config_host)
          (read_file calls args.c_config_host w.files),
      w,
    )
    config ← lift (combine c_config_container c_config_host)
    eval ← lift (from_config find_uuid config args.container_root_host)
    store_json calls eval_json args.output eval "evaluation_report.json"

  unfoldable pub assess_report : AssArgs → Effect World (Unit {0})
  unfolding store_json
  assess_report args = do
    eval_result ←
        λ w. (loaded eval_json io_error (read_file calls args.evaluation_report w.files), w)
    assessment_result ← lift (assess_eval_result eval_result)
    store_json calls report_json args.output assessment_result "assessment_report.json"

  unfoldable pub run_assessment : AssArgs → Effect World (Unit {0})
  unfolding assess_report
  run_assessment args w =
      if is_file args.evaluation_report w.files then assess_report args w else (panic, w)

  module _ (system : System) {S : Type 0} (devices : Files S) (s : S) where
    unfoldable pub main : Commands → Effect World (Unit {0})
    unfolding run_evaluation run_assessment
    main (host args) = do
      c_config ← on_context (host_config system args)
      store_json calls config_json args.output c_config "host_data_raw.json"
    main (container output) = do
      c_config ← on_context (container_config system devices s)
      store_json calls config_json output c_config "container_data_raw.json"
    main (evaluation args) = run_evaluation args
    main (assessment args) = run_assessment args
