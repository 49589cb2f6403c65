-- ===== src/Tests/Chain.antt =====
-- The commands of src/main.rs, each on what the one before it stored.
use native.Mathlib.Decide.{ℕ_discrete}
use checkc.Base.{
  ◌≡◌, refl, sym, ap, String, Bool, true, false, Option, none, some, [], ◌∷◌, Outcome, ok, err,
  panic, inl, inr, ◌==◌, string_eq, nat_eq, if◌then◌else◌, Bool-cases, json_error, is_some, ◌++◌,
  my_io_error, ◌≢◌,
}
use checkc.Base.Effects.{lift, ◌>>=◌}
use checkc.Base.Int.{int_eq}
use checkc.Base.Maps
use checkc.Proto.Host.{Config, FsConfig}
use checkc.Proto.Evaluation.{EvalResult}
use checkc.Proto.Assessment.{AssessmentReport}
use checkc.Evaluation.{from_config}
use checkc.Assessment.{assess_eval_result}
use checkc.Command.Store.{
  FileCalls, file, folder, is_file, is_dir, report_path, join_path, ends_with_slash, store_report,
  created, written,
}
use checkc.Command.Stored.{store_report-lookup}
use checkc.Command.Complete.{merged}
use checkc.Command.Main.{
  Json, ReadsBack, EvalArgs, World, store_json, run_evaluation, run_assessment,
}
use checkc.Proto.Ns.{ns_type_beq, ns_info_type, ns_type_from_i32, ns_type_number, ns_type_to_i32}
use checkc.Proto.Caps.{
  cap_prm_values, capability_beq, capability_from_i32, capability_number, capability_to_i32,
}
use checkc.Proto.Device.{
  device_type_beq, device_id_type, device_type_from_i32, device_type_number, device_type_of,
  device_type_to_i32,
}
use checkc.Proto.Host.{
  seccomp_config_mode, seccomp_mode_beq, seccomp_mode_from_i32, seccomp_mode_number,
}
use checkc.Evaluation.{
  category_network, category_filesystem, do_check_flags_host, do_check_flags_refcontainer,
  category_devices, dev_whitelist_compliance, category_access_control, category_global,
  category_process_control, category_resource_control, category_time, active_namespaces, add_owned,
  by_type, eval_categories, find_type,
}
use checkc.Evaluation.Flags.{host_namespaces, refcontainer_namespaces}
use checkc.Evaluation.Devices.{not_allowed_devices, is_skipped, is_whitelisted}
use checkc.Base.Sets.{any, contains, extend, filter, insert, intersection}
use checkc.Base.Text.{text_contains}
use checkc.Config.{
  dev_major_whitelist, dev_whitelist_general, dev_whitelist_unprivileged, range_from,
}
use checkc.Evaluation.Categories.{
  category_capabilities, category_namespaces, limit_test, missing_controllers, namespace_isolation,
}
use checkc.Command.Combine.{combine, combine_fs}
use checkc.Command.Chain.{expected-stored, run_evaluation-merged, run_evaluation-run_assessment}
use checkc.Tests.Commands.{
  system, context, host_args, space, host_report, host_collected, container_report,
  container_collected,
}
use checkc.Tests.DeviceNodes.{files}

String_discrete : Discrete String
String_discrete a b = elim (Bool-cases (a == b)) [
  | inl e ↦ yes ((string_eq.beq_iff a b).0 e)
  | inr e ↦ no (λ h. cc ((string_eq.beq_iff a b).1 h, e))
]

config_discrete : Discrete Config
config_discrete = hlevel (ℕ_discrete, String_discrete)

eval_discrete : Discrete EvalResult
eval_discrete = hlevel (ℕ_discrete, String_discrete)

abbrev text_in : Outcome String → String
text_in panic = ""
text_in (err e) = ""
text_in (ok text) = text

-- JSON for two messages.
module _ {A : Type 0} (discrete : Discrete A) (first second : A) where
  named : {a : A} → Dec (a ≡ first) → Dec (a ≡ second) → Outcome String
  named (yes _) e = ok "first"
  named (no _) (yes _) = ok "second"
  named (no _) (no _) = err (json_error "other")

  of_text : String → Outcome A
  of_text text =
      if text == "first"
      then ok first
      else if text == "second"
      then ok second
      else err (json_error "other")

  abbrev json : Json A
  json = record {
    to_string_pretty = λ a. named (discrete a first) (discrete a second);
    from_reader = of_text;
  }

  named-first : (d : Dec (first ≡ first)) (e : Dec (first ≡ second)) → named d e ≡ ok "first"
  unfolding named
  named-first (yes _) e = refl
  named-first (no h) e = absurd (h refl)

  named-second :
      second ≢ first
      → (d : Dec (second ≡ first)) (e : Dec (second ≡ second)) → named d e ≡ ok "second"
  unfolding named
  named-second apart (yes h) e = absurd (apart h)
  named-second apart (no _) (yes _) = refl
  named-second apart (no _) (no h) = absurd (h refl)

  of_text-named :
      (a : A) (d : Dec (a ≡ first)) (e : Dec (a ≡ second)) (text : String)
      → named d e ≡ ok text
      → of_text text ≡ ok a
  unfolding named of_text
  of_text-named a (yes p) e text h = rw (sym (ap text_in h)) (ap ok (sym p))
  of_text-named a (no _) (yes p) text h = rw (sym (ap text_in h)) (ap ok (sym p))
  of_text-named a (no _) (no _) text h = cc h

  json-ReadsBack : ReadsBack json
  json-ReadsBack a text h = of_text-named a (discrete a first) (discrete a second) text h

abbrev config_json : Json Config
config_json = json config_discrete host_report container_report

abbrev calls : FileCalls
calls = record {
  create = λ path disk. none;
  write_all = λ path text disk. none;
  open_file = λ path disk. none;
}

-- Both reports are stored; the one of the evaluation goes to a folder.
abbrev world : World
world = record {
  context = context;
  files = ("host.json", file "first") ∷ ("container.json", file "second") ∷ ("/out", folder) ∷ [];
}

abbrev args : EvalArgs
args = record {
  container_root_host = "/var/root";
  c_config_container = "container.json";
  c_config_host = "host.json";
  output = "/out";
}

abbrev container_fs : FsConfig
container_fs = record {
  container_namespaces = space ∷ [];
  ref_container_namespaces = [];
  host_namespaces = [];
}

abbrev host_fs : FsConfig
host_fs = record {
  container_namespaces = space ∷ [];
  ref_container_namespaces = space ∷ [];
  host_namespaces = [];
}

abbrev combined : Config
combined = merged container_fs host_fs container_report host_report

abbrev has_devices : Config → Bool
has_devices c = is_some c.device_config

apart : container_report ≢ host_report
apart h = let e : true ≡ false = ap has_devices h in cc e

abbrev find_uuid : String → Option String
find_uuid text = none

abbrev value_of : Outcome EvalResult → EvalResult
value_of (ok e) = e
value_of (err _) = record { unprivileged = false; categories = []; info = none }
value_of panic = record { unprivileged = false; categories = []; info = none }

abbrev result : EvalResult
result = value_of (from_config find_uuid combined "/var/root")

evaluated : from_config find_uuid combined "/var/root" ≡ ok result
unfolding from_config ns_type_beq ns_info_type ns_type_from_i32 ns_type_number ns_type_to_i32
    category_network category_filesystem do_check_flags_host do_check_flags_refcontainer
    category_devices dev_whitelist_compliance category_access_control category_global
    category_process_control category_resource_control category_time active_namespaces add_owned
    by_type eval_categories find_type host_namespaces refcontainer_namespaces not_allowed_devices
    is_skipped is_whitelisted device_type_beq device_id_type device_type_from_i32 device_type_number
    device_type_of device_type_to_i32 any contains extend filter insert intersection text_contains
    dev_major_whitelist dev_whitelist_general dev_whitelist_unprivileged range_from
    category_capabilities category_namespaces limit_test missing_controllers namespace_isolation
    cap_prm_values capability_beq capability_from_i32 capability_number capability_to_i32
    seccomp_config_mode seccomp_mode_beq seccomp_mode_from_i32 seccomp_mode_number Maps.lookup
    Maps.insert
evaluated = refl

abbrev eval_json : Json EvalResult
eval_json = json eval_discrete result result

abbrev report_json : Json AssessmentReport
report_json = record {
  to_string_pretty = λ r. ok "report";
  from_reader = λ text. err (json_error "other");
}

combined_lem : combine container_report host_report ≡ ok combined
unfolding combine combine_fs
combined_lem = refl

abbrev after : World
after = record world { files = world.files ++ ("/out/evaluation_report.json", file "first") ∷ [] }

run_returned :
    run_evaluation calls config_json eval_json report_json find_uuid args world ≡ (ok tt, after)
unfolding run_evaluation store_json store_report Maps.lookup Maps.insert created written is_file
    is_dir report_path join_path ends_with_slash
run_returned =
    rw
      (
        expected-stored calls config_json (my_io_error "container.json") container_report
            "container.json" "second" world.files
            (json-ReadsBack config_discrete host_report container_report)
            (named-second config_discrete host_report container_report apart _ _) refl refl,
        expected-stored calls config_json (my_io_error "host.json") host_report "host.json" "first"
            world.files (json-ReadsBack config_discrete host_report container_report)
            (named-first config_discrete host_report container_report _ _) refl refl,
        combined_lem,
        evaluated,
        named-first eval_discrete result result (eval_discrete result result)
            (eval_discrete result result),
      )
      refl

run_evaluation-run_assessment_example :
    (config : Config) × (e : EvalResult) × (r : AssessmentReport) × (from_config find_uuid config
        "/var/root"
      ≡ ok e)
    × (assess_eval_result e ≡ ok r)
    × (run_assessment calls config_json eval_json report_json find_uuid
          (record {
            evaluation_report = report_path "/out" "evaluation_report.json" world.files;
            output = "assessment.json";
          })
          after
        ≡ store_json calls report_json "assessment.json" r "assessment_report.json" after)
run_evaluation-run_assessment_example =
    run_evaluation-run_assessment calls config_json eval_json report_json find_uuid args world after
      "assessment.json" (json-ReadsBack eval_discrete result result) refl run_returned

run_evaluation-merged_example :
    (c_fs : FsConfig) × (h_fs : FsConfig) × (container_report.fs_config ≡ some c_fs)
    × (host_report.fs_config ≡ some h_fs)
    × (run_evaluation calls config_json eval_json report_json find_uuid args world
        ≡ (lift (from_config find_uuid (merged c_fs h_fs container_report host_report) "/var/root")
              >>= λ e. store_json calls eval_json "/out" e "evaluation_report.json")
            world)
unfolding Maps.lookup
run_evaluation-merged_example =
    run_evaluation-merged calls config_json eval_json report_json find_uuid system system files 0
      host_args args context context context context world host_report container_report "first"
      "second" (json-ReadsBack config_discrete host_report container_report) host_collected
      container_collected (named-first config_discrete host_report container_report _ _)
      (named-second config_discrete host_report container_report apart _ _) refl refl refl refl

stored_in_folder :
    store_report calls "/out" "first" "evaluation_report.json" world.files ≡ (ok tt, after.files)
unfolding store_report Maps.lookup Maps.insert created written is_file is_dir report_path join_path
    ends_with_slash
stored_in_folder = refl

store_report-lookup_example :
    (is_file "/out" world.files ≡ false)
    × ((q : String)
        → Maps.lookup q after.files ≡ (
            if report_path "/out" "evaluation_report.json" world.files == q
            then some (file "first")
            else Maps.lookup q world.files))
store_report-lookup_example =
    store_report-lookup calls "/out" "first" "evaluation_report.json" world.files after.files
      stored_in_folder
