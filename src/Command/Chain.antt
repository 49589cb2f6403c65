-- ===== src/Command/Chain.antt =====
-- The commands of src/main.rs one after the other: each reads what the one before it stored.
use checkc.Base.Reordered.{same}
use checkc.Base.{
  ℕ, ◌≡◌, refl, sym, ap, ◌∙◌, String, Option, none, some, Outcome, ok, Error, string_eq, io_error,
  my_io_error, beq_self,
}
use checkc.Base.Effects.{Effect, lift, ◌>>=◌, >>=-eq-ok}
use checkc.Base.Maps
use checkc.Proto.Host.{Config, FsConfig}
use checkc.Proto.Evaluation.{EvalResult}
use checkc.Proto.Assessment.{AssessmentReport}
use checkc.Evaluation.{from_config}
use checkc.Assessment.{assess_eval_result}
use checkc.Pipeline.Report.{from_config-assess_eval_result}
use checkc.Collect.Context.{Context}
use checkc.Collect.Devices.{Files}
use checkc.Collect.Mounts.{unwrap_result}
use checkc.Command.Store.{Disk, FileCalls, file, is_file, report_path, read_file}
use checkc.Command.Stored.{store_report-lookup, read_file-stored}
use checkc.Command.Reports.{System, HostArgs, host_config, container_config}
use checkc.Command.Combine.{combine}
use checkc.Command.Complete.{
  merged, combine-merged, host_config-IsHostReport, container_config-IsContainerReport,
}
use checkc.Command.Main.{
  Json, ReadsBack, EvalArgs, World, loaded, expected, store_json, run_evaluation, assess_report,
  run_assessment,
}

module _ (calls : FileCalls) where
  -- A report that was stored is loaded.
  pub expected-stored :
      {A : Type 0} (json : Json A) (to_error : ℕ → Error) (a : A) (path text : String) (disk : Disk)
      → ReadsBack json
      → json.to_string_pretty a ≡ ok text
      → calls.open_file path disk ≡ none
      → Maps.lookup path disk ≡ some (file text)
      → expected json to_error (read_file calls path disk) ≡ ok a
  unfolding expected unwrap_result
  expected-stored json to_error a path text disk back e o k =
      rw (read_file-stored calls path text disk o k, back a text e) refl

  loaded-stored :
      {A : Type 0} (json : Json A) (to_error : ℕ → Error) (a : A) (path text : String) (disk : Disk)
      → ReadsBack json
      → json.to_string_pretty a ≡ ok text
      → calls.open_file path disk ≡ none
      → Maps.lookup path disk ≡ some (file text)
      → loaded json to_error (read_file calls path disk) ≡ ok a
  unfolding loaded
  loaded-stored json to_error a path text disk back e o k =
      rw (read_file-stored calls path text disk o k, back a text e) refl

  -- Where a message was stored, its text is in the file of the report.
  store_json-lookup :
      {A : Type 0} (json : Json A) (out default_file : String) (message : A) (w after : World)
      → store_json calls json out message default_file w ≡ (ok tt, after)
      → (text : String) × (json.to_string_pretty message ≡ ok text)
        × (Maps.lookup (report_path out default_file w.files) after.files ≡ some (file text))
  unfolding store_json
  store_json-lookup json out default_file message w after h =
      let (text, t, e, k) = >>=-eq-ok (lift (json.to_string_pretty message)) _ w after h in
      let same : t ≡ w = ap (λ (r : Outcome String × World). r.1) (sym e) in
      let p = report_path out default_file t.files in
      let (_, there) =
        store_report-lookup calls out text default_file t.files after.files
          (λ i. ((k i).0, (k i).1.files)) in
      (
        text,
        ap (λ (r : Outcome String × World). r.0) e,
        ap (λ (x : World). Maps.lookup (report_path out default_file x.files) after.files)
              (sym same)
            ∙ there p
            ∙ rw (beq_self p) refl,
      )

  module _ (config_json : Json Config) (eval_json : Json EvalResult)
      (report_json : Json AssessmentReport) (find_uuid : String → Option String) where
    -- What the command `evaluation` has evaluated and stored.
    run_evaluation-stored :
        (args : EvalArgs) (w after : World)
        → run_evaluation calls config_json eval_json report_json find_uuid args w ≡ (ok tt, after)
        → (config : Config) × (e : EvalResult) × (text : String) × (from_config find_uuid config
              args.container_root_host
            ≡ ok e)
          × (eval_json.to_string_pretty e ≡ ok text)
          × (Maps.lookup (report_path args.output "evaluation_report.json" w.files) after.files
              ≡ some (file text))
    unfolding run_evaluation
    run_evaluation-stored args w after h =
        let read_container : Effect World Config = λ v. (
          expected config_json (my_io_error args.c_config_container)
              (read_file calls args.c_config_container v.files),
          v,
        ) in
        let read_host : Effect World Config = λ v. (
          expected config_json (my_io_error args.c_config_host)
              (read_file calls args.c_config_host v.files),
          v,
        ) in
        let (c, w1, e1, h1) = >>=-eq-ok read_container _ w after h in
        let (c', w2, e2, h2) = >>=-eq-ok read_host _ w1 after h1 in
        let (config, w3, e3, h3) = >>=-eq-ok (lift (combine c c')) _ w2 after h2 in
        let (e, w4, e4, h4) =
          >>=-eq-ok (lift (from_config find_uuid config args.container_root_host)) _ w3 after h3 in
        let (text, written, there) =
          store_json-lookup eval_json args.output "evaluation_report.json" e w4 after h4 in
        let same : w4 ≡ w =
          ap (λ (r : Outcome EvalResult × World). r.1) (sym e4)
          ∙ ap (λ (r : Outcome Config × World). r.1) (sym e3)
          ∙ ap (λ (r : Outcome Config × World). r.1) (sym e2)
          ∙ ap (λ (r : Outcome Config × World). r.1) (sym e1) in
        (
          config,
          e,
          text,
          ap (λ (r : Outcome EvalResult × World). r.0) e4,
          written,
          ap
                (λ (x : World).
                  Maps.lookup (report_path args.output "evaluation_report.json" x.files)
                    after.files)
                (sym same)
              ∙ there,
        )

    -- Where the command `evaluation` returned and its report can be opened and reads back, the command
    -- `assessment` of that report does not panic before it stores: it stores the assessment of what was evaluated.
    pub run_evaluation-run_assessment :
        (args : EvalArgs) (w after : World) (output : String)
        → ReadsBack eval_json
        → calls.open_file (report_path args.output "evaluation_report.json" w.files) after.files
          ≡ none
        → run_evaluation calls config_json eval_json report_json find_uuid args w ≡ (ok tt, after)
        → (config : Config) × (e : EvalResult) × (r : AssessmentReport) × (from_config find_uuid
              config args.container_root_host
            ≡ ok e)
          × (assess_eval_result e ≡ ok r)
          × (run_assessment calls config_json eval_json report_json find_uuid
                (record {
                  evaluation_report = report_path args.output "evaluation_report.json" w.files;
                  output = output;
                })
                after
              ≡ store_json calls report_json output r "assessment_report.json" after)
    unfolding run_assessment assess_report is_file
    run_evaluation-run_assessment args w after output back opens h =
        let (config, e, text, evaluated, written, there) = run_evaluation-stored args w after h in
        let (r, assessed) =
          from_config-assess_eval_result find_uuid config args.container_root_host e evaluated
            (refl, same e.categories) in
        let p = report_path args.output "evaluation_report.json" w.files in
        (
          config,
          e,
          r,
          evaluated,
          assessed,
          rw
              (
                there,
                loaded-stored eval_json io_error e p text after.files back written opens there,
                assessed,
              )
              refl,
        )

    -- Where the reports of the commands `host` and `container` are in the files that the command `evaluation` is
    -- given, and these can be opened and read back, that command evaluates the host's report, with the
    -- container's for the devices, seccomp, its host name and its own mount namespaces, and stores the result.
    pub run_evaluation-merged :
        (system own : System) {S : Type 0} (devices : Files S) (s : S) (host_args : HostArgs)
        (args : EvalArgs) (before between start end : Context) (w : World) (h c : Config)
        (host_text container_text : String)
        → ReadsBack config_json
        → host_config system host_args before ≡ (ok h, between)
        → container_config own devices s start ≡ (ok c, end)
        → config_json.to_string_pretty h ≡ ok host_text
        → config_json.to_string_pretty c ≡ ok container_text
        → Maps.lookup args.c_config_host w.files ≡ some (file host_text)
        → Maps.lookup args.c_config_container w.files ≡ some (file container_text)
        → calls.open_file args.c_config_host w.files ≡ none
        → calls.open_file args.c_config_container w.files ≡ none
        → (container_fs : FsConfig) × (host_fs : FsConfig) × (c.fs_config ≡ some container_fs)
          × (h.fs_config ≡ some host_fs)
          × (run_evaluation calls config_json eval_json report_json find_uuid args w
              ≡ (lift (
                      from_config find_uuid
                        (merged container_fs host_fs c h)
                        args.container_root_host)
                    >>= λ e. store_json calls eval_json args.output e "evaluation_report.json")
                  w)
    unfolding run_evaluation
    run_evaluation-merged system own devices s host_args args before between start end w h c
          host_text container_text back collected seen host_json container_json host_file
          container_file host_opens container_opens =
        let container_report = container_config-IsContainerReport own devices s start end c seen in
        let host_report = host_config-IsHostReport system host_args before between h collected in
        (
          container_report.0.0,
          host_report.0.0,
          container_report.0.1,
          host_report.0.1,
          rw
              (
                expected-stored config_json (my_io_error args.c_config_container) c
                    args.c_config_container container_text w.files back container_json
                    container_opens container_file,
                expected-stored config_json (my_io_error args.c_config_host) h args.c_config_host
                    host_text w.files back host_json host_opens host_file,
                combine-merged c h (container_report, host_report),
              )
              refl,
        )
