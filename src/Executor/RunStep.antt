-- ===== src/Executor/RunStep.antt =====
-- RunStep of internal/runner/executor.go: how one step runs, and the composite and docker actions of
-- internal/runner/action.go that it hands over to.
use ghenkins.Prelude.{
  ℕ, zero, suc, Bool, true, false, not, ◌&&◌, ◌||◌, List, [], ◌∷◌, Option, none, some,
  if◌then◌else◌,
}
use ghenkins.Prelude.Text.{Str, lit, str_eq}
use ghenkins.Prelude.Dict.{Dict, insert, merge}
use ghenkins.Prelude.Int.{is_zero}
use ghenkins.Workflow.{Step}
use ghenkins.Expr.Value.{str, int, GoLib, field, no_fields}
use ghenkins.Expr.Context.{EvalContext, JobStatus, pending, failure, StepResult, job_status_string}
use ghenkins.Expr.Build.{JobInfo, runner_context}
use ghenkins.Expr.Eval.{interpolate}
use ghenkins.Action.{
  ActionOutput, ActionDef, ActionType, composite, js, docker, dockerfile, local, ResolvedAction,
  Host, Exit, exited, not_run, Found, found, failed, Reference, resolve_action, needs_clone,
  parse_reference,
}
use ghenkins.Executor.Command.{
  is_checkout_action, build_shell_cmd, env_slice, or_text, with_path, docker_args, fill_defaults,
}

-- ExecutionContext without its Evaluator, which has no state.
pub record ExecutionContext : Type 0 where
  pub step_results : Dict StepResult
  pub live_env : Dict Str
  pub live_path : List Str
  pub job_status : JobStatus
  pub is_cancelled : Bool
  pub secrets : Dict Str
  pub inputs : Dict Str
  pub default_shell : Str
  pub default_workdir : Str

abbrev pub outcome_of : Str → StepResult
outcome_of s = record { outcome = s; conclusion = s; outputs = [] }

abbrev pub succeeded : StepResult
succeeded = outcome_of (lit "success")

abbrev pub failed_step : StepResult
failed_step = outcome_of (lit "failure")

-- StepResult{Outcome: "failure"}
abbrev pub failed_outcome : StepResult
failed_outcome = record { outcome = lit "failure"; conclusion = lit ""; outputs = [] }

-- The result with the error next to it, if any, and the machine's state; `out_of_fuel` belongs to the model.
pub data Ran (W : Type 0) : Type 0 where
  ran : W → StepResult → Bool → Ran W
  out_of_fuel : Ran W

-- podmanJobRunner: the fields that steps use.
pub record JobRunner : Type 0 where
  pub workspace : Str
  pub cache_dir : Str

module _ (G : GoLib) (H : Host) where
  open G use {F}
  open H use {World, exec, podman, join_path, clone}

  unfoldable pub build_step_eval_ctx : ExecutionContext → Step → JobInfo → EvalContext F
  unfolding merge job_status_string
  build_step_eval_ctx c step info = record {
    github = field (lit "sha") (str info.sha) (
        field (lit "ref") (str info.ref) (
          field (lit "ref_name") (str info.ref_name) (
            field (lit "event_name") (str info.event_name) (
              field (lit "repository") (str info.repo) (
                field (lit "repository_owner") (str info.owner) (
                  field (lit "actor") (str info.actor) (
                    field (lit "run_id") (str info.run_id) (
                      field (lit "run_number") (int info.run_number)
                        (field (lit "workspace") (str (lit "/workspace")) no_fields)))))))));
    env = merge (merge [] c.live_env) step.env;
    job = field (lit "status") (str (job_status_string c.job_status)) no_fields;
    steps = c.step_results;
    runner = runner_context G;
    secrets = c.secrets;
    inputs = c.inputs;
    job_status = c.job_status;
    is_cancelled = c.is_cancelled;
  }

  -- The values of a map, interpolated.
  unfoldable pub interpolate_all : EvalContext F → Dict Str → Dict Str
  unfolding interpolate
  interpolate_all e [] = []
  interpolate_all e ((k, v) ∷ m) = (k, interpolate G e v) ∷ interpolate_all e m

  unfoldable pub shell_env : ExecutionContext → EvalContext F → Step → Dict Str
  unfolding merge interpolate_all with_path
  shell_env c e step =
      with_path c.live_path (merge (merge [] c.live_env) (interpolate_all e step.env))

  abbrev pub interpolated_dir : EvalContext F → Str → Str
  interpolated_dir e dir = if str_eq dir (lit "") then dir else interpolate G e dir

  unfoldable pub shell_workdir : ExecutionContext → EvalContext F → Step → Str
  unfolding interpolate
  shell_workdir c e step =
      or_text (interpolated_dir e (or_text step.working_directory c.default_workdir))
        (lit "/workspace")

  abbrev pub exec_result : World × Exit → Ran World
  exec_result (m, not_run) = ran m failed_step true
  exec_result (m, exited n) = if is_zero n then ran m succeeded false else ran m failed_step false

  unfoldable pub run_shell_step : World → Step → ExecutionContext → EvalContext F → Ran World
  unfolding build_shell_cmd shell_env env_slice shell_workdir interpolate
  run_shell_step m step c e =
      let shell = or_text (or_text step.shell c.default_shell) (lit "bash") in
      exec_result (
        exec m (build_shell_cmd shell (interpolate G e step.run)) (env_slice (shell_env c e step))
          (shell_workdir c e step))

  abbrev pub docker_result : World × Exit → Ran World
  docker_result (m, not_run) = ran m failed_outcome true
  docker_result (m, exited n) = if is_zero n then ran m succeeded false else ran m failed_step false

  unfoldable pub exec_docker_action :
      JobRunner → World → Step → ResolvedAction → ExecutionContext → Ran World
  unfolding docker_args
  exec_docker_action r m step a c =
      docker_result (podman m (docker_args r.workspace c.live_env step.with_inputs a.image))

  abbrev pub clone_reference : World → Str → Found Reference → Option World
  clone_reference m dir (failed e) = some m
  clone_reference m dir (found ref) = clone m ref.owner ref.repo ref.ref dir

  abbrev pub is_composite : ActionType → Bool
  is_composite composite = true
  is_composite _ = false

  -- The lazy clone of a composite action; `none` is its error.
  unfoldable pub ensure_cloned : World → ResolvedAction → Option World
  unfolding needs_clone parse_reference
  ensure_cloned m a =
      if is_composite a.type && (not (str_eq a.source_dir (lit "")) && needs_clone H m a.source_dir)
      then clone_reference m a.source_dir (parse_reference a.uses)
      else some m

  unfoldable pub composite_inputs : ExecutionContext → Step → ActionDef → JobInfo → Dict Str
  unfolding build_step_eval_ctx interpolate_all fill_defaults
  composite_inputs c step def info =
      fill_defaults def.inputs
        (merge [] (interpolate_all (build_step_eval_ctx c step info) step.with_inputs))

  abbrev pub nested_context : ExecutionContext → Dict Str → ExecutionContext
  nested_context c inputs = record c { step_results = []; job_status = pending; inputs = inputs }

  -- Outputs whose value is not empty, interpolated in the nested context.
  unfoldable pub composite_outputs : EvalContext F → Dict ActionOutput → Dict Str
  unfolding interpolate insert
  composite_outputs e [] = []
  composite_outputs e ((name, out) ∷ outs) =
      if str_eq out.value (lit "")
      then composite_outputs e outs
      else (name, interpolate G e out.value) ∷ composite_outputs e outs

  abbrev pub is_failed : JobStatus → Bool
  is_failed failure = true
  is_failed _ = false

  abbrev pub composite_result : ExecutionContext → Step → ActionDef → JobInfo → StepResult
  composite_result nested step def info =
      record (if is_failed nested.job_status then failed_step else succeeded) {
        outputs = composite_outputs (build_step_eval_ctx nested step info) def.outputs;
      }

  abbrev pub save_result : Step → StepResult → ExecutionContext → ExecutionContext
  save_result step result c =
      if str_eq step.id (lit "")
      then c
      else record c { step_results = insert step.id result c.step_results }

  -- How the loop over the steps of a composite action ends, with the nested context.
  pub data Nested : Type 0 where
    nested_done : World → ExecutionContext → Nested
    nested_out_of_fuel : Nested

  -- `run` is RunStep for the steps of the action.
  module _ (run : World → Step → ExecutionContext → Ran World) (r : JobRunner)
      (info : JobInfo) where
    unfoldable pub composite_steps : World → List Step → ExecutionContext → Nested
    unfolding insert
    composite_steps m [] c = nested_done m c
    composite_steps m (step ∷ steps) c = elim (run m step c) [
      | out_of_fuel ↦ nested_out_of_fuel
      | ran m' result has_err ↦
          let c' = save_result step result c in
          elim ((has_err || str_eq result.outcome (lit "failure")) && not step.continue_on_error) [
            | true ↦ nested_done m' (record c' { job_status = failure })
            | false ↦ composite_steps m' steps c'
          ]
    ]

    abbrev pub composite_end : Step → ActionDef → Nested → Ran World
    composite_end step def nested_out_of_fuel = out_of_fuel
    composite_end step def (nested_done m c) = ran m (composite_result c step def info) false

    abbrev pub after_clone :
        Step → ExecutionContext → ActionDef → Option World → Ran World → Ran World
    after_clone step c def none e = e
    after_clone step c def (some m) e =
        composite_end step def
          (composite_steps m def.runs.steps (nested_context c (composite_inputs c step def info)))

    abbrev pub with_definition :
        World → Step → ResolvedAction → ExecutionContext → Option ActionDef → Ran World
    with_definition m step a c none = ran m failed_outcome true
    with_definition m step a c (some def) =
        after_clone step c def (ensure_cloned m a) (ran m failed_outcome true)

    unfoldable pub exec_composite_action :
        World → Step → ResolvedAction → ExecutionContext → Ran World
    unfolding ensure_cloned composite_inputs composite_outputs build_step_eval_ctx composite_steps
    exec_composite_action m step a c = with_definition m step a c a.def

    -- The three cases of the switch: composite and local actions, docker, and the others.
    abbrev pub by_type : ActionType → Ran World → Ran World → Ran World → Ran World
    by_type composite c d o = c
    by_type local c d o = c
    by_type docker c d o = d
    by_type js c d o = o
    by_type dockerfile c d o = o

    unfoldable pub exec_action_step : World → Step → ResolvedAction → ExecutionContext → Ran World
    unfolding exec_composite_action exec_docker_action
    exec_action_step m step a c =
        by_type a.type (exec_composite_action m step a c) (exec_docker_action r m step a c)
          (ran m failed_outcome true)

    abbrev pub exec_resolved : Step → ExecutionContext → World × Found ResolvedAction → Ran World
    exec_resolved step c (m, failed e) = ran m failed_step true
    exec_resolved step c (m, found a) = exec_action_step m step a c

    unfoldable pub run_uses_step : World → Step → ExecutionContext → Ran World
    unfolding is_checkout_action resolve_action exec_action_step build_step_eval_ctx interpolate
    run_uses_step m step c =
        let uses = interpolate G (build_step_eval_ctx c step info) step.uses in
        elim (is_checkout_action uses) [
          | true ↦ ran m succeeded false
          | false ↦
              exec_resolved step c
                (resolve_action H m uses r.workspace (join_path (r.cache_dir ∷ lit "actions" ∷ [])))
        ]

    -- The body of RunStep.
    unfoldable pub dispatch_step : World → Step → ExecutionContext → Ran World
    unfolding run_shell_step run_uses_step build_step_eval_ctx
    dispatch_step m step c = elim (str_eq step.run (lit "")) [
      | false ↦ run_shell_step m step c (build_step_eval_ctx c step info)
      | true ↦ elim (str_eq step.uses (lit "")) [
        | false ↦ run_uses_step m step c
        | true ↦ ran m succeeded false
      ]
    ]

  -- RunStep, on fuel for the depth of composite actions in each other.
  unfoldable pub run_step : ℕ → JobRunner → JobInfo → World → Step → ExecutionContext → Ran World
  unfolding dispatch_step
  run_step zero r info m step c = out_of_fuel
  run_step (suc fuel) r info m step c = dispatch_step (run_step fuel r info) r info m step c
