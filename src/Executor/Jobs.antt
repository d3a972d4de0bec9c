-- ===== src/Executor/Jobs.antt =====
-- RunJob of internal/runner/executor.go: the condition of a job, its image and environment, and the loop over
-- its steps. The set-up of the container is a parameter, and so is the end of the context, which shows
-- in what the container answers.
use ghenkins.Prelude.{
  ℕ, suc, Bool, true, false, not, ◌&&◌, List, [], ◌∷◌, ◌++◌, Option, none, some, if◌then◌else◌,
}
use ghenkins.Prelude.Text.{Str, lit, str_eq}
use ghenkins.Prelude.Dict.{Dict, insert, merge}
use ghenkins.Prelude.Decimal.{show_nat, show_int}
use ghenkins.Workflow.{Workflow, Job, Step, Defaults, runs_on_image}
use ghenkins.EnvFile.{EnvFiles, Contents, Delta, delta, read_delta}
use ghenkins.Expr.Value.{GoLib, Result}
use ghenkins.Expr.Value.{ok}
use ghenkins.Expr.Context.{JobStatus, pending, success, failure, StepResult}
use ghenkins.Expr.Build.{JobInfo, build_eval_context}
use ghenkins.Expr.Eval.{eval_bool}
use ghenkins.Action.{Host}
use ghenkins.Executor.Command.{or_text, input_key}
use ghenkins.Executor.RunStep.{
  ExecutionContext, outcome_of, failed_step, Ran, ran, out_of_fuel, JobRunner, run_step,
}

pub record JobResult : Type 0 where
  pub job_id : Str
  pub status : JobStatus
  pub steps : Dict StepResult

-- INPUT_<NAME> for each input.
unfoldable pub add_inputs : Dict Str → Dict Str → Dict Str
unfolding insert input_key
add_inputs [] env = env
add_inputs ((name, val) ∷ inputs) env = add_inputs inputs (insert (input_key name) val env)

-- The entries that buildInitialEnv sets one after another.
unfoldable pub standard_env : Workflow → Str → JobInfo → Dict Str
unfolding show_int
standard_env wf job_id info =
    (lit "CI", lit "true")
    ∷ (lit "GITHUB_ACTIONS", lit "true")
    ∷ (lit "GITHUB_SHA", info.sha)
    ∷ (lit "GITHUB_REF", info.ref)
    ∷ (lit "GITHUB_REF_NAME", info.ref_name)
    ∷ (lit "GITHUB_REF_TYPE", lit "branch")
    ∷ (lit "GITHUB_REPOSITORY", info.repo)
    ∷ (lit "GITHUB_REPOSITORY_OWNER", info.owner)
    ∷ (lit "GITHUB_EVENT_NAME", info.event_name)
    ∷ (lit "GITHUB_EVENT_PATH", lit "/runner/_event.json")
    ∷ (lit "GITHUB_WORKSPACE", lit "/workspace")
    ∷ (lit "GITHUB_ENV", lit "/runner/_env")
    ∷ (lit "GITHUB_OUTPUT", lit "/runner/_output")
    ∷ (lit "GITHUB_PATH", lit "/runner/_path")
    ∷ (lit "GITHUB_STEP_SUMMARY", lit "/runner/_summary")
    ∷ (lit "GITHUB_RUN_ID", info.run_id)
    ∷ (lit "GITHUB_RUN_NUMBER", show_int info.run_number)
    ∷ (lit "GITHUB_SERVER_URL", lit "https://github.com")
    ∷ (lit "GITHUB_API_URL", lit "https://api.github.com")
    ∷ (lit "GITHUB_GRAPHQL_URL", lit "https://api.github.com/graphql")
    ∷ (lit "GITHUB_ACTOR", or_text info.actor (lit "ghenkins"))
    ∷ (lit "GITHUB_JOB", job_id)
    ∷ (lit "GITHUB_WORKFLOW", wf.name)
    ∷ (lit "RUNNER_OS", lit "Linux")
    ∷ (lit "RUNNER_ARCH", lit "X64")
    ∷ (lit "RUNNER_NAME", lit "ghenkins")
    ∷ (lit "RUNNER_TEMP", lit "/runner/_temp")
    ∷ (lit "RUNNER_TOOL_CACHE", lit "/runner/_tools")
    ∷ []

abbrev pull_request_env : JobInfo → Dict Str
pull_request_env info =
    if str_eq info.event_name (lit "pull_request")
    then (lit "GITHUB_HEAD_REF", info.head_ref) ∷ (lit "GITHUB_BASE_REF", info.base_ref) ∷ []
    else []

unfoldable pub build_initial_env : Workflow → Str → Job → JobInfo → Dict Str
unfolding merge standard_env add_inputs
build_initial_env wf job_id job info = add_inputs info.inputs (
    merge (merge (merge (merge [] wf.env) job.env) (standard_env wf job_id info))
      (pull_request_env info))

abbrev shell_of : Option Defaults → Str
shell_of none = lit ""
shell_of (some d) = d.shell

abbrev workdir_of : Option Defaults → Str
workdir_of none = lit ""
workdir_of (some d) = d.working_directory

-- The context that RunJob begins with.
unfoldable pub new_context : Workflow → Job → Dict Str → ExecutionContext
new_context wf job secrets = record {
  step_results = [];
  live_env = [];
  live_path = [];
  job_status = pending;
  is_cancelled = false;
  secrets = secrets;
  inputs = [];
  default_shell = or_text (shell_of job.defaults) (shell_of wf.defaults);
  default_workdir = or_text (workdir_of job.defaults) (workdir_of wf.defaults);
}

-- The image: the default that is given, or the job's, or ubuntu:22.04.
unfoldable pub image_of : Str → Job → Str
unfolding runs_on_image
image_of default_image job =
    or_text (or_text default_image (runs_on_image job)) (lit "ubuntu:22.04")

abbrev pub step_id : ℕ → Step → Str
step_id i step = if str_eq step.id (lit "") then lit "__step_" ++ show_nat i else step.id

abbrev pub is_status_failure : JobStatus → Bool
is_status_failure failure = true
is_status_failure _ = false

-- execCtx.JobStatus == JobStatusSuccess || execCtx.JobStatus == JobStatusPending
abbrev pub is_good : JobStatus → Bool
is_good success = true
is_good pending = true
is_good _ = false

abbrev new_env : Delta → Dict Str
new_env (delta env outputs paths) = env
new_env _ = []

abbrev new_outputs : Delta → Dict Str
new_outputs (delta env outputs paths) = outputs
new_outputs _ = []

abbrev new_paths : Delta → List Str
new_paths (delta env outputs paths) = paths
new_paths _ = []

-- What the loop over the steps changes.
pub record JobState (W : Type 0) : Type 0 where
  pub world : W
  pub context : ExecutionContext
  pub files : EnvFiles

-- The execution context behind a step with its result and the delta of the files.
unfoldable pub after_step : Str → Step → StepResult → Delta → ExecutionContext → ExecutionContext
unfolding merge insert
after_step id step result d c =
    let result = record result { outputs = merge result.outputs (new_outputs d) } in
    record c {
      live_env = merge c.live_env (new_env d);
      live_path = c.live_path ++ new_paths d;
      step_results = insert id result c.step_results;
      job_status =
          if str_eq result.outcome (lit "failure") && not step.continue_on_error
          then failure
          else c.job_status;
    }

unfoldable pub skip_step : Str → ExecutionContext → ExecutionContext
unfolding insert
skip_step id c = record c { step_results = insert id (outcome_of (lit "skipped")) c.step_results }

abbrev final_status : JobStatus → JobStatus
final_status pending = success
final_status status = status

-- How RunJob ends: with a result and no error, with an error, with the panic on a nil step, or out of fuel.
pub data JobEnd (W : Type 0) : Type 0 where
  finished : W → JobResult → JobEnd W
  job_error : W → JobResult → JobEnd W
  job_panicked job_out_of_fuel : JobEnd W

module _ (G : GoLib) (H : Host) where
  open H use {World, env_file, output_file, path_file}

  abbrev pub magic_files : World → Contents
  magic_files m = record { env = env_file m; output = output_file m; path = path_file m }

  abbrev truth_of : Result Bool → Bool
  truth_of (ok b) = b
  truth_of _ = false

  -- `run` is RunStep, and `info` and `job` belong to the job.
  module _ (run : World → Step → ExecutionContext → Ran World) (wf : Workflow) (job_id : Str)
      (job : Job) (info : JobInfo) (secrets : Dict Str) where
    unfoldable pub should_run : Step → ExecutionContext → Bool
    unfolding eval_bool build_eval_context
    should_run step c = elim (str_eq step.condition (lit "")) [
      | false ↦ truth_of (
          eval_bool G
            (build_eval_context G wf job_id job (some step) c.step_results c.live_env info secrets
              c.job_status c.is_cancelled)
            step.condition)
      | true ↦ is_good c.job_status
    ]

    abbrev pub step_result : StepResult → Bool → StepResult
    step_result result true = failed_step
    step_result result false = result

    abbrev pub step_end : Str → Step → JobState World → Ran World → Option (JobState World)
    step_end id step s out_of_fuel = none
    step_end id step s (ran m result has_err) =
        let d = read_delta s.files (magic_files m) in
        some (record {
          world = m;
          context = after_step id step (step_result result has_err) d.0 s.context;
          files = d.1;
        })

    -- A step that should run, and what follows it in the body of the loop; `none` is out of fuel.
    unfoldable pub execute_step : ℕ → Step → JobState World → Option (JobState World)
    unfolding after_step read_delta
    execute_step i step s =
        let step = record step { id = step_id i step } in
        step_end step.id step s (run s.world step s.context)

    unfoldable pub job_step : ℕ → Step → JobState World → Option (JobState World)
    unfolding should_run execute_step skip_step
    job_step i step s = elim (should_run (record step { id = step_id i step }) s.context) [
      | true ↦ execute_step i step s
      | false ↦ some (record s { context = skip_step (step_id i step) s.context })
    ]

    unfoldable pub job_steps : ℕ → List Step → JobState World → Option (JobState World)
    unfolding job_step
    job_steps i [] s = some s
    job_steps i (step ∷ steps) s = elim (job_step i step s) [
      | none ↦ none
      | some s' ↦ job_steps (suc i) steps s'
    ]

  -- From the set-up on, which is the runner's directory, the files, the image and the container.
  abbrev job_end : Str → Option (JobState World) → JobEnd World
  job_end job_id none = job_out_of_fuel
  job_end job_id (some s) = finished s.world (record {
    job_id = job_id;
    status = final_status s.context.job_status;
    steps = s.context.step_results;
  })

  abbrev result_of : Str → JobStatus → JobResult
  result_of job_id status = record { job_id = job_id; status = status; steps = [] }

  -- The steps, if none is nil.
  abbrev and_step : Option Step → Option (List Step) → Option (List Step)
  and_step (some step) (some steps) = some (step ∷ steps)
  and_step _ _ = none

  unfoldable pub all_steps : List (Option Step) → Option (List Step)
  all_steps [] = some []
  all_steps (o ∷ os) = and_step o (all_steps os)

  -- The set-up is `none` if it fails up to the pull of the image, and `some none` if the container does not
  -- start; resolveExtraBinds goes over the steps in between.
  module _ (set_up : World → Str → Dict Str → Option (Option World)) where
    unfoldable pub run_container :
        ℕ → JobRunner → World → Str → Job → Workflow → JobInfo → Dict Str → Str → JobEnd World
    unfolding all_steps image_of build_initial_env new_context job_steps run_step
    run_container fuel r m job_id job wf info secrets default_image =
        let env = build_initial_env wf job_id job info in
        elim (set_up m (image_of default_image job) env) [
          | none ↦ job_error m (result_of job_id failure)
          | some container ↦ elim (all_steps job.steps) [
            | none ↦ job_panicked
            | some steps ↦ elim container [
              | none ↦ job_error m (result_of job_id failure)
              | some m' ↦ job_end job_id (
                  job_steps (run_step G H fuel r info) wf job_id job info secrets 0 steps (record {
                    world = m';
                    context = record (new_context wf job secrets) { live_env = env };
                    files = record { env_off = 0; output_off = 0; path_off = 0 };
                  }))
            ]
          ]
        ]

    unfoldable pub run_job :
        ℕ → JobRunner → World → Str → Job → Workflow → JobInfo → Dict Str → Str → JobEnd World
    unfolding eval_bool build_eval_context run_container
    run_job fuel r m job_id job wf info secrets default_image =
        elim (str_eq job.condition (lit "")) [
          | true ↦ run_container fuel r m job_id job wf info secrets default_image
          | false ↦
              elim (eval_bool G
                (build_eval_context G wf job_id job none [] [] info secrets pending false)
                job.condition) [
                  | ok true ↦ run_container fuel r m job_id job wf info secrets default_image
                  | ok false ↦ finished m (result_of job_id success)
                  | _ ↦ job_error m (result_of job_id failure)
                ]
        ]
