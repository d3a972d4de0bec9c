-- ===== src/Expr/Build.antt =====
-- BuildEvalContext of internal/runner/context.go, and the event payload of internal/runner/event.go.
use ghenkins.Prelude.{◌≡◌, refl, Bool, Option, none, some, [], ◌∷◌, ◌++◌, arith, if◌then◌else◌}
use ghenkins.Prelude.Text.{Str, lit, str_eq, str_eq_iff}
use ghenkins.Prelude.Dict.{Dict, lookup, insert, merge, keys, or_else, lookup-insert}
use ghenkins.Prelude.Names.{Distinct, lookup-none}
use ghenkins.Prelude.Int.{ℤ}
use ghenkins.Workflow.{Workflow, Job, Step}
use ghenkins.Expr.Value.{Value, str, int, object, GoLib, Fields, field, no_fields}
use ghenkins.Expr.Context.{EvalContext, JobStatus, StepResult, job_status_string}

-- JobInfo of internal/runner/executor.go.
pub record JobInfo : Type 0 where
  pub sha : Str
  pub ref : Str
  pub ref_name : Str
  pub event_name : Str
  pub repo : Str
  pub owner : Str
  pub repo_name : Str
  pub run_id : Str
  pub run_number : ℤ
  pub actor : Str
  pub event_payload : Str
  pub pr_number : ℤ
  pub head_ref : Str
  pub base_ref : Str
  pub inputs : Dict Str

abbrev step_env : Option Step → Dict Str
step_env none = []
step_env (some step) = step.env

-- The four loops that fill mergedEnv.
unfoldable pub merged_env : Workflow → Job → Dict Str → Option Step → Dict Str
unfolding merge
merged_env wf job live step = merge (merge (merge (merge [] wf.env) job.env) live) (step_env step)

-- The value that GenerateEventJSON marshals.
unfoldable pub event_payload : {F : Type 0} → Str → Str → Str → Str → Str → ℤ → Str → Value F
event_payload repo owner repo_name sha branch pr_number event_type =
    let repository = object (
      field (lit "full_name") (str repo) (
        field (lit "name") (str repo_name)
          (field (lit "owner") (object (field (lit "login") (str owner) no_fields)) no_fields))) in
    if str_eq event_type (lit "pull_request")
    then object (
        field (lit "action") (str (lit "synchronize")) (
          field (lit "number") (int pr_number) (
            field (lit "pull_request")
              (object (
                field (lit "head") (object (field (lit "sha") (str sha) no_fields))
                  (field (lit "number") (int pr_number) no_fields)))
              (field (lit "repository") repository no_fields))))
    else object (
        field (lit "after") (str sha) (
          field (lit "ref") (str (lit "refs/heads/" ++ branch)) (
            field (lit "repository") repository (
              field (lit "head_commit") (object (field (lit "id") (str sha) no_fields))
                no_fields))))

module _ (G : GoLib) where
  open G use {F, unmarshal}

  abbrev event_field : Option (Value F) → Fields F
  event_field none = no_fields
  event_field (some event) = field (lit "event") event no_fields

  -- The field "event", if the payload is not empty and decodes.
  abbrev event_of : Str → Fields F
  event_of [] = no_fields
  event_of (c ∷ payload) = event_field (unmarshal (c ∷ payload))

  unfoldable pub github_context : Str → JobInfo → Fields F
  github_context job_id info = field (lit "sha") (str info.sha) (
      field (lit "ref") (str info.ref) (
        field (lit "ref_name") (str info.ref_name) (
          field (lit "event_name") (str info.event_name) (
            field (lit "repository") (str info.repo) (
              field (lit "repository_owner") (str info.owner) (
                field (lit "actor") (str info.actor) (
                  field (lit "run_id") (str info.run_id) (
                    field (lit "run_number") (int info.run_number) (
                      field (lit "workspace") (str (lit "/workspace"))
                        (field (lit "job") (str job_id) (event_of info.event_payload)))))))))))

  abbrev pub runner_context : Fields F
  runner_context = field (lit "os") (str (lit "Linux")) (
      field (lit "arch") (str (lit "X64")) (
        field (lit "temp") (str (lit "/runner/_temp")) (
          field (lit "tool_cache") (str (lit "/runner/_tools"))
            (field (lit "name") (str (lit "ghenkins")) no_fields))))

  -- A nil map reads as an empty one.
  unfoldable pub build_eval_context :
      Workflow
      → Str
      → Job
      → Option Step
      → Dict StepResult
      → Dict Str
      → JobInfo
      → Dict Str
      → JobStatus
      → Bool
      → EvalContext F
  unfolding github_context merged_env job_status_string
  build_eval_context wf job_id job step results live info secrets status cancelled = record {
    github = github_context job_id info;
    env = merged_env wf job live step;
    job = field (lit "status") (str (job_status_string status)) no_fields;
    steps = results;
    runner = runner_context;
    secrets = secrets;
    inputs = info.inputs;
    job_status = status;
    is_cancelled = cancelled;
  }

lookup-merge :
    (k : Str) (dst src : Dict Str)
    → Distinct (keys src)
    → lookup k (merge dst src) ≡ or_else (lookup k src) (lookup k dst)
unfolding merge lookup
lookup-merge k dst [] d = refl
lookup-merge k dst ((j, v) ∷ src) d = ground (
  arith,
  lookup-merge k (insert j v dst) src d.1,
  lookup-insert j k v dst,
  lookup-none j src d.0,
  str_eq_iff j k,
)

-- A variable of the env context is the step's, or else the one that the steps before it set, or else the
-- job's, or else the workflow's. Each map has a name once.
pub build-env :
    (G : GoLib) (wf : Workflow) (job_id : Str) (job : Job) (step : Step) (results : Dict StepResult)
    (live : Dict Str) (info : JobInfo) (secrets : Dict Str) (status : JobStatus) (cancelled : Bool)
    (k : Str)
    → Distinct (keys wf.env)
    → Distinct (keys job.env)
    → Distinct (keys live)
    → Distinct (keys step.env)
    → lookup k
        (build_eval_context G wf job_id job
          (some step)
          results
          live
          info
          secrets
          status
          cancelled).env
      ≡ or_else
          (lookup k step.env)
          (or_else (lookup k live) (or_else (lookup k job.env) (lookup k wf.env)))
unfolding build_eval_context lookup
build-env G wf job_id job step results live info secrets status cancelled k dw dj dl ds =
    let e1 = lookup-merge k [] wf.env dw in
    let e2 = lookup-merge k (merge [] wf.env) job.env dj in
    let e3 = lookup-merge k (merge (merge [] wf.env) job.env) live dl in
    let e4 = lookup-merge k (merge (merge (merge [] wf.env) job.env) live) step.env ds in
    ground (arith, e1, e2, e3, e4)
