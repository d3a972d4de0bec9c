-- ===== src/Samples/Steps.antt =====
-- Steps of internal/runner/executor.go and internal/runner/action.go.
use ghenkins.Prelude.{
  ℕ, suc, ◌≡◌, refl, false, List, [], ◌∷◌, ◌++◌, none, some, ◌==◌, if◌then◌else◌,
}
use ghenkins.Prelude.Text.{lit, str_eq, lower_byte}
use ghenkins.Prelude.Int.{pos}
use ghenkins.Workflow.{Step}
use ghenkins.Action.{Host, no_reply, exited, parse_reference, found}
use ghenkins.Action.Resolve.{parse_reference_parts}
use ghenkins.Executor.RunStep.{
  ExecutionContext, Ran, ran, JobRunner, succeeded, failed_step, run_step,
}
use ghenkins.Executor.Jobs.{JobState, new_context, job_steps}
use ghenkins.Executor.Steps.{run_until_failure, job_steps-run_until_failure}
use ghenkins.Executor.Ends.{EndsNamed, commands-EndsNamed}
use ghenkins.Samples.Expressions.{whole, workflow, job, step, info}

-- A machine without files, on which each command succeeds; the state counts the commands.
abbrev machine : Host
machine = record {
  World = ℕ;
  join_path = λ parts. [];
  read_file = λ m path. none;
  stat_ok = λ m path. false;
  entries = λ m path. none;
  mkdir_all = λ m path. none;
  write_file = λ m path text. none;
  http_get = λ m url. no_reply;
  decode_action = λ text. none;
  clone = λ m owner repo ref dir. none;
  exec = λ m command env dir. (suc m, exited (pos 0));
  podman = λ m args. (suc m, exited (pos 0));
  env_file = λ m. some [];
  output_file = λ m. some [];
  path_file = λ m. some [];
}

-- The second command fails.
abbrev second_fails : ℕ → Step → ExecutionContext → Ran ℕ
second_fails m _ c = ran (suc m) (if m == 1 then failed_step else succeeded) false

abbrev begin : JobState ℕ
begin = record {
  world = 0;
  context = new_context workflow job [];
  files = record { env_off = 0; output_off = 0; path_off = 0 };
}

abbrev steps : List Step
steps = step ∷ record step { id = lit "" } ∷ record step { id = lit "last" } ∷ []

job_steps-run_until_failure_example :
    job_steps whole machine second_fails workflow (lit "j") job info [] 0 steps begin
    ≡ run_until_failure whole machine second_fails workflow (lit "j") job info [] 0 steps begin
unfolding lit str_eq new_context
job_steps-run_until_failure_example =
    job_steps-run_until_failure whole machine second_fails workflow (lit "j") job info [] steps
      begin (refl, (refl, (refl, tt))) refl

abbrev runner : JobRunner
runner = record { workspace = lit "/w"; cache_dir = lit "/c" }

commands-EndsNamed_example :
    EndsNamed whole machine
      (run_step whole machine 1 runner info)
      workflow
      (lit "j")
      job
      info
      []
      0
      steps
      begin
unfolding lit str_eq
commands-EndsNamed_example =
    commands-EndsNamed whole machine runner workflow (lit "j") job info [] steps begin
      (refl, (refl, (refl, tt)))

-- A docker action.
abbrev docker_step : Step
docker_step = record step { run = lit ""; uses = lit "docker://alpine" }

docker_runs :
    run_step whole machine 1 runner info 0 docker_step begin.context ≡ ran 1 succeeded false
unfolding run_step lit str_eq lower_byte
docker_runs = refl

parse_reference_parts_example :
    parse_reference ((lit "actions" ++ b'/' ∷ lit "cache/save") ++ b'@' ∷ lit "v4")
    ≡ found (record { owner = lit "actions"; repo = lit "cache/save"; ref = lit "v4" })
unfolding lit
parse_reference_parts_example =
    parse_reference_parts (lit "actions") (lit "cache/save") (lit "v4")
      (refl, (refl, (refl, (refl, (refl, (refl, (refl, tt))))))) (refl, (refl, tt))
