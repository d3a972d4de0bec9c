-- ===== src/Samples/Runs.antt =====
-- Runs of internal/runner/runner.go.
use ghenkins.Prelude.{ℕ, suc, ◌≡◌, refl, List, [], ◌∷◌, if◌then◌else◌}
use ghenkins.Prelude.Text.{Str, lit, str_eq}
use ghenkins.Prelude.Dict.{Dict, insert, lookup_or, delete}
use ghenkins.Prelude.Names.{mem}
use ghenkins.Workflow.{Job, text, other}
use ghenkins.Expr.Context.{success, failure, skipped, running}
use ghenkins.Executor.Jobs.{JobEnd, finished}
use ghenkins.Runner.{JobsEnd, ended, going, Call, run_jobs}
use ghenkins.Runner.Calls.{statuses}
use ghenkins.Runner.Turns.{Finishes}
use ghenkins.Runner.Results.{Ends, run_jobs-IsHeard}
use ghenkins.Samples.Workflows.{job, pipeline, pipeline_waves, pipeline_runs}

abbrev clock : ℕ → ℕ
clock m = m

-- Only "build" fails.
abbrev outcomes : ℕ → Str → Job → JobEnd ℕ
outcomes m id j = finished (suc m) (record {
  job_id = id;
  status = if str_eq id (lit "build") then failure else success;
  steps = [];
})

outcomes_Finishes : Finishes clock outcomes pipeline
outcomes_Finishes m id j = (suc m, _, refl)

run_jobs-IsHeard_example : Ends clock outcomes pipeline 0
unfolding lit str_eq mem
run_jobs-IsHeard_example =
    run_jobs-IsHeard clock outcomes pipeline pipeline_waves 0 (refl, (refl, (refl, tt)))
      pipeline_runs outcomes_Finishes

-- "deploy" needs "test", which needs "build".
abbrev chain : Dict Job
chain =
    (lit "deploy", job (text (lit "test")))
    ∷ (lit "test", job (text (lit "build")))
    ∷ (lit "build", job other)
    ∷ []

abbrev calls_of : JobsEnd ℕ → List Call
calls_of (ended (going s)) = s.calls
calls_of _ = []

chain_skips : statuses (lit "test") (calls_of (run_jobs clock outcomes chain 0)) ≡ skipped ∷ []
unfolding run_jobs statuses lit str_eq insert lookup_or delete
chain_skips = refl

-- The job behind a skipped one runs.
chain_goes_on :
    statuses (lit "deploy") (calls_of (run_jobs clock outcomes chain 0)) ≡ running ∷ success ∷ []
unfolding run_jobs statuses lit str_eq insert lookup_or delete
chain_goes_on = refl
