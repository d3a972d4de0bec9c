-- ===== src/Samples/Daemons.antt =====
-- Runs of internal/daemon/daemon.go and internal/store/store.go.
use ghenkins.Prelude.{ℕ, Bool, ◌≡◌, refl, false, true, arith, List, [], ◌∷◌, ◌++◌, none, some, inr}
use ghenkins.Prelude.Text.{Str, lit, str_eq}
use ghenkins.Prelude.Int.{pos}
use ghenkins.Prelude.Names.{mem}
use ghenkins.Config.{WorkflowRef}
use ghenkins.Poller.{Job}
use ghenkins.Expr.Context.{failure, running}
use ghenkins.Runner.{Call, call}
use ghenkins.Runner.Calls.{statuses}
use ghenkins.Store.{Run, queued, RunJob, job_success, RunStatus, set_status, any}
use ghenkins.Store as Store
use ghenkins.Store.Projects.{Tables, DbWorkflow, DbProject}
use ghenkins.Daemon.{returned, Times, run_job, recover_stale_runs}
use ghenkins.Daemon.Recovery.{recovered, recover_stale_runs-recovered}
use ghenkins.Daemon.Lifecycle.{
  all_alive, ended_early, cancel_at, shown_sha, IsRowOf, IsEnd, IsCutShort, run_job-row,
  run_job-IsCutShort,
}
use ghenkins.Daemon.Shared.{
  Flight, State, wire_at, Reach, Crossed, Crossed-Reach, Attributed, Reach-Attributed, idle, start,
  step, acquire, wire, call_back,
}
use ghenkins.Daemon.JobRows.{record_calls, status_of, last_status, record_calls-last}
use ghenkins.Daemon.Requests.{trigger_run, accepted, manual_job}
use ghenkins.Daemon.Manual.{IsManual, trigger_run-IsManual}

abbrev run : Str → RunStatus → Str → Run
run id status started = record {
  id = id;
  watch_name = lit "w";
  repo = lit "o/r";
  sha = lit "1";
  workflow_name = lit "ci";
  status = status;
  started_at = started;
  finished_at = none;
  exit_code = none;
  log_path = lit "";
}

abbrev rows : List Run
rows =
    run (lit "a") Store.running (lit "2024-01-01T00:00:00Z")
    ∷ run (lit "b") Store.success (lit "2024-01-02T00:00:00Z")
    ∷ []

recover_stale_runs-recovered_example :
    recover_stale_runs (lit "2024-01-03T00:00:00Z") rows
    ≡ recovered (lit "2024-01-03T00:00:00Z") rows
unfolding lit str_eq mem
recover_stale_runs-recovered_example =
    recover_stale_runs-recovered (lit "2024-01-03T00:00:00Z") rows (refl, (refl, tt)) (omega arith)

abbrev job : Job
job = record {
  watch_name = lit "w";
  repo = lit "o/r";
  owner = lit "o";
  repo_name = lit "r";
  sha = lit "1";
  pr_number = pos 0;
  branch = lit "main";
  event_type = lit "push";
  workflow_refs = [];
  inputs = [];
  run_id = lit "";
}

abbrev workflow : WorkflowRef
workflow = record {
  path = lit "ci.yml";
  name = lit "ci";
  secrets = [];
  env = [];
  runner_image = lit "";
  timeout_minutes = pos 30;
}

abbrev times : Times
times = record { started = lit "1"; finished = lit "2"; duration = lit "1s" }

abbrev manual : Job
manual = record job { sha = lit "manual" }

run_job-row_example :
    (r : Run) × ((run_job
        (lit ":80")
        manual
        workflow
        (lit "c")
        times
        (lit "c.log")
        all_alive
        (cancel_at none)
        (some (lit "2"))
        (returned (pos 1))
        rows).0
      ≡ rows ++ r ∷ [])
    × IsRowOf manual workflow (lit "c") times (lit "c.log") r
    × IsEnd (returned (pos 1)) r
    × (r.finished_at ≡ some (lit "2"))
    × (r.sha ≡ shown_sha (lit "manual") (some (lit "2")))
unfolding lit str_eq any
run_job-row_example =
    run_job-row (lit ":80") manual workflow (lit "c") times (lit "c.log") (some (lit "2"))
      (returned (pos 1)) rows refl

run_job-IsCutShort_example :
    (r : Run) × ((run_job
        (lit ":80")
        manual
        workflow
        (lit "c")
        times
        (lit "c.log")
        (ended_early true)
        (cancel_at (some (lit "3")))
        (some (lit "2"))
        (returned (pos 1))
        rows).0
      ≡ rows ++ r ∷ [])
    × IsRowOf manual workflow (lit "c") times (lit "c.log") r
    × IsCutShort (some (lit "3")) r
unfolding lit str_eq any
run_job-IsCutShort_example =
    run_job-IsCutShort (lit ":80") manual workflow (lit "c") times (lit "c.log") (some (lit "2"))
      (returned (pos 1)) rows true (some (lit "3")) refl

Crossed-Reach_example : Reach 4 (Crossed (lit "a") (lit "b"))
Crossed-Reach_example = Crossed-Reach 4 (lit "a") (lit "b") (omega arith)

abbrev flight : Bool → Flight
flight b = record { run_id = lit "a"; is_wired = b }

-- One run that has set the fields and has been called back.
abbrev begun : State
begun = record { flights = flight false ∷ []; captured = []; heard = [] }

abbrev wired : State
wired = record { flights = flight true ∷ []; captured = lit "a"; heard = [] }

abbrev called : State
called = record wired { heard = record { of_run = lit "a"; captured = lit "a" } ∷ [] }

called-Reach : Reach 1 called
unfolding wire_at
called-Reach =
    let r1 : Reach 1 begun = step idle begun start (acquire idle (lit "a") (omega arith)) in
    let r2 : Reach 1 wired = step begun wired r1 (wire begun 0 (flight false) refl) in
    step wired called r2 (call_back wired 0 (flight true) refl refl)

Reach-Attributed_example : Attributed called
Reach-Attributed_example = Reach-Attributed called called-Reach

abbrev show_time : ℕ → Str
show_time n = lit "T"

-- The row of another run.
abbrev other_row : RunJob
other_row = record {
  id = lit "b-test";
  run_id = lit "b";
  job_name = lit "test";
  status = job_success;
  started_at = none;
  finished_at = none;
}

abbrev calls : List Call
calls =
    call (lit "test") running (some 1) none
    ∷ call (lit "test") failure (some 1) (some 2)
    ∷ call (lit "lint") running (some 2) none
    ∷ []

record_calls-last_example :
    status_of (lit "a") (lit "test") (record_calls show_time (lit "a") (other_row ∷ []) calls)
    ≡ last_status (status_of (lit "a") (lit "test") (other_row ∷ [])) (statuses (lit "test") calls)
unfolding lit str_eq
record_calls-last_example =
    record_calls-last show_time (lit "a") (lit "test") (other_row ∷ []) calls
      (inr (refl, λ k. refl), tt)

abbrev db_workflow : DbWorkflow
db_workflow = record {
  id = lit "1";
  project_name = lit "p";
  name = lit "ci";
  path = lit "ci.yml";
  runner_image = lit "";
  secrets = [];
  env = [];
  timeout_minutes = pos 0;
}

abbrev tables : Tables
tables = record {
  projects = record { name = lit "p"; description = lit "" } ∷ [];
  workflows = db_workflow ∷ [];
  triggers = [];
  new_ids = [];
}

abbrev project : DbProject
project = record {
  name = lit "p";
  description = lit "";
  workflows = db_workflow ∷ [];
  triggers = [];
}

trigger_runs :
    trigger_run 4 [] tables (lit "p") (lit "ci") [] (lit "r1")
    ≡ accepted (lit "r1") (manual_job project (lit "p") db_workflow [] (lit "r1") ∷ [])
unfolding trigger_run lit str_eq
trigger_runs = refl

trigger_run-IsManual_example :
    IsManual 4 []
      (manual_job project (lit "p") db_workflow [] (lit "r1") ∷ [])
      tables
      (lit "p")
      (lit "ci")
      []
      (lit "r1")
    × (lit "r1" ≡ lit "r1")
trigger_run-IsManual_example =
    trigger_run-IsManual 4 [] tables (lit "p") (lit "ci") [] (lit "r1") (lit "r1")
      (manual_job project (lit "p") db_workflow [] (lit "r1") ∷ []) trigger_runs
