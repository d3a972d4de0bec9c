-- ===== src/Daemon.antt =====
-- internal/daemon/daemon.go: a run of a workflow from its row in the store to its last report, the
-- recovery of runs left over, and the requests for runs. The statements of the store succeed unless
-- their context has ended.
pub mod Recovery
pub mod Lifecycle
pub mod Shared
pub mod JobRows
pub mod Requests
pub mod Manual
use ghenkins.Prelude.{
  ℕ, zero, suc, ◌≡◌, Bool, true, false, not, ◌&&◌, ◌||◌, List, [], ◌∷◌, ◌++◌, Option, none, some,
  if◌then◌else◌, map,
}
use ghenkins.Prelude.Text.{Str, lit, str_eq, split_n2}
use ghenkins.Prelude.Int.{ℤ, pos, negsuc}
use ghenkins.Prelude.Dict.{Dict}
use ghenkins.Prelude.Decimal.{show_int}
use ghenkins.Expr.Context.{JobStatus, pending}
use ghenkins.Expr.Context as Context
use ghenkins.Config.{WorkflowRef}
use ghenkins.Poller.{Job}
use ghenkins.Reporter.{ReportRequest}
use ghenkins.Runner.{Call}
use ghenkins.Store.{
  Run, RunStatus, queued, running, success, failure, error, canceled, RunJob, RunJobStatus,
  job_pending, job_running, job_success, job_failure, job_skipped, create_run, update_run_status,
  list_runs, upsert_run_job, update_run_sha,
}

unfoldable pub is_stale : RunStatus → Bool
is_stale queued = true
is_stale running = true
is_stale _ = false

-- The loop over the runs listed, and the table.
unfoldable pub recover_rows : List Run → Str → List Run → List Run
unfolding is_stale update_run_status
recover_rows [] now rows = rows
recover_rows (r ∷ runs) now rows =
    recover_rows runs now
      (if is_stale r.status then update_run_status rows r.id error none (some now) else rows)

unfoldable pub recover_stale_runs : Str → List Run → List Run
unfolding recover_rows list_runs
recover_stale_runs now rows = recover_rows (list_runs rows (pos 0)) now rows

-- strings.SplitN(repo, "/", 2)
abbrev owner_and_name : List Str → Str × Str
owner_and_name (owner ∷ name ∷ rest) = (owner, name)
owner_and_name (name ∷ []) = (lit "", name)
owner_and_name [] = (lit "", lit "")

unfoldable pub split_repo : Str → Str × Str
unfolding split_n2
split_repo repo = owner_and_name (split_n2 b'/' repo)

unfoldable pub job_status_to_string : JobStatus → RunJobStatus
job_status_to_string Context.success = job_success
job_status_to_string Context.failure = job_failure
job_status_to_string Context.cancelled = job_failure
job_status_to_string Context.skipped = job_skipped
job_status_to_string Context.running = job_running
job_status_to_string pending = job_pending

-- The row that JobCallback writes, with the text of a time.
abbrev text_of : (ℕ → Str) → Option ℕ → Option Str
text_of show_time none = none
text_of show_time (some t) = some (show_time t)

unfoldable pub job_row : (ℕ → Str) → Str → Call → RunJob
unfolding job_status_to_string
job_row show_time run_id c = record {
  id = run_id ++ lit "-" ++ c.job_name;
  run_id = run_id;
  job_name = c.job_name;
  status = job_status_to_string c.status;
  started_at = text_of show_time c.started_at;
  finished_at = text_of show_time c.finished_at;
}

abbrev or_rows {ℓ} : {A : Type ℓ} → A → Option A → A
or_rows rows none = rows
or_rows rows (some rows') = rows'

-- A call of JobCallback; the error of the store is dropped.
unfoldable pub job_callback : (ℕ → Str) → Str → List RunJob → Call → List RunJob
unfolding upsert_run_job job_row
job_callback show_time run_id rows c =
    or_rows rows (upsert_run_job rows (job_row show_time run_id c))

-- What the runner returns to runJob.
pub data RunnerEnd : Type 0 where
  returned : ℤ → RunnerEnd
  runner_error : Str → RunnerEnd

-- Whether runCtx is still alive when the run is created, when it is marked running, when the runner has
-- resolved "manual" to a commit, and when the run has ended.
pub record Alive : Type 0 where
  pub at_create : Bool
  pub at_start : Bool
  pub at_resolve : Bool
  pub at_end : Bool

-- The times of the writes of CancelRun, if there are any, between the writes of the run.
pub record Cancels : Type 0 where
  pub before_start : Option Str
  pub before_resolve : Option Str
  pub before_end : Option Str
  pub after_end : Option Str

-- The times of a run, in the texts of the store, and the text of its duration.
pub record Times : Type 0 where
  pub started : Str
  pub finished : Str
  pub duration : Str

pub record Final : Type 0 where
  pub status : RunStatus
  pub report : Str
  pub description : Str

unfoldable pub final_of : Times → RunnerEnd → Final
unfolding show_int
final_of t (runner_error e) = record {
  status = error;
  report = lit "error";
  description = lit "internal error: " ++ e;
}
final_of t (returned (pos zero)) = record {
  status = success;
  report = lit "success";
  description = lit "passed in " ++ t.duration;
}
final_of t (returned (pos (suc n))) = record {
  status = failure;
  report = lit "failure";
  description = lit "failed (exit " ++ show_int (pos (suc n)) ++ lit ")";
}
final_of t (returned (negsuc n)) = record {
  status = failure;
  report = lit "failure";
  description = lit "failed (exit " ++ show_int (negsuc n) ++ lit ")";
}

-- The exit code that is written; it is 0 beside an error.
abbrev pub exit_code_of : RunnerEnd → ℤ
exit_code_of (returned code) = code
exit_code_of (runner_error e) = pos 0

unfoldable pub new_run : Job → Str → Str → Times → Str → Run
new_run j workflow_name run_id t log_path = record {
  id = run_id;
  watch_name = j.watch_name;
  repo = j.repo;
  sha = j.sha;
  workflow_name = workflow_name;
  status = queued;
  started_at = t.started;
  finished_at = none;
  exit_code = none;
  log_path = log_path;
}

unfoldable pub create_row : Bool → List Run → Run → List Run
unfolding create_run
create_row alive rows r = if alive then or_rows rows (create_run rows r) else rows

-- UpdateRunStatus, under a context that may have ended.
unfoldable pub write_status : Bool → List Run → Str → RunStatus → Option ℤ → Option Str → List Run
unfolding update_run_status
write_status alive rows id status code finished =
    if alive then update_run_status rows id status code finished else rows

-- UpdateRunSHA in the runner, which asks git for the commit of the branch where the job's is "manual"; `none`
-- if it does not come to that.
unfoldable pub write_sha : Bool → List Run → Str → Str → Option Str → List Run
unfolding update_run_sha
write_sha alive rows id sha none = rows
write_sha alive rows id sha (some resolved) =
    if str_eq sha (lit "manual") && alive then update_run_sha rows id resolved else rows

-- UpdateRunStatus in CancelRun, under a context of its own.
unfoldable pub write_canceled : List Run → Str → Option Str → List Run
unfolding update_run_status
write_canceled rows id none = rows
write_canceled rows id (some now) = update_run_status rows id canceled none (some now)

unfoldable pub report_request : Job → Str → Str → Str → Str → Str → ReportRequest
unfolding split_repo
report_request j workflow_name status description bind run_id =
    let names = split_repo j.repo in
    record {
      owner = names.0;
      repo = names.1;
      sha = j.sha;
      workflow_name = workflow_name;
      status = status;
      description = description;
      target_url = lit "http://" ++ bind ++ lit "/runs/" ++ run_id ++ lit "/log";
    }

-- runJob: the table of runs behind it, and the reports it asks for in their order. `run_id` is the job's, or
-- a new one; `resolved` is the commit that the runner writes; calls of CancelRun write in between.
unfoldable pub run_job :
    Str
    → Job
    → WorkflowRef
    → Str
    → Times
    → Str
    → Alive
    → Cancels
    → Option Str
    → RunnerEnd
    → List Run
    → List Run × List ReportRequest
unfolding create_row write_status write_sha write_canceled final_of report_request new_run
run_job bind j wf run_id t log_path alive cancels resolved e rows =
    let created = create_row alive.at_create rows (new_run j wf.name run_id t log_path) in
    let queued_rows = write_canceled created run_id cancels.before_start in
    let started = write_status alive.at_start queued_rows run_id running none none in
    let running_rows = write_canceled started run_id cancels.before_resolve in
    let known = write_sha alive.at_resolve running_rows run_id j.sha resolved in
    let left = write_canceled known run_id cancels.before_end in
    let final = final_of t e in
    let done =
      write_status alive.at_end left run_id final.status (some (exit_code_of e))
        (some t.finished) in
    (
      write_canceled done run_id cancels.after_end,
      report_request j wf.name (lit "pending") (lit "queued") bind run_id
          ∷ report_request j wf.name (lit "pending") (lit "running") bind run_id
          ∷ report_request j wf.name final.report final.description bind run_id
          ∷ [],
    )
