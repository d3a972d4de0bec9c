-- ===== src/Runner.antt =====
-- The loop over the jobs in Run of internal/runner/runner.go. JobCallback is set.
pub mod Calls
pub mod Turns
pub mod Levels
pub mod Stories
pub mod Prepare
pub mod Run
pub mod Results
use ghenkins.Prelude.{
  ℕ, ◌≡◌, Bool, true, false, ◌||◌, List, [], ◌∷◌, ◌++◌, Option, none, some, if◌then◌else◌,
}
use ghenkins.Prelude.Text.{Str}
use ghenkins.Prelude.Dict.{Dict, lookup}
use ghenkins.Prelude.Names.{mem}
use ghenkins.Workflow.{Job, OrderError, OrderResult, ok, err, needs_ids, build_execution_order}
use ghenkins.Expr.Context.{JobStatus, failure, skipped, running}
use ghenkins.Executor.Jobs.{
  JobEnd, finished, job_error, job_panicked, job_out_of_fuel, is_status_failure,
}

-- A call of JobCallback; `none` is the zero time.
pub record Call : Type 0 where
  pub job_name : Str
  pub status : JobStatus
  pub started_at : Option ℕ
  pub finished_at : Option ℕ

abbrev pub call : Str → JobStatus → Option ℕ → Option ℕ → Call
call job_name status started_at finished_at = record {
  job_name = job_name;
  status = status;
  started_at = started_at;
  finished_at = finished_at;
}

-- What the loop over the jobs changes, with the calls of JobCallback so far.
pub record Progress (W : Type 0) : Type 0 where
  pub world : W
  pub exit_code : ℕ
  pub failed_jobs : List Str
  pub calls : List Call

-- The loop goes on, or RunJob has returned an error for the job, or the job is nil, or one of
-- its steps is, or a job is out of fuel.
pub data Loop (W : Type 0) : Type 0 where
  going : Progress W → Loop W
  run_job_error : Str → Progress W → Loop W
  nil_job nil_step out_of_fuel : Loop W

abbrev pub and_then : {W : Type 0} → Loop W → (Progress W → Loop W) → Loop W
and_then (going s) f = f s
and_then (run_job_error id s) f = run_job_error id s
and_then nil_job f = nil_job
and_then nil_step f = nil_step
and_then out_of_fuel f = out_of_fuel

unfoldable pub any_failed : List Str → List Str → Bool
unfolding mem
any_failed [] failed = false
any_failed (need ∷ needs) failed = mem need failed || any_failed needs failed

-- How BuildExecutionOrder and the loops behind it end; `refused` is the error of BuildExecutionOrder.
pub data JobsEnd (W : Type 0) : Type 0 where
  ended : Loop W → JobsEnd W
  refused : OrderError → JobsEnd W

-- The clock, RunJob, and the jobs of the workflow.
module _ {W : Type 0} (now : W → ℕ) (run_job : W → Str → Job → JobEnd W) (jobs : Dict Job) where
  abbrev pub notify : Call → Progress W → Progress W
  notify c s = record s { calls = s.calls ++ c ∷ [] }

  abbrev pub skip_job : Str → Progress W → Progress W
  skip_job id s = notify (call id skipped none none) s

  abbrev pub job_ended : Str → ℕ → Progress W → JobEnd W → Loop W
  job_ended id started s (finished m r) = going (
      notify (call id r.status (some started) (some (now m))) (record s {
        world = m;
        exit_code = if is_status_failure r.status then 1 else s.exit_code;
        failed_jobs = if is_status_failure r.status then id ∷ s.failed_jobs else s.failed_jobs;
      }))
  job_ended id started s (job_error m r) =
      run_job_error id
        (notify (call id failure (some started) (some (now m))) (record s { world = m }))
  job_ended id started s job_panicked = nil_step
  job_ended id started s job_out_of_fuel = out_of_fuel

  abbrev pub start_job : Str → Job → Progress W → Loop W
  start_job id job s =
      job_ended id (now s.world) (notify (call id running (some (now s.world)) none) s)
        (run_job s.world id job)

  unfoldable pub run_one : Str → Progress W → Loop W
  unfolding lookup needs_ids any_failed
  run_one id s = elim (lookup id jobs) [
    | none ↦ nil_job
    | some job ↦ elim (any_failed (needs_ids job) s.failed_jobs) [
      | true ↦ going (skip_job id s)
      | false ↦ start_job id job s
    ]
  ]

  unfoldable pub run_level : List Str → Progress W → Loop W
  unfolding run_one
  run_level [] s = going s
  run_level (id ∷ ids) s = and_then (run_one id s) (λ s'. run_level ids s')

  unfoldable pub run_levels : List (List Str) → Progress W → Loop W
  unfolding run_level
  run_levels [] s = going s
  run_levels (level ∷ levels) s = and_then (run_level level s) (λ s'. run_levels levels s')

  abbrev pub fresh : W → Progress W
  fresh m = record { world = m; exit_code = 0; failed_jobs = []; calls = [] }

  abbrev pub run_order : W → OrderResult (List (List Str)) → JobsEnd W
  run_order m (ok order) = ended (run_levels order (fresh m))
  run_order m (err e) = refused e

  unfoldable pub run_jobs : W → JobsEnd W
  unfolding build_execution_order run_levels
  run_jobs m = run_order m (build_execution_order jobs)
