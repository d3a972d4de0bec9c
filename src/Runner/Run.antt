-- ===== src/Runner/Run.antt =====
-- Run of internal/runner/runner.go. What it writes to the log is left out.
use ghenkins.Prelude.{ℕ, List, [], ◌∷◌, Option, none, some, if◌then◌else◌}
use ghenkins.Prelude.Text.{Str, lit, str_eq}
use ghenkins.Prelude.Dict.{Dict}
use ghenkins.Workflow.{Workflow}
use ghenkins.Workflow.Nil.{all_there, not_ordered, nil_pointer, check_jobs}
use ghenkins.Expr.Value.{GoLib}
use ghenkins.Expr.Build.{event_payload}
use ghenkins.Secrets.{resolved, failed, resolve_secrets}
use ghenkins.Config.{WorkflowRef}
use ghenkins.Poller.{Job}
use ghenkins.Action.{Host}
use ghenkins.Executor.RunStep.{JobRunner}
use ghenkins.Executor.Jobs.{run_job}
use ghenkins.Runner.{
  Call, going, run_job_error, nil_job, nil_step, out_of_fuel, JobsEnd, ended, refused, run_jobs,
}
use ghenkins.Runner.Prepare.{
  Site, PodmanRunner, RunError, no_podman, no_event, unreadable_workflow, bad_workflow,
  no_secret_store, no_secret, bad_order, failed_job, Workspace, Step, done, stop, job_info,
  clean_up, make_workspace,
}

-- The exit code or the error, with the calls of JobCallback. A panic and running out of fuel are
-- ends of their own.
pub data RunEnd (W : Type 0) : Type 0 where
  exited : W → ℕ → List Call → RunEnd W
  run_error : W → RunError → List Call → RunEnd W
  panicked run_out_of_fuel : RunEnd W

abbrev pub run_end_of : {W : Type 0} → W → JobsEnd W → RunEnd W
run_end_of m (refused e) = run_error m (bad_order e) []
run_end_of m (ended (going s)) = exited s.world s.exit_code s.calls
run_end_of m (ended (run_job_error id s)) = run_error s.world (failed_job id) s.calls
run_end_of m (ended nil_job) = panicked
run_end_of m (ended nil_step) = panicked
run_end_of m (ended out_of_fuel) = run_out_of_fuel

module _ (G : GoLib) (H : Host) (S : Site H.World) where
  open H use {World, join_path, read_file}
  open S use {connect, is_abs, decode_workflow, new_run_id, open_secrets, sources, now}

  abbrev run_id_of : PodmanRunner → World → Str × World
  run_id_of r m = if str_eq r.current_run_id (lit "") then new_run_id m else (r.current_run_id, m)

  abbrev read_workflow : World → Workspace → WorkflowRef → Step World Workflow
  read_workflow m w wf =
      let path = if is_abs wf.path then wf.path else join_path (w.dir ∷ wf.path ∷ []) in
      elim (read_file m path) [
        | none ↦ stop m unreadable_workflow
        | some data_read ↦ elim (decode_workflow data_read) [
          | none ↦ stop m bad_workflow
          | some workflow ↦ done m workflow
        ]
      ]

  abbrev read_secrets : World → WorkflowRef → Step World (Dict Str)
  read_secrets m wf =
      if open_secrets m
      then elim (resolve_secrets sources wf.secrets) [
        | failed k e ↦ stop m (no_secret k e)
        | resolved secrets ↦ done m secrets
      ]
      else stop m no_secret_store

  -- The set-up of a container, for a workspace and the secrets; and the fuel of a job.
  module _ (set_up : Str → Dict Str → World → Str → Dict Str → Option (Option World))
      (fuel : ℕ) where
    abbrev run_workflow :
        PodmanRunner
        → World
        → Job
        → WorkflowRef
        → Workspace
        → Str
        → Workflow
        → Step World (Dict Str)
        → RunEnd World
    run_workflow r m j wf w event_json workflow (stop m' e) = run_error m' e []
    run_workflow r m j wf w event_json workflow (done m' secrets) =
        let run_id = run_id_of r m' in
        let info = job_info workflow j run_id.0 event_json in
        let runner : JobRunner = record { workspace = w.dir; cache_dir = r.cache_dir } in
        elim (check_jobs workflow.jobs workflow.jobs) [
          | nil_pointer ↦ panicked
          | not_ordered e ↦ run_end_of run_id.1 (refused e)
          | all_there jobs ↦ run_end_of run_id.1 (
              run_jobs now
                (λ mj id job.
                  run_job G H (set_up w.dir secrets) fuel runner mj id job workflow info secrets
                    wf.runner_image)
                jobs run_id.1)
        ]

    abbrev with_workflow :
        PodmanRunner → Job → WorkflowRef → Workspace → Str → Step World Workflow → RunEnd World
    with_workflow r j wf w event_json (stop m e) = run_error m e []
    with_workflow r j wf w event_json (done m workflow) =
        run_workflow r m j wf w event_json workflow (read_secrets m wf)

    unfoldable pub run_in : PodmanRunner → World → Job → WorkflowRef → Workspace → RunEnd World
    unfolding event_payload resolve_secrets check_jobs run_jobs run_job job_info
    run_in r m j wf w =
        elim (G.marshal
          (event_payload j.repo j.owner j.repo_name j.sha j.branch j.pr_number j.event_type)) [
            | none ↦ run_error m no_event []
            | some event_json ↦ with_workflow r j wf w event_json (read_workflow m w wf)
          ]

    abbrev after_clean_up : Workspace → RunEnd World → RunEnd World
    after_clean_up w (exited m code calls) = exited (clean_up H S w m) code calls
    after_clean_up w (run_error m e calls) = run_error (clean_up H S w m) e calls
    after_clean_up w panicked = panicked
    after_clean_up w run_out_of_fuel = run_out_of_fuel

    abbrev run_at : PodmanRunner → Job → WorkflowRef → Step World Workspace → RunEnd World
    run_at r j wf (stop m e) = run_error m e []
    run_at r j wf (done m w) = after_clean_up w (run_in r m j wf w)

    unfoldable pub run : PodmanRunner → World → Job → WorkflowRef → RunEnd World
    unfolding make_workspace run_in clean_up
    run r m j wf = elim (connect m) [
      | none ↦ run_error m no_podman []
      | some m' ↦ run_at r j wf (make_workspace H S r m' j)
    ]
