-- ===== src/Daemon/Manual.antt =====
-- The job that TriggerRun of internal/daemon/daemon.go puts into the channel.
use ghenkins.Prelude.{
  ℕ, ◌≤◌, ◌≡◌, refl, sym, ap, ◌∙◌, inl, inr, ltb, ltb→lt, List, [], ◌∷◌, ◌++◌, Option, none, some,
  arith, length, length-append, Member, Bool-cases, Option-cases,
}
use ghenkins.Prelude.Text.{Str, lit, str_eq, str_eq_iff}
use ghenkins.Prelude.Dict.{Dict}
use ghenkins.Config.{WorkflowRef}
use ghenkins.Poller.{Job}
use ghenkins.Store.{select, first}
use ghenkins.Store.Projects.{
  DbProject, DbWorkflow, ProjectRow, Tables, get_project, load_project, order_by,
}
use ghenkins.Store.Selections.{first_select, Member-select, Member-order_by}
use ghenkins.Daemon.Requests.{
  manual_job, Triggered, accepted, no_project, no_workflow, queue_full, send, named, trigger_run,
}

-- The reference carries what the row of the workflow says.
pub record IsRefOf (wf : DbWorkflow) (ref : WorkflowRef) : Type 0 where
  pub path : ref.path ≡ wf.path
  pub name : ref.name ≡ wf.name
  pub secrets : ref.secrets ≡ wf.secrets
  pub env : ref.env ≡ wf.env
  pub runner_image : ref.runner_image ≡ wf.runner_image
  pub timeout_minutes : ref.timeout_minutes ≡ wf.timeout_minutes

-- A row of the workflows that belongs to a project of the store and has the name asked for.
pub record IsStored (t : Tables) (project_name workflow_name : Str) (wf : DbWorkflow) : Type 0 where
  pub project : ProjectRow
  pub project_stored : Member project t.projects
  pub project_named : project.name ≡ project_name
  pub stored : Member wf t.workflows
  pub of_project : wf.project_name ≡ project_name
  pub named_so : wf.name ≡ workflow_name

-- The last job of the channel is the manual one of a workflow of the store.
pub record IsManual (size : ℕ) (jobs jobs' : List Job) (t : Tables)
    (project_name workflow_name : Str) (inputs : Dict Str) (run_id : Str) : Type 0 where
  pub sent : Job
  pub ref : WorkflowRef
  pub wf : DbWorkflow
  pub queued : jobs' ≡ jobs ++ sent ∷ []
  pub fits : length jobs' ≤ size
  pub same_run : sent.run_id ≡ run_id
  pub same_inputs : sent.inputs ≡ inputs
  pub of_watch : sent.watch_name ≡ project_name
  pub commit : sent.sha ≡ lit "manual"
  pub event : sent.event_type ≡ lit "manual"
  pub one_workflow : sent.workflow_refs ≡ ref ∷ []
  pub ref_of : IsRefOf wf ref
  pub stored : IsStored t project_name workflow_name wf

abbrev jobs_of : List Job → Triggered → List Job
jobs_of jobs (accepted id jobs') = jobs'
jobs_of jobs e = jobs

abbrev id_of : Str → Triggered → Str
id_of id (accepted id' jobs) = id'
id_of id e = id

abbrev project_of : DbProject → Option DbProject → DbProject
project_of p none = p
project_of p (some q) = q

module _ (size : ℕ) (jobs : List Job) (t : Tables) (project_name workflow_name : Str)
    (inputs : Dict Str) (run_id : Str) where
  -- The project that is found comes from a row with its name.
  get_project-row :
      (p : DbProject)
      → get_project t project_name ≡ some p
      → (row : ProjectRow) × Member row t.projects
        × (row.name ≡ project_name)
        × (load_project t row ≡ p)
  unfolding get_project
  get_project-row p e =
      elim (Option-cases (first (select (λ x. str_eq x.name project_name) t.projects))) [
        | inl n ↦
            let clash : get_project t project_name ≡ none = rw (n, get_project) refl in
            let absent : none ≡ some p = sym clash ∙ e in absurd (cc)
        | inr (row, n) ↦
            let here : get_project t project_name ≡ some (load_project t row) =
              rw (n, get_project) refl in
            let met = first_select (λ x. str_eq x.name project_name) t.projects row n in
            (
              row,
              met.0,
              (str_eq_iff row.name project_name).0 met.1,
              ap (project_of p) (sym here ∙ e),
            )
      ]

  load_project-IsStored :
      (row : ProjectRow) (wf : DbWorkflow)
      → Member row t.projects
      → row.name ≡ project_name
      → first (select (named workflow_name) (load_project t row).workflows) ≡ some wf
      → IsStored t project_name workflow_name wf
  unfolding load_project
  load_project-IsStored row wf m same e =
      let of_row = λ (x : DbWorkflow). str_eq x.project_name row.name in
      let met =
        first_select (named workflow_name) (order_by (λ x. x.name) (select of_row t.workflows)) wf
          e in
      let held =
        Member-select of_row t.workflows wf
          (Member-order_by (λ x. x.name) (select of_row t.workflows) wf met.0) in
      record {
        project = row;
        project_stored = m;
        project_named = same;
        stored = held.0;
        of_project = (str_eq_iff wf.project_name row.name).0 held.1 ∙ same;
        named_so = (str_eq_iff wf.name workflow_name).0 met.1;
      }

  send-IsManual :
      (p : DbProject) (wf : DbWorkflow) (id : Str) (jobs' : List Job)
      → send size jobs run_id (manual_job p project_name wf inputs run_id) ≡ accepted id jobs'
      → IsStored t project_name workflow_name wf
      → IsManual size jobs jobs' t project_name workflow_name inputs run_id × (id ≡ run_id)
  unfolding manual_job
  send-IsManual p wf id jobs' e h =
      let j = manual_job p project_name wf inputs run_id in
      elim (Bool-cases (ltb (length jobs) size)) [
        | inl room ↦
            let sends : send size jobs run_id j ≡ accepted run_id (jobs ++ j ∷ []) = rw room refl in
            let same = ap (jobs_of jobs) (sym e ∙ sends) in
            (
              record {
                sent = j;
                ref = _;
                wf = wf;
                queued = same;
                fits = omega (
                  arith,
                  ltb→lt (length jobs) size room,
                  length-append jobs (j ∷ []),
                  ap length same,
                );
                same_run = refl;
                same_inputs = refl;
                of_watch = refl;
                commit = refl;
                event = refl;
                one_workflow = refl;
                ref_of = record {
                  path = refl;
                  name = refl;
                  secrets = refl;
                  env = refl;
                  runner_image = refl;
                  timeout_minutes = refl;
                };
                stored = h;
              },
              ap (id_of run_id) (sym e ∙ sends),
            )
        | inr full ↦
            let refuses : send size jobs run_id j ≡ queue_full = rw full refl in
            let clash : queue_full ≡ accepted id jobs' = sym refuses ∙ e in absurd (cc)
      ]

  -- If TriggerRun returns no error, the identifier it returns is that of the run, and it has put one job behind
  -- those in the channel, within its capacity. The job has the run's identifier, the inputs, the project's
  -- name, "manual" for the commit and for the event, and just one workflow: all that the store has under
  -- the name asked for in the project asked for.
  pub trigger_run-IsManual :
      (id : Str) (jobs' : List Job)
      → trigger_run size jobs t project_name workflow_name inputs run_id ≡ accepted id jobs'
      → IsManual size jobs jobs' t project_name workflow_name inputs run_id × (id ≡ run_id)
  unfolding trigger_run
  trigger_run-IsManual id jobs' e = elim (Option-cases (get_project t project_name)) [
    | inl n ↦
        let none_such : trigger_run size jobs t project_name workflow_name inputs run_id
            ≡ no_project =
          rw (n, trigger_run) refl in
        let clash : no_project ≡ accepted id jobs' = sym none_such ∙ e in absurd (cc)
    | inr (p, n) ↦ elim (Option-cases (first (select (named workflow_name) p.workflows))) [
      | inl m ↦
          let none_such : trigger_run size jobs t project_name workflow_name inputs run_id
              ≡ no_workflow =
            rw (n, m, trigger_run) refl in
          let clash : no_workflow ≡ accepted id jobs' = sym none_such ∙ e in absurd (cc)
      | inr (wf, m) ↦
          let sends : trigger_run size jobs t project_name workflow_name inputs run_id
              ≡ send size jobs run_id (manual_job p project_name wf inputs run_id) =
            rw (n, m, trigger_run) refl in
          let row = get_project-row p n in
          let found = ap (λ q. first (select (named workflow_name) q.workflows)) row.3 ∙ m in
          send-IsManual p wf id jobs' (sym sends ∙ e)
            (load_project-IsStored row.0 wf row.1 row.2 found)
    ]
  ]
