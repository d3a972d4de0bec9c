-- ===== src/Daemon/Requests.antt =====
-- TriggerRun and CancelRun of internal/daemon/daemon.go, and what Run hands to the poller: the projects of the
-- store, which the configuration fills once, as watches.
use ghenkins.Prelude.{
  ℕ, Bool, true, ◌||◌, ltb, List, [], ◌∷◌, ◌++◌, Option, none, some, length, if◌then◌else◌,
}
use ghenkins.Prelude.Text.{Str, lit, str_eq}
use ghenkins.Prelude.Dict.{Dict}
use ghenkins.Prelude.Names.{mem}
use ghenkins.Prelude.Int.{pos}
use ghenkins.Config.{Config, WorkflowRef, Watch, Trigger, Project, effective_projects}
use ghenkins.Poller.{Job}
use ghenkins.Store.{Run, canceled, update_run_status, select, first}
use ghenkins.Store.Projects.{
  DbProject, DbTrigger, DbWorkflow, Tables, create_project, get_project, list_projects,
}
use ghenkins.Daemon.{split_repo}

abbrev pub workflow_ref : DbWorkflow → WorkflowRef
workflow_ref wf = record {
  path = wf.path;
  name = wf.name;
  secrets = wf.secrets;
  env = wf.env;
  runner_image = wf.runner_image;
  timeout_minutes = wf.timeout_minutes;
}

abbrev is_polled : DbTrigger → Bool
is_polled t = str_eq t.type (lit "push") || str_eq t.type (lit "pull_request")

-- The repository and the branch of the first push or pull request trigger.
abbrev source_of : List DbTrigger → Str × Str
source_of [] = (lit "", lit "")
source_of (t ∷ ts) = (t.repo, t.branch)

abbrev names_of : Str → Str × Str
names_of repo = if str_eq repo (lit "") then (lit "", lit "") else split_repo repo

unfoldable pub manual_job : DbProject → Str → DbWorkflow → Dict Str → Str → Job
unfolding select split_repo
manual_job p project_name wf inputs run_id =
    let source = source_of (select is_polled p.triggers) in
    record {
      watch_name = project_name;
      repo = source.0;
      owner = (names_of source.0).0;
      repo_name = (names_of source.0).1;
      sha = lit "manual";
      pr_number = pos 0;
      branch = source.1;
      event_type = lit "manual";
      workflow_refs = workflow_ref wf ∷ [];
      inputs = inputs;
      run_id = run_id;
    }

-- How TriggerRun ends, with the channel of jobs.
pub data Triggered : Type 0 where
  accepted : Str → List Job → Triggered
  no_project no_workflow queue_full : Triggered

abbrev pub send : ℕ → List Job → Str → Job → Triggered
send cap jobs run_id j =
    if ltb (length jobs) cap then accepted run_id (jobs ++ j ∷ []) else queue_full

abbrev pub named : Str → DbWorkflow → Bool
named name wf = str_eq wf.name name

-- `run_id` is the identifier that generateID makes, and `cap` the capacity of the channel.
unfoldable pub trigger_run : ℕ → List Job → Tables → Str → Str → Dict Str → Str → Triggered
unfolding get_project select manual_job
trigger_run cap jobs t project_name workflow_name inputs run_id =
    elim (get_project t project_name) [
      | none ↦ no_project
      | some p ↦ elim (first (select (named workflow_name) p.workflows)) [
        | none ↦ no_workflow
        | some wf ↦ send cap jobs run_id (manual_job p project_name wf inputs run_id)
      ]
    ]

-- The table of runs and, if the run is in flight, its end; `none` is the error.
unfoldable pub cancel_run : List Str → List Run → Str → Str → Option (List Run)
unfolding mem update_run_status
cancel_run in_flight rows run_id now =
    if mem run_id in_flight
    then some (update_run_status rows run_id canceled none (some now))
    else none

abbrev or_type : List Str → Str → List Str
or_type [] type = type ∷ []
or_type (e ∷ es) type = e ∷ es

abbrev refs_of : List DbWorkflow → List WorkflowRef
refs_of [] = []
refs_of (wf ∷ wfs) = workflow_ref wf ∷ refs_of wfs

unfoldable pub project_watches : DbProject → List DbTrigger → List Watch
project_watches p [] = []
project_watches p (t ∷ ts) =
    let rest = project_watches p ts in
    let watch : Watch = record {
      name = p.name;
      repo = t.repo;
      pr = t.pr;
      branch = t.branch;
      workflows = refs_of p.workflows;
      on = or_type t.on_events t.type;
    } in
    if is_polled t then watch ∷ rest else rest

-- The watch provider of the poller.
unfoldable pub provided : List DbProject → List Watch
unfolding project_watches
provided [] = []
provided (p ∷ ps) = project_watches p p.triggers ++ provided ps

abbrev db_workflows : Str → List WorkflowRef → List DbWorkflow
db_workflows name [] = []
db_workflows name (wf ∷ wfs) =
    record {
      id = lit "";
      project_name = name;
      name = wf.name;
      path = wf.path;
      runner_image = wf.runner_image;
      secrets = wf.secrets;
      env = wf.env;
      timeout_minutes = wf.timeout_minutes;
    }
    ∷ db_workflows name wfs

abbrev db_triggers : Str → List Trigger → List DbTrigger
db_triggers name [] = []
db_triggers name (t ∷ ts) =
    record {
      id = lit "";
      project_name = name;
      type = t.type;
      repo = t.repo;
      branch = t.branch;
      pr = t.pr;
      on_events = or_type t.on t.type;
    }
    ∷ db_triggers name ts

unfoldable pub db_project : Project → DbProject
db_project p = record {
  name = p.name;
  description = lit "";
  workflows = db_workflows p.name p.workflows;
  triggers = db_triggers p.name p.triggers;
}

unfoldable pub seed_projects : List Project → Tables → Tables × Bool
unfolding create_project db_project
seed_projects [] t = (t, true)
seed_projects (p ∷ ps) t =
    let done = create_project t (db_project p) in
    let rest = seed_projects ps done.0 in if done.1 then rest else done

unfoldable pub seed_watches_from_config : Config → Tables → Tables × Bool
unfolding seed_projects effective_projects list_projects
seed_watches_from_config c t = elim (list_projects t) [
  | [] ↦ seed_projects (effective_projects c) t
  | p ∷ ps ↦ (t, true)
]
