-- ===== src/Store/Projects.antt =====
-- Projects, their workflows and triggers in internal/store/store.go, and the conversion from and to the older
-- watches. The JSON columns hold the values themselves, and a NULL is what COALESCE makes of it. The random
-- identifiers are a list of texts.
use ghenkins.Prelude.{
  ◌≡◌, refl, Bool, true, false, not, ◌&&◌, ◌||◌, List, [], ◌∷◌, ◌++◌, Option, none, some,
  if◌then◌else◌,
}
use ghenkins.Prelude.Text.{Str, lit, str_eq}
use ghenkins.Prelude.Dict.{Dict}
use ghenkins.Prelude.Int.{ℤ, pos, is_zero}
use ghenkins.Store.{select, update, any, first, text_lt}

pub record DbWorkflow : Type 0 where
  pub id : Str
  pub project_name : Str
  pub name : Str
  pub path : Str
  pub runner_image : Str
  pub secrets : Dict Str
  pub env : Dict Str
  pub timeout_minutes : ℤ

pub record DbTrigger : Type 0 where
  pub id : Str
  pub project_name : Str
  pub type : Str
  pub repo : Str
  pub branch : Str
  pub pr : ℤ
  pub on_events : List Str

pub record DbProject : Type 0 where
  pub name : Str
  pub description : Str
  pub workflows : List DbWorkflow
  pub triggers : List DbTrigger

pub record DbWatch : Type 0 where
  pub name : Str
  pub repo : Str
  pub branch : Str
  pub pr : ℤ
  pub on_events : List Str
  pub workflows : List DbWorkflow

-- A row of projects.
pub record ProjectRow : Type 0 where
  pub name : Str
  pub description : Str

pub record Tables : Type 0 where
  pub projects : List ProjectRow
  pub workflows : List DbWorkflow
  pub triggers : List DbTrigger
  pub new_ids : List Str

abbrev new_id : Tables → Str
new_id t = elim (first t.new_ids) [ none ↦ lit "" | some id ↦ id ]

abbrev behind {ℓ} : {A : Type ℓ} → List A → List A
behind [] = []
behind (x ∷ xs) = xs

abbrev with_id : Str → Tables → Str × Tables
with_id id t =
    if str_eq id (lit "") then (new_id t, record t { new_ids = behind t.new_ids }) else (id, t)

-- The tables behind a statement, and whether it has succeeded.
unfoldable pub insert_workflow : Tables → DbWorkflow → Tables × Bool
unfolding any
insert_workflow t wf =
    if any
      (λ x. str_eq x.id wf.id || (str_eq x.project_name wf.project_name && str_eq x.name wf.name))
      t.workflows
    then (t, false)
    else (record t { workflows = t.workflows ++ wf ∷ [] }, true)

unfoldable pub insert_trigger : Tables → DbTrigger → Tables × Bool
unfolding any
insert_trigger t tr =
    if any (λ x. str_eq x.id tr.id) t.triggers
    then (t, false)
    else (record t { triggers = t.triggers ++ tr ∷ [] }, true)

unfoldable pub create_workflow : Tables → DbWorkflow → Tables × Bool
unfolding insert_workflow
create_workflow t wf =
    let named = with_id wf.id t in insert_workflow named.1 (record wf { id = named.0 })

unfoldable pub create_trigger : Tables → DbTrigger → Tables × Bool
unfolding insert_trigger
create_trigger t tr =
    let named = with_id tr.id t in insert_trigger named.1 (record tr { id = named.0 })

unfoldable pub create_workflows : Str → List DbWorkflow → Tables → Tables × Bool
unfolding create_workflow
create_workflows name [] t = (t, true)
create_workflows name (wf ∷ wfs) t =
    let done = create_workflow t (record wf { project_name = name }) in
    let rest = create_workflows name wfs done.0 in if done.1 then rest else done

unfoldable pub create_triggers : Str → List DbTrigger → Tables → Tables × Bool
unfolding create_trigger
create_triggers name [] t = (t, true)
create_triggers name (tr ∷ trs) t =
    let done = create_trigger t (record tr { project_name = name }) in
    let rest = create_triggers name trs done.0 in if done.1 then rest else done

-- An error leaves what the statements before it have written.
unfoldable pub create_project : Tables → DbProject → Tables × Bool
unfolding any create_workflows create_triggers
create_project t p =
    if any (λ x. str_eq x.name p.name) t.projects
    then (t, false)
    else let row : ProjectRow = record { name = p.name; description = p.description } in
      let done =
        create_workflows p.name p.workflows (record t { projects = t.projects ++ row ∷ [] }) in
      if done.1 then create_triggers p.name p.triggers done.0 else done

unfoldable pub update_project : Tables → DbProject → Tables
unfolding update
update_project t p = record t {
  projects =
      update (λ x. str_eq x.name p.name) (λ x. record x { description = p.description }) t.projects;
}

unfoldable pub update_trigger : Tables → DbTrigger → Tables
unfolding update
update_trigger t tr = record t {
  triggers =
      update (λ x. str_eq x.id tr.id)
        (λ x. record x {
          type = tr.type;
          repo = tr.repo;
          branch = tr.branch;
          pr = tr.pr;
          on_events = tr.on_events;
        })
        t.triggers;
}

unfoldable pub delete_trigger : Tables → Str → Tables
unfolding select
delete_trigger t id = record t { triggers = select (λ x. not (str_eq x.id id)) t.triggers }

unfoldable pub update_workflow : Tables → DbWorkflow → Tables
unfolding update
update_workflow t wf = record t {
  workflows =
      update (λ x. str_eq x.project_name wf.project_name && str_eq x.name wf.name)
        (λ x. record x {
          path = wf.path;
          runner_image = wf.runner_image;
          secrets = wf.secrets;
          env = wf.env;
          timeout_minutes = wf.timeout_minutes;
        })
        t.workflows;
}

unfoldable pub delete_workflow : Tables → Str → Str → Tables
unfolding select
delete_workflow t project_name name = record t {
  workflows =
      select (λ x. not (str_eq x.project_name project_name && str_eq x.name name)) t.workflows;
}

-- ORDER BY a column of texts
unfoldable pub put_by : {A : Type 0} → (A → Str) → A → List A → List A
unfolding text_lt
put_by f a [] = a ∷ []
put_by f a (x ∷ xs) =
    let rest = put_by f a xs in if text_lt (f x) (f a) then x ∷ rest else a ∷ x ∷ xs

unfoldable pub order_by : {A : Type 0} → (A → Str) → List A → List A
unfolding put_by
order_by f [] = []
order_by f (x ∷ xs) = put_by f x (order_by f xs)

unfoldable pub load_project : Tables → ProjectRow → DbProject
unfolding select order_by
load_project t row = record {
  name = row.name;
  description = row.description;
  workflows = order_by (λ x. x.name) (select (λ x. str_eq x.project_name row.name) t.workflows);
  triggers = order_by (λ x. x.id) (select (λ x. str_eq x.project_name row.name) t.triggers);
}

unfoldable pub load_all : Tables → List ProjectRow → List DbProject
unfolding load_project
load_all t [] = []
load_all t (row ∷ rows) = load_project t row ∷ load_all t rows

unfoldable pub list_projects : Tables → List DbProject
unfolding order_by load_all
list_projects t = load_all t (order_by (λ x. x.name) t.projects)

unfoldable pub get_project : Tables → Str → Option DbProject
unfolding select load_project
get_project t name = elim (first (select (λ x. str_eq x.name name) t.projects)) [
  | none ↦ none
  | some row ↦ some (load_project t row)
]

abbrev default_events : List Str
default_events = lit "push" ∷ []

abbrev events_of : List Str → List Str
events_of [] = default_events
events_of (e ∷ es) = e ∷ es

abbrev watch_of : DbProject → List DbTrigger → DbWatch
watch_of p [] = record {
  name = p.name;
  repo = lit "";
  branch = lit "";
  pr = pos 0;
  on_events = default_events;
  workflows = p.workflows;
}
watch_of p (t ∷ ts) = record {
  name = p.name;
  repo = t.repo;
  branch = t.branch;
  pr = t.pr;
  on_events = events_of t.on_events;
  workflows = p.workflows;
}

unfoldable pub project_to_watch : DbProject → DbWatch
project_to_watch p = watch_of p p.triggers

unfoldable pub watch_to_project : DbWatch → DbProject
watch_to_project w = record {
  name = w.name;
  description = lit "";
  workflows = w.workflows;
  triggers =
      if str_eq w.repo (lit "")
      then []
      else record {
        id = lit "";
        project_name = w.name;
        type = if is_zero w.pr then lit "push" else lit "pull_request";
        repo = w.repo;
        branch = w.branch;
        pr = w.pr;
        on_events = events_of w.on_events;
      }
        ∷ [];
}

-- A watch with a repository and an event comes back from the project that is made of it.
pub project_to_watch-watch_to_project :
    (w : DbWatch)
    → str_eq w.repo (lit "") ≡ false
    → events_of w.on_events ≡ w.on_events
    → project_to_watch (watch_to_project w) ≡ w
unfolding project_to_watch watch_to_project
project_to_watch-watch_to_project w h e = rw (h, e, e) refl
