-- ===== src/Runner/Prepare.antt =====
-- What Run of internal/runner/runner.go does before its jobs: the clone and the worktree of
-- internal/runner/clone.go, and the inputs and the description of the run.
use ghenkins.Prelude.{ℕ, List, [], ◌∷◌, ◌++◌, Option, none, some, Bool, if◌then◌else◌}
use ghenkins.Prelude.Text.{Str, lit, str_eq, trim_space}
use ghenkins.Prelude.Dict.{Dict, insert, merge}
use ghenkins.Prelude.Decimal.{show_int}
use ghenkins.Prelude.Int.{pos}
use ghenkins.Workflow.{Workflow, WorkflowInput, OrderError}
use ghenkins.Expr.Build.{JobInfo}
use ghenkins.Secrets.{Resolved, Sources}
use ghenkins.Poller.{Job}
use ghenkins.Action.{Host}

-- The file system, git and the other libraries that Run calls, beside those of the steps.
pub record Site (World : Type 0) : Type 0 where
  -- Connect; `none` is an error
  pub connect : World → Option World
  -- os.MkdirTemp for "ghenkins-wt-*", os.RemoveAll
  pub mkdir_temp : World → Str → Option (Str × World)
  pub remove_all : World → Str → World
  -- git in a directory, with its arguments; the output is `none` if it fails
  pub git : World → Str → List Str → World × Option Str
  -- filepath.Dir, filepath.IsAbs
  pub dir_name : Str → Str
  pub is_abs : Str → Bool
  -- yaml.Unmarshal into a Workflow
  pub decode_workflow : Str → Option Workflow
  -- newRunID
  pub new_run_id : World → Str × World
  -- secrets.New, and the store with envsubst
  pub open_secrets : World → Bool
  pub sources : Sources
  -- UpdateRunSHA of the store
  pub update_run_sha : World → Str → Str → World
  -- time.Now
  pub now : World → ℕ

-- PodmanRunner: the fields that Run uses.
pub record PodmanRunner : Type 0 where
  pub cache_dir : Str
  pub workspace_dir : Str
  pub current_run_id : Str
  pub has_store : Bool

pub data RunError : Type 0 where
  no_podman no_temp_workspace no_clone no_branch no_worktree no_event : RunError
  unreadable_workflow bad_workflow no_secret_store : RunError
  no_secret : Str → Resolved → RunError
  bad_order : OrderError → RunError
  failed_job : Str → RunError

-- The directory of the run, with the bare clone it belongs to if there is one, and the SHA.
pub record Workspace : Type 0 where
  pub dir : Str
  pub bare_dir : Option Str
  pub sha : Str

pub data Step (W A : Type 0) : Type 0 where
  done : W → A → Step W A
  stop : W → RunError → Step W A

abbrev pub git_done : {W A : Type 0} → RunError → (Str → A) → W × Option Str → Step W A
git_done e f (m, none) = stop m e
git_done e f (m, some out) = done m (f out)

-- The inputs of the workflow that have a default, and over them those of the job.
unfoldable pub declared_inputs : Dict WorkflowInput → Dict Str → Dict Str
unfolding insert
declared_inputs [] m = m
declared_inputs ((name, decl) ∷ inputs) m =
    declared_inputs inputs (if str_eq decl.default (lit "") then m else insert name decl.default m)

unfoldable pub merged_inputs : Workflow → Job → Dict Str
unfolding merge declared_inputs
merged_inputs wf j = merge (declared_inputs wf.inputs []) j.inputs

unfoldable pub ref_of : Job → Str
unfolding show_int
ref_of j =
    if str_eq j.event_type (lit "pull_request")
    then lit "refs/pull/" ++ show_int j.pr_number ++ lit "/head"
    else lit "refs/heads/" ++ j.branch

unfoldable pub job_info : Workflow → Job → Str → Str → JobInfo
unfolding merged_inputs ref_of
job_info wf j run_id event_json = record {
  sha = j.sha;
  ref = ref_of j;
  ref_name = j.branch;
  event_name = j.event_type;
  repo = j.repo;
  owner = j.owner;
  repo_name = j.repo_name;
  run_id = run_id;
  run_number = pos 1;
  actor = lit "ghenkins";
  event_payload = event_json;
  pr_number = j.pr_number;
  head_ref = lit "";
  base_ref = lit "";
  inputs = merged_inputs wf j;
}

module _ (H : Host) (S : Site H.World) where
  open H use {World, join_path, stat_ok, mkdir_all}
  open S use {mkdir_temp, remove_all, git, dir_name, update_run_sha}

  -- With `bare_dir` the path of the clone.
  abbrev clone_bare : World → Str → Str → Str → Option World → Step World Str
  clone_bare m bare_dir owner repo none = stop m no_clone
  clone_bare m bare_dir owner repo (some m') =
      git_done no_clone (λ out. bare_dir)
        (git m' (lit "") (
          lit "clone"
          ∷ lit "--bare"
          ∷ (lit "https://github.com/" ++ owner ++ lit "/" ++ repo)
          ∷ bare_dir
          ∷ []))

  unfoldable pub ensure_bare_clone : World → Str → Str → Str → Step World Str
  ensure_bare_clone m cache_dir owner repo =
      let bare_dir = join_path (cache_dir ∷ owner ∷ (repo ++ lit ".git") ∷ []) in
      if stat_ok m bare_dir
      then git_done no_clone (λ out. bare_dir) (git m bare_dir (lit "fetch" ∷ lit "--all" ∷ []))
      else clone_bare m bare_dir owner repo (mkdir_all m (dir_name bare_dir))

  abbrev added : Str → World × Option Str → Step World Str
  added wt_dir (m, none) = stop (remove_all m wt_dir) no_worktree
  added wt_dir (m, some out) = done m wt_dir

  unfoldable pub add_worktree : World → Str → Str → Str → Step World Str
  add_worktree m bare_dir sha workspace_dir = elim (mkdir_temp m workspace_dir) [
    | none ↦ stop m no_worktree
    | some (wt_dir, m') ↦
        added wt_dir
          (git m' bare_dir (lit "worktree" ∷ lit "add" ∷ lit "--detach" ∷ wt_dir ∷ sha ∷ []))
  ]

  -- The deferred calls: os.RemoveAll, or the cleanup of addWorktree.
  unfoldable pub clean_up : Workspace → World → World
  clean_up w m = elim w.bare_dir [
    | none ↦ remove_all m w.dir
    | some bare_dir ↦
        remove_all (git m bare_dir (lit "worktree" ∷ lit "remove" ∷ lit "--force" ∷ w.dir ∷ [])).0
          w.dir
  ]

  -- The head of the branch, which is written to the store.
  abbrev branch_head : PodmanRunner → World × Option Str → Step World Str
  branch_head r (m, none) = stop m no_branch
  branch_head r (m, some out) =
      let sha = trim_space out in
      done
        (if r.has_store
          then (if str_eq r.current_run_id (lit "")
              then m
              else update_run_sha m r.current_run_id sha)
          else m)
        sha

  unfoldable pub resolve_sha : PodmanRunner → World → Job → Str → Step World Str
  unfolding trim_space
  resolve_sha r m j bare_dir =
      if str_eq j.sha (lit "manual")
      then branch_head r (
          git m (lit "")
            (lit "-C" ∷ bare_dir ∷ lit "rev-parse" ∷ (lit "refs/heads/" ++ j.branch) ∷ []))
      else done m j.sha

  abbrev workspace_at : Str → Str → Step World Str → Step World Workspace
  workspace_at bare_dir sha (stop m e) = stop m e
  workspace_at bare_dir sha (done m dir) =
      done m (record { dir = dir; bare_dir = some bare_dir; sha = sha })

  abbrev check_out : PodmanRunner → Str → Step World Str → Step World Workspace
  check_out r bare_dir (stop m e) = stop m e
  check_out r bare_dir (done m sha) =
      workspace_at bare_dir sha (add_worktree m bare_dir sha r.workspace_dir)

  abbrev cloned : PodmanRunner → Job → Step World Str → Step World Workspace
  cloned r j (stop m e) = stop m e
  cloned r j (done m bare_dir) = check_out r bare_dir (resolve_sha r m j bare_dir)

  -- The workspace of a run; a job without a repository gets an empty one.
  unfoldable pub make_workspace : PodmanRunner → World → Job → Step World Workspace
  unfolding ensure_bare_clone resolve_sha add_worktree
  make_workspace r m j =
      if str_eq j.repo (lit "")
      then elim (mkdir_temp m r.workspace_dir) [
        | none ↦ stop m no_temp_workspace
        | some (dir, m') ↦ done m' (record { dir = dir; bare_dir = none; sha = j.sha })
      ]
      else cloned r j (ensure_bare_clone m r.cache_dir j.owner j.repo_name)
