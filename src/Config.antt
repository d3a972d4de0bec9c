-- ===== src/Config.antt =====
-- internal/config/config.go: the configuration, its defaults, its validation, and the projects
-- that it describes.
pub mod Checks
use ghenkins.Prelude.{
  ℕ, zero, suc, Bool, true, false, ◌&&◌, ◌||◌, not, List, [], ◌∷◌, ◌++◌, Option, none, some, ◌==◌,
  if◌then◌else◌, length, map,
}
use ghenkins.Prelude.Text.{Str, lit, str_eq, split_n2}
use ghenkins.Prelude.{take, drop}
use ghenkins.Prelude.Dict.{Dict}
use ghenkins.Prelude.Int.{ℤ, pos, negsuc, is_zero, is_positive}

pub record WorkflowRef : Type 0 where
  pub path : Str
  pub name : Str
  pub secrets : Dict Str
  pub env : Dict Str
  pub runner_image : Str
  pub timeout_minutes : ℤ

pub record Watch : Type 0 where
  pub name : Str
  pub repo : Str
  pub pr : ℤ
  pub branch : Str
  pub workflows : List WorkflowRef
  pub on : List Str

pub record Trigger : Type 0 where
  pub type : Str
  pub repo : Str
  pub branch : Str
  pub pr : ℤ
  pub on : List Str

pub record Project : Type 0 where
  pub name : Str
  pub description : Str
  pub workflows : List WorkflowRef
  pub triggers : List Trigger

-- One legacy watch as a project.
watch_trigger : Watch → List Trigger
watch_trigger w =
    if str_eq w.repo (lit "")
    then []
    else record {
      type = if is_positive w.pr then lit "pull_request" else lit "push";
      repo = w.repo;
      branch = w.branch;
      pr = w.pr;
      on = if length w.on == 0 then lit "push" ∷ [] else w.on;
    }
      ∷ []

watch_project : Watch → Project
unfolding watch_trigger
watch_project w = record {
  name = w.name;
  description = lit "";
  workflows = w.workflows;
  triggers = watch_trigger w;
}

pub record Config : Type 0 where
  pub token : Str
  pub poll_interval : ℤ
  pub bind : Str
  pub retention_days : ℤ
  pub retention_bytes : ℤ
  pub store_path : Str
  pub default_image : Str
  pub workspace_dir : Str
  pub max_concurrency : ℤ
  pub projects : List Project
  pub watches : List Watch

-- (c *Config) EffectiveProjects
unfoldable pub effective_projects : Config → List Project
unfolding watch_project
effective_projects c = c.projects ++ map watch_project c.watches

-- What applyDefaults reads from the process: os.UserHomeDir and GHENKINS_WORKSPACE_DIR.
pub record Environment : Type 0 where
  pub home : Str
  pub workspace_env : Str

-- filepath.Join of a home directory, clean and not the root, or of the empty text, with fixed names.
abbrev home_path : Environment → Str → Str
home_path e rest = if str_eq e.home (lit "") then drop 1 rest else e.home ++ rest

abbrev or_default : Str → Str → Str
or_default s d = if str_eq s (lit "") then d else s

abbrev or_default_int : ℤ → ℤ → ℤ
or_default_int n d = if is_zero n then d else n

default_workspace : Environment → Str
default_workspace e =
    if str_eq e.workspace_env (lit "")
    then home_path e (lit "/.cache/ghenkins/workspace")
    else e.workspace_env

unfoldable pub apply_defaults : Environment → Config → Config
unfolding default_workspace
apply_defaults e c = record c {
  max_concurrency = or_default_int c.max_concurrency (pos 2);
  poll_interval = or_default_int c.poll_interval (pos 30_000_000_000);
  bind = or_default c.bind (lit "127.0.0.1:8765");
  retention_days = or_default_int c.retention_days (pos 7);
  retention_bytes = or_default_int c.retention_bytes (pos 524_288_000);
  store_path = or_default c.store_path (home_path e (lit "/.local/share/ghenkins/ghenkins.db"));
  default_image = or_default c.default_image (lit "ubuntu:22.04");
  workspace_dir = or_default c.workspace_dir (default_workspace e);
}

-- The errors of validate, each with the index of its watch.
pub data Invalid : Type 0 where
  both_pr_and_branch neither_pr_nor_branch bad_repo : ℕ → Invalid

-- parts, with len(parts) != 2 || parts[0] == "" || parts[1] == ""
unfoldable pub repo_parts_ok : List Str → Bool
repo_parts_ok (owner ∷ name ∷ []) = not (str_eq owner (lit "")) && not (str_eq name (lit ""))
repo_parts_ok _ = false

-- The three tests of one round.
unfoldable pub check_watch : ℕ → Watch → Option Invalid
unfolding repo_parts_ok
check_watch i w =
    if not (is_zero w.pr) && not (str_eq w.branch (lit ""))
    then some (both_pr_and_branch i)
    else if is_zero w.pr && str_eq w.branch (lit "")
    then some (neither_pr_nor_branch i)
    else if not (repo_parts_ok (split_n2 b'/' w.repo))
    then some (bad_repo i)
    else none

abbrev first_error : Option Invalid → Option Invalid → Option Invalid
first_error none rest = rest
first_error (some e) rest = some e

unfoldable pub validate_from : ℕ → List Watch → Option Invalid
unfolding check_watch
validate_from i [] = none
validate_from i (w ∷ ws) = first_error (check_watch i w) (validate_from (suc i) ws)

-- `none` is a nil error.
unfoldable pub validate : Config → Option Invalid
unfolding validate_from
validate c = validate_from 0 c.watches
