-- ===== src/Action.antt =====
-- internal/runner/action.go: what a `uses:` text refers to. Files, HTTP, git and YAML are parameters; the
-- definition of an action is the data of internal/runner/workflow.go.
pub mod Resolve
use ghenkins.Prelude.{
  ℕ, suc, ◌+◌, ◌≤◌, ◌≡◌, refl, Bool, true, false, not, ◌&&◌, ◌||◌, List, [], ◌∷◌, ◌++◌, Option,
  none, some, leb, ◌==◌, if◌then◌else◌, length, take, drop,
}
use ghenkins.Prelude.Text.{Str, lit, str_eq, has_prefix, index, to_upper}
use ghenkins.Prelude.Dict.{Dict}
use ghenkins.Prelude.Int.{ℤ}
use ghenkins.Workflow.{Step}

pub record ActionInput : Type 0 where
  pub description : Str
  pub required : Bool
  pub default : Str

pub record ActionOutput : Type 0 where
  pub description : Str
  pub value : Str

pub record ActionRuns : Type 0 where
  pub using : Str
  pub steps : List Step
  pub main : Str
  pub image : Str

pub record ActionDef : Type 0 where
  pub name : Str
  pub description : Str
  pub inputs : Dict ActionInput
  pub outputs : Dict ActionOutput
  pub runs : ActionRuns

pub data ActionType : Type 0 where
  composite js docker dockerfile local : ActionType

-- A nil definition is `none`.
pub record ResolvedAction : Type 0 where
  pub type : ActionType
  pub def : Option ActionDef
  pub source_dir : Str
  pub image : Str
  pub uses : Str

pub data ActionError : Type 0 where
  missing_ref missing_repo not_found unreadable cache_failed bad_definition : ActionError

-- An HTTP reply: the status and the body, or no reply.
pub data Reply : Type 0 where
  reply : ℕ → Str → Reply
  no_reply : Reply

-- The exit of a process: its code, or no start.
pub data Exit : Type 0 where
  exited : ℤ → Exit
  not_run : Exit

-- What the code asks of the machine, with the machine's state: package os and filepath, net/http, the YAML
-- decoder, git, and podman. `none` is an error.
pub record Host : Type 1 where
  pub World : Type 0
  -- filepath.Join
  pub join_path : List Str → Str
  -- os.ReadFile, os.Stat without an error, the number of entries of os.ReadDir
  pub read_file : World → Str → Option Str
  pub stat_ok : World → Str → Bool
  pub entries : World → Str → Option ℕ
  -- os.MkdirAll, os.WriteFile
  pub mkdir_all : World → Str → Option World
  pub write_file : World → Str → Str → Option World
  -- a GET of http.DefaultClient
  pub http_get : World → Str → Reply
  -- yaml.Unmarshal into an ActionDef
  pub decode_action : Str → Option ActionDef
  -- git clone of owner, repository and ref into a directory
  pub clone : World → Str → Str → Str → Str → Option World
  -- containers.ExecCreate and what follows it, with command, environment and directory
  pub exec : World → List Str → List Str → Str → World × Exit
  -- exec.Command("podman", args...)
  pub podman : World → List Str → World × Exit
  -- the files _env, _output and _path
  pub env_file : World → Option Str
  pub output_file : World → Option Str
  pub path_file : World → Option Str

-- strings.LastIndex for one byte; `n` is the position of the text.
unfoldable pub last_index_from : ℕ → ℕ → Str → Option ℕ → Option ℕ
last_index_from n b [] found = found
last_index_from n b (x ∷ s) found = last_index_from (suc n) b s (if x == b then some n else found)

abbrev pub last_index : ℕ → Str → Option ℕ
last_index b s = last_index_from 0 b s none

unfoldable pub is_js_using : Str → Bool
is_js_using using =
    str_eq using (lit "node12")
    || (str_eq using (lit "node16") || (str_eq using (lit "node20") || str_eq using (lit "node24")))

unfoldable pub sanitize_byte : ℕ → ℕ
sanitize_byte x =
    if (x == b'/') || ((x == b'@') || (x == b':')) then b'_' else if x == b'.' then b'-' else x

unfoldable pub sanitize_uses : Str → Str
unfolding sanitize_byte
sanitize_uses [] = []
sanitize_uses (x ∷ s) = sanitize_byte x ∷ sanitize_uses s

-- strings.TrimPrefix(s, "docker://")
abbrev pub trim_docker : Str → Str
trim_docker s = if has_prefix s (lit "docker://") then drop 9 s else s

-- The switch on runs.using of a local action, for the type.
unfoldable pub local_type : Str → ActionType
unfolding is_js_using
local_type using =
    if str_eq using (lit "composite")
    then local
    else if is_js_using using
    then js
    else if str_eq using (lit "docker")
    then dockerfile
    else js

unfoldable pub is_dockerfile : Str → Bool
is_dockerfile img =
    str_eq img (lit "Dockerfile") || (str_eq img (lit "") || not (has_prefix img (lit "docker://")))

-- The switch on runs.using of a remote action.
unfoldable pub remote_action : Str → Str → ActionDef → ResolvedAction
unfolding is_js_using is_dockerfile
remote_action uses cache_key def =
    let ra : ResolvedAction = record {
      type = js;
      def = some def;
      source_dir = lit "";
      image = lit "";
      uses = uses;
    } in
    if str_eq def.runs.using (lit "composite")
    then record ra { type = composite; source_dir = cache_key }
    else if is_js_using def.runs.using
    then ra
    else if str_eq def.runs.using (lit "docker")
    then (if is_dockerfile def.runs.image
        then record ra { type = dockerfile }
        else record ra { type = docker; image = trim_docker def.runs.image })
    else ra

pub data Found {ℓ} (A : Type ℓ) : Type ℓ where
  found : A → Found A
  failed : ActionError → Found A

-- owner, repo and ref of "owner/repo@ref".
pub record Reference : Type 0 where
  pub owner : Str
  pub repo : Str
  pub ref : Str

abbrev reference_from : Str → Str → Option ℕ → Found Reference
reference_from owner_repo ref none = failed missing_repo
reference_from owner_repo ref (some slash) =
    found (record { owner = take slash owner_repo; repo = drop (slash + 1) owner_repo; ref = ref })

unfoldable pub parse_reference : Str → Found Reference
unfolding last_index_from index
parse_reference uses = elim (last_index b'@' uses) [
  | none ↦ failed missing_ref
  | some at ↦ reference_from (take at uses) (drop (at + 1) uses) (index (take at uses) (lit "/"))
]

module _ (H : Host) where
  open H use {
    World, join_path, read_file, stat_ok, entries, mkdir_all, write_file, http_get, decode_action,
  }

  abbrev or_read : Option Str → Option Str → Option Str
  or_read none o = o
  or_read (some s) o = some s

  unfoldable pub read_action_yaml : World → Str → Option Str
  read_action_yaml m dir =
      or_read (read_file m (join_path (dir ∷ lit "action.yml" ∷ [])))
        (read_file m (join_path (dir ∷ lit "action.yaml" ∷ [])))

  abbrev body_of : Reply → Option Str
  body_of no_reply = none
  body_of (reply status body) = if status == 200 then some body else none

  unfoldable pub fetch_raw : World → Reference → Str → Option Str
  fetch_raw m r filename = body_of (
      http_get m (
        lit "https://raw.githubusercontent.com"
        ++ b'/' ∷ r.owner
        ++ b'/' ∷ r.repo
        ++ b'/' ∷ r.ref
        ++ b'/' ∷ filename))

  unfoldable pub needs_clone : World → Str → Bool
  needs_clone m dir =
      if stat_ok m (join_path (dir ∷ lit ".git" ∷ []))
      then false
      else elim (entries m dir) [ none ↦ true | some n ↦ leb n 1 ]

  unfoldable pub resolve_local : World → Str → Str → Found ResolvedAction
  unfolding read_action_yaml local_type
  resolve_local m uses workspace =
      let dir = join_path (workspace ∷ drop 2 uses ∷ []) in
      elim (read_action_yaml m dir) [
        | none ↦ failed unreadable
        | some text ↦ elim (decode_action text) [
          | none ↦ failed bad_definition
          | some def ↦ found (record {
            type = local_type def.runs.using;
            def = some def;
            source_dir = dir;
            image = lit "";
            uses = uses;
          })
        ]
      ]

  -- A definition that was fetched is put into the cache.
  abbrev put_cached : World → Str → Str → Option World → World × Found Str
  put_cached m file text none = (m, failed cache_failed)
  put_cached m file text (some m') = elim (write_file m' file text) [
    | none ↦ (m', failed cache_failed)
    | some m2 ↦ (m2, found text)
  ]

  -- The text of the definition, from the cache or from GitHub.
  unfoldable pub action_text : World → Str → Reference → World × Found Str
  unfolding fetch_raw
  action_text m cache_key r =
      let file = join_path (cache_key ∷ lit "action.yml" ∷ []) in
      elim (stat_ok m file) [
        | true ↦ elim (read_file m file) [
          | none ↦ (m, failed unreadable)
          | some text ↦ (m, found text)
        ]
        | false ↦
            elim (or_read (fetch_raw m r (lit "action.yml")) (fetch_raw m r (lit "action.yaml"))) [
              | none ↦ (m, failed not_found)
              | some text ↦ put_cached m file text (mkdir_all m cache_key)
            ]
      ]

  abbrev decoded : Str → Str → Found Str → Found ResolvedAction
  decoded uses cache_key (failed e) = failed e
  decoded uses cache_key (found text) = elim (decode_action text) [
    | none ↦ failed bad_definition
    | some def ↦ found (remote_action uses cache_key def)
  ]

  abbrev resolve_reference : World → Str → Str → Found Reference → World × Found ResolvedAction
  resolve_reference m uses cache_dir (failed e) = (m, failed e)
  resolve_reference m uses cache_dir (found r) =
      let cache_key = join_path (cache_dir ∷ r.owner ∷ r.repo ∷ r.ref ∷ []) in
      let text = action_text m cache_key r in (text.0, decoded uses cache_key text.1)

  unfoldable pub resolve_remote : World → Str → Str → World × Found ResolvedAction
  unfolding parse_reference action_text remote_action
  resolve_remote m uses cache_dir = resolve_reference m uses cache_dir (parse_reference uses)

  unfoldable pub resolve_action : World → Str → Str → Str → World × Found ResolvedAction
  unfolding resolve_local resolve_remote
  resolve_action m uses workspace cache_dir =
      if has_prefix uses (lit "docker://")
      then (
        m,
        found (record {
          type = docker;
          def = none;
          source_dir = lit "";
          image = trim_docker uses;
          uses = uses;
        }),
      )
      else if has_prefix uses (lit "./")
      then (m, resolve_local m uses workspace)
      else resolve_remote m uses cache_dir
