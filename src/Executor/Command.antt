-- ===== src/Executor/Command.antt =====
-- The commands, arguments and variables of a step in internal/runner/executor.go and internal/runner/action.go.
use ghenkins.Prelude.{Bool, ◌||◌, List, [], ◌∷◌, ◌++◌, none, some, ◌==◌, if◌then◌else◌}
use ghenkins.Prelude.Text.{Str, lit, str_eq, has_prefix, to_lower, to_upper, join}
use ghenkins.Prelude.Dict.{Dict, lookup, lookup_or, insert}
use ghenkins.Action.{ActionInput}

unfoldable pub is_checkout_action : Str → Bool
unfolding has_prefix to_lower
is_checkout_action uses = has_prefix (to_lower uses) (lit "actions/checkout@")

unfoldable pub build_shell_cmd : Str → Str → List Str
build_shell_cmd shell script =
    if str_eq shell (lit "bash") || str_eq shell (lit "")
    then lit "/bin/bash"
      ∷ lit "--noprofile"
      ∷ lit "--norc"
      ∷ lit "-eo"
      ∷ lit "pipefail"
      ∷ lit "-c"
      ∷ script
      ∷ []
    else if str_eq shell (lit "sh")
    then lit "/bin/sh" ∷ lit "-e" ∷ lit "-c" ∷ script ∷ []
    else shell ∷ lit "-c" ∷ script ∷ []

-- strings.ReplaceAll(s, "-", "_")
unfoldable pub underscored : Str → Str
underscored [] = []
underscored (x ∷ s) = (if x == b'-' then b'_' else x) ∷ underscored s

-- "INPUT_" + strings.ToUpper(strings.ReplaceAll(name, "-", "_"))
unfoldable pub input_key : Str → Str
unfolding underscored to_upper
input_key name = lit "INPUT_" ++ to_upper (underscored name)

-- "KEY=value" for each entry.
unfoldable pub env_slice : Dict Str → List Str
env_slice [] = []
env_slice ((k, v) ∷ m) = (k ++ b'=' ∷ v) ∷ env_slice m

abbrev pub or_text : Str → Str → Str
or_text s d = if str_eq s (lit "") then d else s

-- The entry PATH with LivePath in front, if LivePath is not empty.
unfoldable pub with_path : List Str → Dict Str → Dict Str
unfolding insert lookup_or join
with_path [] env = env
with_path (p ∷ ps) env =
    let base =
      or_text (lookup_or (lit "") (lit "PATH") env)
        (lit "/usr/local/sbin:/usr/local/bin:/usr/sbin:/usr/bin:/sbin:/bin") in
    insert (lit "PATH") (join (p ∷ ps) (lit ":") ++ b':' ∷ base) env

-- args of podman run: "-e" in front of each entry.
unfoldable pub env_args : Dict Str → List Str
env_args [] = []
env_args ((k, v) ∷ m) = lit "-e" ∷ (k ++ b'=' ∷ v) ∷ env_args m

unfoldable pub input_args : Dict Str → List Str
unfolding input_key
input_args [] = []
input_args ((k, v) ∷ m) = lit "-e" ∷ (input_key k ++ b'=' ∷ v) ∷ input_args m

abbrev pub workspace_args : Str → List Str
workspace_args workspace =
    if str_eq workspace (lit "")
    then []
    else lit "-v"
      ∷ (workspace ++ lit ":/github/workspace:rw")
      ∷ lit "-w"
      ∷ lit "/github/workspace"
      ∷ []

unfoldable pub docker_args : Str → Dict Str → Dict Str → Str → List Str
unfolding env_args input_args
docker_args workspace live with_inputs image =
    lit "run"
    ∷ lit "--rm"
    ∷ (env_args live ++ input_args with_inputs ++ workspace_args workspace ++ image ∷ [])

-- The defaults of the inputs that the step does not give.
unfoldable pub fill_defaults : Dict ActionInput → Dict Str → Dict Str
unfolding lookup insert
fill_defaults [] inputs = inputs
fill_defaults ((name, inp) ∷ decls) inputs = elim (lookup name inputs) [
  | some v ↦ fill_defaults decls inputs
  | none ↦
      if str_eq inp.default (lit "")
      then fill_defaults decls inputs
      else fill_defaults decls (insert name inp.default inputs)
]
