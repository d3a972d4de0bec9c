-- ===== src/EnvFile/Offsets.antt =====
-- ReadDelta of internal/runner/stepenv.go over a run of a job: each call sees what the step wrote.
use ghenkins.Prelude.{
  ◌≡◌, refl, ap, ◌∙◌, ◌⊎◌, List, [], ◌∷◌, ◌++◌, none, some, arith, length, drop-append,
  length-append,
}
use ghenkins.Prelude.Text.{Str}
use ghenkins.EnvFile.{
  EnvFiles, Contents, Delta, delta, read_env_err, read_output_err, read_path_err, read_new_bytes,
  read_delta, parse_env_file, parse_path_file,
}

-- The texts that a step appends to the three files.
pub record Written : Type 0 where
  pub env : Str
  pub output : Str
  pub path : Str

abbrev pub append : Written → Written → Written
append a b = record { env = a.env ++ b.env; output = a.output ++ b.output; path = a.path ++ b.path }

abbrev pub contents : Written → Contents
contents w = record { env = some w.env; output = some w.output; path = some w.path }

-- The state that has read just these texts.
abbrev pub read_up_to : Written → EnvFiles
read_up_to w = record {
  env_off = length w.env;
  output_off = length w.output;
  path_off = length w.path;
}

abbrev pub entries : Written → Delta
entries w = delta (parse_env_file w.env) (parse_env_file w.output) (parse_path_file w.path)

-- If the files have been read up to the end and a step appends to them, the next ReadDelta gives
-- the entries of what the step appended, and has then read up to the new end.
pub read_delta-append :
    (old more : Written)
    → read_delta (read_up_to old) (contents (append old more))
      ≡ (entries more, read_up_to (append old more))
unfolding read_delta
read_delta-append old more =
    rw
      (
        drop-append old.env more.env,
        drop-append old.output more.output,
        drop-append old.path more.path,
        length-append old.env more.env,
        length-append old.output more.output,
        length-append old.path more.path,
      )
      refl

-- The calls of ReadDelta behind each step of a job, in order.
unfoldable pub run : EnvFiles → Written → List Written → List Delta
unfolding read_delta
run f old [] = []
run f old (w ∷ ws) =
    let r = read_delta f (contents (append old w)) in r.0 ∷ run r.1 (append old w) ws

abbrev pub all_entries : List Written → List Delta
all_entries [] = []
all_entries (w ∷ ws) = entries w ∷ all_entries ws

abbrev pub nothing : Written
nothing = record { env = []; output = []; path = [] }

run-from : (old : Written) (ws : List Written) → run (read_up_to old) old ws ≡ all_entries ws
unfolding run
run-from old [] = refl
run-from old (w ∷ ws) =
    ap (λ r. r.0 ∷ run r.1 (append old w) ws) (read_delta-append old w)
    ∙ ap (λ ds. entries w ∷ ds) (run-from (append old w) ws)

-- From files created empty and offsets 0, the calls of ReadDelta behind the steps of a job give each
-- step's entries once, to that step, whatever the steps before it wrote.
pub run-entries :
    (ws : List Written)
    → run (record { env_off = 0; output_off = 0; path_off = 0 }) nothing ws ≡ all_entries ws
run-entries ws = run-from nothing ws

-- ReadDelta leaves every offset in place when it cannot read one of the files.
pub read_delta-err_keeps :
    (f : EnvFiles) (files : Contents) (d : Delta) (f' : EnvFiles)
    → read_delta f files ≡ (d, f')
    → (files.env ≡ none) ⊎ ((files.output ≡ none) ⊎ (files.path ≡ none))
    → (f' ≡ f) × ((d ≡ read_env_err) ⊎ ((d ≡ read_output_err) ⊎ (d ≡ read_path_err)))
unfolding read_delta read_new_bytes
read_delta-err_keeps f files d f' e h = ground arith
