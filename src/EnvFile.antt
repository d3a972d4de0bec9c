-- ===== src/EnvFile.antt =====
-- internal/runner/stepenv.go: the files by which the steps of a job hand variables, outputs and
-- search paths on. Offsets stay below the sizes of files, which an int64 holds.
pub mod Offsets
pub mod RoundTrip
use ghenkins.Prelude.{
  ℕ, suc, ◌+◌, ◌≡◌, refl, Bool, true, false, not, ◌&&◌, List, [], ◌∷◌, ◌++◌, Option, none, some,
  if◌then◌else◌, length, take, drop,
}
use ghenkins.Prelude.Text.{Str, lit, str_eq, split, index}
use ghenkins.Prelude.Dict.{Dict, insert}

-- The offsets of EnvFiles; the directory stays with the files below.
pub record EnvFiles : Type 0 where
  pub env_off : ℕ
  pub output_off : ℕ
  pub path_off : ℕ

-- The contents of the three files, `none` where opening, seeking or reading fails.
pub record Contents : Type 0 where
  pub env : Option Str
  pub output : Option Str
  pub path : Option Str

abbrev pub newline : ℕ
newline = 10

-- What the body of the loop makes of a line.
pub data Line : Type 0 where
  skip : Line
  pair : Str → Str → Line
  heredoc : Str → Str → Line

abbrev pub pair_of : Str → Option ℕ → Line
pair_of line none = skip
pair_of line (some idx) =
    if not (str_eq (take idx line) (lit ""))
    then pair (take idx line) (drop (idx + 1) line)
    else skip

unfoldable pub heredoc_of : Str → Option ℕ → Line
unfolding index
heredoc_of line none = pair_of line (index line (lit "="))
heredoc_of line (some idx) =
    if not (str_eq (take idx line) (lit "")) && not (str_eq (drop (idx + 2) line) (lit ""))
    then heredoc (take idx line) (drop (idx + 2) line)
    else pair_of line (index line (lit "="))

unfoldable pub read_line : Str → Line
unfolding heredoc_of
read_line line = if str_eq line (lit "") then skip else heredoc_of line (index line (lit "<<"))

-- The loop over the lines with the map so far, and the inner loop with the key, the delimiter and
-- the value so far.
unfoldable mutual
  unfolding read_line insert

  pub parse_lines : List Str → Dict Str → Dict Str
  parse_lines [] result = result
  parse_lines (line ∷ lines) result = elim (read_line line) [
    | skip ↦ parse_lines lines result
    | pair key value ↦ parse_lines lines (insert key value result)
    | heredoc key delimiter ↦ parse_heredoc key delimiter [] lines result
  ]

  pub parse_heredoc : Str → Str → Str → List Str → Dict Str → Dict Str
  parse_heredoc key delimiter buf [] result = insert key buf result
  parse_heredoc key delimiter buf (line ∷ lines) result = elim (str_eq line delimiter) [
    | true ↦ parse_lines lines (insert key buf result)
    | false ↦ parse_heredoc key delimiter (buf ++ line ++ newline ∷ []) lines result
  ]

-- The error of the source is always nil.
unfoldable pub parse_env_file : Str → Dict Str
unfolding parse_lines
parse_env_file [] = []
parse_env_file (x ∷ bytes) = parse_lines (split newline (x ∷ bytes)) []

unfoldable pub nonempty_lines : List Str → List Str
nonempty_lines [] = []
nonempty_lines (line ∷ lines) =
    if not (str_eq line (lit "")) then line ∷ nonempty_lines lines else nonempty_lines lines

unfoldable pub parse_path_file : Str → List Str
unfolding nonempty_lines
parse_path_file [] = []
parse_path_file (x ∷ bytes) = nonempty_lines (split newline (x ∷ bytes))

-- The bytes from the offset on, and the offset behind them.
unfoldable pub read_new_bytes : Option Str → ℕ → Option (Str × ℕ)
read_new_bytes none offset = none
read_new_bytes (some content) offset =
    some (drop offset content, offset + length (drop offset content))

pub data Delta : Type 0 where
  delta : Dict Str → Dict Str → List Str → Delta
  read_env_err read_output_err read_path_err : Delta

-- The entries, or the error, and the state after the call.
unfoldable pub read_delta : EnvFiles → Contents → Delta × EnvFiles
unfolding read_new_bytes parse_env_file parse_path_file
read_delta f files = elim (read_new_bytes files.env f.env_off) [
  | none ↦ (read_env_err, f)
  | some env ↦ elim (read_new_bytes files.output f.output_off) [
    | none ↦ (read_output_err, f)
    | some output ↦ elim (read_new_bytes files.path f.path_off) [
      | none ↦ (read_path_err, f)
      | some path ↦ (
        delta (parse_env_file env.0) (parse_env_file output.0) (parse_path_file path.0),
        record { env_off = env.1; output_off = output.1; path_off = path.1 },
      )
    ]
  ]
]
