-- ===== src/Samples/Files.antt =====
-- Runs of internal/runner/stepenv.go.
use ghenkins.Prelude.{◌≡◌, ◌⊎◌, inl, inr, refl, arith, List, [], ◌∷◌, none, some}
use ghenkins.Prelude.Text.{lit, str_eq, index}
use ghenkins.EnvFile.{
  EnvFiles, Contents, read_env_err, read_output_err, read_path_err, read_delta, parse_env_file,
}
use ghenkins.EnvFile.Offsets.{Written, nothing, run, all_entries, run-entries, read_delta-err_keeps}
use ghenkins.EnvFile.RoundTrip.{
  Entry, assign, block, print, store_all, print_lines, parse_env_file-print,
}

abbrev file : List Entry
file =
    assign (lit "A") (lit "1=2")
    ∷ block (lit "B") (lit "EOF") (lit "x" ∷ lit "A=3" ∷ [])
    ∷ assign (lit "A") (lit "")
    ∷ []

parse_env_file-print_example : parse_env_file (print file) ≡ store_all file []
unfolding lit str_eq index print_lines
parse_env_file-print_example = parse_env_file-print file (ground arith) (ground arith)

abbrev steps : List Written
steps =
    record { env = print file; output = lit "o=1"; path = [] }
    ∷ record { env = []; output = lit "=2"; path = lit "/bin" }
    ∷ []

run-entries_example :
    run (record { env_off = 0; output_off = 0; path_off = 0 }) nothing steps ≡ all_entries steps
run-entries_example = run-entries steps

abbrev offsets : EnvFiles
offsets = record { env_off = 3; output_off = 1; path_off = 0 }

abbrev broken : Contents
broken = record { env = some (lit "A=1"); output = none; path = some (lit "") }

read_delta-err_keeps_example :
    (offsets ≡ offsets)
    × ((read_output_err ≡ read_env_err)
        ⊎ ((read_output_err ≡ read_output_err) ⊎ (read_output_err ≡ read_path_err)))
unfolding read_delta
read_delta-err_keeps_example =
    read_delta-err_keeps offsets broken read_output_err offsets refl (inr (inl refl))
