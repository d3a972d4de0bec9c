-- ===== src/Samples/Secrets.antt =====
-- Runs of internal/secrets/secrets.go.
use ghenkins.Prelude.{◌≡◌, refl, some, [], ◌∷◌, ◌++◌}
use ghenkins.Prelude.Text.{Str, lit, str_eq, index}
use ghenkins.Prelude.Dict.{Dict, lookup}
use ghenkins.Prelude.Names.{mem}
use ghenkins.Secrets.{
  Sources, resolved, value, resolve_secrets, resolve_value, resolve_secrets-lookup,
}

-- A store that joins service and key, and an environment without variables.
abbrev sources : Sources
sources = record { get = λ service name. some (service ++ name); eval_env = λ v. some (lit "") }

abbrev raw : Dict Str
raw = (lit "A", lit "plain") ∷ (lit "B", lit "keyring:w:k:1") ∷ (lit "C", lit "x${HOME}") ∷ []

abbrev result : Dict Str
result = (lit "A", lit "plain") ∷ (lit "B", lit "wk:1") ∷ (lit "C", lit "") ∷ []

raw_runs : resolve_secrets sources raw ≡ resolved result
unfolding resolve_secrets lit str_eq index
raw_runs = refl

resolve_secrets-lookup_example :
    some (value (lit "wk:1")) ≡ some (resolve_value sources (lit "keyring:w:k:1"))
unfolding lit str_eq mem lookup
resolve_secrets-lookup_example =
    resolve_secrets-lookup sources raw result (lit "B") (refl, (refl, (refl, tt))) raw_runs
