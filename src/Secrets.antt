-- ===== src/Secrets.antt =====
-- ResolveSecrets of internal/secrets/secrets.go. The store of secrets and envsubst are parameters.
use ghenkins.Prelude.{
  ◌≡◌, ◌⊎◌, inl, inr, refl, Option, none, some, List, [], ◌∷◌, arith, if◌then◌else◌,
}
use ghenkins.Prelude.Text.{Str, lit, str_eq_iff, has_prefix, contains, split_n2}
use ghenkins.Prelude.Dict.{Dict, lookup, insert, keys, lookup-insert}
use ghenkins.Prelude.Names.{Distinct, lookup-none}

-- A value, or the error of its kind.
pub data Resolved : Type 0 where
  value : Str → Resolved
  invalid_reference not_found bad_substitution : Resolved

-- Get of the store by service and key, and envsubst.EvalEnv; `none` is an error.
pub record Sources : Type 0 where
  pub get : Str → Str → Option Str
  pub eval_env : Str → Option Str

abbrev or_err : Resolved → Option Str → Resolved
or_err e none = e
or_err e (some v) = value v

abbrev put_front : Str → List Str → List Str
put_front p ps = p ∷ ps

-- The parts behind the first of strings.SplitN(v, ":", 3).
abbrev split_last : List Str → List Str
split_last (p ∷ q ∷ []) = put_front p (split_n2 b':' q)
split_last ps = ps

abbrev fetch : Sources → List Str → Resolved
fetch S (p ∷ service ∷ name ∷ []) = or_err not_found (S.get service name)
fetch S _ = invalid_reference

unfoldable pub resolve_value : Sources → Str → Resolved
unfolding has_prefix contains split_n2
resolve_value S v =
    if has_prefix v (lit "keyring:")
    then fetch S (split_last (split_n2 b':' v))
    else if contains v (lit "${")
    then or_err bad_substitution (S.eval_env v)
    else value v

-- The error has the name of its secret.
pub data Outcome : Type 0 where
  resolved : Dict Str → Outcome
  failed : Str → Resolved → Outcome

-- The loop, with the result so far.
unfoldable pub resolve_from : Sources → Dict Str → Dict Str → Outcome
unfolding resolve_value insert
resolve_from S [] result = resolved result
resolve_from S ((k, v) ∷ raw) result = elim (resolve_value S v) [
  | value r ↦ resolve_from S raw (insert k r result)
  | e ↦ failed k e
]

unfoldable pub resolve_secrets : Sources → Dict Str → Outcome
unfolding resolve_from
resolve_secrets S raw = resolve_from S raw []

Resolved-cases :
    (r : Resolved)
    → ((v : Str) × (r ≡ value v))
      ⊎ ((r ≡ invalid_reference) ⊎ ((r ≡ not_found) ⊎ (r ≡ bad_substitution)))
Resolved-cases (value v) = inl (v, refl)
Resolved-cases invalid_reference = inr (inl refl)
Resolved-cases not_found = inr (inr (inl refl))
Resolved-cases bad_substitution = inr (inr (inr refl))

-- What a result holds under a name: the value of the raw entry, or else what was there before.
abbrev held : Sources → Option Str → Option Str → Option Resolved
held S (some v) old = some (resolve_value S v)
held S none (some w) = some (value w)
held S none none = none

abbrev as_values : Option Str → Option Resolved
as_values none = none
as_values (some w) = some (value w)

resolve_from-lookup :
    (S : Sources) (raw old result : Dict Str) (k : Str)
    → Distinct (keys raw)
    → resolve_from S raw old ≡ resolved result
    → as_values (lookup k result) ≡ held S (lookup k raw) (lookup k old)
unfolding resolve_from lookup
resolve_from-lookup S [] old result k d e = ground arith
resolve_from-lookup S ((j, v) ∷ raw) old result k d e = elim (Resolved-cases (resolve_value S v)) [
  | inl (r, q) ↦
      let later = resolve_from-lookup S raw (insert j r old) result k d.1 in
      ground (arith, q, later, lookup-insert j k r old, str_eq_iff j k, lookup-none j raw d.0)
  | inr (inl q) ↦ ground (arith, q)
  | inr (inr (inl q)) ↦ ground (arith, q)
  | inr (inr (inr q)) ↦ ground (arith, q)
]

-- If ResolveSecrets returns no error, the result has the names of the raw map, and under each the value that
-- resolveValue gives for the raw one. The raw map has a name once.
pub resolve_secrets-lookup :
    (S : Sources) (raw result : Dict Str) (k : Str)
    → Distinct (keys raw)
    → resolve_secrets S raw ≡ resolved result
    → as_values (lookup k result) ≡ held S (lookup k raw) none
unfolding resolve_secrets lookup
resolve_secrets-lookup S raw result k d e = resolve_from-lookup S raw [] result k d e
