-- ===== src/Config/Checks.antt =====
-- What validate and applyDefaults of internal/config/config.go establish.
use ghenkins.Prelude.{
  ℕ, suc, ◌≡◌, ◌≢◌, ◌⊎◌, inl, inr, refl, sym, ap, ◌∙◌, true, false, List, [], ◌∷◌, ◌++◌, none,
  arith, ◌==◌, All, Bool-cases,
}
use ghenkins.Prelude.Text.{Str, lit, str_eq, str_eq_iff, split_n2, put_first}
use ghenkins.Prelude.Int.{ℤ, pos, is_zero}
use ghenkins.Config.{
  Config, Environment, apply_defaults, or_default, or_default_int, home_path, default_workspace,
  Watch, check_watch, validate_from, validate, repo_parts_ok,
}

-- owner/repo with neither of them empty.
abbrev pub IsRepo : Str → Type 0
IsRepo s =
    (owner name : Str) × (s ≡ owner ++ b'/' ∷ name)
    × (str_eq owner [] ≡ false)
    × (str_eq name [] ≡ false)

-- A pull request or a branch, but not both.
abbrev pub IsWatch : Watch → Type 0
IsWatch w =
    (((is_zero w.pr ≡ false) × (w.branch ≡ []))
      ⊎ ((is_zero w.pr ≡ true) × (str_eq w.branch [] ≡ false)))
    × IsRepo w.repo

abbrev rejoin : List Str → Str
rejoin [] = []
rejoin (p ∷ []) = p
rejoin (p ∷ q ∷ ps) = p ++ b'/' ∷ q

split_n2-ne_none : (s : Str) → split_n2 b'/' s ≢ []
unfolding split_n2
split_n2-ne_none [] = cc
split_n2-ne_none (x ∷ s) =
    ground (arith, put_first-ne_none x (split_n2 b'/' s) (split_n2-ne_none s))
  where
    put_first-ne_none : (c : ℕ) (ps : List Str) → ps ≢ [] → put_first c ps ≢ []
    put_first-ne_none c [] n = n
    put_first-ne_none c (p ∷ ps) n = cc

rejoin-put_first : (c : ℕ) (ps : List Str) → ps ≢ [] → rejoin (put_first c ps) ≡ c ∷ rejoin ps
rejoin-put_first c [] n = absurd (n refl)
rejoin-put_first c (p ∷ []) n = refl
rejoin-put_first c (p ∷ q ∷ ps) n = refl

rejoin-split_n2 : (s : Str) → rejoin (split_n2 b'/' s) ≡ s
unfolding split_n2
rejoin-split_n2 [] = refl
rejoin-split_n2 (x ∷ s) =
    let later =
      rejoin-put_first x (split_n2 b'/' s) (split_n2-ne_none s)
      ∙ ap (λ r. x ∷ r) (rejoin-split_n2 s) in
    elim (Bool-cases (x == b'/')) [ inl h ↦ ground arith | inr h ↦ rw h later ]

split_n2-two : (s a b : Str) → split_n2 b'/' s ≡ a ∷ b ∷ [] → s ≡ a ++ b'/' ∷ b
split_n2-two s a b e = sym (rejoin-split_n2 s) ∙ ap rejoin e

parts_IsRepo : (s : Str) (ps : List Str) → split_n2 b'/' s ≡ ps → repo_parts_ok ps ≡ true → IsRepo s
unfolding repo_parts_ok lit
parts_IsRepo s [] e h = cc
parts_IsRepo s (a ∷ []) e h = cc
parts_IsRepo s (a ∷ b ∷ []) e h = (a, b, split_n2-two s a b e, ground arith, ground arith)
parts_IsRepo s (a ∷ b ∷ c ∷ ps) e h = cc

check_watch-IsWatch : (i : ℕ) (w : Watch) → check_watch i w ≡ none → IsWatch w
unfolding check_watch lit
check_watch-IsWatch i w h =
    let ok : repo_parts_ok (split_n2 b'/' w.repo) ≡ true = ground arith in
    (
      elim (Bool-cases (is_zero w.pr)) [
        | inl z ↦ inr (z, ground arith)
        | inr z ↦ inl (z, ground (arith, str_eq_iff w.branch []))
      ],
      parts_IsRepo w.repo (split_n2 b'/' w.repo) refl ok,
    )

validate_from-IsWatch : (i : ℕ) (ws : List Watch) → validate_from i ws ≡ none → All IsWatch ws
unfolding validate_from
validate_from-IsWatch i [] h = tt
validate_from-IsWatch i (w ∷ ws) h =
    (check_watch-IsWatch i w (ground arith), validate_from-IsWatch (suc i) ws (ground arith))

-- If validate returns no error, every watch names a repository as owner/repo with neither part empty and
-- sets a pull request or a branch, but not both.
pub validate-IsWatch : (c : Config) → validate c ≡ none → All IsWatch c.watches
unfolding validate
validate-IsWatch c h = validate_from-IsWatch 0 c.watches h

or_default_twice : (s d : Str) → or_default (or_default s d) d ≡ or_default s d
or_default_twice s d = ground arith

or_default_int_twice : (n d : ℤ) → or_default_int (or_default_int n d) d ≡ or_default_int n d
or_default_int_twice n d = ground arith

-- applyDefaults fills in every field that it looks at once and for all: on its own result it changes
-- nothing, and no number that it looks at is 0 there.
pub apply_defaults_twice :
    (e : Environment) (c : Config)
    → (apply_defaults e (apply_defaults e c) ≡ apply_defaults e c)
      × (is_zero (apply_defaults e c).max_concurrency ≡ false)
      × (is_zero (apply_defaults e c).poll_interval ≡ false)
      × (is_zero (apply_defaults e c).retention_days ≡ false)
      × (is_zero (apply_defaults e c).retention_bytes ≡ false)
unfolding apply_defaults
apply_defaults_twice e c = (
  rw
      (
        or_default_int_twice c.max_concurrency (pos 2),
        or_default_int_twice c.poll_interval (pos 30_000_000_000),
        or_default_int_twice c.retention_days (pos 7),
        or_default_int_twice c.retention_bytes (pos 524_288_000),
        or_default_twice c.bind (lit "127.0.0.1:8765"),
        or_default_twice c.default_image (lit "ubuntu:22.04"),
        or_default_twice c.store_path (home_path e (lit "/.local/share/ghenkins/ghenkins.db")),
        or_default_twice c.workspace_dir (default_workspace e),
      )
      refl,
  ground arith,
  ground arith,
  ground arith,
  ground arith,
)
