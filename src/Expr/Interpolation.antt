-- ===== src/Expr/Interpolation.antt =====
-- Interpolate of internal/runner/eval.go: what stays of a text and what is replaced.
use ghenkins.Prelude.{
  ℕ, zero, suc, ◌≤◌, ◌<◌, ◌≡◌, inl, inr, refl, ap, sym, ◌∙◌, false, none, some, [], ◌∷◌, ◌++◌,
  if◌then◌else◌, arith, ◌==◌, length, drop, All, Option-cases, Bool-cases,
}
use ghenkins.Prelude.Text.{Str, lit, has_prefix, index, contains, trim_space}
use ghenkins.Prelude.Decimal.{show_int}
use ghenkins.Expr.Value.{
  GoLib, Value, nil, str, bool, int, float, list, object, Result, ok, err, out_of_fuel,
  value_to_string,
}
use ghenkins.Expr.Context.{EvalContext}
use ghenkins.Expr.Eval.{
  newline, eval, match_body, match_here, replacement, interpolate_loop, interpolate,
}

match_body-lt : (s body rest : Str) → match_body s ≡ some (body, rest) → length rest < length s
unfolding match_body
match_body-lt [] body rest e = cc
match_body-lt (x ∷ []) body rest e = cc
match_body-lt (x ∷ y ∷ s) body rest e = elim (Option-cases (match_body (y ∷ s))) [
  | inl q ↦ ground arith
  | inr ((b, r), q) ↦ ground (arith, match_body-lt (y ∷ s) b r q)
]

length-drop-le : (n : ℕ) (s : Str) → length (drop n s) ≤ length s
length-drop-le zero s = omega arith
length-drop-le (suc n) [] = omega arith
length-drop-le (suc n) (x ∷ s) = omega (arith, length-drop-le n s)

match_here-lt : (s body rest : Str) → match_here s ≡ some (body, rest) → length rest < length s
unfolding match_here
match_here-lt s body rest e = elim (Bool-cases (has_prefix s (lit "${{"))) [
  | inl h ↦
      let found : match_body (drop 3 s) ≡ some (body, rest) = sym (rw h refl) ∙ e in
      omega (arith, match_body-lt (drop 3 s) body rest found, length-drop-le 3 s)
  | inr h ↦ ground arith
]

match_body-found :
    (body rest : Str)
    → All (λ x. (x == b'}') ≡ false) body
    → All (λ x. (x == newline) ≡ false) body
    → match_body (body ++ b'}' ∷ b'}' ∷ rest) ≡ some (body, rest)
unfolding match_body
match_body-found [] rest h k = refl
match_body-found (x ∷ []) rest h k = ground arith
match_body-found (x ∷ y ∷ body) rest h k = ground (arith, match_body-found (y ∷ body) rest h.1 k.1)

no_match : (x : ℕ) (s : Str) → index (x ∷ s) (lit "${{") ≡ none → match_here (x ∷ s) ≡ none
unfolding match_here index
no_match x s h = ground arith

later_index : (x : ℕ) (s : Str) → index (x ∷ s) (lit "${{") ≡ none → index s (lit "${{") ≡ none
unfolding index
later_index x s h = ground arith

here :
    (body rest : Str)
    → All (λ x. (x == b'}') ≡ false) body
    → All (λ x. (x == newline) ≡ false) body
    → match_here (b'$' ∷ b'{' ∷ b'{' ∷ (body ++ b'}' ∷ b'}' ∷ rest)) ≡ some (body, rest)
unfolding match_here has_prefix lit
here body rest h k = match_body-found body rest h k

module _ (G : GoLib) (c : EvalContext (G.F)) where
  open G use {F}

  -- More fuel than the length of the text changes nothing.
  loop_fuel :
      (f g : ℕ) (s : Str)
      → length s ≤ f
      → length s ≤ g
      → interpolate_loop G c f s ≡ interpolate_loop G c g s
  unfolding interpolate_loop
  loop_fuel f g [] h k = refl
  loop_fuel zero g (x ∷ s) h k = absurd (omega arith)
  loop_fuel (suc f) zero (x ∷ s) h k = absurd (omega arith)
  loop_fuel (suc f) (suc g) (x ∷ s) h k = elim (Option-cases (match_here (x ∷ s))) [
    | inl e ↦
        rw (e, interpolate_loop) (ap (λ r. x ∷ r) (loop_fuel f g s (omega arith) (omega arith)))
    | inr ((body, rest), e) ↦
        rw (e, interpolate_loop)
          (ap (λ r. replacement G c body ++ r)
            (loop_fuel f g rest (omega (arith, match_here-lt (x ∷ s) body rest e))
              (omega (arith, match_here-lt (x ∷ s) body rest e))))
  ]

  plain_loop : (s : Str) → index s (lit "${{") ≡ none → interpolate_loop G c (length s) s ≡ s
  unfolding interpolate_loop
  plain_loop [] h = refl
  plain_loop (x ∷ s) h =
      rw (no_match x s h, interpolate_loop) (ap (λ r. x ∷ r) (plain_loop s (later_index x s h)))

  -- A text without "${{" is left as it is.
  pub interpolate_plain : (s : Str) → contains s (lit "${{") ≡ false → interpolate G c s ≡ s
  unfolding interpolate contains
  interpolate_plain s h = plain_loop s (ground arith)

  -- What the value of an expression shows as a text; an error shows as the empty text.
  abbrev pub shown : Result (Value F) → Str
  shown (ok nil) = []
  shown (ok (str s)) = s
  shown (ok (bool b)) = if b then lit "true" else lit "false"
  shown (ok (int n)) = show_int n
  shown (ok v) = value_to_string G v
  shown (err e) = []
  shown out_of_fuel = []

  replacement-shown : (body : Str) → replacement G c body ≡ shown (eval G c (trim_space body))
  unfolding replacement lit value_to_string
  replacement-shown body = shown_cases (eval G c (trim_space body))
    where
      shown_cases :
          (o : Result (Value F))
          → elim o [ ok v ↦ value_to_string G v | err e ↦ [] | out_of_fuel ↦ [] ] ≡ shown o
      shown_cases (ok nil) = refl
      shown_cases (ok (str s)) = refl
      shown_cases (ok (bool b)) = refl
      shown_cases (ok (int n)) = refl
      shown_cases (ok (float f)) = refl
      shown_cases (ok (list xs)) = refl
      shown_cases (ok (object fs)) = refl
      shown_cases (err e) = refl
      shown_cases out_of_fuel = refl

  -- A placeholder in front of a text gives way to the value of its expression, without the spaces around it,
  -- as a text (to the empty text, if it has an error), and the rest is interpolated; the expression has no "}" and no newline.
  pub interpolate-placeholder :
      (body rest : Str)
      → All (λ x. (x == b'}') ≡ false) body
      → All (λ x. (x == newline) ≡ false) body
      → interpolate G c (b'$' ∷ b'{' ∷ b'{' ∷ (body ++ b'}' ∷ b'}' ∷ rest))
        ≡ shown (eval G c (trim_space body)) ++ interpolate G c rest
  unfolding interpolate interpolate_loop
  interpolate-placeholder body rest h k =
      let text : Str = body ++ b'}' ∷ b'}' ∷ rest in
      let long = match_body-lt text body rest (match_body-found body rest h k) in
      rw (here body rest h k, interpolate_loop)
        (ap (λ r. replacement G c body ++ r)
          (loop_fuel (suc (suc (length text))) (length rest) rest (omega (arith, long))
            (omega arith)))
      ∙ ap (λ r. r ++ interpolate_loop G c (length rest) rest) (replacement-shown body)
