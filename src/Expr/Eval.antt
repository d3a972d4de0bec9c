-- ===== src/Expr/Eval.antt =====
-- Evaluator of internal/runner/eval.go: Eval, EvalBool and Interpolate.
use ghenkins.Prelude.{
  ℕ, zero, suc, ◌-◌, Bool, ◌&&◌, Option, none, some, [], ◌∷◌, ◌++◌, ◌==◌, if◌then◌else◌, length,
  take, drop,
}
use ghenkins.Prelude.Text.{Str, lit, has_prefix, has_suffix, trim_space}
use ghenkins.Expr.Value.{
  Value, GoLib, Result, ok, err, out_of_fuel, ◌>>=◌, unexpected_token, is_truthy, value_to_string,
}
use ghenkins.Expr.Context.{EvalContext}
use ghenkins.Expr.Token.{tok_eof, tokenize}
use ghenkins.Expr.Parser.{Tokens, next_typ, parse_or, fuel_for}

-- s[3 : len(s)-2]
abbrev pub inner : Str → Str
inner s = take (length s - 5) (drop 3 s)

-- The text of EvalBool after the wrapper is stripped. A text that begins with "${{" and ends with
-- "}}" has at least five bytes.
unfoldable pub strip_wrapper : Str → Str
unfolding has_prefix has_suffix trim_space
strip_wrapper s =
    if has_prefix s (lit "${{") && has_suffix s (lit "}}") then trim_space (inner s) else s

module _ (G : GoLib) (c : EvalContext (G.F)) where
  open G use {F}

  -- p.pos < len(p.tokens) && p.tokens[p.pos].typ != tokEOF
  unfoldable pub finish : Value F → Tokens → Result (Value F)
  unfolding next_typ
  finish v [] = ok v
  finish v (t ∷ ts) = if next_typ tok_eof (t ∷ ts) then ok v else err (unexpected_token t.val)

  unfoldable pub eval_tokens : Tokens → Result (Value F)
  unfolding parse_or finish
  eval_tokens toks = parse_or G c (fuel_for toks) toks >>= λ (v, rest). finish v rest

  unfoldable pub eval : Str → Result (Value F)
  unfolding tokenize eval_tokens
  eval s = elim (tokenize s) [ none ↦ out_of_fuel | some toks ↦ eval_tokens toks ]

  unfoldable pub eval_bool : Str → Result Bool
  unfolding eval strip_wrapper
  eval_bool s = eval (strip_wrapper (trim_space s)) >>= λ v. ok (is_truthy G v)

  -- The text that replaces a match; an error gives the empty text.
  unfoldable pub replacement : Str → Str
  unfolding eval
  replacement body = elim (eval (trim_space body)) [
    | ok v ↦ value_to_string G v
    | err e ↦ lit ""
    | out_of_fuel ↦ lit ""
  ]

-- The lazy group (.*?) in front of "}}": the text up to the first "}}" on the line, and what follows.
abbrev pub grow : ℕ → Option (Str × Str) → Option (Str × Str)
grow x none = none
grow x (some (body, rest)) = some (x ∷ body, rest)

abbrev pub newline : ℕ
newline = 10

unfoldable pub match_body : Str → Option (Str × Str)
match_body [] = none
match_body (x ∷ []) = none
match_body (x ∷ y ∷ s) =
    if (x == b'}') && (y == b'}')
    then some ([], s)
    else if x == newline
    then none
    else grow x (match_body (y ∷ s))

-- A match of \$\{\{(.*?)\}\} at the front of the text.
unfoldable pub match_here : Str → Option (Str × Str)
unfolding match_body has_prefix
match_here s = if has_prefix s (lit "${{") then match_body (drop 3 s) else none

module _ (G : GoLib) (c : EvalContext (G.F)) where
  -- ReplaceAllStringFunc, on fuel for the length of the text: at each position the match there, or
  -- else the byte.
  unfoldable pub interpolate_loop : ℕ → Str → Str
  unfolding match_here replacement
  interpolate_loop fuel [] = []
  interpolate_loop zero (x ∷ s) = []
  interpolate_loop (suc fuel) (x ∷ s) = elim (match_here (x ∷ s)) [
    | none ↦ x ∷ interpolate_loop fuel s
    | some (body, rest) ↦ replacement G c body ++ interpolate_loop fuel rest
  ]

  unfoldable pub interpolate : Str → Str
  unfolding interpolate_loop
  interpolate s = interpolate_loop (length s) s
