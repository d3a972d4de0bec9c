-- ===== src/Expr/Fuel.antt =====
-- The parser of internal/runner/eval.go ends on all tokens, within its fuel.
use ghenkins.Prelude.{
  String, ℕ, zero, suc, ◌+◌, ◌*◌, ◌≤◌, ◌<◌, ◌≡◌, refl, Bool, true, false, ◌||◌, Option, none, some,
  List, [], ◌∷◌, ◌++◌, arith, ◌==◌, if◌then◌else◌, length,
}
use ghenkins.Prelude.Text.{Str, lit, str_eq}
use ghenkins.Expr.Value.{
  Value, float, str, GoLib, Result, ok, err, ◌>>=◌, EvalError, value_to_string,
}
use ghenkins.Expr.Context.{EvalContext}
use ghenkins.Expr.Token.{
  TokType, tok_ident, tok_number, tok_string, tok_bool, tok_null, tok_lparen, tok_rparen, tok_comma,
  tok_dot, tok_lbracket, tok_rbracket, tok_and, tok_or, tok_not, tok_eof,
}
use ghenkins.Expr.Builtin.{
  call_function, with_two, with_one, to_json, from_json, format_args, join_args,
}
use ghenkins.Expr.Parser.{
  Tokens, typ_code, advance, next_typ, next_comparison, expect, path_loop, parse_or, or_loop,
  parse_and, and_loop, parse_not, parse_comparison, comparison_tail, parse_primary, parse_number,
  parse_ident_or_call, args_loop, fuel_for,
}

-- The call ended within its fuel; if it succeeded, it left fewer than `n` tokens.
pub data Leaves {A : Type 0} (n : ℕ) : Result (A × Tokens) → Type 0 where
  left : {a : A} {rest : Tokens} → length rest < n → Leaves n (ok (a, rest))
  failed : {e : EvalError} → Leaves n (err e)

Leaves-bind :
    {A B : Type 0} {m n : ℕ} {r : Result (A × Tokens)} {f : A × Tokens → Result (B × Tokens)}
    → Leaves m r
    → ((p : A × Tokens) → length p.1 < m → Leaves n (f p))
    → Leaves n (r >>= f)
Leaves-bind (left {a} {rest} h) k = k (a, rest) h
Leaves-bind failed k = failed

-- The call ended without running out of fuel.
pub data Ends {A : Type 0} : Result A → Type 0 where
  returned : {a : A} → Ends (ok a)
  raised : {e : EvalError} → Ends (err e)

pub Ends-if : {A : Type 0} (b : Bool) {x y : Result A} → Ends x → Ends y → Ends (if b then x else y)
Ends-if true h k = h
Ends-if false h k = k

Leaves-mono : {A : Type 0} {m n : ℕ} {r : Result (A × Tokens)} → m ≤ n → Leaves m r → Leaves n r
Leaves-mono h (left lt) = left (omega arith)
Leaves-mono h failed = failed

Leaves-if :
    {A : Type 0} {n : ℕ} (b : Bool) {x y : Result (A × Tokens)}
    → (b ≡ true → Leaves n x)
    → Leaves n y
    → Leaves n (if b then x else y)
Leaves-if true h k = h refl
Leaves-if false h k = k

-- A token that is not tokEOF stands on a token list that is not empty.
next_typ-advance :
    (typ : TokType) (ts : Tokens)
    → typ_code typ < 20
    → next_typ typ ts ≡ true
    → suc (length (advance ts)) ≡ length ts
unfolding next_typ
next_typ-advance typ [] h e = ground arith
next_typ-advance typ (t ∷ ts) h e = refl

next_comparison-advance :
    (ts : Tokens) → next_comparison ts ≡ true → suc (length (advance ts)) ≡ length ts
unfolding next_comparison
next_comparison-advance [] e = cc
next_comparison-advance (t ∷ ts) e = refl

length-advance-le : (ts : Tokens) → length (advance ts) ≤ length ts
length-advance-le [] = omega arith
length-advance-le (t ∷ ts) = omega arith

expect-Leaves :
    (typ : TokType) (ts : Tokens) → typ_code typ < 20 → Leaves (length ts) (expect typ ts)
unfolding expect
expect-Leaves typ ts h =
    Leaves-if (next_typ typ ts) (λ e. left (omega (arith, next_typ-advance typ ts h e))) failed

path_loop-Leaves :
    (f : ℕ) (parts : List Str) (ts : Tokens)
    → 8 * length ts < f
    → Leaves (suc (length ts)) (path_loop f parts ts)
unfolding path_loop
path_loop-Leaves zero parts ts h = absurd (omega arith)
path_loop-Leaves (suc f) parts ts h =
    Leaves-if (next_typ tok_dot ts)
      (λ e.
        let shorter = next_typ-advance tok_dot ts (omega arith) e in
        Leaves-bind (expect-Leaves tok_ident (advance ts) (omega arith)) λ (v, rest) lt.
          Leaves-mono (omega arith) (path_loop-Leaves f (parts ++ v ∷ []) rest (omega arith)))
      (Leaves-if (next_typ tok_lbracket ts)
        (λ e.
          let shorter = next_typ-advance tok_lbracket ts (omega arith) e in
          Leaves-bind (expect-Leaves tok_number (advance ts) (omega arith)) λ (v, rest) lt.
            Leaves-bind (expect-Leaves tok_rbracket rest (omega arith)) λ (_, rest') lt'.
              Leaves-mono (omega arith) (path_loop-Leaves f _ rest' (omega arith)))
        (left (omega arith)))

-- What a bound on the fuel of each function is for: 8 units for each token, and what the functions
-- between one token and the next need.
module _ (G : GoLib) (c : EvalContext (G.F)) where
  open G use {F, parse_float}

  parse_number-Leaves :
      (s : Str) (rest : Tokens) (n : ℕ) → length rest < n → Leaves n (parse_number G c s rest)
  parse_number-Leaves s rest n h = number_cases (parse_float s)
    where
      number_cases :
          (o : Option F)
          → Leaves {A = Value F} n
              (elim o [ none ↦ err (EvalError.invalid_number s) | some f ↦ ok (float f, rest) ])
      number_cases none = failed
      number_cases (some f) = left h

  separator-Leaves :
      (args : List (Value F)) (ts : Tokens)
      → Leaves {A = Str}
          (suc (length ts))
          (if length args == 0 then ok ([], ts) else expect tok_comma ts)
  separator-Leaves args ts =
      Leaves-if (length args == 0) (λ _. left (omega arith))
        (Leaves-mono (omega arith) (expect-Leaves tok_comma ts (omega arith)))

  with_two-Ends :
      (f : Value F → Value F → Value F) (args : List (Value F)) → Ends (with_two G f args)
  with_two-Ends f [] = raised
  with_two-Ends f (a ∷ []) = raised
  with_two-Ends f (a ∷ b ∷ []) = returned
  with_two-Ends f (a ∷ b ∷ d ∷ args) = raised

  to_json-Ends : (args : List (Value F)) → Ends (with_one G (to_json G) args)
  to_json-Ends [] = raised
  to_json-Ends (a ∷ []) = json_cases (G.marshal a)
    where
      json_cases :
          (o : Option Str)
          → Ends {A = Value F} (elim o [ none ↦ err EvalError.json_error | some s ↦ ok (str s) ])
      json_cases none = raised
      json_cases (some s) = returned
  to_json-Ends (a ∷ b ∷ args) = raised

  from_json-Ends : (args : List (Value F)) → Ends (with_one G (from_json G) args)
  from_json-Ends [] = raised
  from_json-Ends (a ∷ []) = json_cases (G.unmarshal (value_to_string G a))
    where
      json_cases :
          (o : Option (Value F))
          → Ends {A = Value F} (elim o [ none ↦ err EvalError.json_error | some w ↦ ok w ])
      json_cases none = raised
      json_cases (some w) = returned
  from_json-Ends (a ∷ b ∷ args) = raised

  format_args-Ends : (args : List (Value F)) → Ends (format_args G args)
  format_args-Ends [] = raised
  format_args-Ends (a ∷ args) = returned

  join_args-Ends : (args : List (Value F)) → Ends (join_args G args)
  join_args-Ends [] = raised
  join_args-Ends (a ∷ []) = returned
  join_args-Ends (a ∷ b ∷ []) = returned
  join_args-Ends (a ∷ b ∷ d ∷ args) = raised

  -- Every function of the language returns or raises an error.
  call_function-Ends : (name : Str) (args : List (Value F)) → Ends (call_function G c name args)
  unfolding call_function
  call_function-Ends name args =
      let is : String → Bool = λ s. str_eq name (lit s) in
      Ends-if (is "contains") (with_two-Ends _ args) (
        Ends-if (is "startsWith") (with_two-Ends _ args) (
          Ends-if (is "endsWith") (with_two-Ends _ args) (
            Ends-if (is "format") (format_args-Ends args) (
              Ends-if (is "join") (join_args-Ends args) (
                Ends-if (is "toJSON") (to_json-Ends args) (
                  Ends-if (is "fromJSON") (from_json-Ends args) (
                    Ends-if (is "always") returned (
                      Ends-if (is "success") returned (
                        Ends-if (is "failure") returned (
                          Ends-if (is "cancelled") returned
                            (Ends-if (is "hashFiles") returned raised)))))))))))

  called-Leaves :
      {n : ℕ} (name : Str) (args : List (Value F)) (rest : Tokens)
      → length rest < n
      → Leaves n (call_function G c name args >>= λ v. ok (v, rest))
  called-Leaves {n} name args rest h = call_cases (call_function-Ends name args)
    where
      call_cases : {r : Result (Value F)} → Ends r → Leaves n (r >>= λ v. ok (v, rest))
      call_cases returned = left h
      call_cases raised = failed

  unfoldable mutual
    unfolding parse_or or_loop parse_and and_loop parse_not parse_comparison comparison_tail
        parse_primary parse_ident_or_call args_loop

    parse_or-Leaves :
        (f : ℕ) (ts : Tokens) → 8 * length ts + 6 < f → Leaves (length ts) (parse_or G c f ts)
    parse_or-Leaves zero ts h = absurd (omega arith)
    parse_or-Leaves (suc f) ts h =
        Leaves-bind (parse_and-Leaves f ts (omega arith))
          λ (v, rest) lt. Leaves-mono (omega arith) (or_loop-Leaves f v rest (omega arith))

    or_loop-Leaves :
        (f : ℕ) (v : Value F) (ts : Tokens)
        → 8 * length ts < f
        → Leaves (suc (length ts)) (or_loop G c f v ts)
    or_loop-Leaves zero v ts h = absurd (omega arith)
    or_loop-Leaves (suc f) v ts h =
        Leaves-if (next_typ tok_or ts)
          (λ e.
            let shorter = next_typ-advance tok_or ts (omega arith) e in
            Leaves-bind (parse_and-Leaves f (advance ts) (omega arith))
              λ (w, rest) lt. Leaves-mono (omega arith) (or_loop-Leaves f _ rest (omega arith)))
          (left (omega arith))

    parse_and-Leaves :
        (f : ℕ) (ts : Tokens) → 8 * length ts + 5 < f → Leaves (length ts) (parse_and G c f ts)
    parse_and-Leaves zero ts h = absurd (omega arith)
    parse_and-Leaves (suc f) ts h =
        Leaves-bind (parse_not-Leaves f ts (omega arith))
          λ (v, rest) lt. Leaves-mono (omega arith) (and_loop-Leaves f v rest (omega arith))

    and_loop-Leaves :
        (f : ℕ) (v : Value F) (ts : Tokens)
        → 8 * length ts < f
        → Leaves (suc (length ts)) (and_loop G c f v ts)
    and_loop-Leaves zero v ts h = absurd (omega arith)
    and_loop-Leaves (suc f) v ts h =
        Leaves-if (next_typ tok_and ts)
          (λ e.
            let shorter = next_typ-advance tok_and ts (omega arith) e in
            Leaves-bind (parse_not-Leaves f (advance ts) (omega arith))
              λ (w, rest) lt. Leaves-mono (omega arith) (and_loop-Leaves f _ rest (omega arith)))
          (left (omega arith))

    parse_not-Leaves :
        (f : ℕ) (ts : Tokens) → 8 * length ts + 4 < f → Leaves (length ts) (parse_not G c f ts)
    parse_not-Leaves zero ts h = absurd (omega arith)
    parse_not-Leaves (suc f) ts h =
        Leaves-if (next_typ tok_not ts)
          (λ e.
            let shorter = next_typ-advance tok_not ts (omega arith) e in
            Leaves-bind (parse_not-Leaves f (advance ts) (omega arith))
              λ (v, rest) lt. left (omega arith))
          (parse_comparison-Leaves f ts (omega arith))

    parse_comparison-Leaves :
        (f : ℕ) (ts : Tokens)
        → 8 * length ts + 3 < f
        → Leaves (length ts) (parse_comparison G c f ts)
    parse_comparison-Leaves zero ts h = absurd (omega arith)
    parse_comparison-Leaves (suc f) ts h =
        Leaves-bind (parse_primary-Leaves f ts (omega arith))
          λ (v, rest) lt. Leaves-mono (omega arith) (comparison_tail-Leaves f v rest (omega arith))

    comparison_tail-Leaves :
        (f : ℕ) (v : Value F) (ts : Tokens)
        → 8 * length ts < f
        → Leaves (suc (length ts)) (comparison_tail G c f v ts)
    comparison_tail-Leaves zero v ts h = absurd (omega arith)
    comparison_tail-Leaves (suc f) v ts h =
        Leaves-if (next_comparison ts)
          (λ e.
            let shorter = next_comparison-advance ts e in
            Leaves-bind (parse_primary-Leaves f (advance ts) (omega arith))
              λ (w, rest) lt. left (omega arith))
          (left (omega arith))

    parse_primary-Leaves :
        (f : ℕ) (ts : Tokens) → 8 * length ts + 2 < f → Leaves (length ts) (parse_primary G c f ts)
    parse_primary-Leaves zero ts h = absurd (omega arith)
    parse_primary-Leaves (suc f) ts h =
        Leaves-if (next_typ tok_lparen ts)
          (λ e.
            let shorter = next_typ-advance tok_lparen ts (omega arith) e in
            Leaves-bind (parse_or-Leaves f (advance ts) (omega arith)) λ (v, rest) lt.
              Leaves-bind (expect-Leaves tok_rparen rest (omega arith))
                λ (_, rest') lt'. left (omega arith))
          (Leaves-if (next_typ tok_string ts)
            (λ e. left (omega (arith, next_typ-advance tok_string ts (omega arith) e)))
            (Leaves-if (next_typ tok_number ts)
              (λ e.
                parse_number-Leaves _ (advance ts) (length ts)
                  (omega (arith, next_typ-advance tok_number ts (omega arith) e)))
              (Leaves-if (next_typ tok_bool ts)
                (λ e. left (omega (arith, next_typ-advance tok_bool ts (omega arith) e)))
                (Leaves-if (next_typ tok_null ts)
                  (λ e. left (omega (arith, next_typ-advance tok_null ts (omega arith) e)))
                  (Leaves-if (next_typ tok_ident ts)
                    (λ e.
                      parse_ident_or_call-Leaves f ts (omega arith)
                        (next_typ-advance tok_ident ts (omega arith) e))
                    failed)))))

    parse_ident_or_call-Leaves :
        (f : ℕ) (ts : Tokens)
        → 8 * length ts + 1 < f
        → suc (length (advance ts)) ≡ length ts
        → Leaves (length ts) (parse_ident_or_call G c f ts)
    parse_ident_or_call-Leaves zero ts h n = absurd (omega arith)
    parse_ident_or_call-Leaves (suc f) ts h n =
        Leaves-if (next_typ tok_lparen (advance ts))
          (λ e.
            let shorter = next_typ-advance tok_lparen (advance ts) (omega arith) e in
            Leaves-bind (args_loop-Leaves f [] (advance (advance ts)) (omega arith))
              λ (args, rest) lt.
                Leaves-bind (expect-Leaves tok_rparen rest (omega arith))
                  λ (_, rest') lt'. called-Leaves _ args rest' (omega arith))
          (Leaves-bind (path_loop-Leaves f _ (advance ts) (omega arith))
            λ (parts, rest) lt. left (omega arith))

    args_loop-Leaves :
        (f : ℕ) (args : List (Value F)) (ts : Tokens)
        → 8 * length ts + 7 < f
        → Leaves (suc (length ts)) (args_loop G c f args ts)
    args_loop-Leaves zero args ts h = absurd (omega arith)
    args_loop-Leaves (suc f) args ts h =
        Leaves-if (next_typ tok_rparen ts || next_typ tok_eof ts) (λ e. left (omega arith))
          (Leaves-bind (separator-Leaves args ts) λ (_, rest) lt.
            Leaves-bind (parse_or-Leaves f rest (omega arith)) λ (v, rest') lt'.
              Leaves-mono (omega arith) (args_loop-Leaves f (args ++ v ∷ []) rest' (omega arith)))

  -- With the fuel of `Eval` the parser ends on all tokens: it fails, or leaves fewer than it got.
  pub parse-Leaves : (ts : Tokens) → Leaves (length ts) (parse_or G c (fuel_for ts) ts)
  parse-Leaves ts = parse_or-Leaves (fuel_for ts) ts (omega arith)
