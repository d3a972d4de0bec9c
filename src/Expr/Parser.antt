-- ===== src/Expr/Parser.antt =====
-- The parser of internal/runner/eval.go, which evaluates as it reads. The tokens that are left stand
-- for p.tokens[p.pos:]. Each call costs a unit of fuel, since what a call leaves is no structural
-- part of its tokens; Expr/Fuel.antt shows that `fuel_for` is enough.
use ghenkins.Prelude.{
  ℕ, zero, suc, ◌+◌, ◌*◌, Bool, not, ◌&&◌, ◌||◌, Option, none, some, List, [], ◌∷◌, ◌++◌, ◌==◌,
  if◌then◌else◌, length,
}
use ghenkins.Prelude.Text.{Str, lit, str_eq}
use ghenkins.Expr.Value.{
  Value, nil, bool, float, str, GoLib, Result, ok, err, out_of_fuel, ◌>>=◌, unexpected_token,
  expected_token, invalid_number, is_truthy,
}
use ghenkins.Expr.Context.{EvalContext, lookup_path}
use ghenkins.Expr.Token.{
  Token, TokType, token, tok_string, tok_number, tok_bool, tok_null, tok_ident, tok_lparen,
  tok_rparen, tok_comma, tok_dot, tok_lbracket, tok_rbracket, tok_eq, tok_neq, tok_lt, tok_lte,
  tok_gt, tok_gte, tok_and, tok_or, tok_not, tok_eof,
}
use ghenkins.Expr.Builtin.{eval_comparison, call_function}

abbrev pub Tokens : Type 0
Tokens = List Token

-- The number that iota gives the type.
abbrev pub typ_code : TokType → ℕ
typ_code tok_string = 0
typ_code tok_number = 1
typ_code tok_bool = 2
typ_code tok_null = 3
typ_code tok_ident = 4
typ_code tok_lparen = 5
typ_code tok_rparen = 6
typ_code tok_comma = 7
typ_code tok_dot = 8
typ_code tok_lbracket = 9
typ_code tok_rbracket = 10
typ_code tok_eq = 11
typ_code tok_neq = 12
typ_code tok_lt = 13
typ_code tok_lte = 14
typ_code tok_gt = 15
typ_code tok_gte = 16
typ_code tok_and = 17
typ_code tok_or = 18
typ_code tok_not = 19
typ_code tok_eof = 20

-- Fuel for an expression over these tokens.
abbrev pub fuel_for : Tokens → ℕ
fuel_for ts = 8 * length ts + 8

-- (p *exprParser) peek: the end of the tokens reads as tokEOF.
abbrev pub peek : Tokens → Token
peek [] = token tok_eof []
peek (t ∷ ts) = t

-- p.pos++
abbrev pub advance : Tokens → Tokens
advance [] = []
advance (t ∷ ts) = ts

-- p.peek().typ == typ
unfoldable pub next_typ : TokType → Tokens → Bool
next_typ typ ts = typ_code (peek ts).typ == typ_code typ

-- The cases of the switch in parseComparison.
unfoldable pub next_comparison : Tokens → Bool
unfolding next_typ
next_comparison ts =
    next_typ tok_eq ts
    || (next_typ tok_neq ts
        || (next_typ tok_lt ts
            || (next_typ tok_lte ts || (next_typ tok_gt ts || next_typ tok_gte ts))))

-- (p *exprParser) expect
unfoldable pub expect : TokType → Tokens → Result (Str × Tokens)
unfolding next_typ
expect typ ts =
    if next_typ typ ts then ok ((peek ts).val, advance ts) else err (expected_token (peek ts).val)

-- The property access chain behind `parts`.
unfoldable pub path_loop : ℕ → List Str → Tokens → Result (List Str × Tokens)
unfolding expect
path_loop zero parts ts = out_of_fuel
path_loop (suc f) parts ts =
    let dotted =
      expect tok_ident (advance ts) >>= λ (v, rest). path_loop f (parts ++ v ∷ []) rest in
    let indexed = expect tok_number (advance ts) >>= λ (v, rest).
    expect tok_rbracket rest >>= λ (_, rest').
    path_loop f (parts ++ (b'[' ∷ v ++ b']' ∷ []) ∷ []) rest' in
    if next_typ tok_dot ts
    then dotted
    else if next_typ tok_lbracket ts
    then indexed
    else ok (parts, ts)

module _ (G : GoLib) (c : EvalContext (G.F)) where
  open G use {F, parse_float}

  abbrev pub Parsed : Type 0
  Parsed = Result (Value F × Tokens)

  -- val, _ := p.ctx.Lookup(parts)
  abbrev pub or_nil : Option (Value F) → Value F
  or_nil none = nil
  or_nil (some v) = v

  abbrev pub parse_number : Str → Tokens → Parsed
  parse_number s rest = elim (parse_float s) [
    | none ↦ err (invalid_number s)
    | some f ↦ ok (float f, rest)
  ]

  unfoldable mutual
    unfolding next_typ next_comparison expect path_loop

    pub parse_or : ℕ → Tokens → Parsed
    parse_or zero ts = out_of_fuel
    parse_or (suc f) ts = parse_and f ts >>= λ (v, rest). or_loop f v rest

    pub or_loop : ℕ → Value F → Tokens → Parsed
    or_loop zero v ts = out_of_fuel
    or_loop (suc f) v ts =
        let more = parse_and f (advance ts) >>= λ (w, rest).
        or_loop f (bool (is_truthy G v || is_truthy G w)) rest in
        if next_typ tok_or ts then more else ok (v, ts)

    pub parse_and : ℕ → Tokens → Parsed
    parse_and zero ts = out_of_fuel
    parse_and (suc f) ts = parse_not f ts >>= λ (v, rest). and_loop f v rest

    pub and_loop : ℕ → Value F → Tokens → Parsed
    and_loop zero v ts = out_of_fuel
    and_loop (suc f) v ts =
        let more = parse_not f (advance ts) >>= λ (w, rest).
        and_loop f (bool (is_truthy G v && is_truthy G w)) rest in
        if next_typ tok_and ts then more else ok (v, ts)

    pub parse_not : ℕ → Tokens → Parsed
    parse_not zero ts = out_of_fuel
    parse_not (suc f) ts =
        let negated =
          parse_not f (advance ts) >>= λ (v, rest). ok (bool (not (is_truthy G v)), rest) in
        let plain = parse_comparison f ts in if next_typ tok_not ts then negated else plain

    pub parse_comparison : ℕ → Tokens → Parsed
    parse_comparison zero ts = out_of_fuel
    parse_comparison (suc f) ts = parse_primary f ts >>= λ (v, rest). comparison_tail f v rest

    pub comparison_tail : ℕ → Value F → Tokens → Parsed
    comparison_tail zero v ts = out_of_fuel
    comparison_tail (suc f) v ts =
        let compared = parse_primary f (advance ts) >>= λ (w, rest).
        ok (eval_comparison G v (peek ts).typ w, rest) in
        if next_comparison ts then compared else ok (v, ts)

    pub parse_primary : ℕ → Tokens → Parsed
    parse_primary zero ts = out_of_fuel
    parse_primary (suc f) ts =
        let grouped = parse_or f (advance ts) >>= λ (v, rest).
        expect tok_rparen rest >>= λ (_, rest'). ok (v, rest') in
        let named = parse_ident_or_call f ts in
        if next_typ tok_lparen ts
        then grouped
        else if next_typ tok_string ts
        then ok (str (peek ts).val, advance ts)
        else if next_typ tok_number ts
        then parse_number (peek ts).val (advance ts)
        else if next_typ tok_bool ts
        then ok (bool (str_eq (peek ts).val (lit "true")), advance ts)
        else if next_typ tok_null ts
        then ok (nil, advance ts)
        else if next_typ tok_ident ts
        then named
        else err (unexpected_token (peek ts).val)

    pub parse_ident_or_call : ℕ → Tokens → Parsed
    parse_ident_or_call zero ts = out_of_fuel
    parse_ident_or_call (suc f) ts =
        let called = args_loop f [] (advance (advance ts)) >>= λ (args, rest).
        expect tok_rparen rest >>= λ (_, rest').
        call_function G c (peek ts).val args >>= λ v. ok (v, rest') in
        let looked_up = path_loop f ((peek ts).val ∷ []) (advance ts) >>= λ (parts, rest).
        ok (or_nil (lookup_path c parts), rest) in
        if next_typ tok_lparen (advance ts) then called else looked_up

    pub args_loop : ℕ → List (Value F) → Tokens → Result (List (Value F) × Tokens)
    args_loop zero args ts = out_of_fuel
    args_loop (suc f) args ts =
        let more = (if length args == 0 then ok ([], ts) else expect tok_comma ts) >>= λ (_, rest).
        parse_or f rest >>= λ (v, rest'). args_loop f (args ++ v ∷ []) rest' in
        if next_typ tok_rparen ts || next_typ tok_eof ts then ok (args, ts) else more
