-- ===== src/Expr/Grammar.antt =====
-- The grammar that the parser of internal/runner/eval.go is meant for: syntax trees with a level for
-- each precedence, their tokens, and their meaning, which knows nothing of tokens.
pub mod Lengths
pub mod Follow
pub mod Reads
pub mod Spelling
pub mod Append
pub mod Meaning
use ghenkins.Prelude.{
  ℕ, zero, suc, ◌+◌, ◌≡◌, Bool, true, false, not, ◌&&◌, ◌||◌, Option, none, some, List, [], ◌∷◌,
  ◌++◌, if◌then◌else◌, length,
}
use ghenkins.Prelude.Text.{Str, lit, str_eq}
use ghenkins.Expr.Value.{
  Value, nil, bool, float, str, GoLib, Result, ok, err, out_of_fuel, ◌>>=◌, is_truthy,
  invalid_number,
}
use ghenkins.Expr.Context.{EvalContext, lookup_path}
use ghenkins.Expr.Token.{
  Token, TokType, token, tok_string, tok_number, tok_bool, tok_null, tok_ident, tok_lparen,
  tok_rparen, tok_comma, tok_dot, tok_lbracket, tok_rbracket, tok_eq, tok_neq, tok_lt, tok_lte,
  tok_gt, tok_gte, tok_and, tok_or, tok_not,
}
use ghenkins.Expr.Builtin.{eval_comparison, call_function}
use ghenkins.Expr.Parser.{Tokens, or_nil}

-- One link of a property chain: `.name` or `[number]`.
pub data Link : Type 0 where
  dot : Str → Link
  index : Str → Link

pub data Comparison : Type 0 where
  eq neq lt lte gt gte : Comparison

-- `Or` is an operand and the operands behind `||`; likewise `And`. `Args` are the arguments of a call.
mutual
  pub data Or : Type 0 where
    or : And → OrRest → Or

  pub data OrRest : Type 0 where
    or_end : OrRest
    or_more : And → OrRest → OrRest

  pub data And : Type 0 where
    and : Not → AndRest → And

  pub data AndRest : Type 0 where
    and_end : AndRest
    and_more : Not → AndRest → AndRest

  pub data Not : Type 0 where
    negation : Not → Not
    plain : Primary → Not
    compared : Primary → Comparison → Primary → Not

  pub data Primary : Type 0 where
    group : Or → Primary
    string : Str → Primary
    number : Str → Primary
    boolean : Bool → Primary
    null : Primary
    path : Str → List Link → Primary
    call : Str → Args → Primary

  pub data Args : Type 0 where
    no_args : Args
    args : Or → ArgRest → Args

  pub data ArgRest : Type 0 where
    args_end : ArgRest
    args_more : Or → ArgRest → ArgRest

abbrev pub operator : Comparison → TokType
operator eq = tok_eq
operator neq = tok_neq
operator lt = tok_lt
operator lte = tok_lte
operator gt = tok_gt
operator gte = tok_gte

-- The text of the tokens that have one text only.
unfoldable pub typ_text : TokType → Str
typ_text tok_lparen = lit "("
typ_text tok_rparen = lit ")"
typ_text tok_comma = lit ","
typ_text tok_dot = lit "."
typ_text tok_lbracket = lit "["
typ_text tok_rbracket = lit "]"
typ_text tok_eq = lit "=="
typ_text tok_neq = lit "!="
typ_text tok_lt = lit "<"
typ_text tok_lte = lit "<="
typ_text tok_gt = lit ">"
typ_text tok_gte = lit ">="
typ_text tok_and = lit "&&"
typ_text tok_or = lit "||"
typ_text tok_not = lit "!"
typ_text _ = []

abbrev pub mark : TokType → Token
mark t = token t (typ_text t)

unfoldable pub links_tokens : List Link → Tokens → Tokens
links_tokens [] rest = rest
links_tokens (dot n ∷ ls) rest = mark tok_dot ∷ token tok_ident n ∷ links_tokens ls rest
links_tokens (index n ∷ ls) rest =
    mark tok_lbracket ∷ token tok_number n ∷ mark tok_rbracket ∷ links_tokens ls rest

-- The tokens of a tree, in front of `rest`.
unfoldable mutual
  unfolding links_tokens

  pub or_tokens : Or → Tokens → Tokens
  or_tokens (or a more) rest = and_tokens a (or_rest_tokens more rest)

  pub or_rest_tokens : OrRest → Tokens → Tokens
  or_rest_tokens or_end rest = rest
  or_rest_tokens (or_more a more) rest = mark tok_or ∷ and_tokens a (or_rest_tokens more rest)

  pub and_tokens : And → Tokens → Tokens
  and_tokens (and n more) rest = not_tokens n (and_rest_tokens more rest)

  pub and_rest_tokens : AndRest → Tokens → Tokens
  and_rest_tokens and_end rest = rest
  and_rest_tokens (and_more n more) rest = mark tok_and ∷ not_tokens n (and_rest_tokens more rest)

  pub not_tokens : Not → Tokens → Tokens
  not_tokens (negation n) rest = mark tok_not ∷ not_tokens n rest
  not_tokens (plain p) rest = primary_tokens p rest
  not_tokens (compared p op q) rest = primary_tokens p (mark (operator op) ∷ primary_tokens q rest)

  pub primary_tokens : Primary → Tokens → Tokens
  primary_tokens (group e) rest = mark tok_lparen ∷ or_tokens e (mark tok_rparen ∷ rest)
  primary_tokens (string s) rest = token tok_string s ∷ rest
  primary_tokens (number s) rest = token tok_number s ∷ rest
  primary_tokens (boolean b) rest = token tok_bool (if b then lit "true" else lit "false") ∷ rest
  primary_tokens null rest = token tok_null (lit "null") ∷ rest
  primary_tokens (path n ls) rest = token tok_ident n ∷ links_tokens ls rest
  primary_tokens (call n xs) rest =
      token tok_ident n ∷ mark tok_lparen ∷ args_tokens xs (mark tok_rparen ∷ rest)

  pub args_tokens : Args → Tokens → Tokens
  args_tokens no_args rest = rest
  args_tokens (args e more) rest = or_tokens e (arg_rest_tokens more rest)

  pub arg_rest_tokens : ArgRest → Tokens → Tokens
  arg_rest_tokens args_end rest = rest
  arg_rest_tokens (args_more e more) rest = mark tok_comma ∷ or_tokens e (arg_rest_tokens more rest)

-- The name by which a link stands in a path.
abbrev pub link_part : Link → Str
link_part (dot n) = n
link_part (index n) = b'[' ∷ n ++ b']' ∷ []

abbrev pub link_parts : List Link → List Str
link_parts [] = []
link_parts (l ∷ ls) = link_part l ∷ link_parts ls

-- The meaning of a tree, operands from left to right; the first error ends it.
module _ (G : GoLib) (c : EvalContext (G.F)) where
  open G use {F, parse_float}

  unfoldable mutual
    pub or_value : Or → Result (Value F)
    or_value (or a more) = and_value a >>= λ v. or_rest_value v more

    pub or_rest_value : Value F → OrRest → Result (Value F)
    or_rest_value v or_end = ok v
    or_rest_value v (or_more a more) =
        and_value a >>= λ w. or_rest_value (bool (is_truthy G v || is_truthy G w)) more

    pub and_value : And → Result (Value F)
    and_value (and n more) = not_value n >>= λ v. and_rest_value v more

    pub and_rest_value : Value F → AndRest → Result (Value F)
    and_rest_value v and_end = ok v
    and_rest_value v (and_more n more) =
        not_value n >>= λ w. and_rest_value (bool (is_truthy G v && is_truthy G w)) more

    pub not_value : Not → Result (Value F)
    not_value (negation n) = not_value n >>= λ v. ok (bool (not (is_truthy G v)))
    not_value (plain p) = primary_value p
    not_value (compared p op q) =
        primary_value p >>= λ v. primary_value q >>= λ w. ok (eval_comparison G v (operator op) w)

    pub primary_value : Primary → Result (Value F)
    primary_value (group e) = or_value e
    primary_value (string s) = ok (str s)
    primary_value (number s) = elim (parse_float s) [
      | none ↦ err (invalid_number s)
      | some f ↦ ok (float f)
    ]
    primary_value (boolean b) = ok (bool b)
    primary_value null = ok nil
    primary_value (path n ls) = ok (or_nil G c (lookup_path c (n ∷ link_parts ls)))
    primary_value (call n xs) = args_values xs >>= λ vs. call_function G c n vs

    pub args_values : Args → Result (List (Value F))
    args_values no_args = ok []
    args_values (args e more) = or_value e >>= λ v. arg_rest_values (v ∷ []) more

    -- The values of further arguments behind `vs`.
    pub arg_rest_values : List (Value F) → ArgRest → Result (List (Value F))
    arg_rest_values vs args_end = ok vs
    arg_rest_values vs (args_more e more) = or_value e >>= λ v. arg_rest_values (vs ++ v ∷ []) more
