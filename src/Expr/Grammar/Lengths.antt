-- ===== src/Expr/Grammar/Lengths.antt =====
-- A printed tree is not empty: what follows it is shorter than the whole.
use ghenkins.Prelude.{◌≤◌, ◌<◌, List, [], ◌∷◌, arith, length}
use ghenkins.Expr.Parser.{Tokens}
use ghenkins.Expr.Token.{tok_rparen}
use ghenkins.Expr.Grammar.{
  mark, operator, Link, dot, index, Or, or, OrRest, or_end, or_more, And, and, AndRest, and_end,
  and_more, Not, negation, plain, compared, Primary, group, string, number, boolean, null, path,
  call, Args, no_args, args, ArgRest, args_end, args_more, links_tokens, or_tokens, or_rest_tokens,
  and_tokens, and_rest_tokens, not_tokens, primary_tokens, args_tokens, arg_rest_tokens,
}

pub links-le : (ls : List Link) (rest : Tokens) → length rest ≤ length (links_tokens ls rest)
unfolding links_tokens
links-le [] rest = omega arith
links-le (dot n ∷ ls) rest = omega (arith, links-le ls rest)
links-le (index n ∷ ls) rest = omega (arith, links-le ls rest)

mutual
  unfolding or_tokens or_rest_tokens and_tokens and_rest_tokens not_tokens primary_tokens
      args_tokens arg_rest_tokens

  pub or-lt : (e : Or) (rest : Tokens) → length rest < length (or_tokens e rest)
  or-lt (or a more) rest = omega (arith, and-lt a (or_rest_tokens more rest), or_rest-le more rest)

  pub or_rest-le : (e : OrRest) (rest : Tokens) → length rest ≤ length (or_rest_tokens e rest)
  or_rest-le or_end rest = omega arith
  or_rest-le (or_more a more) rest =
      omega (arith, and-lt a (or_rest_tokens more rest), or_rest-le more rest)

  pub and-lt : (e : And) (rest : Tokens) → length rest < length (and_tokens e rest)
  and-lt (and n more) rest =
      omega (arith, not-lt n (and_rest_tokens more rest), and_rest-le more rest)

  pub and_rest-le : (e : AndRest) (rest : Tokens) → length rest ≤ length (and_rest_tokens e rest)
  and_rest-le and_end rest = omega arith
  and_rest-le (and_more n more) rest =
      omega (arith, not-lt n (and_rest_tokens more rest), and_rest-le more rest)

  pub not-lt : (e : Not) (rest : Tokens) → length rest < length (not_tokens e rest)
  not-lt (negation n) rest = omega (arith, not-lt n rest)
  not-lt (plain p) rest = primary-lt p rest
  not-lt (compared p op q) rest =
      omega (arith, primary-lt q rest, primary-lt p (mark (operator op) ∷ primary_tokens q rest))

  pub primary-lt : (e : Primary) (rest : Tokens) → length rest < length (primary_tokens e rest)
  primary-lt (group e) rest = omega (arith, or-lt e (mark tok_rparen ∷ rest))
  primary-lt (string s) rest = omega arith
  primary-lt (number s) rest = omega arith
  primary-lt (boolean b) rest = omega arith
  primary-lt null rest = omega arith
  primary-lt (path n ls) rest = omega (arith, links-le ls rest)
  primary-lt (call n xs) rest = omega (arith, args-le xs (mark tok_rparen ∷ rest))

  pub args-le : (e : Args) (rest : Tokens) → length rest ≤ length (args_tokens e rest)
  args-le no_args rest = omega arith
  args-le (args e more) rest =
      omega (arith, or-lt e (arg_rest_tokens more rest), arg_rest-le more rest)

  pub arg_rest-le : (e : ArgRest) (rest : Tokens) → length rest ≤ length (arg_rest_tokens e rest)
  arg_rest-le args_end rest = omega arith
  arg_rest-le (args_more e more) rest =
      omega (arith, or-lt e (arg_rest_tokens more rest), arg_rest-le more rest)
