-- ===== src/Expr/Grammar/Append.antt =====
-- The tokens of a tree of Expr/Grammar in front of further tokens are its own tokens and then those.
use ghenkins.Prelude.{◌≡◌, refl, List, [], ◌∷◌, ◌++◌}
use ghenkins.Expr.Token.{tok_rparen}
use ghenkins.Expr.Parser.{Tokens}
use ghenkins.Expr.Grammar.{
  Link, dot, index, Or, OrRest, And, AndRest, Not, Primary, Args, ArgRest, or, or_end, or_more, and,
  and_end, and_more, negation, plain, compared, group, string, number, boolean, null, path, call,
  no_args, args, args_end, args_more, operator, mark, links_tokens, or_tokens, or_rest_tokens,
  and_tokens, and_rest_tokens, not_tokens, primary_tokens, args_tokens, arg_rest_tokens,
}

links-append : (ls : List Link) (a b : Tokens) → links_tokens ls (a ++ b) ≡ links_tokens ls a ++ b
unfolding links_tokens
links-append [] a b = refl
links-append (dot n ∷ ls) a b = rw (links-append ls a b)
links-append (index n ∷ ls) a b = rw (links-append ls a b)

mutual
  unfolding links_tokens or_tokens or_rest_tokens and_tokens and_rest_tokens not_tokens
      primary_tokens args_tokens arg_rest_tokens

  pub or-append : (e : Or) (a b : Tokens) → or_tokens e (a ++ b) ≡ or_tokens e a ++ b
  or-append (or e more) a b = rw (or_rest-append more a b, and-append e (or_rest_tokens more a) b)

  or_rest-append : (e : OrRest) (a b : Tokens) → or_rest_tokens e (a ++ b) ≡ or_rest_tokens e a ++ b
  or_rest-append or_end a b = refl
  or_rest-append (or_more e more) a b =
      rw (or_rest-append more a b, and-append e (or_rest_tokens more a) b)

  and-append : (e : And) (a b : Tokens) → and_tokens e (a ++ b) ≡ and_tokens e a ++ b
  and-append (and e more) a b =
      rw (and_rest-append more a b, not-append e (and_rest_tokens more a) b)

  and_rest-append :
      (e : AndRest) (a b : Tokens) → and_rest_tokens e (a ++ b) ≡ and_rest_tokens e a ++ b
  and_rest-append and_end a b = refl
  and_rest-append (and_more e more) a b =
      rw (and_rest-append more a b, not-append e (and_rest_tokens more a) b)

  not-append : (e : Not) (a b : Tokens) → not_tokens e (a ++ b) ≡ not_tokens e a ++ b
  not-append (negation n) a b = rw (not-append n a b)
  not-append (plain p) a b = primary-append p a b
  not-append (compared p op q) a b =
      rw (primary-append q a b, primary-append p (mark (operator op) ∷ primary_tokens q a) b)

  primary-append :
      (e : Primary) (a b : Tokens) → primary_tokens e (a ++ b) ≡ primary_tokens e a ++ b
  primary-append (group e) a b = rw (or-append e (mark tok_rparen ∷ a) b)
  primary-append (string s) a b = refl
  primary-append (number s) a b = refl
  primary-append (boolean x) a b = refl
  primary-append null a b = refl
  primary-append (path n ls) a b = rw (links-append ls a b)
  primary-append (call n xs) a b = rw (args-append xs (mark tok_rparen ∷ a) b)

  args-append : (e : Args) (a b : Tokens) → args_tokens e (a ++ b) ≡ args_tokens e a ++ b
  args-append no_args a b = refl
  args-append (args e more) a b =
      rw (arg_rest-append more a b, or-append e (arg_rest_tokens more a) b)

  arg_rest-append :
      (e : ArgRest) (a b : Tokens) → arg_rest_tokens e (a ++ b) ≡ arg_rest_tokens e a ++ b
  arg_rest-append args_end a b = refl
  arg_rest-append (args_more e more) a b =
      rw (arg_rest-append more a b, or-append e (arg_rest_tokens more a) b)
