-- ===== src/Expr/Grammar/Meaning.antt =====
-- Eval of internal/runner/eval.go on the spelling of a syntax tree.
use ghenkins.Prelude.{◌≡◌, refl, ◌∙◌, sym, [], ◌∷◌, arith}
use ghenkins.Expr.Value.{GoLib, Result, ok, err, out_of_fuel, ◌>>=◌}
use ghenkins.Expr.Context.{EvalContext}
use ghenkins.Expr.Token.{token, tok_eof}
use ghenkins.Expr.Parser.{Tokens, parse_or, fuel_for}
use ghenkins.Expr.Eval.{finish, eval_tokens, eval}
use ghenkins.Expr.Grammar.{Or, or_tokens, or_value}
use ghenkins.Expr.Grammar.Append.{or-append}
use ghenkins.Expr.Grammar.Reads.{or-reads}
use ghenkins.Expr.Grammar.Follow.{eof-FollowsOr, bind_last}
use ghenkins.Expr.Grammar.Spelling.{AreLexemes, spell, tokenize-spell}

abbrev eof : Tokens
eof = token tok_eof [] ∷ []

bind_ok : {A : Type 0} (m : Result A) → (m >>= λ v. ok v) ≡ m
bind_ok (ok a) = refl
bind_ok (err x) = refl
bind_ok out_of_fuel = refl

module _ (G : GoLib) (c : EvalContext (G.F)) where
  open G use {F}

  eval_tokens-or : (e : Or) → eval_tokens G c (or_tokens e eof) ≡ or_value G c e
  unfolding eval_tokens finish
  eval_tokens-or e =
      rw (or-reads G c e (fuel_for (or_tokens e eof)) eof eof-FollowsOr (omega arith), parse_or)
        (bind_last (or_value G c e) _ (λ v. ok v) (λ v. refl) ∙ bind_ok (or_value G c e))

  -- If every token of a syntax tree has a text that the tokenizer reads as that token, then Eval of
  -- the tokens' texts, each followed by a space, is the meaning of the tree: `||` binds weaker than
  -- `&&`, which binds weaker than `!` and the comparisons; each level groups to the left; operands are
  -- evaluated from left to right, all of them, and the first error is the result.
  pub eval-spell :
      (e : Or) → AreLexemes (or_tokens e []) → eval G c (spell (or_tokens e [])) ≡ or_value G c e
  unfolding eval
  eval-spell e h =
      rw (tokenize-spell (or_tokens e []) h, eval, sym (or-append e [] eof)) (eval_tokens-or e)
