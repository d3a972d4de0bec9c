-- ===== src/Expr/Total.antt =====
-- Eval and EvalBool of internal/runner/eval.go end on every text.
use ghenkins.Prelude.{ℕ, [], ◌∷◌, ◌++◌}
use ghenkins.Prelude.Text.{Str, trim_space}
use ghenkins.Expr.Value.{Value, GoLib, Result, ok, ◌>>=◌, is_truthy}
use ghenkins.Expr.Context.{EvalContext}
use ghenkins.Expr.Token.{token, tok_eof}
use ghenkins.Expr.Parser.{Tokens, next_typ}
use ghenkins.Expr.Fuel.{Ends, returned, raised, Ends-if, Leaves, left, failed, parse-Leaves}
use ghenkins.Expr.Lexing.{tokenize-some}
use ghenkins.Expr.Eval.{finish, eval_tokens, eval, eval_bool, strip_wrapper}

module _ (G : GoLib) (c : EvalContext (G.F)) where
  open G use {F}

  finish-Ends : (v : Value F) (ts : Tokens) → Ends (finish G c v ts)
  unfolding finish
  finish-Ends v [] = returned
  finish-Ends v (t ∷ ts) = Ends-if (next_typ tok_eof (t ∷ ts)) returned raised

  finish_after :
      {n : ℕ} {r : Result (Value F × Tokens)}
      → Leaves n r
      → Ends (r >>= λ (v, rest). finish G c v rest)
  finish_after (left {a} {rest} h) = finish-Ends a rest
  finish_after failed = raised

  eval_tokens-Ends : (toks : Tokens) → Ends (eval_tokens G c toks)
  unfolding eval_tokens
  eval_tokens-Ends toks = finish_after (parse-Leaves G c toks)

  -- Eval returns a value or an error on every text: the fuel of the tokenizer and of the parser is
  -- enough.
  pub eval-Ends : (s : Str) → Ends (eval G c s)
  unfolding eval
  eval-Ends s =
      let (toks, e) = tokenize-some s in
      rw (e, eval) (eval_tokens-Ends (toks ++ token tok_eof [] ∷ []))

  truthy_after : {r : Result (Value F)} → Ends r → Ends (r >>= λ v. ok (is_truthy G v))
  truthy_after returned = returned
  truthy_after raised = raised

  -- EvalBool returns a truth value or an error on every text.
  pub eval_bool-Ends : (s : Str) → Ends (eval_bool G c s)
  unfolding eval_bool
  eval_bool-Ends s = truthy_after (eval-Ends (strip_wrapper (trim_space s)))
