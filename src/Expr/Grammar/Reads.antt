-- ===== src/Expr/Grammar/Reads.antt =====
-- The parser of internal/runner/eval.go reads the tokens of a tree as the tree, with its value.
use ghenkins.Prelude.{
  ℕ, zero, suc, ◌+◌, ◌*◌, ◌<◌, ◌≡◌, refl, ◌∙◌, Bool, true, false, List, [], ◌∷◌, ◌++◌, append_assoc,
  append-nil, arith, length-append, ◌==◌, if◌then◌else◌, length,
}
use ghenkins.Prelude.Text.{Str, lit, str_eq}
use ghenkins.Expr.Value.{Value, bool, GoLib, ok, ◌>>=◌}
use ghenkins.Expr.Context.{EvalContext}
use ghenkins.Expr.Token.{tok_rparen}
use ghenkins.Expr.Parser.{
  Tokens, path_loop, parse_or, or_loop, parse_and, and_loop, parse_not, parse_comparison,
  comparison_tail, parse_primary, parse_ident_or_call, args_loop, parse_number, Parsed,
}
use ghenkins.Expr.Grammar.{
  mark, operator, Link, dot, index, link_part, link_parts, Or, or, OrRest, or_end, or_more, And,
  and, AndRest, and_end, and_more, Not, negation, plain, compared, Primary, group, string, number,
  boolean, null, path, call, Args, no_args, args, ArgRest, args_end, args_more, links_tokens,
  or_tokens, or_rest_tokens, and_tokens, and_rest_tokens, not_tokens, primary_tokens, args_tokens,
  arg_rest_tokens, or_value, or_rest_value, and_value, and_rest_value, not_value, primary_value,
  args_values, arg_rest_values,
}
use ghenkins.Expr.Grammar.Lengths.{or-lt, and-lt, not-lt, primary-lt}
use ghenkins.Expr.Grammar.Follow.{
  FollowsPrimary, FollowsNot, FollowsAnd, FollowsOr, or_rest-FollowsAnd, and_rest-FollowsNot,
  operator-FollowsPrimary, operator-next_comparison, rparen-FollowsOr, arg_rest-FollowsOr,
  bind_beside, bind_last, primary-no_not, or-Starts, links-no_lparen,
}

path_loop-reads :
    (ls : List Link) (f : ℕ) (parts : List Str) (rest : Tokens)
    → FollowsPrimary rest
    → 8 * length (links_tokens ls rest) < f
    → path_loop f parts (links_tokens ls rest) ≡ ok (parts ++ link_parts ls, rest)
unfolding path_loop links_tokens
path_loop-reads ls zero parts rest w h = absurd (omega arith)
path_loop-reads [] (suc f) parts rest w h =
    ground (arith, w.no_dot, w.no_lbracket, append-nil parts)
path_loop-reads (dot n ∷ ls) (suc f) parts rest w h =
    path_loop-reads ls f (parts ++ n ∷ []) rest w (omega arith)
    ∙ ground (arith, append_assoc parts (n ∷ []) (link_parts ls))
path_loop-reads (index n ∷ ls) (suc f) parts rest w h =
    path_loop-reads ls f (parts ++ link_part (index n) ∷ []) rest w (omega arith)
    ∙ ground (arith, append_assoc parts (link_part (index n) ∷ []) (link_parts ls))

module _ (G : GoLib) (c : EvalContext (G.F)) where
  number_reads :
      (s : Str) (rest : Tokens)
      → parse_number G c s rest ≡ (primary_value G c (number s) >>= λ v. ok (v, rest))
  unfolding primary_value
  number_reads s rest = ground arith

  boolean_reads :
      (b : Bool) (rest : Tokens)
      → ◌≡◌ {A = Parsed G c}
          (ok (bool (str_eq (if b then lit "true" else lit "false") (lit "true")), rest))
          (primary_value G c (boolean b) >>= λ v. ok (v, rest))
  unfolding primary_value str_eq lit
  boolean_reads true rest = refl
  boolean_reads false rest = refl

  mutual
    unfolding parse_or or_loop parse_and and_loop parse_not parse_comparison comparison_tail
        parse_primary parse_ident_or_call args_loop or_tokens or_rest_tokens and_tokens
        and_rest_tokens not_tokens primary_tokens args_tokens arg_rest_tokens or_value or_rest_value
        and_value and_rest_value not_value primary_value args_values arg_rest_values

    pub or-reads :
        (e : Or) (f : ℕ) (rest : Tokens)
        → FollowsOr rest
        → 8 * length (or_tokens e rest) + 6 < f
        → parse_or G c f (or_tokens e rest) ≡ (or_value G c e >>= λ v. ok (v, rest))
    or-reads e zero rest w h = absurd (omega arith)
    or-reads (or a more) (suc f) rest w h =
        rw (and-reads a f (or_rest_tokens more rest) (or_rest-FollowsAnd more rest w) (omega arith))
          (bind_beside (and_value G c a) _ _ _
            λ v. or_loop-reads more f v rest w (omega (arith, and-lt a (or_rest_tokens more rest))))

    or_loop-reads :
        (more : OrRest) (f : ℕ) (v : Value (G.F)) (rest : Tokens)
        → FollowsOr rest
        → 8 * length (or_rest_tokens more rest) < f
        → or_loop G c f v (or_rest_tokens more rest)
          ≡ (or_rest_value G c v more >>= λ w. ok (w, rest))
    or_loop-reads more zero v rest w h = absurd (omega arith)
    or_loop-reads or_end (suc f) v rest w h = rw (w.no_or)
    or_loop-reads (or_more a more) (suc f) v rest w h =
        rw (and-reads a f (or_rest_tokens more rest) (or_rest-FollowsAnd more rest w) (omega arith))
          (bind_beside (and_value G c a) _ _ _
            λ u. or_loop-reads more f _ rest w (omega (arith, and-lt a (or_rest_tokens more rest))))

    and-reads :
        (e : And) (f : ℕ) (rest : Tokens)
        → FollowsAnd rest
        → 8 * length (and_tokens e rest) + 5 < f
        → parse_and G c f (and_tokens e rest) ≡ (and_value G c e >>= λ v. ok (v, rest))
    and-reads e zero rest w h = absurd (omega arith)
    and-reads (and n more) (suc f) rest w h =
        rw
          (not-reads n f (and_rest_tokens more rest) (and_rest-FollowsNot more rest w)
            (omega arith))
          (bind_beside (not_value G c n) _ _ _ λ v.
            and_loop-reads more f v rest w (omega (arith, not-lt n (and_rest_tokens more rest))))

    and_loop-reads :
        (more : AndRest) (f : ℕ) (v : Value (G.F)) (rest : Tokens)
        → FollowsAnd rest
        → 8 * length (and_rest_tokens more rest) < f
        → and_loop G c f v (and_rest_tokens more rest)
          ≡ (and_rest_value G c v more >>= λ w. ok (w, rest))
    and_loop-reads more zero v rest w h = absurd (omega arith)
    and_loop-reads and_end (suc f) v rest w h = rw (w.no_and)
    and_loop-reads (and_more n more) (suc f) v rest w h =
        rw
          (not-reads n f (and_rest_tokens more rest) (and_rest-FollowsNot more rest w)
            (omega arith))
          (bind_beside (not_value G c n) _ _ _ λ u.
            and_loop-reads more f _ rest w (omega (arith, not-lt n (and_rest_tokens more rest))))

    not-reads :
        (e : Not) (f : ℕ) (rest : Tokens)
        → FollowsNot rest
        → 8 * length (not_tokens e rest) + 4 < f
        → parse_not G c f (not_tokens e rest) ≡ (not_value G c e >>= λ v. ok (v, rest))
    not-reads e zero rest w h = absurd (omega arith)
    not-reads e (suc zero) rest w h = absurd (omega arith)
    not-reads e (suc (suc zero)) rest w h = absurd (omega arith)
    not-reads (negation n) (suc (suc (suc f))) rest w h =
        rw (not-reads n (suc (suc f)) rest w (omega arith))
          (bind_beside (not_value G c n) _ _ _ λ v. refl)
    not-reads (plain p) (suc (suc (suc f))) rest w h =
        rw (primary-no_not p rest, primary-reads p (suc f) rest w.primary (omega arith))
          (bind_last (primary_value G c p) _ _ λ v. rw w.no_comparison)
    not-reads (compared p op q) (suc (suc (suc f))) rest w h =
        rw
          (
            primary-no_not p (mark (operator op) ∷ primary_tokens q rest),
            primary-reads p (suc f) (mark (operator op) ∷ primary_tokens q rest)
                (operator-FollowsPrimary op (primary_tokens q rest)) (omega arith),
          )
          (bind_beside (primary_value G c p) _ _ _ λ v.
            rw
              (
                operator-next_comparison op (primary_tokens q rest),
                primary-reads q f rest w.primary
                    (omega (arith, primary-lt p (mark (operator op) ∷ primary_tokens q rest))),
              )
              (bind_beside (primary_value G c q) _ _ _ λ u. refl))

    primary-reads :
        (e : Primary) (f : ℕ) (rest : Tokens)
        → FollowsPrimary rest
        → 8 * length (primary_tokens e rest) + 2 < f
        → parse_primary G c f (primary_tokens e rest) ≡ (primary_value G c e >>= λ v. ok (v, rest))
    primary-reads e zero rest w h = absurd (omega arith)
    primary-reads e (suc zero) rest w h = absurd (omega arith)
    primary-reads (group e) (suc (suc f)) rest w h =
        rw (or-reads e (suc f) (mark tok_rparen ∷ rest) (rparen-FollowsOr rest) (omega arith))
          (bind_last (or_value G c e) _ _ λ v. refl)
    primary-reads (string s) (suc (suc f)) rest w h = refl
    primary-reads (number s) (suc (suc f)) rest w h = number_reads s rest
    primary-reads (boolean b) (suc (suc f)) rest w h = boolean_reads b rest
    primary-reads null (suc (suc f)) rest w h = refl
    primary-reads (path n ls) (suc (suc f)) rest w h =
        rw (links-no_lparen ls rest w, path_loop-reads ls f (n ∷ []) rest w (omega arith))
    primary-reads (call n xs) (suc (suc f)) rest w h =
        rw (args-reads xs f rest (omega arith)) (bind_beside (args_values G c xs) _ _ _ λ vs. refl)

    args-reads :
        (e : Args) (f : ℕ) (rest : Tokens)
        → 8 * length (args_tokens e (mark tok_rparen ∷ rest)) + 7 < f
        → args_loop G c f [] (args_tokens e (mark tok_rparen ∷ rest))
          ≡ (args_values G c e >>= λ vs. ok (vs, mark tok_rparen ∷ rest))
    args-reads e zero rest h = absurd (omega arith)
    args-reads no_args (suc f) rest h = refl
    args-reads (args e more) (suc f) rest h =
        rw
          (
            or-Starts e (arg_rest_tokens more (mark tok_rparen ∷ rest)),
            or-reads e f (arg_rest_tokens more (mark tok_rparen ∷ rest))
                (arg_rest-FollowsOr more rest) (omega arith),
          )
          (bind_beside (or_value G c e) _ _ _ λ v.
            arg_rest-reads more f (v ∷ []) rest (omega arith)
              (omega (arith, or-lt e (arg_rest_tokens more (mark tok_rparen ∷ rest)))))

    arg_rest-reads :
        (e : ArgRest) (f : ℕ) (vs : List (Value (G.F))) (rest : Tokens)
        → 0 < length vs
        → 8 * length (arg_rest_tokens e (mark tok_rparen ∷ rest)) + 7 < f
        → args_loop G c f vs (arg_rest_tokens e (mark tok_rparen ∷ rest))
          ≡ (arg_rest_values G c vs e >>= λ ws. ok (ws, mark tok_rparen ∷ rest))
    arg_rest-reads e zero vs rest l h = absurd (omega arith)
    arg_rest-reads args_end (suc f) vs rest l h = refl
    arg_rest-reads (args_more e more) (suc f) vs rest l h =
        let some_args : (length vs == 0) ≡ false = ground arith in
        rw
          (
            some_args,
            or-reads e f (arg_rest_tokens more (mark tok_rparen ∷ rest))
                (arg_rest-FollowsOr more rest) (omega arith),
          )
          (bind_beside (or_value G c e) _ _ _ λ v.
            arg_rest-reads more f (vs ++ v ∷ []) rest (omega (arith, length-append {0} vs (v ∷ [])))
              (omega (arith, or-lt e (arg_rest_tokens more (mark tok_rparen ∷ rest)))))
