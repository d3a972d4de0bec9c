-- ===== src/Expr/Grammar/Follow.antt =====
-- Which tokens may stand behind a tree of each level without being taken into it.
use ghenkins.Prelude.{◌≡◌, refl, ◌||◌, true, false, List, [], ◌∷◌}
use ghenkins.Expr.Value.{Result, ok, err, out_of_fuel, ◌>>=◌}
use ghenkins.Expr.Token.{
  tok_lparen, tok_rparen, tok_dot, tok_lbracket, tok_and, tok_or, tok_not, tok_eof, token,
}
use ghenkins.Expr.Parser.{Tokens, next_typ, next_comparison}
use ghenkins.Expr.Grammar.{
  mark, operator, Comparison, eq, OrRest, or_end, or_more, AndRest, and_end, and_more, ArgRest,
  args_end, args_more, or_rest_tokens, and_rest_tokens, arg_rest_tokens, primary_tokens, Primary,
  group, Or, or, and, Not, negation, plain, compared, or_tokens, and_tokens, not_tokens, Link, dot,
  index, links_tokens,
}

pub record FollowsPrimary (ts : Tokens) : Type 0 where
  pub no_dot : next_typ tok_dot ts ≡ false
  pub no_lbracket : next_typ tok_lbracket ts ≡ false
  pub no_lparen : next_typ tok_lparen ts ≡ false

pub record FollowsNot (ts : Tokens) : Type 0 where
  pub primary : FollowsPrimary ts
  pub no_comparison : next_comparison ts ≡ false

pub record FollowsAnd (ts : Tokens) : Type 0 where
  pub operand : FollowsNot ts
  pub no_and : next_typ tok_and ts ≡ false

-- What may stand behind a whole expression.
pub record FollowsOr (ts : Tokens) : Type 0 where
  pub operand : FollowsAnd ts
  pub no_or : next_typ tok_or ts ≡ false

abbrev pub not_follow : {ts : Tokens} → FollowsOr ts → FollowsNot ts
not_follow f = f.operand.operand

pub or_rest-FollowsAnd :
    (more : OrRest) (rest : Tokens) → FollowsOr rest → FollowsAnd (or_rest_tokens more rest)
unfolding or_rest_tokens next_typ next_comparison
or_rest-FollowsAnd or_end rest f = f.operand
or_rest-FollowsAnd (or_more a more) rest f = record {
  operand = record {
    primary = record { no_dot = refl; no_lbracket = refl; no_lparen = refl };
    no_comparison = refl;
  };
  no_and = refl;
}

pub and_rest-FollowsNot :
    (more : AndRest) (rest : Tokens) → FollowsAnd rest → FollowsNot (and_rest_tokens more rest)
unfolding and_rest_tokens next_typ next_comparison
and_rest-FollowsNot and_end rest f = f.operand
and_rest-FollowsNot (and_more a more) rest f = record {
  primary = record { no_dot = refl; no_lbracket = refl; no_lparen = refl };
  no_comparison = refl;
}

pub operator-FollowsPrimary :
    (op : Comparison) (ts : Tokens) → FollowsPrimary (mark (operator op) ∷ ts)
unfolding next_typ
operator-FollowsPrimary eq ts = record { no_dot = refl; no_lbracket = refl; no_lparen = refl }
operator-FollowsPrimary _ ts = record { no_dot = refl; no_lbracket = refl; no_lparen = refl }

pub operator-next_comparison :
    (op : Comparison) (ts : Tokens) → next_comparison (mark (operator op) ∷ ts) ≡ true
unfolding next_comparison
operator-next_comparison eq ts = refl
operator-next_comparison _ ts = refl

pub rparen-FollowsOr : (ts : Tokens) → FollowsOr (mark tok_rparen ∷ ts)
unfolding next_typ next_comparison
rparen-FollowsOr ts = record {
  operand = record {
    operand = record {
      primary = record { no_dot = refl; no_lbracket = refl; no_lparen = refl };
      no_comparison = refl;
    };
    no_and = refl;
  };
  no_or = refl;
}

pub eof-FollowsOr : FollowsOr (token tok_eof [] ∷ [])
unfolding next_typ next_comparison
eof-FollowsOr = record {
  operand = record {
    operand = record {
      primary = record { no_dot = refl; no_lbracket = refl; no_lparen = refl };
      no_comparison = refl;
    };
    no_and = refl;
  };
  no_or = refl;
}

pub arg_rest-FollowsOr :
    (more : ArgRest) (ts : Tokens) → FollowsOr (arg_rest_tokens more (mark tok_rparen ∷ ts))
unfolding arg_rest_tokens next_typ next_comparison
arg_rest-FollowsOr args_end ts = rparen-FollowsOr ts
arg_rest-FollowsOr (args_more e more) ts = record {
  operand = record {
    operand = record {
      primary = record { no_dot = refl; no_lbracket = refl; no_lparen = refl };
      no_comparison = refl;
    };
    no_and = refl;
  };
  no_or = refl;
}

-- A result carried through a bind, with the tokens that are left at its side.
pub bind_beside :
    {A B C : Type 0} {R : Tokens} (m : Result A) (k : A × Tokens → Result C) (g : A → Result B)
    (h : B → Result C)
    → ((a : A) → k (a, R) ≡ (g a >>= h))
    → ((m >>= λ a. ok (a, R)) >>= k) ≡ ((m >>= g) >>= h)
bind_beside (ok a) k g h e = e a
bind_beside (err x) k g h e = refl
bind_beside out_of_fuel k g h e = refl

pub bind_last :
    {A C : Type 0} {R : Tokens} (m : Result A) (k : A × Tokens → Result C) (h : A → Result C)
    → ((a : A) → k (a, R) ≡ h a)
    → ((m >>= λ a. ok (a, R)) >>= k) ≡ (m >>= h)
bind_last (ok a) k h e = e a
bind_last (err x) k h e = refl
bind_last out_of_fuel k h e = refl

pub primary-no_not :
    (p : Primary) (rest : Tokens) → next_typ tok_not (primary_tokens p rest) ≡ false
unfolding next_typ primary_tokens
primary-no_not (group e) rest = refl
primary-no_not _ rest = refl

-- The tokens do not begin with the end of an argument list.
abbrev pub Starts : Tokens → Type 0
Starts ts = (next_typ tok_rparen ts || next_typ tok_eof ts) ≡ false

primary-Starts : (p : Primary) (rest : Tokens) → Starts (primary_tokens p rest)
unfolding next_typ primary_tokens
primary-Starts (group e) rest = refl
primary-Starts _ rest = refl

not-Starts : (n : Not) (rest : Tokens) → Starts (not_tokens n rest)
unfolding next_typ not_tokens
not-Starts (negation n) rest = refl
not-Starts (plain p) rest = primary-Starts p rest
not-Starts (compared p op q) rest = primary-Starts p _

pub or-Starts : (e : Or) (rest : Tokens) → Starts (or_tokens e rest)
unfolding or_tokens and_tokens
or-Starts (or (and n ns) more) rest = not-Starts n _

pub links-no_lparen :
    (ls : List Link) (rest : Tokens)
    → FollowsPrimary rest
    → next_typ tok_lparen (links_tokens ls rest) ≡ false
unfolding next_typ links_tokens
links-no_lparen [] rest w = w.no_lparen
links-no_lparen (dot n ∷ ls) rest w = refl
links-no_lparen (index n ∷ ls) rest w = refl
