-- ===== src/Expr/Grammar/Spelling.antt =====
-- Texts for tokens, and how the tokenizer of internal/runner/eval.go reads them back.
use ghenkins.Prelude.{
  ℕ, zero, suc, ◌+◌, ◌≤◌, ◌≡◌, refl, sym, ap, subst, ◌∙◌, ◌⊎◌, inl, inr, Bool, true, false, ◌||◌,
  ◌&&◌, Option, none, some, [], ◌∷◌, ◌++◌, arith, ◌==◌, length, length-append, All, append_assoc,
}
use ghenkins.Prelude.Text.{Str, lit, str_eq}
use ghenkins.Prelude.Decimal.{is_digit}
use ghenkins.Expr.Token.{
  TokType, token, tok_string, tok_number, tok_bool, tok_null, tok_ident, tok_lparen, tok_rparen,
  tok_comma, tok_dot, tok_lbracket, tok_rbracket, tok_eq, tok_neq, tok_lt, tok_lte, tok_gt, tok_gte,
  tok_and, tok_or, tok_not, tok_eof, is_ident_start, is_ident_cont, number_byte, not_quote, next_is,
  take_while, drop_while, word_token, word_or_skip, punctuation, scan, put_result, tokenize_loop,
  tokenize,
}
use ghenkins.Expr.Parser.{Tokens}
use ghenkins.Expr.Grammar.{typ_text}

abbrev pub quote : ℕ
quote = b'\''

abbrev pub space : ℕ
space = 32

-- A string stands between quotes, any other token as its text.
abbrev pub spell_token : TokType → Str → Str
spell_token tok_string v = quote ∷ v ++ quote ∷ []
spell_token _ v = v

-- Each token is followed by a space.
unfoldable pub spell : Tokens → Str
spell [] = []
spell (t ∷ ts) = spell_token t.typ t.val ++ space ∷ spell ts

abbrev pub IsNumberText : Str → Type 0
IsNumberText [] = ⊥
IsNumberText (x ∷ v) =
    ((is_digit x || ((x == b'-') && next_is is_digit v)) ≡ true) × All (λ y. number_byte y ≡ true) v

abbrev pub IsIdentText : Str → Type 0
IsIdentText [] = ⊥
IsIdentText (x ∷ v) =
    (is_ident_start x ≡ true)
    × All (λ y. is_ident_cont y ≡ true) v
    × (word_token (x ∷ v) ≡ token tok_ident (x ∷ v))

-- The texts that the tokenizer gives to tokens of a type, tokEOF apart.
abbrev pub IsLexeme : TokType → Str → Type 0
IsLexeme tok_string v = All (λ y. not_quote y ≡ true) v
IsLexeme tok_number v = IsNumberText v
IsLexeme tok_ident v = IsIdentText v
IsLexeme tok_bool v = (v ≡ lit "true") ⊎ (v ≡ lit "false")
IsLexeme tok_null v = v ≡ lit "null"
IsLexeme tok_eof v = ⊥
IsLexeme typ v = v ≡ typ_text typ

abbrev pub AreLexemes : Tokens → Type 0
AreLexemes = All λ t. IsLexeme t.typ t.val

-- A run of bytes of a class in front of a byte outside it.
take_while_run :
    (p : ℕ → Bool) (v : Str) (y : ℕ) (s : Str)
    → All (λ x. p x ≡ true) v
    → p y ≡ false
    → (take_while p (v ++ y ∷ s) ≡ v) × (drop_while p (v ++ y ∷ s) ≡ y ∷ s)
unfolding take_while drop_while
take_while_run p [] y s a h = (ground arith, ground arith)
take_while_run p (x ∷ v) y s a h =
    let r = take_while_run p v y s a.1 h in (ground (arith, r.0), ground (arith, r.1))

-- The first round of the tokenizer on `text` gives the token and leaves the space and `s`.
abbrev IsFirst : TokType → Str → Str → Str → Type 0
IsFirst typ v s [] = ⊥
IsFirst typ v s (x ∷ text) = scan x text ≡ (some (token typ v), space ∷ s)

scan-string :
    (v s : Str)
    → IsLexeme tok_string v
    → IsFirst tok_string v s ((quote ∷ v ++ quote ∷ []) ++ space ∷ s)
unfolding scan
scan-string v s h =
    let r = take_while_run not_quote v quote (space ∷ s) h refl in
    rw append_assoc (ground (arith, r.0, r.1))

next_is-append : (v s : Str) → next_is is_digit v ≡ true → next_is is_digit (v ++ s) ≡ true
next_is-append [] s h = cc
next_is-append (x ∷ v) s h = h

scan-number : (v s : Str) → IsNumberText v → IsFirst tok_number v s (v ++ space ∷ s)
unfolding scan
scan-number [] s h = absurd h
scan-number (x ∷ v) s h =
    let r = take_while_run number_byte v space s h.1 refl in
    ground (arith, r.0, r.1, next_is-append v (space ∷ s))

scan-ident : (v s : Str) → IsIdentText v → IsFirst tok_ident v s (v ++ space ∷ s)
unfolding scan punctuation word_or_skip is_ident_start
scan-ident [] s h = absurd h
scan-ident (x ∷ v) s h =
    let r = take_while_run is_ident_cont v space s h.1 refl in ground (arith, r.0, r.1, h.0, h.2)

-- A token of one text only.
scan-fixed :
    (typ : TokType) (v w s : Str)
    → v ≡ w
    → IsFirst typ w s (w ++ space ∷ s)
    → IsFirst typ v s (v ++ space ∷ s)
scan-fixed typ v w s e h = subst (λ u. IsFirst typ u s (u ++ space ∷ s)) (sym e) h

scan-lexeme :
    (typ : TokType) (v s : Str) → IsLexeme typ v → IsFirst typ v s (spell_token typ v ++ space ∷ s)
unfolding scan typ_text lit word_token str_eq
scan-lexeme tok_string v s h = scan-string v s h
scan-lexeme tok_number v s h = scan-number v s h
scan-lexeme tok_ident v s h = scan-ident v s h
scan-lexeme tok_bool v s (inl h) = scan-fixed tok_bool v (lit "true") s h refl
scan-lexeme tok_bool v s (inr h) = scan-fixed tok_bool v (lit "false") s h refl
scan-lexeme tok_null v s h = scan-fixed tok_null v (lit "null") s h refl
scan-lexeme tok_eof v s h = absurd h
scan-lexeme tok_lparen v s h = scan-fixed tok_lparen v _ s h refl
scan-lexeme tok_rparen v s h = scan-fixed tok_rparen v _ s h refl
scan-lexeme tok_comma v s h = scan-fixed tok_comma v _ s h refl
scan-lexeme tok_dot v s h = scan-fixed tok_dot v _ s h refl
scan-lexeme tok_lbracket v s h = scan-fixed tok_lbracket v _ s h refl
scan-lexeme tok_rbracket v s h = scan-fixed tok_rbracket v _ s h refl
scan-lexeme tok_eq v s h = scan-fixed tok_eq v _ s h refl
scan-lexeme tok_neq v s h = scan-fixed tok_neq v _ s h refl
scan-lexeme tok_lt v s h = scan-fixed tok_lt v _ s h refl
scan-lexeme tok_lte v s h = scan-fixed tok_lte v _ s h refl
scan-lexeme tok_gt v s h = scan-fixed tok_gt v _ s h refl
scan-lexeme tok_gte v s h = scan-fixed tok_gte v _ s h refl
scan-lexeme tok_and v s h = scan-fixed tok_and v _ s h refl
scan-lexeme tok_or v s h = scan-fixed tok_or v _ s h refl
scan-lexeme tok_not v s h = scan-fixed tok_not v _ s h refl

put_none : (o : Option Tokens) → put_result none o ≡ o
put_none none = refl
put_none (some toks) = refl

-- Two rounds: the token, and the space behind it.
loop_first :
    (typ : TokType) (v s text : Str) (f : ℕ)
    → IsFirst typ v s text
    → length s + 2 ≤ f
    → (f' : ℕ) × (length s ≤ f')
      × (tokenize_loop f text ≡ put_result (some (token typ v)) (tokenize_loop f' s))
unfolding tokenize_loop
loop_first typ v s [] f h l = absurd h
loop_first typ v s (x ∷ text) zero h l = absurd (omega arith)
loop_first typ v s (x ∷ text) (suc zero) h l = absurd (omega arith)
loop_first typ v s (x ∷ text) (suc (suc f)) h l =
    (f, omega arith, rw h (ap (put_result (some (token typ v))) (put_none (tokenize_loop f s))))

nonempty : (v w : Str) → v ≡ w → 1 ≤ length w → 1 ≤ length v
nonempty v w e h = rw e h

-- A lexeme is spelled with a byte at least.
spell_token-nonempty : (typ : TokType) (v : Str) → IsLexeme typ v → 1 ≤ length (spell_token typ v)
unfolding typ_text lit
spell_token-nonempty tok_string v h = omega arith
spell_token-nonempty tok_number [] h = absurd h
spell_token-nonempty tok_number (x ∷ v) h = omega arith
spell_token-nonempty tok_ident [] h = absurd h
spell_token-nonempty tok_ident (x ∷ v) h = omega arith
spell_token-nonempty tok_bool v (inl h) = nonempty v _ h (omega arith)
spell_token-nonempty tok_bool v (inr h) = nonempty v _ h (omega arith)
spell_token-nonempty tok_null v h = nonempty v _ h (omega arith)
spell_token-nonempty tok_eof v h = absurd h
spell_token-nonempty tok_lparen v h = nonempty v _ h (omega arith)
spell_token-nonempty tok_rparen v h = nonempty v _ h (omega arith)
spell_token-nonempty tok_comma v h = nonempty v _ h (omega arith)
spell_token-nonempty tok_dot v h = nonempty v _ h (omega arith)
spell_token-nonempty tok_lbracket v h = nonempty v _ h (omega arith)
spell_token-nonempty tok_rbracket v h = nonempty v _ h (omega arith)
spell_token-nonempty tok_eq v h = nonempty v _ h (omega arith)
spell_token-nonempty tok_neq v h = nonempty v _ h (omega arith)
spell_token-nonempty tok_lt v h = nonempty v _ h (omega arith)
spell_token-nonempty tok_lte v h = nonempty v _ h (omega arith)
spell_token-nonempty tok_gt v h = nonempty v _ h (omega arith)
spell_token-nonempty tok_gte v h = nonempty v _ h (omega arith)
spell_token-nonempty tok_and v h = nonempty v _ h (omega arith)
spell_token-nonempty tok_or v h = nonempty v _ h (omega arith)
spell_token-nonempty tok_not v h = nonempty v _ h (omega arith)

length-spell_token :
    (typ : TokType) (v s : Str)
    → IsLexeme typ v
    → length s + 2 ≤ length (spell_token typ v ++ space ∷ s)
length-spell_token typ v s h =
    omega (arith, length-append (spell_token typ v) (space ∷ s), spell_token-nonempty typ v h)

tokenize_loop-spell :
    (ts : Tokens) (f : ℕ)
    → AreLexemes ts
    → length (spell ts) ≤ f
    → tokenize_loop f (spell ts) ≡ some (ts ++ token tok_eof [] ∷ [])
unfolding spell tokenize_loop
tokenize_loop-spell [] f h l = refl
tokenize_loop-spell (t ∷ ts) f h l =
    let first = scan-lexeme t.typ t.val (spell ts) h.0 in
    let r =
      loop_first t.typ t.val (spell ts) _ f first
        (omega (arith, length-spell_token t.typ t.val (spell ts) h.0)) in
    r.2 ∙ rw (tokenize_loop-spell ts r.0 h.1 r.1)

-- The tokenizer reads lexemes back from their texts, each followed by a space, and adds tokEOF.
pub tokenize-spell :
    (ts : Tokens) → AreLexemes ts → tokenize (spell ts) ≡ some (ts ++ token tok_eof [] ∷ [])
unfolding tokenize
tokenize-spell ts h = tokenize_loop-spell ts (length (spell ts)) h (omega arith)
