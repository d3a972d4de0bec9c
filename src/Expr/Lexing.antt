-- ===== src/Expr/Lexing.antt =====
-- The tokenizer of internal/runner/eval.go ends on every text.
use ghenkins.Prelude.{
  ℕ, zero, suc, ◌≤◌, ◌≡◌, refl, Bool, Option, none, some, List, [], ◌∷◌, ◌++◌, arith, length,
}
use ghenkins.Prelude.Text.{Str}
use ghenkins.Expr.Token.{
  Token, token, tok_eof, drop_while, rest_of, punctuation, word_or_skip, scan, put, put_result,
  not_quote, number_byte, is_ident_cont, tokenize_loop, tokenize,
}

length-drop_while-le : (p : ℕ → Bool) (s : Str) → length (drop_while p s) ≤ length s
unfolding drop_while
length-drop_while-le p [] = omega arith
length-drop_while-le p (c ∷ s) = ground (arith, length-drop_while-le p s)

length-rest_of-le : (s : Str) → length (rest_of s) ≤ length s
length-rest_of-le [] = omega arith
length-rest_of-le (c ∷ s) = omega arith

punctuation-le : (c : ℕ) (s : Str) → length (punctuation c s).1 ≤ length s
unfolding punctuation word_or_skip
punctuation-le c s = ground (arith, length-rest_of-le s, length-drop_while-le is_ident_cont s)

scan-le : (c : ℕ) (s : Str) → length (scan c s).1 ≤ length s
unfolding scan
scan-le c s = ground (
  arith,
  punctuation-le c s,
  length-drop_while-le not_quote s,
  length-rest_of-le (drop_while not_quote s),
  length-drop_while-le number_byte s,
)

abbrev eof : Token
eof = token tok_eof []

tokenize_loop-some :
    (f : ℕ) (s : Str)
    → length s ≤ f
    → (toks : List Token) × (tokenize_loop f s ≡ some (toks ++ eof ∷ []))
unfolding tokenize_loop
tokenize_loop-some f [] h = ([], refl)
tokenize_loop-some zero (c ∷ s) h = absurd (omega arith)
tokenize_loop-some (suc f) (c ∷ s) h =
    let r = tokenize_loop-some f (scan c s).1 (omega (arith, scan-le c s)) in
    (put (scan c s).0 r.0, put_cases (scan c s).0 r.0 r.1)
  where
    put_cases :
        (t : Option Token) (toks : List Token)
        → {o : Option (List Token)} → o ≡ some (toks ++ eof ∷ [])
        → put_result t o ≡ some (put t toks ++ eof ∷ [])
    put_cases none toks e = rw e
    put_cases (some t) toks e = rw e

-- Every text has tokens, and tokEOF stands last.
pub tokenize-some :
    (s : Str) → (toks : List Token) × (tokenize s ≡ some (toks ++ token tok_eof [] ∷ []))
unfolding tokenize
tokenize-some s = tokenize_loop-some (length s) s (omega arith)
