-- ===== src/Expr/Token.antt =====
-- The tokenizer of internal/runner/eval.go, over the bytes of the text.
use ghenkins.Prelude.{
  ℕ, zero, suc, Bool, false, not, ◌&&◌, ◌||◌, Option, none, some, List, [], ◌∷◌, leb, ◌==◌,
  if◌then◌else◌, length,
}
use ghenkins.Prelude.Text.{Str, lit, str_eq}
use ghenkins.Prelude.Decimal.{is_digit}

pub data TokType : Type 0 where
  tok_string tok_number tok_bool tok_null tok_ident : TokType
  tok_lparen tok_rparen tok_comma tok_dot tok_lbracket tok_rbracket : TokType
  tok_eq tok_neq tok_lt tok_lte tok_gt tok_gte : TokType
  tok_and tok_or tok_not tok_eof : TokType

pub record Token : Type 0 where
  pub typ : TokType
  pub val : Str

abbrev pub token : TokType → Str → Token
token t v = record { typ = t; val = v }

unfoldable pub is_ident_start : ℕ → Bool
is_ident_start c = (leb b'a' c && leb c b'z') || ((leb b'A' c && leb c b'Z') || (c == b'_'))

unfoldable pub is_ident_cont : ℕ → Bool
unfolding is_ident_start is_digit
is_ident_cont c = is_ident_start c || (is_digit c || (c == b'-'))

-- s[i:j] for the loop that moves j while `p` holds, and s[j:].
unfoldable pub take_while : (ℕ → Bool) → Str → Str
take_while p [] = []
take_while p (c ∷ s) = if p c then c ∷ take_while p s else []

unfoldable pub drop_while : (ℕ → Bool) → Str → Str
drop_while p [] = []
drop_while p (c ∷ s) = if p c then drop_while p s else c ∷ s

abbrev pub not_quote : ℕ → Bool
not_quote c = not (c == b'\'')

unfoldable pub number_byte : ℕ → Bool
unfolding is_digit
number_byte c = is_digit c || (c == b'.')

abbrev pub rest_of : Str → Str
rest_of [] = []
rest_of (c ∷ s) = s

-- i+1 < len(s) && s[i+1] satisfies `p`, on what follows s[i].
abbrev pub next_is : (ℕ → Bool) → Str → Bool
next_is p [] = false
next_is p (c ∷ s) = p c

-- The inner switch on a word.
unfoldable pub word_token : Str → Token
word_token w =
    if str_eq w (lit "true")
    then token tok_bool (lit "true")
    else if str_eq w (lit "false")
    then token tok_bool (lit "false")
    else if str_eq w (lit "null")
    then token tok_null (lit "null")
    else token tok_ident w

-- ' ', '\t', '\n', '\r'
unfoldable pub is_blank : ℕ → Bool
is_blank c = (c == 32) || ((c == 9) || ((c == 10) || (c == 13)))

-- The last two cases.
unfoldable pub word_or_skip : ℕ → Str → Option Token × Str
unfolding take_while drop_while is_ident_start is_ident_cont word_token
word_or_skip c s =
    if is_ident_start c
    then (some (word_token (c ∷ take_while is_ident_cont s)), drop_while is_ident_cont s)
    else (none, s)

-- One round of the loop at the byte `c` in front of `s`: the token to append, if any, and the text
-- that is left. From the cases of the punctuation on:
unfoldable pub punctuation : ℕ → Str → Option Token × Str
unfolding word_or_skip
punctuation c s =
    if c == b'('
    then (some (token tok_lparen (lit "(")), s)
    else if c == b')'
    then (some (token tok_rparen (lit ")")), s)
    else if c == b','
    then (some (token tok_comma (lit ",")), s)
    else if c == b'.'
    then (some (token tok_dot (lit ".")), s)
    else if c == b'['
    then (some (token tok_lbracket (lit "[")), s)
    else if c == b']'
    then (some (token tok_rbracket (lit "]")), s)
    else if (c == b'=') && next_is (λ d. d == b'=') s
    then (some (token tok_eq (lit "==")), rest_of s)
    else if (c == b'!') && next_is (λ d. d == b'=') s
    then (some (token tok_neq (lit "!=")), rest_of s)
    else if (c == b'<') && next_is (λ d. d == b'=') s
    then (some (token tok_lte (lit "<=")), rest_of s)
    else if c == b'<'
    then (some (token tok_lt (lit "<")), s)
    else if (c == b'>') && next_is (λ d. d == b'=') s
    then (some (token tok_gte (lit ">=")), rest_of s)
    else if c == b'>'
    then (some (token tok_gt (lit ">")), s)
    else if (c == b'&') && next_is (λ d. d == b'&') s
    then (some (token tok_and (lit "&&")), rest_of s)
    else if (c == b'|') && next_is (λ d. d == b'|') s
    then (some (token tok_or (lit "||")), rest_of s)
    else if c == b'!'
    then (some (token tok_not (lit "!")), s)
    else word_or_skip c s

-- The whole switch.
unfoldable pub scan : ℕ → Str → Option Token × Str
unfolding is_blank is_digit punctuation take_while drop_while number_byte
scan c s =
    if is_blank c
    then (none, s)
    else if c == b'\''
    then (some (token tok_string (take_while not_quote s)), rest_of (drop_while not_quote s))
    else if is_digit c || ((c == b'-') && next_is is_digit s)
    then (some (token tok_number (c ∷ take_while number_byte s)), drop_while number_byte s)
    else punctuation c s

abbrev pub put : Option Token → List Token → List Token
put none toks = toks
put (some t) toks = t ∷ toks

abbrev pub put_result : Option Token → Option (List Token) → Option (List Token)
put_result t none = none
put_result t (some toks) = some (put t toks)

-- The loop, on fuel; `none` is out of fuel.
unfoldable pub tokenize_loop : ℕ → Str → Option (List Token)
unfolding scan
tokenize_loop fuel [] = some (token tok_eof [] ∷ [])
tokenize_loop zero (c ∷ s) = none
tokenize_loop (suc fuel) (c ∷ s) = put_result (scan c s).0 (tokenize_loop fuel (scan c s).1)

unfoldable pub tokenize : Str → Option (List Token)
unfolding tokenize_loop
tokenize s = tokenize_loop (length s) s
