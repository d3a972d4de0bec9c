-- ===== src/Prelude/Text.antt =====
-- Go strings as lists of bytes, with the functions of package strings that the program calls.
use Prim.Native.Nat.{ℕ, suc, ◌+◌, ◌-◌}
use Prim.Native.Char.{code}
use Prim.Native.String.{String}
use mathlib.Core.Path.{◌≡◌, refl}
use mathlib.Core.Logic.{◌↔◌}
use mathlib.Core.Bool.{Bool, true, false, ◌&&◌, ◌||◌}
use mathlib.Core.Option.{Option, none, some}
use ghenkins.Prelude.Lists.{All, length}
use mathlib.Core.List.{List, [], ◌∷◌, ◌++◌, reverse}
use native.Mathlib.Omega.{arith}
use ghenkins.Prelude.Tests.{leb, ◌==◌, ==_iff, if◌then◌else◌}

abbrev pub Str : Type 0
Str = List ℕ

codes : String → Str
codes String.[] = []
codes (String.◌∷◌ c s) = code c ∷ codes s

-- A literal of the source, all of which are ASCII.
unfoldable pub lit : String → Str
unfolding codes
lit s = codes s

unfoldable pub str_eq : Str → Str → Bool
str_eq [] [] = true
str_eq (x ∷ xs) (y ∷ ys) = (x == y) && str_eq xs ys
str_eq _ _ = false

pub str_eq_self : (s : Str) → str_eq s s ≡ true
unfolding str_eq
str_eq_self [] = refl
str_eq_self (x ∷ xs) = ground (arith, str_eq_self xs)

pub str_eq→eq : (s t : Str) → str_eq s t ≡ true → s ≡ t
unfolding str_eq
str_eq→eq [] [] h = refl
str_eq→eq [] (y ∷ ys) h = cc
str_eq→eq (x ∷ xs) [] h = cc
str_eq→eq (x ∷ xs) (y ∷ ys) h = ground (arith, str_eq→eq xs ys)

pub str_eq_iff : (s t : Str) → (str_eq s t ≡ true) ↔ (s ≡ t)
str_eq_iff s t = (str_eq→eq s t, λ e. ground (arith, str_eq_self s))

pub str_eq_comm : (s t : Str) → str_eq s t ≡ str_eq t s
str_eq_comm s t = ground (arith, str_eq_iff s t, str_eq_iff t s)

-- strings.HasPrefix
unfoldable pub has_prefix : Str → Str → Bool
has_prefix s [] = true
has_prefix [] (p ∷ ps) = false
has_prefix (x ∷ xs) (p ∷ ps) = (x == p) && has_prefix xs ps

-- strings.HasSuffix
unfoldable pub has_suffix : Str → Str → Bool
unfolding has_prefix
has_suffix s suffix = has_prefix (reverse s) (reverse suffix)

abbrev next : Option ℕ → Option ℕ
next none = none
next (some i) = some (suc i)

-- strings.Index; `none` is -1.
unfoldable pub index : Str → Str → Option ℕ
unfolding has_prefix
index [] sub = if has_prefix [] sub then some 0 else none
index (x ∷ xs) sub = if has_prefix (x ∷ xs) sub then some 0 else next (index xs sub)

-- strings.Contains
unfoldable pub contains : Str → Str → Bool
unfolding index
contains s sub = elim (index s sub) [ none ↦ false | some _ ↦ true ]

-- strings.ToLower on ASCII.
unfoldable pub lower_byte : ℕ → ℕ
lower_byte c = if leb b'A' c && leb c b'Z' then c + 32 else c

unfoldable pub to_lower : Str → Str
to_lower [] = []
to_lower (c ∷ s) = lower_byte c ∷ to_lower s

-- strings.EqualFold on ASCII.
unfoldable pub equal_fold : Str → Str → Bool
unfolding to_lower str_eq
equal_fold s t = str_eq (to_lower s) (to_lower t)

-- strings.ToUpper on ASCII.
unfoldable pub to_upper : Str → Str
to_upper [] = []
to_upper (c ∷ s) = (if leb b'a' c && leb c b'z' then c - 32 else c) ∷ to_upper s

-- unicode.IsSpace on ASCII.
unfoldable pub is_space : ℕ → Bool
is_space c = c == 32 || (leb 9 c && leb c 13)

unfoldable pub trim_left : Str → Str
unfolding is_space
trim_left [] = []
trim_left (c ∷ s) = if is_space c then trim_left s else c ∷ s

-- strings.TrimSpace
unfoldable pub trim_space : Str → Str
unfolding trim_left
trim_space s = reverse (trim_left (reverse (trim_left s)))

-- strings.Split with a separator of one byte: always at least one part.
unfoldable pub split_head : ℕ → Str → Str
split_head sep [] = []
split_head sep (c ∷ s) = if c == sep then [] else c ∷ split_head sep s

unfoldable pub split_tail : ℕ → Str → List Str
unfolding split_head
split_tail sep [] = []
split_tail sep (c ∷ s) = if c == sep then split_head sep s ∷ split_tail sep s else split_tail sep s

unfoldable pub split : ℕ → Str → List Str
unfolding split_head split_tail
split sep s = split_head sep s ∷ split_tail sep s

-- strings.Join
unfoldable pub join : List Str → Str → Str
join [] sep = []
join (s ∷ []) sep = s
join (s ∷ t ∷ rest) sep = s ++ sep ++ join (t ∷ rest) sep

split_runs : split b'/' (lit "a/b//c") ≡ lit "a" ∷ lit "b" ∷ lit "" ∷ lit "c" ∷ []
unfolding split lit
split_runs = refl

index_runs : index (lit "KEY<<EOF") (lit "<<") ≡ some 3
unfolding index lit
index_runs = refl

trim_runs : trim_space (lit "  a b ") ≡ lit "a b"
unfolding trim_space lit
trim_runs = refl

abbrev pub put_first : ℕ → List Str → List Str
put_first c [] = []
put_first c (p ∷ ps) = (c ∷ p) ∷ ps

-- strings.SplitN(s, sep, 2) with a separator of one byte: one part or two.
unfoldable pub split_n2 : ℕ → Str → List Str
split_n2 sep [] = [] ∷ []
split_n2 sep (c ∷ s) = if c == sep then [] ∷ s ∷ [] else put_first c (split_n2 sep s)

-- The byte does not stand in the text.
abbrev pub HasNo : ℕ → Str → Type 0
HasNo c = All λ x. (x == c) ≡ false

pub index_byte : (c : ℕ) (k v : Str) → HasNo c k → index (k ++ c ∷ v) (c ∷ []) ≡ some (length k)
unfolding index has_prefix
index_byte c [] v h = ground (arith, ==_iff c c)
index_byte c (x ∷ k) v h = ground (arith, index_byte c k v h.1)
