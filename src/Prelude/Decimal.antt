-- ===== src/Prelude/Decimal.antt =====
-- Decimal numerals: fmt's %d, strconv.FormatInt and strconv.Atoi.
use ghenkins.Prelude.{
  ℕ, zero, suc, ◌+◌, ◌-◌, ◌*◌, Bool, ◌&&◌, Option, none, some, [], ◌∷◌, ltb, leb, ◌==◌,
  if◌then◌else◌, ◌≡◌, refl,
}
use Prim.Native.Nat.{◌/◌, ◌%◌}
use ghenkins.Prelude.Text.{Str, lit}
use ghenkins.Prelude.Int.{ℤ, pos, negsuc}

-- The digits of a number, on fuel above the number of its digits.
unfoldable pub show_digits : ℕ → ℕ → Str → Str
show_digits zero n acc = acc
show_digits (suc fuel) n acc =
    let more = show_digits fuel (n / 10) ((b'0' + n % 10) ∷ acc) in
    if ltb n 10 then (b'0' + n) ∷ acc else more

unfoldable pub show_nat : ℕ → Str
unfolding show_digits
show_nat n = show_digits (suc n) n []

unfoldable pub show_int : ℤ → Str
unfolding show_nat
show_int (pos n) = show_nat n
show_int (negsuc n) = b'-' ∷ show_nat (suc n)

unfoldable pub is_digit : ℕ → Bool
is_digit c = leb b'0' c && leb c b'9'

-- The value of a text of digits, read behind the digits of `acc`.
unfoldable pub read_digits : ℕ → Str → Option ℕ
unfolding is_digit
read_digits acc [] = some acc
read_digits acc (c ∷ s) = if is_digit c then read_digits (10 * acc + (c - b'0')) s else none

unfoldable pub read_nat : Str → Option ℕ
unfolding read_digits
read_nat [] = none
read_nat (c ∷ s) = read_digits 0 (c ∷ s)

abbrev negate : ℕ → ℤ
negate zero = pos 0
negate (suc n) = negsuc n

abbrev signed : (ℕ → ℤ) → Option ℕ → Option ℤ
signed f none = none
signed f (some n) = some (f n)

-- strconv.Atoi, on numerals that an int holds.
unfoldable pub atoi : Str → Option ℤ
unfolding read_nat
atoi [] = none
atoi (c ∷ s) =
    if c == b'-'
    then signed negate (read_nat s)
    else if c == b'+'
    then signed pos (read_nat s)
    else signed pos (read_nat (c ∷ s))

show_runs : show_int (negsuc 119) ≡ lit "-120"
unfolding show_int lit
show_runs = refl

atoi_runs : atoi (lit "-120") ≡ some (negsuc 119)
unfolding atoi lit
atoi_runs = refl
