-- ===== src/Expr/Value.antt =====
-- The dynamic values of internal/runner/eval.go, and their conversions. float64 and encoding/json
-- come as parameters.
use ghenkins.Prelude.{Bool, true, false, not, ◌&&◌, ◌||◌, Option, none, some, if◌then◌else◌}
use ghenkins.Prelude.Text.{Str, lit, str_eq, equal_fold}
use ghenkins.Prelude.Int.{ℤ, is_zero}
use ghenkins.Prelude.Decimal.{show_int}

-- interface{} as the program fills it; `F` is float64. Go's int and int64 are one constructor. An
-- object holds its entries in the order of iteration.
mutual
  pub data Value (F : Type 0) : Type 0 where
    nil : Value F
    bool : Bool → Value F
    float : F → Value F
    int : ℤ → Value F
    str : Str → Value F
    list : Items F → Value F
    object : Fields F → Value F

  pub data Items (F : Type 0) : Type 0 where
    no_items : Items F
    item : Value F → Items F → Items F

  pub data Fields (F : Type 0) : Type 0 where
    no_fields : Fields F
    field : Str → Value F → Fields F → Fields F

-- float64 with its operations, strconv on it, and encoding/json: the runtime that the code calls.
pub record GoLib : Type 1 where
  pub F : Type 0
  pub zero_float : F
  pub of_int : ℤ → F
  pub eq_float : F → F → Bool
  pub lt_float : F → F → Bool
  pub le_float : F → F → Bool
  -- strconv.ParseFloat; `none` is an error
  pub parse_float : Str → Option F
  -- int64(f) where f == float64(int64(f))
  pub as_int : F → Option ℤ
  -- strconv.FormatFloat(f, 'f', -1, 64)
  pub format_float : F → Str
  -- json.Marshal; `none` is an error
  pub marshal : Value F → Option Str
  -- json.Unmarshal into an interface{}
  pub unmarshal : Str → Option (Value F)

pub data EvalError : Type 0 where
  unexpected_token : Str → EvalError
  expected_token : Str → EvalError
  invalid_number : Str → EvalError
  wrong_args : Str → EvalError
  unknown_function : Str → EvalError
  json_error : EvalError

-- `out_of_fuel` belongs to the model only.
pub data Result {ℓ} (A : Type ℓ) : Type ℓ where
  ok : A → Result A
  err : EvalError → Result A
  out_of_fuel : Result A

infixl 1 ◌>>=◌
abbrev pub ◌>>=◌ {ℓ κ} : {A : Type ℓ} {B : Type κ} → Result A → (A → Result B) → Result B
ok a >>= f = f a
err e >>= f = err e
out_of_fuel >>= f = out_of_fuel

module _ (G : GoLib) where
  open G use {F, zero_float, of_int, eq_float, parse_float, as_int, format_float, marshal}

  unfoldable pub is_truthy : Value F → Bool
  is_truthy nil = false
  is_truthy (bool b) = b
  is_truthy (float f) = not (eq_float f zero_float)
  is_truthy (int n) = not (is_zero n)
  is_truthy (str s) = not (str_eq s (lit ""))
  is_truthy (list xs) = true
  is_truthy (object fs) = true

  abbrev or_empty : Option Str → Str
  or_empty none = lit ""
  or_empty (some s) = s

  unfoldable pub value_to_string : Value F → Str
  value_to_string nil = lit ""
  value_to_string (str s) = s
  value_to_string (bool b) = if b then lit "true" else lit "false"
  value_to_string (float f) = elim (as_int f) [ some n ↦ show_int n | none ↦ format_float f ]
  value_to_string (int n) = show_int n
  value_to_string (list xs) = or_empty (marshal (list xs))
  value_to_string (object fs) = or_empty (marshal (object fs))

  unfoldable pub to_float : Value F → Option F
  to_float (float f) = some f
  to_float (int n) = some (of_int n)
  to_float (str s) = parse_float s
  to_float nil = none
  to_float (bool b) = none
  to_float (list xs) = none
  to_float (object fs) = none

  abbrev pub is_nil : Value F → Bool
  is_nil nil = true
  is_nil (bool b) = false
  is_nil (float f) = false
  is_nil (int n) = false
  is_nil (str s) = false
  is_nil (list xs) = false
  is_nil (object fs) = false

  -- By number where both sides are numbers, or else by text without regard to case.
  unfoldable pub equal_by : Option F → Option F → Value F → Value F → Bool
  unfolding value_to_string
  equal_by (some x) (some y) a b = eq_float x y
  equal_by none y a b = equal_fold (value_to_string a) (value_to_string b)
  equal_by (some x) none a b = equal_fold (value_to_string a) (value_to_string b)

  unfoldable pub values_equal : Value F → Value F → Bool
  unfolding equal_by to_float
  values_equal a b =
      if is_nil a && is_nil b
      then true
      else if is_nil a || is_nil b
      then false
      else equal_by (to_float a) (to_float b) a b
