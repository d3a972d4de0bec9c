-- ===== src/Expr/Builtin.antt =====
-- The functions and comparisons of internal/runner/eval.go.
use ghenkins.Prelude.{
  ℕ, zero, suc, ◌-◌, Bool, true, false, not, Option, none, some, List, [], ◌∷◌, ◌++◌, ltb,
  if◌then◌else◌, length, ◌≡◌, refl,
}
use ghenkins.Prelude.Text.{Str, lit, str_eq, to_lower, has_prefix, has_suffix, contains, join}
use ghenkins.Prelude.Decimal.{show_nat}
use ghenkins.Expr.Value.{
  Value, bool, str, list, Items, no_items, item, GoLib, Result, ok, err, wrong_args,
  unknown_function, json_error, value_to_string, to_float, values_equal,
}
use ghenkins.Expr.Context.{
  EvalContext, JobStatus, pending, success, failure, cancelled, skipped, running,
}
use ghenkins.Expr.Token.{TokType, tok_eq, tok_neq, tok_lt, tok_lte, tok_gt}

-- strings.ReplaceAll with a pattern that is not empty; the first argument counts the bytes of a match
-- that are still to be passed over.
unfoldable pub replace_from : ℕ → Str → Str → Str → Str
unfolding has_prefix
replace_from skip [] old new = []
replace_from (suc skip) (c ∷ s) old new = replace_from skip s old new
replace_from zero (c ∷ s) old new =
    let hit = replace_from (length old - 1) s old new in
    let miss = replace_from 0 s old new in if has_prefix (c ∷ s) old then new ++ hit else c ∷ miss

unfoldable pub replace_all : Str → Str → Str → Str
unfolding replace_from
replace_all s old new = replace_from 0 s old new

-- strings.Compare(s, t) < 0
unfoldable pub str_lt : Str → Str → Bool
str_lt s [] = false
str_lt [] (y ∷ ys) = true
str_lt (x ∷ xs) (y ∷ ys) = if ltb x y then true else if ltb y x then false else str_lt xs ys

-- The comparisons by strings.Compare.
unfoldable pub compare_text : TokType → Str → Str → Bool
unfolding str_lt
compare_text tok_lt s t = str_lt s t
compare_text tok_lte s t = not (str_lt t s)
compare_text tok_gt s t = str_lt t s
compare_text _ s t = not (str_lt s t)

module _ (G : GoLib) where
  open G use {F, lt_float, le_float, marshal, unmarshal}

  unfoldable pub compare_float : TokType → F → F → Bool
  compare_float tok_lt x y = lt_float x y
  compare_float tok_lte x y = le_float x y
  compare_float tok_gt x y = lt_float y x
  compare_float _ x y = le_float y x

  -- Numbers where both sides are numbers, or else the lower-case texts.
  unfoldable pub ordered_by : Option F → Option F → TokType → Value F → Value F → Bool
  unfolding compare_float compare_text
  ordered_by (some x) (some y) op a b = compare_float op x y
  ordered_by none y op a b =
      compare_text op (to_lower (value_to_string G a)) (to_lower (value_to_string G b))
  ordered_by (some x) none op a b =
      compare_text op (to_lower (value_to_string G a)) (to_lower (value_to_string G b))

  -- evalComparison, on the six operators that parseComparison hands over
  unfoldable pub eval_comparison : Value F → TokType → Value F → Value F
  unfolding ordered_by
  eval_comparison a tok_eq b = bool (values_equal G a b)
  eval_comparison a tok_neq b = bool (not (values_equal G a b))
  eval_comparison a op b = bool (ordered_by (to_float G a) (to_float G b) op a b)

  unfoldable pub any_equal : Items F → Value F → Bool
  any_equal no_items v = false
  any_equal (item w ws) v = if values_equal G w v then true else any_equal ws v

  -- The search in a text.
  abbrev pub contains_text : Str → Value F → Bool
  contains_text s v = contains (to_lower s) (to_lower (value_to_string G v))

  unfoldable pub eval_contains : Value F → Value F → Bool
  unfolding any_equal
  eval_contains (str s) v = contains_text s v
  eval_contains (list xs) v = any_equal xs v
  eval_contains other v = contains_text (value_to_string G other) v

  -- "{" + i + "}"
  abbrev pub placeholder : ℕ → Str
  placeholder i = b'{' ∷ show_nat i ++ b'}' ∷ []

  unfoldable pub format_from : ℕ → Str → List (Value F) → Str
  unfolding replace_all
  format_from i tmpl [] = tmpl
  format_from i tmpl (v ∷ vs) =
      format_from (suc i) (replace_all tmpl (placeholder i) (value_to_string G v)) vs

  unfoldable pub eval_format : Value F → List (Value F) → Str
  unfolding format_from
  eval_format tmpl args = format_from 0 (value_to_string G tmpl) args

  unfoldable pub item_texts : Items F → List Str
  item_texts no_items = []
  item_texts (item v xs) = value_to_string G v ∷ item_texts xs

  unfoldable pub eval_join : Value F → Str → Str
  unfolding item_texts
  eval_join (list xs) sep = join (item_texts xs) sep
  eval_join (str s) sep = s
  eval_join other sep = value_to_string G other

  abbrev pub to_json : Value F → Result (Value F)
  to_json v = elim (marshal v) [ none ↦ err json_error | some s ↦ ok (str s) ]

  abbrev pub from_json : Value F → Result (Value F)
  from_json v = elim (unmarshal (value_to_string G v)) [ none ↦ err json_error | some w ↦ ok w ]

  abbrev pub is_success : JobStatus → Bool
  is_success success = true
  is_success pending = true
  is_success failure = false
  is_success cancelled = false
  is_success skipped = false
  is_success running = false

  abbrev pub is_failure : JobStatus → Bool
  is_failure failure = true
  is_failure success = false
  is_failure pending = false
  is_failure cancelled = false
  is_failure skipped = false
  is_failure running = false

  -- The two cases of a function of two arguments.
  abbrev pub with_two : (Value F → Value F → Value F) → List (Value F) → Result (Value F)
  with_two f (a ∷ b ∷ []) = ok (f a b)
  with_two f _ = err (wrong_args (lit "2"))

  abbrev pub with_one : (Value F → Result (Value F)) → List (Value F) → Result (Value F)
  with_one f (a ∷ []) = f a
  with_one f _ = err (wrong_args (lit "1"))

  abbrev pub format_args : List (Value F) → Result (Value F)
  format_args [] = err (wrong_args (lit "format"))
  format_args (tmpl ∷ args) = ok (str (eval_format tmpl args))

  abbrev pub join_args : List (Value F) → Result (Value F)
  join_args (a ∷ []) = ok (str (eval_join a (lit ",")))
  join_args (a ∷ sep ∷ []) = ok (str (eval_join a (value_to_string G sep)))
  join_args _ = err (wrong_args (lit "join"))

  abbrev pub starts_with : Value F → Value F → Bool
  starts_with a b = has_prefix (to_lower (value_to_string G a)) (to_lower (value_to_string G b))

  abbrev pub ends_with : Value F → Value F → Bool
  ends_with a b = has_suffix (to_lower (value_to_string G a)) (to_lower (value_to_string G b))

  unfoldable pub call_function : EvalContext F → Str → List (Value F) → Result (Value F)
  unfolding eval_contains eval_format eval_join
  call_function c name args =
      if str_eq name (lit "contains")
      then with_two (λ a b. bool (eval_contains a b)) args
      else if str_eq name (lit "startsWith")
      then with_two (λ a b. bool (starts_with a b)) args
      else if str_eq name (lit "endsWith")
      then with_two (λ a b. bool (ends_with a b)) args
      else if str_eq name (lit "format")
      then format_args args
      else if str_eq name (lit "join")
      then join_args args
      else if str_eq name (lit "toJSON")
      then with_one to_json args
      else if str_eq name (lit "fromJSON")
      then with_one from_json args
      else if str_eq name (lit "always")
      then ok (bool true)
      else if str_eq name (lit "success")
      then ok (bool (is_success c.job_status))
      else if str_eq name (lit "failure")
      then ok (bool (is_failure c.job_status))
      else if str_eq name (lit "cancelled")
      then ok (bool c.is_cancelled)
      else if str_eq name (lit "hashFiles")
      then ok (str (lit ""))
      else err (unknown_function name)

replace_all_runs : replace_all (lit "a{0}b{0}") (lit "{0}") (lit "x{0}") ≡ lit "ax{0}bx{0}"
unfolding replace_all lit
replace_all_runs = refl
