-- ===== src/Expr/Context.antt =====
-- internal/runner/context.go: the contexts that an expression reads, and the lookup of a path.
use ghenkins.Prelude.{
  ℕ, zero, suc, ◌-◌, Bool, ◌&&◌, Option, none, some, List, [], ◌∷◌, ltb, ◌==◌, if◌then◌else◌,
  length, take,
}
use ghenkins.Prelude.Text.{Str, lit, str_eq, to_lower}
use ghenkins.Prelude.Dict.{Dict, lookup}
use ghenkins.Prelude.Int.{ℤ, pos}
use ghenkins.Prelude.Decimal.{atoi}
use ghenkins.Expr.Value.{
  Value, nil, bool, float, int, str, list, object, Items, no_items, item, Fields, no_fields, field,
}

pub data JobStatus : Type 0 where
  pending success failure cancelled skipped running : JobStatus

-- The outcome and the conclusion are texts of the source: "success", "failure", "skipped".
pub record StepResult : Type 0 where
  pub outcome : Str
  pub conclusion : Str
  pub outputs : Dict Str

unfoldable pub job_status_string : JobStatus → Str
job_status_string success = lit "success"
job_status_string pending = lit "success"
job_status_string failure = lit "failure"
job_status_string cancelled = lit "cancelled"
job_status_string skipped = lit "success"
job_status_string running = lit "success"

pub record EvalContext (F : Type 0) : Type 0 where
  pub github : Fields F
  pub env : Dict Str
  pub job : Fields F
  pub steps : Dict StepResult
  pub runner : Fields F
  pub secrets : Dict Str
  pub inputs : Dict Str
  pub job_status : JobStatus
  pub is_cancelled : Bool

last_byte : Str → ℕ
last_byte [] = 0
last_byte (c ∷ []) = c
last_byte (c ∷ d ∷ s) = last_byte (d ∷ s)

first_byte : Str → ℕ
first_byte [] = 0
first_byte (c ∷ s) = c

abbrev tail : Str → Str
tail [] = []
tail (c ∷ s) = s

-- len(part) > 2 && part[0] == '[' && part[len(part)-1] == ']'
unfoldable pub is_index : Str → Bool
unfolding last_byte first_byte
is_index part = ltb 2 (length part) && ((first_byte part == b'[') && (last_byte part == b']'))

-- part[1 : len(part)-1]
unfoldable pub index_text : Str → Str
index_text part = take (length part - 2) (tail part)

module _ {F : Type 0} where
  unfoldable pub strings_to_interface : Dict Str → Fields F
  strings_to_interface [] = no_fields
  strings_to_interface ((k, v) ∷ m) = field k (str v) (strings_to_interface m)

  unfoldable pub step_to_map : StepResult → Fields F
  unfolding strings_to_interface
  step_to_map s = field (lit "outcome") (str s.outcome) (
      field (lit "conclusion") (str s.conclusion)
        (field (lit "outputs") (object (strings_to_interface s.outputs)) no_fields))

  -- v[part], with its second result
  unfoldable pub get_field : Str → Fields F → Option (Value F)
  get_field k no_fields = none
  get_field k (field j v fs) = if str_eq j k then some v else get_field k fs

  -- The loop of the fallback: the first entry whose name fits without regard to case.
  unfoldable pub get_field_fold : Str → Fields F → Option (Value F)
  get_field_fold k no_fields = none
  get_field_fold k (field j v fs) =
      if str_eq (to_lower j) (to_lower k) then some v else get_field_fold k fs

  abbrev pub or_fold : Option (Value F) → Option (Value F) → Option (Value F)
  or_fold none o = o
  or_fold (some v) o = some v

  unfoldable pub child : Str → Value F → Option (Value F)
  unfolding get_field get_field_fold
  child part (object fs) = or_fold (get_field part fs) (get_field_fold part fs)
  child part nil = none
  child part (bool b) = none
  child part (float f) = none
  child part (int n) = none
  child part (str s) = none
  child part (list xs) = none

  unfoldable pub nth : ℕ → Items F → Option (Value F)
  nth i no_items = none
  nth zero (item v xs) = some v
  nth (suc i) (item v xs) = nth i xs

  -- v[idx] with the test of its range; any other value has no elements.
  unfoldable pub element : Option ℤ → Value F → Option (Value F)
  unfolding nth
  element (some (pos i)) (list xs) = nth i xs
  element _ _ = none

  unfoldable pub lookup_value : List Str → Value F → Option (Value F)
  unfolding child element is_index index_text
  lookup_value [] v = some v
  lookup_value (part ∷ rest) v =
      elim (if is_index part then element (atoi (index_text part)) v else child part v) [
        | none ↦ none
        | some w ↦ lookup_value rest w
      ]

  abbrev step_value : List Str → Option StepResult → Option (Value F)
  step_value rest none = none
  step_value rest (some s) = lookup_value rest (object (step_to_map s))

  -- The case "steps".
  unfoldable pub lookup_step : List Str → Dict StepResult → Option (Value F)
  unfolding step_to_map
  lookup_step [] steps = none
  lookup_step (id ∷ rest) steps = step_value rest (lookup id steps)

  -- (c *EvalContext) Lookup
  unfoldable pub lookup_path : EvalContext F → List Str → Option (Value F)
  unfolding strings_to_interface lookup_step
  lookup_path c [] = none
  lookup_path c (root ∷ rest) =
      if str_eq root (lit "github")
      then lookup_value rest (object c.github)
      else if str_eq root (lit "env")
      then lookup_value rest (object (strings_to_interface c.env))
      else if str_eq root (lit "job")
      then lookup_value rest (object c.job)
      else if str_eq root (lit "steps")
      then lookup_step rest c.steps
      else if str_eq root (lit "runner")
      then lookup_value rest (object c.runner)
      else if str_eq root (lit "secrets")
      then lookup_value rest (object (strings_to_interface c.secrets))
      else if str_eq root (lit "inputs")
      then lookup_value rest (object (strings_to_interface c.inputs))
      else none
