-- ===== src/Samples/Expressions.antt =====
-- Runs of internal/runner/eval.go.
use ghenkins.Prelude.{◌≡◌, refl, arith, Bool, true, false, [], ◌∷◌, ◌++◌, none, some, ◌==◌}
use ghenkins.Prelude.Text.{trim_space, lit, str_eq, equal_fold, lower_byte}
use ghenkins.Prelude.Int.{ℤ, pos, negsuc}
use ghenkins.Prelude.Decimal.{atoi, show_int}
use ghenkins.Expr.Value.{bool, GoLib, ok, no_fields, is_truthy, values_equal}
use ghenkins.Expr.Context.{EvalContext, running, lookup_path, lookup_value}
use ghenkins.Expr.Token.{token, tok_eof, tokenize, is_ident_start, is_ident_cont, word_token}
use ghenkins.Prelude.Dict.{lookup}
use ghenkins.Prelude.Names.{mem}
use ghenkins.Workflow.{Workflow, Job, Step, text, other}
use ghenkins.Expr.Build.{JobInfo, build_eval_context, build-env}
use ghenkins.Expr.Builtin.{call_function, eval_comparison}
use ghenkins.Expr.Token.{
  tok_string, tok_ident, tok_not, tok_dot, tok_lte, tok_number, tok_and, tok_or, tok_bool,
}
use ghenkins.Expr.Eval.{eval}
use ghenkins.Expr.Eval.{interpolate}
use ghenkins.Expr.Interpolation.{shown, interpolate-placeholder}
use ghenkins.Expr.Fuel.{Ends}
use ghenkins.Expr.Total.{eval-Ends}
use ghenkins.Expr.Grammar.{
  Or, or, or_end, and, and_end, and_more, plain, negation, compared, eq, path, dot, string, call,
  no_args, or_tokens, or_value, typ_text,
}
use ghenkins.Expr.Grammar.Spelling.{spell, tokenize-spell, AreLexemes}
use ghenkins.Expr.Grammar.Meaning.{eval-spell}

abbrev same_sign : ℤ → ℤ → Bool
same_sign (pos a) (pos b) = a == b
same_sign (negsuc a) (negsuc b) = a == b
same_sign _ _ = false

-- Whole numbers in the place of float64, and no JSON.
abbrev pub whole : GoLib
whole = record {
  F = ℤ;
  zero_float = pos 0;
  of_int = λ n. n;
  eq_float = same_sign;
  lt_float = λ a b. false;
  le_float = same_sign;
  parse_float = atoi;
  as_int = λ f. some f;
  format_float = show_int;
  marshal = λ v. none;
  unmarshal = λ s. none;
}

abbrev context : EvalContext ℤ
context = record {
  github = no_fields;
  env = (lit "MODE", lit "ci") ∷ [];
  job = no_fields;
  steps = [];
  runner = no_fields;
  secrets = [];
  inputs = [];
  job_status = running;
  is_cancelled = false;
}

-- env.MODE == 'ci' && ! cancelled ( )
abbrev tree : Or
tree =
    or
      (and (compared (path (lit "env") (dot (lit "MODE") ∷ [])) eq (string (lit "ci")))
        (and_more (negation (plain (call (lit "cancelled") no_args))) and_end))
      or_end

eval-Ends_example : Ends (eval whole context (lit "env.MODE == ("))
eval-Ends_example = eval-Ends whole context (lit "env.MODE == (")

tree-AreLexemes : AreLexemes (or_tokens tree [])
unfolding or_tokens typ_text lit is_ident_start is_ident_cont word_token str_eq
tree-AreLexemes = ground arith

tokenize-spell_example :
    tokenize (spell (or_tokens tree [])) ≡ some (or_tokens tree [] ++ token tok_eof [] ∷ [])
tokenize-spell_example = tokenize-spell (or_tokens tree []) tree-AreLexemes

eval-spell_example : eval whole context (spell (or_tokens tree [])) ≡ or_value whole context tree
eval-spell_example = eval-spell whole context tree tree-AreLexemes

tree_runs : or_value whole context tree ≡ ok (bool true)
unfolding or_value lit str_eq call_function is_truthy eval_comparison values_equal lookup_path
    lookup_value atoi equal_fold lower_byte
tree_runs = refl

abbrev pub workflow : Workflow
workflow = record {
  name = lit "ci";
  env = (lit "A", lit "workflow") ∷ (lit "B", lit "workflow") ∷ [];
  defaults = none;
  jobs = [];
  inputs = [];
}

abbrev pub job : Job
job = record {
  name = lit "j";
  runs_on = text (lit "ubuntu-22.04");
  needs = other;
  condition = lit "";
  env = (lit "A", lit "job") ∷ [];
  defaults = none;
  timeout_minutes = pos 0;
  steps = [];
  extra_binds = [];
  volumes = [];
  artifact_paths = [];
}

abbrev pub step : Step
step = record {
  id = lit "s";
  name = lit "s";
  uses = lit "";
  run = lit "make";
  shell = lit "";
  working_directory = lit "";
  with_inputs = [];
  env = (lit "C", lit "step") ∷ [];
  condition = lit "";
  continue_on_error = false;
  timeout_minutes = pos 0;
}

abbrev pub info : JobInfo
info = record {
  sha = lit "1";
  ref = lit "refs/heads/main";
  ref_name = lit "main";
  event_name = lit "push";
  repo = lit "o/r";
  owner = lit "o";
  repo_name = lit "r";
  run_id = lit "1";
  run_number = pos 1;
  actor = lit "ghenkins";
  event_payload = [];
  pr_number = pos 0;
  head_ref = [];
  base_ref = [];
  inputs = [];
}

build-env_example :
    lookup
      (lit "A")
      (build_eval_context whole workflow (lit "j") job (some step) [] [] info [] running false).env
    ≡ some (lit "job")
unfolding lit str_eq mem lookup
build-env_example =
    build-env whole workflow (lit "j") job step [] [] info [] running false (lit "A")
      (refl, (refl, tt)) (refl, tt) tt (refl, tt)

tokenize_runs :
    tokenize (lit "!a.b-c <= -1.5 && 'x y'||true")
    ≡ some (
        token tok_not (lit "!")
        ∷ token tok_ident (lit "a")
        ∷ token tok_dot (lit ".")
        ∷ token tok_ident (lit "b-c")
        ∷ token tok_lte (lit "<=")
        ∷ token tok_number (lit "-1.5")
        ∷ token tok_and (lit "&&")
        ∷ token tok_string (lit "x y")
        ∷ token tok_or (lit "||")
        ∷ token tok_bool (lit "true")
        ∷ token tok_eof []
        ∷ [])
unfolding tokenize lit str_eq
tokenize_runs = refl

interpolate-placeholder_example :
    interpolate whole context (lit "${{ env.MODE }}/${{ 1 +")
    ≡ shown whole context (eval whole context (trim_space (lit " env.MODE ")))
      ++ interpolate whole context (lit "/${{ 1 +")
unfolding lit
interpolate-placeholder_example =
    interpolate-placeholder whole context (lit " env.MODE ") (lit "/${{ 1 +") (ground arith)
      (ground arith)
