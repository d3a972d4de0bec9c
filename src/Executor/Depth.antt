-- ===== src/Executor/Depth.antt =====
-- The fuel of RunStep in internal/runner/executor.go, which is the depth of composite actions in each other.
use ghenkins.Prelude.{
  ℕ, zero, suc, ◌+◌, ◌≡◌, ◌⊎◌, inl, inr, refl, sym, ap, ◌∙◌, Bool, not, ◌&&◌, ◌||◌, List, [], ◌∷◌,
  Option, none, some, arith, Bool-cases,
}
use ghenkins.Prelude.Text.{lit, str_eq}
use ghenkins.Workflow.{Step}
use ghenkins.Expr.Value.{GoLib}
use ghenkins.Expr.Context.{StepResult}
use ghenkins.Expr.Build.{JobInfo}
use ghenkins.Expr.Eval.{interpolate}
use ghenkins.Action.{
  Host, ActionDef, ActionType, composite, js, docker, dockerfile, local, ResolvedAction, Found,
  found, failed, resolve_action,
}
use ghenkins.Executor.Command.{is_checkout_action}
use ghenkins.Executor.RunStep.{
  ExecutionContext, Ran, ran, out_of_fuel, JobRunner, Nested, nested_out_of_fuel, save_result,
  run_step, dispatch_step, composite_steps, composite_end, after_clone, with_definition,
  composite_inputs, nested_context, ensure_cloned, exec_composite_action, by_type, exec_action_step,
  exec_resolved, run_uses_step, build_step_eval_ctx,
}

module _ (G : GoLib) (H : Host) where
  open H use {World}

  abbrev StepRunner : Type 0
  StepRunner = World → Step → ExecutionContext → Ran World

  -- The first is out of fuel, or both are the same.
  abbrev Agrees : Ran World → Ran World → Type 0
  Agrees o o' = (o ≡ out_of_fuel) ⊎ (o ≡ o')

  abbrev Grows : StepRunner → StepRunner → Type 0
  Grows run run' =
      (m : World) (step : Step) (c : ExecutionContext) → Agrees (run m step c) (run' m step c)

  ran-cases :
      (o : Ran World)
      → (o ≡ out_of_fuel) ⊎ ((m : World) × (r : StepResult) × (b : Bool) × (o ≡ ran m r b))
  ran-cases out_of_fuel = inl refl
  ran-cases (ran m r b) = inr (m, r, b, refl)

  module _ (run run' : StepRunner) (grows : Grows run run') (r : JobRunner) (info : JobInfo) where
    steps-Agrees :
        (m : World) (steps : List Step) (c : ExecutionContext)
        → (composite_steps G H run r info m steps c ≡ nested_out_of_fuel)
          ⊎ (composite_steps G H run r info m steps c ≡ composite_steps G H run' r info m steps c)
    unfolding composite_steps
    steps-Agrees m [] c = inr refl
    steps-Agrees m (step ∷ steps) c = elim (ran-cases (run m step c)) [
      | inl e ↦ inl (rw (e, composite_steps) refl)
      | inr (m', result, b, e) ↦ elim (grows m step c) [
        | inl n ↦ absurd (cc)
        | inr same ↦
            let e' : run' m step c ≡ ran m' result b = sym same ∙ e in
            elim (Bool-cases
              ((b || str_eq result.outcome (lit "failure")) && not step.continue_on_error)) [
                | inl h ↦ inr (rw (e, e', h, composite_steps) refl)
                | inr h ↦
                    rw (e, e', h, composite_steps)
                      (steps-Agrees m' steps (save_result G H step result c))
              ]
      ]
    ]

    end-Agrees :
        (step : Step) (def : ActionDef) (n n' : Nested G H)
        → (n ≡ nested_out_of_fuel) ⊎ (n ≡ n')
        → Agrees
            (composite_end G H run r info step def n)
            (composite_end G H run' r info step def n')
    end-Agrees step def n n' (inl e) = inl (ap (composite_end G H run r info step def) e)
    end-Agrees step def n n' (inr e) = inr (ap (composite_end G H run r info step def) e)

    clone-Agrees :
        (step : Step) (c : ExecutionContext) (def : ActionDef) (o : Option World) (e : Ran World)
        → Agrees
            (after_clone G H run r info step c def o e)
            (after_clone G H run' r info step c def o e)
    clone-Agrees step c def none e = inr refl
    clone-Agrees step c def (some m) e = end-Agrees step def _ _ (
        steps-Agrees m def.runs.steps (nested_context G H c (composite_inputs G H c step def info)))

    definition-Agrees :
        (m : World) (step : Step) (a : ResolvedAction) (c : ExecutionContext)
        (def : Option ActionDef)
        → Agrees
            (with_definition G H run r info m step a c def)
            (with_definition G H run' r info m step a c def)
    definition-Agrees m step a c none = inr refl
    definition-Agrees m step a c (some def) = clone-Agrees step c def (ensure_cloned G H m a) _

    composite-Agrees :
        (m : World) (step : Step) (a : ResolvedAction) (c : ExecutionContext)
        → Agrees
            (exec_composite_action G H run r info m step a c)
            (exec_composite_action G H run' r info m step a c)
    unfolding exec_composite_action
    composite-Agrees m step a c = definition-Agrees m step a c a.def

    by_type-Agrees :
        (t : ActionType) (c c' d o : Ran World)
        → Agrees c c'
        → Agrees (by_type G H run r info t c d o) (by_type G H run' r info t c' d o)
    by_type-Agrees composite c c' d o h = h
    by_type-Agrees local c c' d o h = h
    by_type-Agrees docker c c' d o h = inr refl
    by_type-Agrees js c c' d o h = inr refl
    by_type-Agrees dockerfile c c' d o h = inr refl

    action-Agrees :
        (step : Step) (c : ExecutionContext) (f : World × Found ResolvedAction)
        → Agrees (exec_resolved G H run r info step c f) (exec_resolved G H run' r info step c f)
    unfolding exec_action_step
    action-Agrees step c (m, failed e) = inr refl
    action-Agrees step c (m, found a) = by_type-Agrees a.type _ _ _ _ (composite-Agrees m step a c)

    uses-Agrees :
        (m : World) (step : Step) (c : ExecutionContext)
        → Agrees (run_uses_step G H run r info m step c) (run_uses_step G H run' r info m step c)
    unfolding run_uses_step
    uses-Agrees m step c =
        let uses = interpolate G (build_step_eval_ctx G H c step info) step.uses in
        elim (Bool-cases (is_checkout_action uses)) [
          | inl h ↦ rw (h, run_uses_step) (inr refl)
          | inr h ↦
              rw (h, run_uses_step)
                (action-Agrees step c (
                  resolve_action H m uses r.workspace
                    (H.join_path (r.cache_dir ∷ lit "actions" ∷ []))))
        ]

    dispatch-Agrees :
        (m : World) (step : Step) (c : ExecutionContext)
        → Agrees (dispatch_step G H run r info m step c) (dispatch_step G H run' r info m step c)
    unfolding dispatch_step
    dispatch-Agrees m step c = elim (Bool-cases (str_eq step.run (lit ""))) [
      | inr h ↦ rw (h, dispatch_step) (inr refl)
      | inl h ↦ elim (Bool-cases (str_eq step.uses (lit ""))) [
        | inl n ↦ rw (h, n, dispatch_step) (inr refl)
        | inr n ↦ rw (h, n, dispatch_step) (uses-Agrees m step c)
      ]
    ]

  module _ (r : JobRunner) (info : JobInfo) where
    run_step-Grows : (n : ℕ) → Grows (run_step G H n r info) (run_step G H (suc n) r info)
    unfolding run_step
    run_step-Grows zero m step c = inl refl
    run_step-Grows (suc n) m step c =
        dispatch-Agrees (run_step G H n r info) (run_step G H (suc n) r info) (run_step-Grows n) r
          info m step c

    -- If RunStep answers under some fuel, it gives the same answer under more.
    pub run_step-more :
        (n k : ℕ) (m m' : World) (step : Step) (c : ExecutionContext) (result : StepResult)
        (has_err : Bool)
        → run_step G H n r info m step c ≡ ran m' result has_err
        → run_step G H (k + n) r info m step c ≡ ran m' result has_err
    run_step-more n zero m m' step c result has_err e =
        let same : 0 + n ≡ n = omega arith in ap (λ l. run_step G H l r info m step c) same ∙ e
    run_step-more n (suc k) m m' step c result has_err e =
        let less = run_step-more n k m m' step c result has_err e in
        let sum : suc k + n ≡ suc (k + n) = omega arith in
        elim (run_step-Grows (k + n) m step c) [
          | inl none_left ↦ absurd (cc)
          | inr same ↦ ap (λ l. run_step G H l r info m step c) sum ∙ sym same ∙ less
        ]
