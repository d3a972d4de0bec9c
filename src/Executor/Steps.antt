-- ===== src/Executor/Steps.antt =====
-- What the loop over the steps of a job in internal/runner/executor.go comes to.
use ghenkins.Prelude.{
  ℕ, suc, ◌≡◌, ◌⊎◌, inl, inr, refl, sym, ap, ◌∙◌, subst, Bool, true, false, ◌||◌, List, [], ◌∷◌,
  Option, none, some, arith, All, Option-cases, Bool-cases,
}
use ghenkins.Prelude.Text.{Str, lit, str_eq}
use ghenkins.Prelude.Dict.{Dict, keys}
use ghenkins.Prelude.Names.{mem, mem-keys-insert}
use ghenkins.EnvFile.{Delta, read_delta}
use ghenkins.Workflow.{Workflow, Job, Step}
use ghenkins.Expr.Value.{GoLib}
use ghenkins.Expr.Context.{JobStatus, pending, failure, StepResult}
use ghenkins.Expr.Build.{JobInfo}
use ghenkins.Action.{Host}
use ghenkins.Executor.RunStep.{ExecutionContext, Ran, ran, out_of_fuel}
use ghenkins.Executor.Jobs.{
  JobState, after_step, skip_step, should_run, step_id, execute_step, job_step, job_steps, is_good,
  is_status_failure, step_end, step_result, magic_files,
}

-- The status is pending or a failure.
abbrev pub IsOpen : JobStatus → Type 0
IsOpen status = (status ≡ pending) ⊎ (status ≡ failure)

abbrev IsPlain : Step → Type 0
IsPlain step = str_eq step.condition (lit "") ≡ true

after_step-IsOpen :
    (id : Str) (step : Step) (r : StepResult) (d : Delta) (c : ExecutionContext)
    → IsOpen c.job_status
    → IsOpen (after_step id step r d c).job_status
unfolding after_step
after_step-IsOpen id step r d c h = ground arith

abbrev context_of : {W : Type 0} → ExecutionContext → Option (JobState W) → ExecutionContext
context_of c none = c
context_of c (some s) = s.context

-- A context with a result under the name, and all the names that were there.
abbrev Adds : Str → ExecutionContext → ExecutionContext → Type 0
Adds id c c' =
    (k : Str) → mem k (keys c'.step_results) ≡ (str_eq id k || mem k (keys c.step_results))

after_step-Adds :
    (id : Str) (step : Step) (r : StepResult) (d : Delta) (c : ExecutionContext)
    → Adds id c (after_step id step r d c)
unfolding after_step
after_step-Adds id step r d c k = mem-keys-insert k id _ c.step_results

skip_step-Adds : (id : Str) (c : ExecutionContext) → Adds id c (skip_step id c)
unfolding skip_step
skip_step-Adds id c k = mem-keys-insert k id _ c.step_results

module _ (G : GoLib) (H : Host) where
  open H use {World}

  module _ (run : World → Step → ExecutionContext → Ran World) (wf : Workflow) (job_id : Str)
      (job : Job) (info : JobInfo) (secrets : Dict Str) where
    abbrev pub execute : ℕ → Step → JobState World → Option (JobState World)
    execute = execute_step G H run wf job_id job info secrets

    abbrev pub skipped : ℕ → Step → JobState World → JobState World
    skipped i step s = record s { context = skip_step (step_id i step) s.context }

    -- Steps that are all skipped.
    unfoldable pub skip_all : ℕ → List Step → JobState World → JobState World
    unfolding skip_step
    skip_all i [] s = s
    skip_all i (step ∷ steps) s = skip_all (suc i) steps (skipped i step s)

    -- Steps run one after another until one makes the job fail; those behind it are skipped.
    unfoldable pub run_until_failure : ℕ → List Step → JobState World → Option (JobState World)
    unfolding execute_step skip_all
    run_until_failure i [] s = some s
    run_until_failure i (step ∷ steps) s = elim (execute i step s) [
      | none ↦ none
      | some s' ↦ elim (is_status_failure s'.context.job_status) [
        | true ↦ some (skip_all (suc i) steps s')
        | false ↦ run_until_failure (suc i) steps s'
      ]
    ]

    step_end-IsOpen :
        (id : Str) (step : Step) (s : JobState World) (o : Ran World) (s' : JobState World)
        → IsOpen s.context.job_status
        → step_end G H run wf job_id job info secrets id step s o ≡ some s'
        → IsOpen s'.context.job_status
    unfolding after_step
    step_end-IsOpen id step s out_of_fuel s' h e = cc
    step_end-IsOpen id step s (ran m result has_err) s' h e =
        let d = read_delta s.files (magic_files G H m) in
        let same : after_step id step
              (step_result G H run wf job_id job info secrets result has_err) d.0 s.context
            ≡ s'.context =
          ap (context_of s.context) e in
        subst (λ c. IsOpen c.job_status) same
          (after_step-IsOpen id step (step_result G H run wf job_id job info secrets result has_err)
            d.0 s.context h)

    execute-IsOpen :
        (i : ℕ) (step : Step) (s s' : JobState World)
        → IsOpen s.context.job_status
        → execute i step s ≡ some s'
        → IsOpen s'.context.job_status
    unfolding execute_step
    execute-IsOpen i step s s' h e =
        step_end-IsOpen (step_id i step) (record step { id = step_id i step }) s _ s' h e

    should_run-IsPlain :
        (step : Step) (c : ExecutionContext)
        → IsPlain step
        → should_run G H run wf job_id job info secrets step c ≡ is_good c.job_status
    unfolding should_run
    should_run-IsPlain step c p = rw (p, should_run) refl

    -- The step with its name filled in.
    abbrev pub named : ℕ → Step → Step
    named i step = record step { id = step_id i step }

    abbrev pub chosen : ℕ → Step → JobState World → Bool
    chosen i step s = should_run G H run wf job_id job info secrets (named i step) s.context

    pub step_runs :
        (i : ℕ) (step : Step) (s : JobState World)
        → chosen i step s ≡ true
        → job_step G H run wf job_id job info secrets i step s ≡ execute i step s
    unfolding job_step
    step_runs i step s h = rw (h, job_step) refl

    pub step_skipped :
        (i : ℕ) (step : Step) (s : JobState World)
        → chosen i step s ≡ false
        → job_step G H run wf job_id job info secrets i step s ≡ some (skipped i step s)
    unfolding job_step
    step_skipped i step s h = rw (h, job_step) refl

    chosen-IsPlain :
        (i : ℕ) (step : Step) (s : JobState World) (status : JobStatus)
        → IsPlain step
        → s.context.job_status ≡ status
        → chosen i step s ≡ is_good status
    chosen-IsPlain i step s status p f =
        should_run-IsPlain (named i step) s.context p ∙ ap is_good f

    skip_all-steps :
        (i : ℕ) (steps : List Step) (s : JobState World)
        → All IsPlain steps
        → s.context.job_status ≡ failure
        → job_steps G H run wf job_id job info secrets i steps s ≡ some (skip_all i steps s)
    unfolding job_steps skip_all
    skip_all-steps i [] s p f = refl
    skip_all-steps i (step ∷ steps) s p f =
        rw (step_skipped i step s (chosen-IsPlain i step s failure p.0 f), job_steps)
          (skip_all-steps (suc i) steps (skipped i step s) p.1 f)

    run_from :
        (i : ℕ) (steps : List Step) (s : JobState World)
        → All IsPlain steps
        → s.context.job_status ≡ pending
        → job_steps G H run wf job_id job info secrets i steps s ≡ run_until_failure i steps s
    unfolding job_steps run_until_failure
    run_from i [] s p f = refl
    run_from i (step ∷ steps) s p f = elim (Option-cases (execute i step s)) [
      | inl e ↦
          rw
            (
              step_runs i step s (chosen-IsPlain i step s pending p.0 f),
              job_steps,
              e,
              run_until_failure,
            )
            refl
      | inr (s', e) ↦ elim (execute-IsOpen i step s s' (inl f) e) [
        | inl good ↦
            let going : is_status_failure s'.context.job_status ≡ false =
              ap is_status_failure good in
            rw
              (
                step_runs i step s (chosen-IsPlain i step s pending p.0 f),
                job_steps,
                e,
                run_until_failure,
                going,
              )
              (run_from (suc i) steps s' p.1 good)
        | inr bad ↦
            let stopped : is_status_failure s'.context.job_status ≡ true =
              ap is_status_failure bad in
            rw
              (
                step_runs i step s (chosen-IsPlain i step s pending p.0 f),
                job_steps,
                e,
                run_until_failure,
                stopped,
              )
              (skip_all-steps (suc i) steps s' p.1 bad)
      ]
    ]

    -- Where no step has a condition and the job's status is still pending, the loop is the plain one: the steps run in their order until one makes
    -- the job fail, and those behind it are skipped.
    pub job_steps-run_until_failure :
        (steps : List Step) (s : JobState World)
        → All IsPlain steps
        → s.context.job_status ≡ pending
        → job_steps G H run wf job_id job info secrets 0 steps s ≡ run_until_failure 0 steps s
    job_steps-run_until_failure steps s p f = run_from 0 steps s p f

    step_end-Adds :
        (id : Str) (step : Step) (s : JobState World) (o : Ran World) (s' : JobState World)
        → step_end G H run wf job_id job info secrets id step s o ≡ some s'
        → Adds id s.context s'.context
    step_end-Adds id step s out_of_fuel s' e = cc
    step_end-Adds id step s (ran m result has_err) s' e =
        subst (Adds id s.context) (ap (context_of s.context) e) (
          after_step-Adds id step (step_result G H run wf job_id job info secrets result has_err)
            (read_delta s.files (magic_files G H m)).0 s.context)

    job_step-Adds :
        (i : ℕ) (step : Step) (s s' : JobState World)
        → job_step G H run wf job_id job info secrets i step s ≡ some s'
        → Adds (step_id i step) s.context s'.context
    unfolding execute_step
    job_step-Adds i step s s' e = elim (Bool-cases (chosen i step s)) [
      | inl h ↦
          step_end-Adds (step_id i step) (named i step) s (run s.world (named i step) s.context) s'
            (sym (step_runs i step s h) ∙ e)
      | inr h ↦
          subst (Adds (step_id i step) s.context)
            (ap (context_of s.context) (sym (step_skipped i step s h) ∙ e))
            (skip_step-Adds (step_id i step) s.context)
    ]

    -- The names of the steps.
    unfoldable pub step_ids : ℕ → List Step → List Str
    step_ids i [] = []
    step_ids i (step ∷ steps) = step_id i step ∷ step_ids (suc i) steps

    pub steps_names :
        (i : ℕ) (steps : List Step) (s s' : JobState World) (k : Str)
        → job_steps G H run wf job_id job info secrets i steps s ≡ some s'
        → mem k (keys s'.context.step_results)
          ≡ (mem k (step_ids i steps) || mem k (keys s.context.step_results))
    unfolding job_steps step_ids mem
    steps_names i [] s s' k e =
        ap (λ c. mem k (keys c.step_results)) (ap (context_of s.context) (sym e))
    steps_names i (step ∷ steps) s s' k e =
        elim (Option-cases (job_step G H run wf job_id job info secrets i step s)) [
          | inl n ↦
              let stuck : job_steps G H run wf job_id job info secrets i (step ∷ steps) s ≡ none =
                rw (n, job_steps) refl in
              let e' : none ≡ some s' = sym stuck ∙ e in absurd (cc)
          | inr (t, n) ↦
              let next : job_steps G H run wf job_id job info secrets i (step ∷ steps) s
                  ≡ job_steps G H run wf job_id job info secrets (suc i) steps t =
                rw (n, job_steps) refl in
              let here = job_step-Adds i step s t n k in
              let later = steps_names (suc i) steps t s' k (sym next ∙ e) in
              ground (arith, here, later)
        ]
