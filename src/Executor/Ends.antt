-- ===== src/Executor/Ends.antt =====
-- The ends of steps and jobs in internal/runner/executor.go: what fuel has to do with them.
use ghenkins.Prelude.{
  ℕ, suc, ◌≡◌, inl, inr, refl, ap, ◌∙◌, Bool, true, false, ◌||◌, List, [], ◌∷◌, some, All,
  Bool-cases,
}
use ghenkins.Prelude.Text.{Str, lit, str_eq}
use ghenkins.Prelude.Dict.{Dict, keys}
use ghenkins.Prelude.Names.{mem}
use ghenkins.Workflow.{Workflow, Job, Step}
use ghenkins.Expr.Value.{GoLib}
use ghenkins.Expr.Context.{StepResult}
use ghenkins.Expr.Build.{JobInfo}
use ghenkins.Action.{Host, Exit, exited, not_run}
use ghenkins.Executor.Command.{build_shell_cmd, or_text, env_slice}
use ghenkins.Executor.RunStep.{
  ExecutionContext, Ran, ran, JobRunner, run_step, dispatch_step, run_shell_step,
  build_step_eval_ctx, exec_result, shell_env, shell_workdir, failed_step, succeeded,
}
use ghenkins.Expr.Eval.{interpolate}
use ghenkins.Prelude.Int.{is_zero}
use ghenkins.Executor.Jobs.{JobState, step_end, step_id, execute_step, job_step, job_steps}
use ghenkins.Executor.Steps.{step_runs, step_skipped, steps_names, chosen, named, skipped, step_ids}

module _ (G : GoLib) (H : Host) where
  open H use {World, exec}

  -- The answer is not out of fuel.
  abbrev pub Answers : Ran World → Type 0
  Answers o = (m : World) × (r : StepResult) × (b : Bool) × (o ≡ ran m r b)

  exec_result-Answers : (o : World × Exit) → Answers (exec_result G H o)
  exec_result-Answers (m, not_run) = (m, failed_step, true, refl)
  exec_result-Answers (m, exited n) = elim (Bool-cases (is_zero n)) [
    | inl h ↦ (m, succeeded, false, rw h refl)
    | inr h ↦ (m, failed_step, false, rw h refl)
  ]

  shell_dispatch :
      (r : JobRunner) (info : JobInfo) (m : World) (step : Step) (c : ExecutionContext)
      → str_eq step.run (lit "") ≡ false
      → run_step G H 1 r info m step c
        ≡ run_shell_step G H m step c (build_step_eval_ctx G H c step info)
  unfolding run_step dispatch_step
  shell_dispatch r info m step c h = rw (h, run_step, dispatch_step) refl

  -- A step with a command, under one unit of fuel.
  shell_step-Answers :
      (r : JobRunner) (info : JobInfo) (m : World) (step : Step) (c : ExecutionContext)
      → str_eq step.run (lit "") ≡ false
      → Answers (run_step G H 1 r info m step c)
  unfolding run_shell_step
  shell_step-Answers r info m step c h =
      let o = exec_result-Answers (
        exec m
          (build_shell_cmd (or_text (or_text step.shell c.default_shell) (lit "bash"))
            (interpolate G (build_step_eval_ctx G H c step info) step.run))
          (env_slice (shell_env G H c (build_step_eval_ctx G H c step info) step))
          (shell_workdir G H c (build_step_eval_ctx G H c step info) step)) in
      (o.0, o.1, o.2, shell_dispatch r info m step c h ∙ o.3)

  module _ (run : World → Step → ExecutionContext → Ran World) (wf : Workflow) (job_id : Str)
      (job : Job) (info : JobInfo) (secrets : Dict Str) where
    -- Whatever the state, the step gets an answer.
    abbrev pub IsAnswered : ℕ → Step → Type 0
    IsAnswered i step =
        (m : World) (c : ExecutionContext)
        → Answers (run m (named G H run wf job_id job info secrets i step) c)

    abbrev pub AreAnswered : ℕ → List Step → Type 0
    AreAnswered i [] = Unit {0}
    AreAnswered i (step ∷ steps) = IsAnswered i step × AreAnswered (suc i) steps

    job_step-Ends :
        (i : ℕ) (step : Step) (s : JobState World)
        → IsAnswered i step
        → (s' : JobState World) × (job_step G H run wf job_id job info secrets i step s ≡ some s')
    unfolding execute_step
    job_step-Ends i step s a =
        elim (Bool-cases (chosen G H run wf job_id job info secrets i step s)) [
          | inl h ↦
              let o = a s.world s.context in
              (
                _,
                step_runs G H run wf job_id job info secrets i step s h
                    ∙ ap
                        (step_end G H run wf job_id job info secrets (step_id i step)
                          (named G H run wf job_id job info secrets i step) s)
                        o.3,
              )
          | inr h ↦ (
            skipped G H run wf job_id job info secrets i step s,
            step_skipped G H run wf job_id job info secrets i step s h,
          )
        ]

    job_steps-some :
        (i : ℕ) (steps : List Step) (s : JobState World)
        → AreAnswered i steps
        → (s' : JobState World) × (job_steps G H run wf job_id job info secrets i steps s ≡ some s')
    unfolding job_steps
    job_steps-some i [] s a = (s, refl)
    job_steps-some i (step ∷ steps) s a =
        let here = job_step-Ends i step s a.0 in
        let rest = job_steps-some (suc i) steps here.0 a.1 in
        let next : job_steps G H run wf job_id job info secrets i (step ∷ steps) s
            ≡ job_steps G H run wf job_id job info secrets (suc i) steps here.0 =
          rw (here.1, job_steps) refl in
        (rest.0, next ∙ rest.1)

    -- The loop ends, and behind it there are the results of just its steps and those there were.
    abbrev pub EndsNamed : ℕ → List Step → JobState World → Type 0
    EndsNamed i steps s =
        (s' : JobState World) × (job_steps G H run wf job_id job info secrets i steps s ≡ some s')
        × ((k : Str)
            → mem k (keys s'.context.step_results) ≡ (
                mem k (step_ids G H run wf job_id job info secrets i steps)
                || mem k (keys s.context.step_results)))

    pub job_steps-EndsNamed :
        (i : ℕ) (steps : List Step) (s : JobState World) → AreAnswered i steps → EndsNamed i steps s
    job_steps-EndsNamed i steps s a =
        let e = job_steps-some i steps s a in
        (e.0, e.1, λ k. steps_names G H run wf job_id job info secrets i steps s e.0 k e.1)

  abbrev pub HasCommand : Step → Type 0
  HasCommand step = str_eq step.run (lit "") ≡ false

  answered :
      (r : JobRunner) (wf : Workflow) (job_id : Str) (job : Job) (info : JobInfo)
      (secrets : Dict Str) (i : ℕ) (steps : List Step)
      → All HasCommand steps
      → AreAnswered (run_step G H 1 r info) wf job_id job info secrets i steps
  answered r wf job_id job info secrets i [] h = tt
  answered r wf job_id job info secrets i (step ∷ steps) h = (
    λ m c. shell_step-Answers r info m (record step { id = step_id i step }) c h.0,
    answered r wf job_id job info secrets (suc i) steps h.1,
  )

  -- Under one unit of fuel the steps of a job end if each has a command, and behind them there is a result for
  -- each step, run or skipped, by its name, beside the results there were, and no other.
  pub commands-EndsNamed :
      (r : JobRunner) (wf : Workflow) (job_id : Str) (job : Job) (info : JobInfo)
      (secrets : Dict Str) (steps : List Step) (s : JobState World)
      → All HasCommand steps
      → EndsNamed (run_step G H 1 r info) wf job_id job info secrets 0 steps s
  commands-EndsNamed r wf job_id job info secrets steps s h =
      job_steps-EndsNamed (run_step G H 1 r info) wf job_id job info secrets 0 steps s
        (answered r wf job_id job info secrets 0 steps h)
