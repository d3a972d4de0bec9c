-- ===== src/Runner/Turns.antt =====
-- The turns of the loop over the jobs in internal/runner/runner.go.
use ghenkins.Prelude.{
  ℕ, ◌≡◌, ◌≢◌, refl, subst, sym, ap, ◌∙◌, Bool, true, false, List, none, some, arith, Option-cases,
  Bool-cases, inl, inr,
}
use ghenkins.Prelude.Text.{Str}
use ghenkins.Prelude.Dict.{Dict, lookup, keys}
use ghenkins.Prelude.Names.{mem, lookup_of_mem}
use ghenkins.Workflow.{Job, needs_ids}
use ghenkins.Workflow.Order.Setup.{needs_of}
use ghenkins.Expr.Context.{JobStatus, running}
use ghenkins.Executor.Jobs.{JobEnd, finished, job_error, job_panicked, job_out_of_fuel, JobResult}
use ghenkins.Runner.{
  call, Progress, nil_job, going, any_failed, notify, skip_job, job_ended, start_job, run_one,
}
use ghenkins.Runner.Calls.{Turn, progress_of, skip_job-Turn, ended, ended-Turn}

module _ {W : Type 0} (now : W → ℕ) (run_job : W → Str → Job → JobEnd W) (jobs : Dict Job) where
  -- A status with which RunJob has returned for the job of the workflow that has the name.
  abbrev pub IsResult : Str → JobStatus → Type 0
  IsResult id status =
      (job : Job) × (m : W) × (m' : W) × (r : JobResult) × (lookup id jobs ≡ some job)
      × (run_job m id job ≡ finished m' r)
      × (status ≡ r.status)

  job_ended-Turn :
      (id : Str) (job : Job) (needs : List Str) (s s' : Progress W) (o : JobEnd W)
      → lookup id jobs ≡ some job
      → run_job s.world id job ≡ o
      → any_failed needs s.failed_jobs ≡ false
      → job_ended now run_job jobs id
          (now s.world)
          (notify now run_job jobs (call id running (some (now s.world)) none) s)
          o
        ≡ going s'
      → Turn (IsResult id) id needs s s'
  job_ended-Turn id job needs s s' (finished m r) l c h e =
      subst (Turn (IsResult id) id needs s) (ap (progress_of s) e) (
        ended-Turn (IsResult id) id needs (some (now s.world)) (some (now m)) m r s h
          (job, s.world, m, r, l, c, refl))
  job_ended-Turn id job needs s s' (job_error m r) l c h e = cc
  job_ended-Turn id job needs s s' job_panicked l c h e = cc
  job_ended-Turn id job needs s s' job_out_of_fuel l c h e = cc

  needs_of_job :
      (id : Str) (job : Job) → lookup id jobs ≡ some job → needs_of jobs id ≡ needs_ids job
  unfolding needs_of
  needs_of_job id job e = ground arith

  run_one_skips :
      (id : Str) (job : Job) (s : Progress W)
      → lookup id jobs ≡ some job
      → any_failed (needs_ids job) s.failed_jobs ≡ true
      → run_one now run_job jobs id s ≡ going (skip_job now run_job jobs id s)
  unfolding run_one
  run_one_skips id job s n h = rw (n, h, run_one) refl

  run_one_starts :
      (id : Str) (job : Job) (s : Progress W)
      → lookup id jobs ≡ some job
      → any_failed (needs_ids job) s.failed_jobs ≡ false
      → run_one now run_job jobs id s ≡ start_job now run_job jobs id job s
  unfolding run_one
  run_one_starts id job s n h = rw (n, h, run_one) refl

  run_one_nil :
      (id : Str) (s : Progress W) → lookup id jobs ≡ none → run_one now run_job jobs id s ≡ nil_job
  unfolding run_one
  run_one_nil id s n = rw (n, run_one) refl

  pub run_one-Turn :
      (id : Str) (s s' : Progress W)
      → run_one now run_job jobs id s ≡ going s'
      → Turn (IsResult id) id (needs_of jobs id) s s'
  run_one-Turn id s s' e = elim (Option-cases (lookup id jobs)) [
    | inl n ↦ let clash : nil_job ≡ going s' = sym (run_one_nil id s n) ∙ e in absurd (cc)
    | inr (job, n) ↦
        let same = λ (b : Bool) (h : any_failed (needs_ids job) s.failed_jobs ≡ b).
          ap (λ ns. any_failed ns s.failed_jobs) (needs_of_job id job n) ∙ h in
        elim (Bool-cases (any_failed (needs_ids job) s.failed_jobs)) [
          | inl h ↦
              subst (Turn (IsResult id) id (needs_of jobs id) s)
                (ap (progress_of s) (sym (run_one_skips id job s n h) ∙ e))
                (skip_job-Turn (IsResult id) id (needs_of jobs id) s (same true h))
          | inr h ↦
              job_ended-Turn id job (needs_of jobs id) s s' (run_job s.world id job) n refl
                (same false h) (sym (run_one_starts id job s n h) ∙ e)
        ]
  ]

  -- RunJob returns no error and does not run out of fuel.
  abbrev pub Finishes : Type 0
  Finishes =
      (m : W) (id : Str) (job : Job)
      → (m' : W) × (r : JobResult) × (run_job m id job ≡ finished m' r)

  start_job-going :
      (id : Str) (job : Job) (s : Progress W)
      → Finishes
      → (s' : Progress W) × (start_job now run_job jobs id job s ≡ going s')
  start_job-going id job s f =
      let r = f s.world id job in
      (
        ended id (some (now s.world)) (some (now r.0)) r.0 r.1 s,
        ap
            (job_ended now run_job jobs id (now s.world)
              (notify now run_job jobs (call id running (some (now s.world)) none) s))
            r.2,
      )

  pub run_one-going :
      (id : Str) (s : Progress W)
      → Finishes
      → mem id (keys jobs) ≡ true
      → (s' : Progress W) × (run_one now run_job jobs id s ≡ going s')
  run_one-going id s f known =
      let found = lookup_of_mem id jobs known in
      elim (Bool-cases (any_failed (needs_ids found.0) s.failed_jobs)) [
        | inl h ↦ (skip_job now run_job jobs id s, run_one_skips id found.0 s found.1 h)
        | inr h ↦
            let r = start_job-going id found.0 s f in
            (r.0, run_one_starts id found.0 s found.1 h ∙ r.1)
      ]

  job_ended-ne-nil_job :
      (id : Str) (b : ℕ) (s : Progress W) (o : JobEnd W)
      → job_ended now run_job jobs id b s o ≢ nil_job
  job_ended-ne-nil_job id b s (finished m r) e = cc
  job_ended-ne-nil_job id b s (job_error m r) e = cc
  job_ended-ne-nil_job id b s job_panicked e = cc
  job_ended-ne-nil_job id b s job_out_of_fuel e = cc

  pub run_one-ne-nil_job :
      (id : Str) (s : Progress W)
      → mem id (keys jobs) ≡ true
      → run_one now run_job jobs id s ≢ nil_job
  run_one-ne-nil_job id s known e =
      let found = lookup_of_mem id jobs known in
      elim (Bool-cases (any_failed (needs_ids found.0) s.failed_jobs)) [
        | inl h ↦
            let clash : going (skip_job now run_job jobs id s) ≡ nil_job =
              sym (run_one_skips id found.0 s found.1 h) ∙ e in
            cc
        | inr h ↦
            job_ended-ne-nil_job id (now s.world)
              (notify now run_job jobs (call id running (some (now s.world)) none) s)
              (run_job s.world id found.0) (sym (run_one_starts id found.0 s found.1 h) ∙ e)
      ]
