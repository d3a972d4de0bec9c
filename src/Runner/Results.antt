-- ===== src/Runner/Results.antt =====
-- What the loop over the jobs in internal/runner/runner.go does with the order of BuildExecutionOrder.
use ghenkins.Prelude.{
  ℕ, ◌≡◌, ◌≢◌, refl, sym, ap, ◌∙◌, ◌⊎◌, inl, inr, Bool, true, false, ◌||◌, List, [], ◌∷◌, arith,
  if◌then◌else◌, Bool-cases, All,
}
use ghenkins.Prelude.Text.{Str}
use ghenkins.Prelude.Dict.{Dict, keys}
use ghenkins.Prelude.Names.{mem, count, count_pos, count_zero, Distinct, Within, Within-of}
use ghenkins.Workflow.{Job, ok, build_execution_order}
use ghenkins.Workflow.Order.Setup.{needs_of, OrderResult-cases}
use ghenkins.Workflow.Order.Waves.{concat}
use ghenkins.Workflow.Order.Results.{order-Respects, order-count}
use ghenkins.Expr.Context.{JobStatus, skipped, running}
use ghenkins.Executor.Jobs.{JobEnd}
use ghenkins.Runner.{
  Call, Progress, going, nil_job, any_failed, run_level, ended, fresh, run_order, run_jobs, refused,
  JobsEnd, Loop,
}
use ghenkins.Runner.Calls.{
  statuses, has_failure, has_failure-told, any_failure, Story, told, outcomes, passed_over,
  ran_with, is_passed_over,
}
use ghenkins.Runner.Turns.{IsResult, Finishes}
use ghenkins.Runner.Levels.{Behind, Respects-Behind, run_levels-concat}
use ghenkins.Runner.Stories.{
  Told, run_level-others, run_level-Told, run_level-IsCoded, run_level-going, run_level-ne-nil_job,
}

-- Whether a call has told of the failure of one of the jobs.
unfoldable pub any_need_failed : List Str → List Call → Bool
any_need_failed [] calls = false
any_need_failed (n ∷ ns) calls = has_failure (statuses n calls) || any_need_failed ns calls

-- A job is skipped where one of its needs has failed, and otherwise it starts and ends as `P` says.
abbrev pub IsHeard : (JobStatus → Type 0) → List Str → Str → List Call → Type 0
IsHeard P needs k calls =
    ((any_need_failed needs calls ≡ true) × (statuses k calls ≡ skipped ∷ []))
    ⊎ ((any_need_failed needs calls ≡ false)
        × (status : JobStatus) × P status
        × (statuses k calls ≡ running ∷ status ∷ []))

any_need_failed-any_failed :
    (needs failed : List Str) (calls : List Call)
    → ((n : Str) → mem n failed ≡ has_failure (statuses n calls))
    → any_failed needs failed ≡ any_need_failed needs calls
unfolding any_need_failed any_failed
any_need_failed-any_failed [] failed calls h = refl
any_need_failed-any_failed (n ∷ ns) failed calls h =
    ground (arith, h n, any_need_failed-any_failed ns failed calls h)

IsHeard-of :
    (P : JobStatus → Type 0) (needs : List Str) (k : Str) (calls : List Call) (t : Story)
    → statuses k calls ≡ told t
    → any_need_failed needs calls ≡ is_passed_over t
    → All P (outcomes t)
    → IsHeard P needs k calls
IsHeard-of P needs k calls passed_over s n p = inl (n, s)
IsHeard-of P needs k calls (ran_with status) s n p = inr (n, status, p.0, s)

module _ {W : Type 0} (now : W → ℕ) (run_job : W → Str → Job → JobEnd W) (jobs : Dict Job) where
  -- The waves, taken as one list, with what the order says of it.
  module _ (waves : List (List Str)) (d : Distinct (keys jobs))
      (o : build_execution_order jobs ≡ ok waves) (m : W) (s : Progress W)
      (e : run_level now run_job jobs (concat waves) (fresh now run_job jobs m) ≡ going s) where
    ids_Behind : Behind (needs_of jobs) (concat waves)
    unfolding count
    ids_Behind =
        Respects-Behind (needs_of jobs) [] waves (order-Respects jobs waves d o)
          (λ k. ground (arith, order-count jobs waves k d o))

    mem_ids : (k : Str) → mem k (concat waves) ≡ mem k (keys jobs)
    mem_ids k = ground (
      arith,
      order-count jobs waves k d o,
      count_pos k (concat waves),
      count_zero k (concat waves),
    )

    job-Told :
        (k : Str)
        → mem k (keys jobs) ≡ true
        → Told (IsResult now run_job jobs k) (needs_of jobs) k (fresh now run_job jobs m) s
    job-Told k h =
        run_level-Told now run_job jobs (concat waves) (fresh now run_job jobs m) s k e ids_Behind
          (mem_ids k ∙ h) (ground (arith, order-count jobs waves k d o))

    failed_heard : (k : Str) → mem k s.failed_jobs ≡ has_failure (statuses k s.calls)
    unfolding mem statuses has_failure
    failed_heard k = elim (Bool-cases (mem k (keys jobs))) [
      | inl h ↦
          let t = job-Told k h in
          t.kept ∙ ground (arith, has_failure-told t.story) ∙ sym (ap has_failure t.heard)
      | inr h ↦
          let t =
            run_level-others now run_job jobs (concat waves) (fresh now run_job jobs m) s k e
              (mem_ids k ∙ h) in
          t.1 ∙ sym (ap has_failure t.0)
    ]

    pub job-IsHeard :
        (k : Str)
        → mem k (keys jobs) ≡ true
        → IsHeard (IsResult now run_job jobs k) (needs_of jobs k) k s.calls
    unfolding statuses
    job-IsHeard k h =
        let t = job-Told k h in
        IsHeard-of (IsResult now run_job jobs k) (needs_of jobs k) k s.calls t.story t.heard
          (sym (any_need_failed-any_failed (needs_of jobs k) s.failed_jobs s.calls failed_heard)
            ∙ t.reason)
          t.ended_as

    pub stranger-unheard : (k : Str) → mem k (keys jobs) ≡ false → statuses k s.calls ≡ []
    unfolding statuses
    stranger-unheard k h =
        (run_level-others now run_job jobs (concat waves) (fresh now run_job jobs m) s k e
          (mem_ids k ∙ h)).0

  levels_end :
      (waves : List (List Str)) (m : W)
      → build_execution_order jobs ≡ ok waves
      → run_jobs now run_job jobs m
        ≡ ended (run_level now run_job jobs (concat waves) (fresh now run_job jobs m))
  unfolding run_jobs
  levels_end waves m o =
      ap (run_order now run_job jobs m) o
      ∙ ap ended (run_levels-concat now run_job jobs waves (fresh now run_job jobs m))

  waves_Within :
      (waves : List (List Str))
      → Distinct (keys jobs)
      → build_execution_order jobs ≡ ok waves
      → Within (keys jobs) (concat waves)
  waves_Within waves d o =
      Within-of (keys jobs) (concat waves)
        (λ k h. ground (arith, order-count jobs waves k d o, count_pos k (concat waves)))

  abbrev loop_of : JobsEnd W → Loop W
  loop_of (ended o) = o
  loop_of (refused e) = nil_job

  -- A loop that has begun has an order.
  ended-order :
      (m : W) (o : Loop W)
      → run_jobs now run_job jobs m ≡ ended o
      → (waves : List (List Str)) × (build_execution_order jobs ≡ ok waves)
        × (run_level now run_job jobs (concat waves) (fresh now run_job jobs m) ≡ o)
  unfolding run_jobs
  ended-order m o e = elim (OrderResult-cases (build_execution_order jobs)) [
    | inl (waves, good) ↦ (waves, good, ap loop_of (sym (levels_end waves m good) ∙ e))
    | inr (x, bad) ↦
        let clash : refused x ≡ ended o = sym (ap (run_order now run_job jobs m) bad) ∙ e in
        absurd (cc)
  ]

  -- The exit code of a run that ends is 1 if JobCallback has heard of a failure, and otherwise 0.
  pub run_jobs-exit_code :
      (m : W) (s : Progress W)
      → run_jobs now run_job jobs m ≡ ended (going s)
      → s.exit_code ≡ (if any_failure s.calls then 1 else 0)
  unfolding any_failure
  run_jobs-exit_code m s e =
      let o = ended-order m (going s) e in
      run_level-IsCoded now run_job jobs (concat o.0) (fresh now run_job jobs m) s o.2 refl

  -- The end of a run whose order is found: each job of the workflow is heard of, and no other.
  abbrev pub Ends : W → Type 0
  Ends m =
      (s : Progress W) × (run_jobs now run_job jobs m ≡ ended (going s))
      × ((k : Str)
          → mem k (keys jobs) ≡ true
          → IsHeard (IsResult now run_job jobs k) (needs_of jobs k) k s.calls)
      × ((k : Str) → mem k (keys jobs) ≡ false → statuses k s.calls ≡ [])
      × (s.exit_code ≡ (if any_failure s.calls then 1 else 0))

  -- Where the jobs, each under its own name, have an order and RunJob returns no error, the loop ends, and JobCallback hears of a job
  -- just once that it is skipped, if a job it needs has been told to fail, and otherwise just that it
  -- starts and then the status with which RunJob has returned for this job. It hears of nothing that is no job, and the exit code is 1 if it has heard of
  -- a failure, and otherwise 0.
  pub run_jobs-IsHeard :
      (waves : List (List Str)) (m : W)
      → Distinct (keys jobs)
      → build_execution_order jobs ≡ ok waves
      → Finishes now run_job jobs
      → Ends m
  run_jobs-IsHeard waves m d o f =
      let r =
        run_level-going now run_job jobs (concat waves) (fresh now run_job jobs m) f
          (waves_Within waves d o) in
      let e = levels_end waves m o ∙ ap ended r.1 in
      (
        r.0,
        e,
        job-IsHeard waves d o m r.0 r.1,
        stranger-unheard waves d o m r.0 r.1,
        run_jobs-exit_code m r.0 e,
      )

  -- A run never takes a job that is nil.
  pub run_jobs-ne-nil_job :
      (m : W) → Distinct (keys jobs) → run_jobs now run_job jobs m ≢ ended nil_job
  run_jobs-ne-nil_job m d e =
      let o = ended-order m nil_job e in
      run_level-ne-nil_job now run_job jobs (concat o.0) (fresh now run_job jobs m)
        (waves_Within o.0 d o.1) o.2
