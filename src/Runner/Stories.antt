-- ===== src/Runner/Stories.antt =====
-- What the loop over the jobs in internal/runner/runner.go does for each job.
use ghenkins.Prelude.{
  ℕ, ◌≤◌, ◌≡◌, ◌≢◌, refl, subst, sym, ap, ◌∙◌, true, false, ◌||◌, List, [], ◌∷◌, ◌++◌, append-nil,
  arith, if◌then◌else◌, All, Bool-cases, inl, inr,
}
use ghenkins.Prelude.Text.{Str, str_eq, str_eq_iff, str_eq_self}
use ghenkins.Prelude.Dict.{Dict, keys}
use ghenkins.Prelude.Names.{mem, count, count_pos, Within}
use ghenkins.Workflow.{Job}
use ghenkins.Workflow.Order.Setup.{needs_of}
use ghenkins.Expr.Context.{JobStatus}
use ghenkins.Executor.Jobs.{JobEnd}
use ghenkins.Runner.{Progress, going, nil_job, and_then, any_failed, run_one, run_level}
use ghenkins.Runner.Calls.{
  statuses, any_failure, Story, told, outcomes, did_fail, is_passed_over, Turn,
}
use ghenkins.Runner.Turns.{IsResult, run_one-Turn, Finishes, run_one-ne-nil_job, run_one-going}
use ghenkins.Runner.Levels.{Behind, going_same, and_then-cases, and_then-nil}

any_failed-same :
    (needs xs ys : List Str)
    → ((n : Str) → mem n needs ≡ true → mem n xs ≡ mem n ys)
    → any_failed needs xs ≡ any_failed needs ys
unfolding any_failed mem
any_failed-same [] xs ys h = refl
any_failed-same (n ∷ ns) xs ys h = ground (
  arith,
  h n (ground (arith, str_eq_self n)),
  any_failed-same ns xs ys (λ k m. h k (ground arith)),
)

-- What the loop over a list of jobs does for one job of the list.
pub record Told {W : Type 0} (P : JobStatus → Type 0) (needs : Str → List Str) (k : Str)
    (s s' : Progress W) : Type 0 where
  pub story : Story
  pub heard : statuses k s'.calls ≡ statuses k s.calls ++ told story
  pub kept : mem k s'.failed_jobs ≡ (did_fail story || mem k s.failed_jobs)
  pub ended_as : All P (outcomes story)
  pub reason : any_failed (needs k) s'.failed_jobs ≡ is_passed_over story

module _ {W : Type 0} (now : W → ℕ) (run_job : W → Str → Job → JobEnd W) (jobs : Dict Job) where
  -- The first turn of a loop that goes on, and the turns behind it.
  abbrev FirstTurn : Str → List Str → Progress W → Progress W → Type 0
  FirstTurn id ids s s' =
      (t : Progress W) × Turn (IsResult now run_job jobs id) id (needs_of jobs id) s t
      × (run_level now run_job jobs ids t ≡ going s')

  run_level-FirstTurn :
      (id : Str) (ids : List Str) (s s' : Progress W)
      → run_level now run_job jobs (id ∷ ids) s ≡ going s'
      → FirstTurn id ids s s'
  unfolding run_level
  run_level-FirstTurn id ids s s' e =
      let o =
        and_then-cases (run_one now run_job jobs id s) (λ t. run_level now run_job jobs ids t) s'
          e in
      (o.0, run_one-Turn now run_job jobs id s o.0 o.1, o.2)

  run_level-done : (s s' : Progress W) → run_level now run_job jobs [] s ≡ going s' → s ≡ s'
  unfolding run_level
  run_level-done s s' e = going_same s s' e

  abbrev Untold : Str → Progress W → Progress W → Type 0
  Untold k s s' =
      (statuses k s'.calls ≡ statuses k s.calls) × (mem k s'.failed_jobs ≡ mem k s.failed_jobs)

  pub run_level-others :
      (ids : List Str) (s s' : Progress W) (k : Str)
      → run_level now run_job jobs ids s ≡ going s'
      → mem k ids ≡ false
      → Untold k s s'
  unfolding mem
  run_level-others [] s s' k e h = subst (Untold k s) (run_level-done s s' e) (refl, refl)
  run_level-others (id ∷ ids) s s' k e h =
      let f = run_level-FirstTurn id ids s s' e in
      let rest = run_level-others ids f.0 s' k f.2 (ground (arith)) in
      (
        rest.0 ∙ ground (arith, f.1.told_calls k, append-nil (statuses k s.calls)),
        rest.1 ∙ ground (arith, f.1.told_failed k),
      )

  pub run_level-Told :
      (ids : List Str) (s s' : Progress W) (k : Str)
      → run_level now run_job jobs ids s ≡ going s'
      → Behind (needs_of jobs) ids
      → mem k ids ≡ true
      → count k ids ≤ 1
      → Told (IsResult now run_job jobs k) (needs_of jobs) k s s'
  unfolding mem count
  run_level-Told [] s s' k e b h c = cc
  run_level-Told (id ∷ ids) s s' k e b h c =
      let f = run_level-FirstTurn id ids s s' e in
      elim (Bool-cases (str_eq id k)) [
        | inl same ↦
            let rest = run_level-others ids f.0 s' k f.2 (ground (arith, count_pos k ids)) in
            record {
              story = f.1.story;
              heard = rest.0 ∙ ground (arith, f.1.told_calls k);
              kept = rest.1 ∙ ground (arith, f.1.told_failed k);
              ended_as =
                  subst (λ j. All (IsResult now run_job jobs j) (outcomes f.1.story))
                    ((str_eq_iff id k).0 same) f.1.ended_as;
              reason =
                  ap (λ j. any_failed (needs_of jobs j) s'.failed_jobs)
                    (sym ((str_eq_iff id k).0 same))
                  ∙ any_failed-same (needs_of jobs id) s'.failed_jobs s.failed_jobs
                      (λ n m. (run_level-others (id ∷ ids) s s' n e (b.0 n m)).1)
                  ∙ f.1.choice;
            }
        | inr other ↦
            let rest = run_level-Told ids f.0 s' k f.2 b.1 (ground arith) (ground arith) in
            record {
              story = rest.story;
              heard =
                  rest.heard ∙ ground (arith, f.1.told_calls k, append-nil (statuses k s.calls));
              kept = rest.kept ∙ ground (arith, f.1.told_failed k);
              ended_as = rest.ended_as;
              reason = rest.reason;
            }
      ]

  -- The exit code is 1 if a call has told of a failure, and 0 if not.
  abbrev pub IsCoded : Progress W → Type 0
  IsCoded s = s.exit_code ≡ (if any_failure s.calls then 1 else 0)

  pub run_level-IsCoded :
      (ids : List Str) (s s' : Progress W)
      → run_level now run_job jobs ids s ≡ going s'
      → IsCoded s
      → IsCoded s'
  run_level-IsCoded [] s s' e c = subst IsCoded (run_level-done s s' e) c
  run_level-IsCoded (id ∷ ids) s s' e c =
      let f = run_level-FirstTurn id ids s s' e in
      run_level-IsCoded ids f.0 s' f.2 (ground (arith, c, f.1.told_code, f.1.told_failure))

  pub run_level-going :
      (ids : List Str) (s : Progress W)
      → Finishes now run_job jobs
      → Within (keys jobs) ids
      → (s' : Progress W) × (run_level now run_job jobs ids s ≡ going s')
  unfolding run_level
  run_level-going [] s f w = (s, refl)
  run_level-going (id ∷ ids) s f w =
      let here = run_one-going now run_job jobs id s f w.0 in
      let rest = run_level-going ids here.0 f w.1 in
      (rest.0, ap (λ o. and_then o (λ t. run_level now run_job jobs ids t)) here.1 ∙ rest.1)

  -- The loop meets no job that is nil.
  pub run_level-ne-nil_job :
      (ids : List Str) (s : Progress W)
      → Within (keys jobs) ids
      → run_level now run_job jobs ids s ≢ nil_job
  unfolding run_level
  run_level-ne-nil_job [] s w e = cc
  run_level-ne-nil_job (id ∷ ids) s w e =
      let o =
        and_then-nil (run_one now run_job jobs id s) (λ t. run_level now run_job jobs ids t) e
          (run_one-ne-nil_job now run_job jobs id s w.0) in
      run_level-ne-nil_job ids o.0 w.1 o.1
