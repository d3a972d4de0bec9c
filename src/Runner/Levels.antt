-- ===== src/Runner/Levels.antt =====
-- The loop over the jobs in internal/runner/runner.go as a loop over one list, in which no job stands
-- before one that it needs.
use ghenkins.Prelude.{
  ℕ, ◌+◌, ◌≤◌, ◌≡◌, ◌≢◌, refl, sym, ap, ◌∙◌, true, false, List, [], ◌∷◌, ◌++◌, arith,
}
use ghenkins.Prelude.Text.{Str}
use ghenkins.Prelude.Dict.{Dict}
use ghenkins.Prelude.Names.{mem, count, count-append, count_pos, Within-mem}
use ghenkins.Workflow.{Job}
use ghenkins.Workflow.Order.Waves.{concat, Ready, Respects}
use ghenkins.Executor.Jobs.{JobEnd}
use ghenkins.Runner.{
  Progress, Loop, going, run_job_error, nil_job, nil_step, out_of_fuel, and_then, run_one,
  run_level, run_levels,
}

-- No job needs itself or one that stands behind it.
abbrev pub Behind : (Str → List Str) → List Str → Type 0
Behind needs [] = Unit {0}
Behind needs (id ∷ ids) =
    ((n : Str) → mem n (needs id) ≡ true → mem n (id ∷ ids) ≡ false) × Behind needs ids

Ready-Behind :
    (needs : Str → List Str) (done ids rest : List Str)
    → Ready needs done ids
    → ((k : Str) → mem k done ≡ true → mem k (ids ++ rest) ≡ false)
    → Behind needs rest
    → Behind needs (ids ++ rest)
unfolding mem
Ready-Behind needs done [] rest r apart b = b
Ready-Behind needs done (id ∷ ids) rest r apart b = (
  λ n h. apart n (Within-mem n done (needs id) r.0 h),
  Ready-Behind needs done ids rest r.1 (λ k h. ground (arith, apart k h)) b,
)

pub Respects-Behind :
    (needs : Str → List Str) (done : List Str) (waves : List (List Str))
    → Respects needs done waves
    → ((k : Str) → count k done + count k (concat waves) ≤ 1)
    → Behind needs (concat waves)
Respects-Behind needs done [] r once = tt
Respects-Behind needs done (wave ∷ waves) r once =
    Ready-Behind needs done wave (concat waves) r.0
      (λ k h. ground (arith, once k, count_pos k done, count_pos k (wave ++ concat waves)))
      (Respects-Behind needs (wave ++ done) waves r.1
        (λ k. ground (arith, once k, count-append k wave done, count-append k wave (concat waves))))

module _ {W : Type 0} where
  abbrev progress_of : Progress W → Loop W → Progress W
  progress_of s (going s') = s'
  progress_of s e = s

  pub going_same : (s s' : Progress W) → going s ≡ going s' → s ≡ s'
  going_same s s' e = ap (progress_of s) e

  pub and_then-cases :
      (o : Loop W) (f : Progress W → Loop W) (s' : Progress W)
      → and_then o f ≡ going s'
      → (t : Progress W) × (o ≡ going t) × (f t ≡ going s')
  and_then-cases (going t) f s' e = (t, refl, e)
  and_then-cases (run_job_error id t) f s' e = cc
  and_then-cases nil_job f s' e = cc
  and_then-cases nil_step f s' e = cc
  and_then-cases out_of_fuel f s' e = cc

  pub and_then-nil :
      (o : Loop W) (f : Progress W → Loop W)
      → and_then o f ≡ nil_job
      → o ≢ nil_job
      → (t : Progress W) × (f t ≡ nil_job)
  and_then-nil (going t) f e n = (t, e)
  and_then-nil (run_job_error id t) f e n = cc
  and_then-nil nil_job f e n = absurd (n refl)
  and_then-nil nil_step f e n = cc
  and_then-nil out_of_fuel f e n = cc

  and_then_assoc :
      (o : Loop W) (f g : Progress W → Loop W)
      → and_then (and_then o f) g ≡ and_then o (λ s. and_then (f s) g)
  and_then_assoc (going t) f g = refl
  and_then_assoc (run_job_error id t) f g = refl
  and_then_assoc nil_job f g = refl
  and_then_assoc nil_step f g = refl
  and_then_assoc out_of_fuel f g = refl

module _ {W : Type 0} (now : W → ℕ) (run_job : W → Str → Job → JobEnd W) (jobs : Dict Job) where
  run_level-append :
      (xs ys : List Str) (s : Progress W)
      → run_level now run_job jobs (xs ++ ys) s
        ≡ and_then (run_level now run_job jobs xs s) (λ t. run_level now run_job jobs ys t)
  unfolding run_level
  run_level-append [] ys s = refl
  run_level-append (x ∷ xs) ys s =
      ap (λ f. and_then (run_one now run_job jobs x s) f) (λ i t. run_level-append xs ys t i)
      ∙ sym (
          and_then_assoc (run_one now run_job jobs x s) (λ t. run_level now run_job jobs xs t)
            (λ t. run_level now run_job jobs ys t))

  pub run_levels-concat :
      (levels : List (List Str)) (s : Progress W)
      → run_levels now run_job jobs levels s ≡ run_level now run_job jobs (concat levels) s
  unfolding run_level run_levels
  run_levels-concat [] s = refl
  run_levels-concat (level ∷ levels) s =
      ap (λ f. and_then (run_level now run_job jobs level s) f)
        (λ i t. run_levels-concat levels t i)
      ∙ sym (run_level-append level (concat levels) s)
