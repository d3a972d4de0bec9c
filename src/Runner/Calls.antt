-- ===== src/Runner/Calls.antt =====
-- One turn of the loop over the jobs in internal/runner/runner.go: what JobCallback hears of it.
use ghenkins.Prelude.{
  ℕ, ◌≡◌, refl, Bool, true, false, ◌&&◌, ◌||◌, List, [], ◌∷◌, ◌++◌, append_assoc, Option, none,
  arith, if◌then◌else◌, All,
}
use ghenkins.Prelude.Text.{Str, str_eq}
use ghenkins.Prelude.Names.{mem}
use ghenkins.Expr.Context.{JobStatus, skipped, running}
use ghenkins.Executor.Jobs.{JobResult, is_status_failure}
use ghenkins.Runner.{Call, call, Progress, Loop, going, any_failed}

-- The statuses that the calls give for one job.
unfoldable pub statuses : Str → List Call → List JobStatus
statuses k [] = []
statuses k (c ∷ cs) = if str_eq c.job_name k then c.status ∷ statuses k cs else statuses k cs

unfoldable pub has_failure : List JobStatus → Bool
has_failure [] = false
has_failure (s ∷ ss) = is_status_failure s || has_failure ss

unfoldable pub any_failure : List Call → Bool
any_failure [] = false
any_failure (c ∷ cs) = is_status_failure c.status || any_failure cs

pub statuses-append :
    (k : Str) (cs ds : List Call) → statuses k (cs ++ ds) ≡ statuses k cs ++ statuses k ds
unfolding statuses
statuses-append k [] ds = refl
statuses-append k (c ∷ cs) ds = ground (arith, statuses-append k cs ds)

pub has_failure-append :
    (ss ts : List JobStatus) → has_failure (ss ++ ts) ≡ (has_failure ss || has_failure ts)
unfolding has_failure
has_failure-append [] ts = refl
has_failure-append (s ∷ ss) ts = ground (arith, has_failure-append ss ts)

pub any_failure-append :
    (cs ds : List Call) → any_failure (cs ++ ds) ≡ (any_failure cs || any_failure ds)
unfolding any_failure
any_failure-append [] ds = refl
any_failure-append (c ∷ cs) ds = ground (arith, any_failure-append cs ds)

-- What happens to a job: it is skipped, or it runs and ends with a status.
pub data Story : Type 0 where
  passed_over : Story
  ran_with : JobStatus → Story

abbrev pub told : Story → List JobStatus
told passed_over = skipped ∷ []
told (ran_with s) = running ∷ s ∷ []

abbrev pub is_passed_over : Story → Bool
is_passed_over passed_over = true
is_passed_over (ran_with s) = false

abbrev pub did_fail : Story → Bool
did_fail passed_over = false
did_fail (ran_with s) = is_status_failure s

-- The status that a job which has run ended with.
abbrev pub outcomes : Story → List JobStatus
outcomes passed_over = []
outcomes (ran_with s) = s ∷ []

pub has_failure-told : (t : Story) → has_failure (told t) ≡ did_fail t
unfolding has_failure
has_failure-told passed_over = refl
has_failure-told (ran_with s) = ground arith

-- A turn of the loop for the job with the given needs, which can end as `P` says.
pub record Turn {W : Type 0} (P : JobStatus → Type 0) (id : Str) (needs : List Str)
    (s s' : Progress W) : Type 0 where
  pub story : Story
  pub told_calls :
      (k : Str)
      → statuses k s'.calls ≡ statuses k s.calls ++ (if str_eq id k then told story else [])
  pub told_failed :
      (k : Str) → mem k s'.failed_jobs ≡ ((str_eq id k && did_fail story) || mem k s.failed_jobs)
  pub told_code : s'.exit_code ≡ (if did_fail story then 1 else s.exit_code)
  pub told_failure : any_failure s'.calls ≡ (any_failure s.calls || did_fail story)
  pub ended_as : All P (outcomes story)
  pub choice : any_failed needs s.failed_jobs ≡ is_passed_over story

mem_if_failed :
    (k id : Str) (b : Bool) (xs : List Str)
    → mem k (if b then id ∷ xs else xs) ≡ ((str_eq id k && b) || mem k xs)
unfolding mem
mem_if_failed k id b xs = ground arith

module _ {W : Type 0} where
  abbrev pub progress_of : Progress W → Loop W → Progress W
  progress_of s (going s') = s'
  progress_of s e = s

  statuses-notify :
      (k id : Str) (status : JobStatus) (b e : Option ℕ) (s : Progress W)
      → statuses k (s.calls ++ call id status b e ∷ [])
        ≡ statuses k s.calls ++ (if str_eq id k then status ∷ [] else [])
  unfolding statuses
  statuses-notify k id status b e s = rw statuses-append refl

  any_failure-notify :
      (id : Str) (status : JobStatus) (b e : Option ℕ) (s : Progress W)
      → any_failure (s.calls ++ call id status b e ∷ [])
        ≡ (any_failure s.calls || is_status_failure status)
  unfolding any_failure
  any_failure-notify id status b e s =
      ground (arith, any_failure-append s.calls (call id status b e ∷ []))

  pub skip_job-Turn :
      (P : JobStatus → Type 0) (id : Str) (needs : List Str) (s : Progress W)
      → any_failed needs s.failed_jobs ≡ true
      → Turn P id needs s (record s { calls = s.calls ++ call id skipped none none ∷ [] })
  skip_job-Turn P id needs s h = record {
    story = passed_over;
    told_calls = λ k. statuses-notify k id skipped none none s;
    told_failed = λ k. ground arith;
    told_code = refl;
    told_failure = any_failure-notify id skipped none none s;
    ended_as = tt;
    choice = h;
  }

  -- The state behind a job that has run.
  abbrev pub ended : Str → Option ℕ → Option ℕ → W → JobResult → Progress W → Progress W
  ended id b e m r s = record {
    world = m;
    exit_code = if is_status_failure r.status then 1 else s.exit_code;
    failed_jobs = if is_status_failure r.status then id ∷ s.failed_jobs else s.failed_jobs;
    calls = (s.calls ++ call id running b none ∷ []) ++ call id r.status b e ∷ [];
  }

  pub ended-Turn :
      (P : JobStatus → Type 0) (id : Str) (needs : List Str) (b e : Option ℕ) (m : W)
      (r : JobResult) (s : Progress W)
      → any_failed needs s.failed_jobs ≡ false
      → P r.status
      → Turn P id needs s (ended id b e m r s)
  unfolding statuses any_failure
  ended-Turn P id needs b e m r s h p = record {
    story = ran_with r.status;
    told_calls = λ k.
        rw (statuses-append, statuses-append)
          (ground (
            arith,
            append_assoc (statuses k s.calls) (statuses k (call id running b none ∷ []))
                (statuses k (call id r.status b e ∷ [])),
          ));
    told_failed = λ k. mem_if_failed k id (is_status_failure r.status) s.failed_jobs;
    told_code = refl;
    told_failure = ground (
      arith,
      any_failure-append (s.calls ++ call id running b none ∷ []) (call id r.status b e ∷ []),
      any_failure-notify id running b none s,
    );
    ended_as = (p, tt);
    choice = h;
  }
