-- ===== src/Daemon/JobRows.antt =====
-- The rows of jobs that JobCallback of internal/daemon/daemon.go writes.
use ghenkins.Prelude.{
  ℕ, drop, ◌≡◌, ◌⊎◌, inl, inr, refl, sym, ap, ◌∙◌, Bool, false, ◌&&◌, List, [], ◌∷◌, ◌++◌, Option,
  none, some, arith, All, All-append, if◌then◌else◌, Bool-cases,
}
use ghenkins.Prelude.Text.{Str, lit, str_eq, str_eq_iff, str_eq_self}
use ghenkins.Expr.Context.{JobStatus, pending, running, success, failure, skipped, cancelled}
use ghenkins.Runner.{Call}
use ghenkins.Runner.Calls.{statuses}
use ghenkins.Store.{
  RunJob, RunJobStatus, job_pending, job_running, job_success, job_failure, job_skipped, any,
  update, select, overwrite, is_taken, upsert_run_job,
}
use ghenkins.Daemon.{job_status_to_string, job_row, job_callback}

-- The calls of a run one after another.
unfoldable pub record_calls : (ℕ → Str) → Str → List RunJob → List Call → List RunJob
unfolding job_callback
record_calls show_time run_id rows [] = rows
record_calls show_time run_id rows (c ∷ cs) =
    record_calls show_time run_id (job_callback show_time run_id rows c) cs

-- The status that a table has for a job.
abbrev status_in : List RunJob → Option RunJobStatus
status_in [] = none
status_in (x ∷ xs) = some x.status

unfoldable pub status_of : Str → Str → List RunJob → Option RunJobStatus
unfolding select
status_of run_id k rows =
    status_in (select (λ x. str_eq x.job_name k) (select (λ x. str_eq x.run_id run_id) rows))

-- What a status of the runner is in a row: a cancelled job is a failed one there.
unfoldable pub stored : JobStatus → RunJobStatus
stored pending = job_pending
stored running = job_running
stored success = job_success
stored failure = job_failure
stored skipped = job_skipped
stored cancelled = job_failure

job_status_to_string-stored : (s : JobStatus) → job_status_to_string s ≡ stored s
unfolding job_status_to_string stored
job_status_to_string-stored pending = refl
job_status_to_string-stored running = refl
job_status_to_string-stored success = refl
job_status_to_string-stored failure = refl
job_status_to_string-stored skipped = refl
job_status_to_string-stored cancelled = refl

-- What the last of some statuses is in a row, or else what the row had.
unfoldable pub last_status : Option RunJobStatus → List JobStatus → Option RunJobStatus
unfolding stored
last_status o [] = o
last_status o (s ∷ ss) = last_status (some (stored s)) ss

cancel_front : (p s t : Str) → p ++ s ≡ p ++ t → s ≡ t
cancel_front [] s t e = e
cancel_front (x ∷ p) s t e = cancel_front p s t (ap (drop 1) e)

module _ (show_time : ℕ → Str) (run_id : Str) where
  abbrev key : Str → Str
  key k = run_id ++ lit "-" ++ k

  -- A row of the run has the key of its job, and a row of another run has not the key of a job of this run.
  abbrev pub IsKeyed : RunJob → Type 0
  IsKeyed x =
      (x.run_id ≡ run_id × x.id ≡ key x.job_name)
      ⊎ ((str_eq x.run_id run_id ≡ false) × ((k : Str) → str_eq x.id (key k) ≡ false))

  key_same : (j k : Str) → key j ≡ key k → j ≡ k
  key_same j k e = cancel_front (run_id ++ lit "-") j k e

  -- The rows of the job.
  abbrev same : Call → RunJob → Bool
  same c x = str_eq x.run_id run_id && str_eq x.job_name c.job_name

  own_not_taken :
      (c : Call) (x : RunJob)
      → x.run_id ≡ run_id
      → x.id ≡ key x.job_name
      → is_taken (job_row show_time run_id c) x ≡ false
  unfolding job_row
  own_not_taken c x r i = elim (Bool-cases (str_eq x.id (key c.job_name))) [
    | inl e ↦
        let names =
          key_same x.job_name c.job_name (sym i ∙ (str_eq_iff x.id (key c.job_name)).0 e) in
        ground (arith, (str_eq_iff x.job_name c.job_name).1 names, (str_eq_iff x.run_id run_id).1 r)
    | inr e ↦ ground (arith, e)
  ]

  not_taken :
      (c : Call) (rows : List RunJob)
      → All IsKeyed rows
      → any (is_taken (job_row show_time run_id c)) rows ≡ false
  unfolding any job_row
  not_taken c [] h = refl
  not_taken c (x ∷ xs) h = elim h.0 [
    | inl (r, i) ↦ ground (arith, own_not_taken c x r i, not_taken c xs h.1)
    | inr (r, i) ↦ ground (arith, i c.job_name, not_taken c xs h.1)
  ]

  update-IsKeyed :
      (c : Call) (rows : List RunJob)
      → All IsKeyed rows
      → All IsKeyed (update (same c) (overwrite (job_row show_time run_id c)) rows)
  unfolding update job_row
  update-IsKeyed c [] h = tt
  update-IsKeyed c (x ∷ xs) h = elim (Bool-cases (same c x)) [
    | inl e ↦
        let names : x.job_name ≡ c.job_name = (str_eq_iff x.job_name c.job_name).0 (ground arith) in
        let run : x.run_id ≡ run_id = (str_eq_iff x.run_id run_id).0 (ground arith) in
        rw e (inl (run, ap key (sym names)), update-IsKeyed c xs h.1)
    | inr e ↦ rw e (h.0, update-IsKeyed c xs h.1)
  ]

  job_callback-IsKeyed :
      (c : Call) (rows : List RunJob)
      → All IsKeyed rows
      → All IsKeyed (job_callback show_time run_id rows c)
  unfolding job_callback upsert_run_job job_row
  job_callback-IsKeyed c rows h = elim (Bool-cases (any (same c) rows)) [
    | inl e ↦ rw (not_taken c rows h, e) (update-IsKeyed c rows h)
    | inr e ↦
        rw (not_taken c rows h, e)
          (All-append IsKeyed rows (job_row show_time run_id c ∷ []) h (inl (refl, refl), tt))
  ]

  -- The status of the job in the first of its rows.
  abbrev found : Str → List RunJob → Option RunJobStatus
  found k rows = status_of run_id k rows

  abbrev is_mine : Str → RunJob → Bool
  is_mine k x = str_eq x.run_id run_id && str_eq x.job_name k

  abbrev or_else_found : Bool → RunJobStatus → Option RunJobStatus → Option RunJobStatus
  or_else_found b s o = if b then some s else o

  found_cons :
      (k : Str) (x : RunJob) (xs : List RunJob)
      → found k (x ∷ xs) ≡ or_else_found (is_mine k x) x.status (found k xs)
  unfolding status_of select
  found_cons k x xs = ground arith

  found-update :
      (c : Call) (k : Str) (rows : List RunJob)
      → found k (update (same c) (overwrite (job_row show_time run_id c)) rows)
        ≡ or_else_found
            (str_eq c.job_name k && any (same c) rows)
            (job_status_to_string c.status)
            (found k rows)
  unfolding any update job_row
  found-update c k [] = ground arith
  found-update c k (x ∷ xs) = ground (
    arith,
    found_cons k x xs,
    found_cons k (overwrite (job_row show_time run_id c) x)
        (update (same c) (overwrite (job_row show_time run_id c)) xs),
    found_cons k x (update (same c) (overwrite (job_row show_time run_id c)) xs),
    found-update c k xs,
    str_eq_iff c.job_name k,
    str_eq_iff x.job_name k,
    str_eq_iff x.job_name c.job_name,
  )

  found-append :
      (c : Call) (k : Str) (rows : List RunJob)
      → any (same c) rows ≡ false
      → found k (rows ++ job_row show_time run_id c ∷ [])
        ≡ or_else_found (str_eq c.job_name k) (job_status_to_string c.status) (found k rows)
  unfolding any job_row
  found-append c k [] h =
      found_cons k (job_row show_time run_id c) [] ∙ ground (arith, str_eq_self run_id)
  found-append c k (x ∷ xs) h = ground (
    arith,
    found_cons k x xs,
    found_cons k x (xs ++ job_row show_time run_id c ∷ []),
    found-append c k xs,
    str_eq_iff c.job_name k,
    str_eq_iff x.job_name k,
    str_eq_iff x.job_name c.job_name,
  )

  found-job_callback :
      (c : Call) (k : Str) (rows : List RunJob)
      → All IsKeyed rows
      → found k (job_callback show_time run_id rows c)
        ≡ or_else_found (str_eq c.job_name k) (job_status_to_string c.status) (found k rows)
  unfolding job_callback upsert_run_job
  found-job_callback c k rows h = elim (Bool-cases (any (same c) rows)) [
    | inl e ↦ rw (not_taken c rows h, e) (found-update c k rows ∙ ground (arith, e))
    | inr e ↦ rw (not_taken c rows h, e) (found-append c k rows e)
  ]

  -- Behind any calls of JobCallback the row of a job has the status that the last call about the job told (a
  -- cancelled job is a failure there), if the table has begun with rows that have the keys of their jobs; a job that no call is about keeps its status.
  pub record_calls-last :
      (k : Str) (rows : List RunJob) (cs : List Call)
      → All IsKeyed rows
      → status_of run_id k (record_calls show_time run_id rows cs)
        ≡ last_status (status_of run_id k rows) (statuses k cs)
  unfolding record_calls statuses last_status
  record_calls-last k rows [] h = refl
  record_calls-last k rows (c ∷ cs) h =
      let rest =
        record_calls-last k (job_callback show_time run_id rows c) cs
          (job_callback-IsKeyed c rows h) in
      let here = found-job_callback c k rows h in
      elim (Bool-cases (str_eq c.job_name k)) [
        | inl e ↦
            let now = ap some (job_status_to_string-stored c.status) in
            rw e (rest ∙ ap (λ o. last_status o (statuses k cs)) (here ∙ ground (arith, e) ∙ now))
        | inr e ↦ rw e (rest ∙ ap (λ o. last_status o (statuses k cs)) (here ∙ ground (arith, e)))
      ]
