-- ===== src/Daemon/Lifecycle.antt =====
-- The row of a run through runJob of internal/daemon/daemon.go.
use ghenkins.Prelude.{
  ◌≡◌, ◌≢◌, ◌⊎◌, inl, inr, refl, ap, ◌∙◌, zero, suc, Bool, true, false, ◌&&◌, List, [], ◌∷◌, ◌++◌,
  none, some, Option, if◌then◌else◌,
}
use ghenkins.Prelude.Text.{Str, lit, str_eq, str_eq_self}
use ghenkins.Prelude.Int.{pos, negsuc}
use ghenkins.Config.{WorkflowRef}
use ghenkins.Poller.{Job}
use ghenkins.Store.{
  Run, running, success, failure, error, canceled, any, update, is_run, set_status, create_run,
  update_run_status, update_run_sha,
}
use ghenkins.Store.Runs.{update_none, update-append}
use ghenkins.Daemon.{
  RunnerEnd, returned, runner_error, Alive, Cancels, Times, final_of, exit_code_of, new_run,
  create_row, write_status, write_sha, write_canceled, run_job,
}

abbrev pub all_alive : Alive
all_alive = record { at_create = true; at_start = true; at_resolve = true; at_end = true }

-- The context ends while the runner is at work, before or after it has resolved the commit.
abbrev pub ended_early : Bool → Alive
ended_early b = record { at_create = true; at_start = true; at_resolve = b; at_end = false }

-- CancelRun may write while the runner is at work.
abbrev pub cancel_at : Option Str → Cancels
cancel_at c = record {
  before_start = none;
  before_resolve = none;
  before_end = c;
  after_end = none;
}

-- The commit of the row behind the runner.
abbrev pub shown_sha : Str → Option Str → Str
shown_sha sha none = sha
shown_sha sha (some commit) = if str_eq sha (lit "manual") then commit else sha

-- What the end of the runner makes of the row: success for exit code 0, failure for any other, and error if it
-- has returned one.
abbrev pub IsEnd : RunnerEnd → Run → Type 0
IsEnd (runner_error e) r = (r.status ≡ error) × (r.exit_code ≡ some (pos 0))
IsEnd (returned code) r =
    (r.exit_code ≡ some code)
    × (((code ≡ pos 0) × (r.status ≡ success)) ⊎ ((code ≢ pos 0) × (r.status ≡ failure)))

-- What a run that was cut short has: the mark of CancelRun with its time, or else neither an end nor a code.
abbrev pub IsCutShort : Option Str → Run → Type 0
IsCutShort none r = (r.status ≡ running) × (r.finished_at ≡ none) × (r.exit_code ≡ none)
IsCutShort (some now) r = (r.status ≡ canceled) × (r.finished_at ≡ some now) × (r.exit_code ≡ none)

-- What a row keeps of the job from its creation on.
pub record IsRowOf (j : Job) (wf : WorkflowRef) (run_id : Str) (t : Times) (path : Str) (r : Run)
    : Type 0 where
  pub id : r.id ≡ run_id
  pub watch_name : r.watch_name ≡ j.watch_name
  pub repo : r.repo ≡ j.repo
  pub workflow_name : r.workflow_name ≡ wf.name
  pub started_at : r.started_at ≡ t.started
  pub log_path : r.log_path ≡ path

update_last :
    (f : Run → Run) (rows : List Run) (r : Run)
    → any (is_run r.id) rows ≡ false
    → update (is_run r.id) f (rows ++ r ∷ []) ≡ rows ++ f r ∷ []
unfolding update
update_last f rows r h =
    update-append (is_run r.id) f rows (r ∷ [])
    ∙ ap (λ xs. xs ++ update (is_run r.id) f (r ∷ [])) (update_none (is_run r.id) f rows h)
    ∙ rw (str_eq_self r.id) refl

create_last :
    (rows : List Run) (r : Run)
    → any (is_run r.id) rows ≡ false
    → create_row true rows r ≡ rows ++ r ∷ []
unfolding create_row create_run
create_last rows r h = rw h refl

abbrev with_sha : Str → Run → Run
with_sha sha r = record r { sha = sha }

write_sha_last :
    (b : Bool) (sha : Str) (resolved : Option Str) (rows : List Run) (r : Run)
    → any (is_run r.id) rows ≡ false
    → (commit : Str) × (write_sha b (rows ++ r ∷ []) r.id sha resolved
        ≡ rows ++ with_sha commit r ∷ [])
unfolding write_sha update_run_sha
write_sha_last b sha none rows r h = (r.sha, refl)
write_sha_last b sha (some resolved) rows r h =
    elim (str_eq sha (lit "manual") && b)
      as (λ x.
        (commit : Str) × ((if x
            then update (is_run r.id) (with_sha resolved) (rows ++ r ∷ [])
            else rows ++ r ∷ [])
          ≡ rows ++ with_sha commit r ∷ [])) [
            | true ↦ (resolved, update_last (with_sha resolved) rows r h)
            | false ↦ (r.sha, refl)
          ]

write_sha_alive :
    (sha : Str) (resolved : Option Str) (rows : List Run) (r : Run)
    → any (is_run r.id) rows ≡ false
    → r.sha ≡ sha
    → write_sha true (rows ++ r ∷ []) r.id sha resolved
      ≡ rows ++ with_sha (shown_sha sha resolved) r ∷ []
unfolding write_sha update_run_sha
write_sha_alive sha none rows r h e = ap (λ c. rows ++ with_sha c r ∷ []) e
write_sha_alive sha (some resolved) rows r h e =
    elim (str_eq sha (lit "manual"))
      as (λ x.
        (if x && true
          then update (is_run r.id) (with_sha resolved) (rows ++ r ∷ [])
          else rows ++ r ∷ [])
        ≡ rows ++ with_sha (if x then resolved else sha) r ∷ []) [
          | true ↦ update_last (with_sha resolved) rows r h
          | false ↦ ap (λ c. rows ++ with_sha c r ∷ []) e
        ]

final_of-IsEnd :
    (t : Times) (e : RunnerEnd) (finished : Option Str) (r : Run)
    → IsEnd e (set_status (final_of t e).status (some (exit_code_of e)) finished r)
unfolding final_of
final_of-IsEnd t (runner_error x) finished r = (refl, refl)
final_of-IsEnd t (returned (pos zero)) finished r = (refl, inl (refl, refl))
final_of-IsEnd t (returned (pos (suc n))) finished r = (refl, inr (λ h. cc, refl))
final_of-IsEnd t (returned (negsuc n)) finished r = (refl, inr (λ h. cc, refl))

module _ (bind : Str) (j : Job) (wf : WorkflowRef) (run_id : Str) (t : Times) (log_path : Str)
    (resolved : Option Str) (e : RunnerEnd) (rows : List Run) where
  abbrev row : Run
  row = new_run j wf.name run_id t log_path

  abbrev started_row : Run
  started_row = set_status running none none row

  started_last :
      any (is_run run_id) rows ≡ false
      → write_status true (create_row true rows row) run_id running none none
        ≡ rows ++ started_row ∷ []
  unfolding write_status update_run_status new_run
  started_last h =
      ap (λ xs. update_run_status xs run_id running none none) (create_last rows row h)
      ∙ update_last (set_status running none none) rows row h

  -- A run with a new key, whose context lives to its end and that nobody cancels, leaves one more row. It has
  -- the status success for exit code 0, failure for any other, and error with code 0 if the runner has
  -- returned an error; the time of the end; and the commit of the job or, for "manual", the one that the
  -- runner has found.
  pub run_job-row :
      any (is_run run_id) rows ≡ false
      → (r : Run) × ((run_job bind j wf run_id t log_path all_alive
            (cancel_at none)
            resolved
            e
            rows).0
          ≡ rows ++ r ∷ [])
        × IsRowOf j wf run_id t log_path r
        × IsEnd e r
        × (r.finished_at ≡ some t.finished)
        × (r.sha ≡ shown_sha j.sha resolved)
  unfolding run_job write_status write_canceled update_run_status new_run
  run_job-row h =
      let f = set_status (final_of t e).status (some (exit_code_of e)) (some t.finished) in
      let known = with_sha (shown_sha j.sha resolved) started_row in
      (
        f known,
        ap (λ xs. update (is_run run_id) f (write_sha true xs run_id j.sha resolved))
              (started_last h)
            ∙ ap (update (is_run run_id) f) (write_sha_alive j.sha resolved rows started_row h refl)
            ∙ update_last f rows known h,
        record {
          id = refl;
          watch_name = refl;
          repo = refl;
          workflow_name = refl;
          started_at = refl;
          log_path = refl;
        },
        final_of-IsEnd t e (some t.finished) known,
        refl,
        refl,
      )

  canceled_last :
      (c : Option Str) (r : Run)
      → any (is_run r.id) rows ≡ false
      → IsCutShort none r
      → IsRowOf j wf run_id t log_path r
      → (r' : Run) × (write_canceled (rows ++ r ∷ []) r.id c ≡ rows ++ r' ∷ [])
        × IsRowOf j wf run_id t log_path r'
        × IsCutShort c r'
  unfolding write_canceled update_run_status
  canceled_last none r h k o = (r, refl, o, k)
  canceled_last (some now) r h k o = (
    set_status canceled none (some now) r,
    update_last (set_status canceled none (some now)) rows r h,
    record {
      id = o.id;
      watch_name = o.watch_name;
      repo = o.repo;
      workflow_name = o.workflow_name;
      started_at = o.started_at;
      log_path = o.log_path;
    },
    (refl, refl, refl),
  )

  -- If the context ends while the runner is at work, the row of a run with a new key never has the status and
  -- the exit code of the runner's end: it is canceled, with the time of CancelRun, where CancelRun has ended the
  -- context, and otherwise it stays running with no time of an end.
  pub run_job-IsCutShort :
      (b : Bool) (c : Option Str)
      → any (is_run run_id) rows ≡ false
      → (r : Run) × ((run_job bind j wf run_id t log_path
            (ended_early b)
            (cancel_at c)
            resolved
            e
            rows).0
          ≡ rows ++ r ∷ [])
        × IsRowOf j wf run_id t log_path r
        × IsCutShort c r
  unfolding run_job write_status write_canceled new_run
  run_job-IsCutShort b c h =
      let known = write_sha_last b j.sha resolved rows started_row h in
      let last =
        canceled_last c (with_sha known.0 started_row) h (refl, refl, refl)
          (record {
            id = refl;
            watch_name = refl;
            repo = refl;
            workflow_name = refl;
            started_at = refl;
            log_path = refl;
          }) in
      (
        last.0,
        ap (λ xs. write_canceled (write_sha b xs run_id j.sha resolved) run_id c) (started_last h)
            ∙ ap (λ xs. write_canceled xs run_id c) known.1
            ∙ last.1,
        last.2,
        last.3,
      )
