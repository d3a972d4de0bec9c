-- ===== src/Daemon/Recovery.antt =====
-- recoverStaleRuns of internal/daemon/daemon.go.
use ghenkins.Prelude.{
  ◌≤◌, ◌≡◌, refl, ap, ap₂, ◌∙◌, inl, inr, Bool, true, false, ◌&&◌, List, [], ◌∷◌, none, some, arith,
  length, if◌then◌else◌, Bool-cases,
}
use ghenkins.Prelude.Text.{Str, str_eq_self, str_eq_iff}
use ghenkins.Prelude.Int.{pos}
use ghenkins.Prelude.Names.{mem, Distinct}
use ghenkins.Store.{Run, error, any, update, is_run, set_status, update_run_status, list_runs}
use ghenkins.Store.Runs.{any-newest_first, list_runs_all}
use ghenkins.Daemon.{is_stale, recover_rows, recover_stale_runs}

abbrev pub ids : List Run → List Str
ids [] = []
ids (x ∷ xs) = x.id ∷ ids xs

-- The row is stale and has the same key.
abbrev covers : Run → Run → Bool
covers x r = is_stale r.status && is_run r.id x

abbrev closed : Str → Run → Run
closed now x = set_status error none (some now) x

abbrev close_if : Bool → Str → Run → Run
close_if b now x = if b then closed now x else x

-- The table with the rows closed that a list of runs covers.
abbrev close_covered : List Run → Str → List Run → List Run
close_covered runs now [] = []
close_covered runs now (x ∷ xs) = close_if (any (covers x) runs) now x ∷ close_covered runs now xs

close_nothing : (now : Str) (rows : List Run) → rows ≡ close_covered [] now rows
unfolding any
close_nothing now [] = refl
close_nothing now (x ∷ xs) = ap (λ r. x ∷ r) (close_nothing now xs)

close_stale :
    (r : Run) (runs : List Run) (now : Str) (rows : List Run)
    → is_stale r.status ≡ true
    → close_covered runs now (update (is_run r.id) (closed now) rows)
      ≡ close_covered (r ∷ runs) now rows
unfolding any update
close_stale r runs now [] h = refl
close_stale r runs now (x ∷ xs) h = elim (Bool-cases (is_run r.id x)) [
  | inl m ↦
      rw (m, h)
        (ap₂ (λ y ys. y ∷ ys)
          (elim (Bool-cases (any (covers x) runs)) [ inl c ↦ rw c refl | inr c ↦ rw c refl ])
          (close_stale r runs now xs h))
  | inr m ↦
      rw (m, h) (ap (λ ys. close_if (any (covers x) runs) now x ∷ ys) (close_stale r runs now xs h))
]

close_fresh :
    (r : Run) (runs : List Run) (now : Str) (rows : List Run)
    → is_stale r.status ≡ false
    → close_covered runs now rows ≡ close_covered (r ∷ runs) now rows
unfolding any
close_fresh r runs now [] h = refl
close_fresh r runs now (x ∷ xs) h =
    rw h (ap (λ ys. close_if (any (covers x) runs) now x ∷ ys) (close_fresh r runs now xs h))

recover_rows-covered :
    (runs : List Run) (now : Str) (rows : List Run)
    → recover_rows runs now rows ≡ close_covered runs now rows
unfolding recover_rows update_run_status
recover_rows-covered [] now rows = close_nothing now rows
recover_rows-covered (r ∷ runs) now rows = elim (Bool-cases (is_stale r.status)) [
  | inl h ↦
      ap
        (λ b.
          recover_rows runs now
            (if b then update_run_status rows r.id error none (some now) else rows))
        h
      ∙ recover_rows-covered runs now (update (is_run r.id) (closed now) rows)
      ∙ close_stale r runs now rows h
  | inr h ↦
      ap
        (λ b.
          recover_rows runs now
            (if b then update_run_status rows r.id error none (some now) else rows))
        h
      ∙ recover_rows-covered runs now rows
      ∙ close_fresh r runs now rows h
]

close_same :
    (runs runs' : List Run) (now : Str) (rows : List Run)
    → ((x : Run) → any (covers x) runs ≡ any (covers x) runs')
    → close_covered runs now rows ≡ close_covered runs' now rows
close_same runs runs' now [] h = refl
close_same runs runs' now (x ∷ xs) h =
    ap₂ (λ b ys. close_if b now x ∷ ys) (h x) (close_same runs runs' now xs h)

covers_none :
    (x : Run) (rows : List Run) → mem x.id (ids rows) ≡ false → any (covers x) rows ≡ false
unfolding any mem
covers_none x [] h = refl
covers_none x (y ∷ ys) h =
    ground (arith, covers_none x ys, str_eq_iff x.id y.id, str_eq_iff y.id x.id)

-- Each row closed if it is stale.
abbrev pub recovered : Str → List Run → List Run
recovered now [] = []
recovered now (x ∷ xs) = close_if (is_stale x.status) now x ∷ recovered now xs

-- The rows in front do not have the keys of those behind.
close_self :
    (runs : List Run) (now : Str) (rows : List Run)
    → ((x : Run) → mem x.id (ids rows) ≡ true → any (covers x) runs ≡ any (covers x) rows)
    → Distinct (ids rows)
    → close_covered runs now rows ≡ recovered now rows
unfolding any mem
close_self runs now [] h d = refl
close_self runs now (x ∷ xs) h d =
    ap₂ (λ b ys. close_if b now x ∷ ys)
      (h x (ground (arith, str_eq_self x.id))
        ∙ ground (arith, covers_none x xs d.0, str_eq_self x.id))
      (close_self runs now xs
        (λ y m. h y (ground arith) ∙ ground (arith, str_eq_iff x.id y.id, str_eq_iff y.id x.id))
        d.1)

-- If there are at most 10000 runs and their keys are distinct, recoverStaleRuns makes each run that is
-- queued or running an error with no exit code that has finished now, and leaves the others as they are.
pub recover_stale_runs-recovered :
    (now : Str) (rows : List Run)
    → Distinct (ids rows)
    → length rows ≤ 10000
    → recover_stale_runs now rows ≡ recovered now rows
unfolding recover_stale_runs
recover_stale_runs-recovered now rows d h =
    recover_rows-covered (list_runs rows (pos 0)) now rows
    ∙ close_self (list_runs rows (pos 0)) now rows
        (λ x m. ap (any (covers x)) (list_runs_all rows h) ∙ any-newest_first (covers x) rows) d
