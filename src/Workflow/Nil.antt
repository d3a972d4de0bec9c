-- ===== src/Workflow/Nil.antt =====
-- The nil jobs of a file in BuildExecutionOrder of internal/runner/workflow.go.
use ghenkins.Prelude.{
  ◌≡◌, refl, ap, sym, ◌∙◌, List, [], ◌∷◌, Option, none, some, Option-cases, inl, inr,
}
use ghenkins.Prelude.Text.{Str}
use ghenkins.Prelude.Dict.{Dict, lookup}
use ghenkins.Workflow.{Job, OrderError, unknown_job, needs_ids}

-- The first of the needs that is no job of the file.
unfoldable pub missing_need : Dict (Option Job) → List Str → Option Str
missing_need jobs [] = none
missing_need jobs (need ∷ needs) = elim (lookup need jobs) [
  | none ↦ some need
  | some _ ↦ missing_need jobs needs
]

-- What the second loop of BuildExecutionOrder comes to on the jobs of a file: the jobs, of which none is nil,
-- or the error for a job in front of the first nil one, or the panic on that.
pub data Checked : Type 0 where
  all_there : Dict Job → Checked
  not_ordered : OrderError → Checked
  nil_pointer : Checked

abbrev with_job : Str → Job → Checked → Checked
with_job id job (all_there jobs) = all_there ((id, job) ∷ jobs)
with_job id job c = c

unfoldable pub check_jobs : Dict (Option Job) → Dict (Option Job) → Checked
unfolding missing_need
check_jobs jobs [] = all_there []
check_jobs jobs ((id, none) ∷ rest) = nil_pointer
check_jobs jobs ((id, some job) ∷ rest) = elim (missing_need jobs (needs_ids job)) [
  | some need ↦ not_ordered (unknown_job id need)
  | none ↦ with_job id job (check_jobs jobs rest)
]

-- The jobs as a file without nil jobs has them.
unfoldable pub in_file : Dict Job → Dict (Option Job)
in_file [] = []
in_file ((id, job) ∷ jobs) = (id, some job) ∷ in_file jobs

with_job-in_file :
    (id : Str) (job : Job) (rest : Dict (Option Job)) (jobs : Dict Job) (c : Checked)
    → ((js : Dict Job) → c ≡ all_there js → rest ≡ in_file js)
    → with_job id job c ≡ all_there jobs
    → (id, some job) ∷ rest ≡ in_file jobs
unfolding in_file
with_job-in_file id job rest jobs (all_there js) h e =
    ap (λ r. (id, some job) ∷ r) (h js refl) ∙ ap in_file (ap (jobs_of []) e)
  where
    jobs_of : Dict Job → Checked → Dict Job
    jobs_of d (all_there js) = js
    jobs_of d c = d
with_job-in_file id job rest jobs (not_ordered x) h e = cc
with_job-in_file id job rest jobs nil_pointer h e = cc

-- The jobs that the loop goes on with are those of the file, of which none is nil.
pub check_jobs-in_file :
    (file rest : Dict (Option Job)) (jobs : Dict Job)
    → check_jobs file rest ≡ all_there jobs
    → rest ≡ in_file jobs
unfolding check_jobs in_file
check_jobs-in_file file [] [] e = refl
check_jobs-in_file file [] (x ∷ jobs) e = cc
check_jobs-in_file file ((id, none) ∷ rest) jobs e = cc
check_jobs-in_file file ((id, some job) ∷ rest) jobs e =
    elim (Option-cases (missing_need file (needs_ids job))) [
      | inl n ↦
          let goes_on : check_jobs file ((id, some job) ∷ rest)
              ≡ with_job id job (check_jobs file rest) =
            rw (n, check_jobs) refl in
          with_job-in_file id job rest jobs (check_jobs file rest)
            (λ js h. check_jobs-in_file file rest js h) (sym goes_on ∙ e)
      | inr (need, n) ↦
          let refuses : check_jobs file ((id, some job) ∷ rest)
              ≡ not_ordered (unknown_job id need) =
            rw (n, check_jobs) refl in
          let clash : not_ordered (unknown_job id need) ≡ all_there jobs = sym refuses ∙ e in
          absurd (cc)
    ]
