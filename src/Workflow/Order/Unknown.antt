-- ===== src/Workflow/Order/Unknown.antt =====
-- The error of BuildExecutionOrder for a need that is no job.
use ghenkins.Prelude.{◌≡◌, true, inl, inr, none, List, [], ◌∷◌, arith, Option-cases}
use ghenkins.Prelude.Text.{Str, str_eq_iff, str_eq_self}
use ghenkins.Prelude.Dict.{Dict, lookup, keys}
use ghenkins.Prelude.Names.{mem, Distinct}
use ghenkins.Workflow.{
  Job, Graph, OrderError, unknown_job, err, needs_ids, add_need, add_needs, add_jobs,
}
use ghenkins.Workflow.Order.Setup.{needs_of, needs_of_cons, OrderResult-cases, mem_needs}

add_needs-error :
    (jobs : Dict Job) (id : Str) (needs : List Str) (g : Graph) (e : OrderError)
    → add_needs jobs id needs g ≡ err e
    → (n : Str) × (e ≡ unknown_job id n) × (mem n needs ≡ true) × (lookup n jobs ≡ none)
unfolding add_needs mem
add_needs-error jobs id [] g e h = cc
add_needs-error jobs id (need ∷ needs) g e h = elim (Option-cases (lookup need jobs)) [
  | inl missing ↦ (need, ground arith, ground (arith, str_eq_self need), missing)
  | inr (job, found) ↦
      let r = add_needs-error jobs id needs (add_need id need g) e (ground arith) in
      (r.0, r.1, ground (arith, r.2), r.3)
]

pub add_jobs-error :
    (jobs rest : Dict Job) (g : Graph) (e : OrderError)
    → Distinct (keys rest)
    → add_jobs jobs rest g ≡ err e
    → (id : Str) × (n : Str) × (e ≡ unknown_job id n)
      × (mem n (needs_of rest id) ≡ true)
      × (lookup n jobs ≡ none)
unfolding add_jobs
add_jobs-error jobs [] g e d h = cc
add_jobs-error jobs ((id, job) ∷ rest) g e d h =
    elim (OrderResult-cases (add_needs jobs id (needs_ids job) g)) [
      | inr (x, bad) ↦
          let r = add_needs-error jobs id (needs_ids job) g x bad in
          (
            id,
            r.0,
            ground (arith, r.1),
            ground (arith, r.2, needs_of_cons id id job rest, str_eq_self id),
            r.3,
          )
      | inl (g₁, good) ↦
          let r = add_jobs-error jobs rest g₁ e d.1 (ground arith) in
          let other = mem_needs rest r.0 r.1 r.3 in
          (
            r.0,
            r.1,
            r.2,
            ground (arith, r.3, other, needs_of_cons id r.0 job rest, str_eq_iff id r.0),
            r.4,
          )
    ]
