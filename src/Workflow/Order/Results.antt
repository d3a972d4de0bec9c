-- ===== src/Workflow/Order/Results.antt =====
-- The results of BuildExecutionOrder of internal/runner/workflow.go: waves, a cycle, an unknown need.
use ghenkins.Prelude.{
  subst, ◌≡◌, ◌≢◌, refl, true, inl, inr, none, List, [], ◌∷◌, arith, if◌then◌else◌,
}
use mathlib.Core.Path.{subst₂}
use ghenkins.Prelude.Text.{Str, str_eq_self}
use ghenkins.Prelude.Dict.{Dict, lookup, keys}
use ghenkins.Prelude.Names.{lookup_of_mem, mem, count, Distinct, Within, Within-mem}
use ghenkins.Workflow.{
  Job, OrderResult, ok, err, unknown_job, cycle_detected, out_of_fuel, add_jobs,
  build_execution_order,
}
use ghenkins.Workflow.Order.Setup.{
  need_known, needs_of, NeedsKnown, add_jobs-Counted, OrderResult-cases,
}
use ghenkins.Workflow.Order.Waves.{Respects, Trapped, Trapped-never, concat}
use ghenkins.Workflow.Order.Sound.{empty_graph, from_graph-cases}
use ghenkins.Workflow.Order.Unknown.{add_jobs-error}

-- The waves are in order, and hold each job once.
abbrev IsOrder : Dict Job → List (List Str) → Type 0
IsOrder jobs waves =
    Respects (needs_of jobs) [] waves
    × ((k : Str) → count k (concat waves) ≡ (if mem k (keys jobs) then 1 else 0))

-- A need that is no job.
abbrev IsUnknown : Dict Job → Str → Str → Type 0
IsUnknown jobs id n = (mem n (needs_of jobs id) ≡ true) × (lookup n jobs ≡ none)

-- The three ways in which the function can end.
data Outcome (jobs : Dict Job) : OrderResult (List (List Str)) → Type 0 where
  ordered :
      {r : OrderResult (List (List Str))} (waves : List (List Str))
      → r ≡ ok waves
      → IsOrder jobs waves
      → Outcome jobs r
  trapped :
      {r : OrderResult (List (List Str))} (k : Str) (ks : List Str)
      → r ≡ err cycle_detected
      → NeedsKnown jobs jobs
      → Trapped (keys jobs) (needs_of jobs) (k ∷ ks) (k ∷ ks)
      → Outcome jobs r
  unknown :
      {r : OrderResult (List (List Str))} (id n : Str)
      → r ≡ err (unknown_job id n)
      → IsUnknown jobs id n
      → Outcome jobs r

order-Outcome : (jobs : Dict Job) → Distinct (keys jobs) → Outcome jobs (build_execution_order jobs)
unfolding build_execution_order
order-Outcome jobs d = elim (OrderResult-cases (add_jobs jobs jobs (empty_graph jobs))) [
  | inr (e, bad) ↦
      let r = add_jobs-error jobs jobs (empty_graph jobs) e d bad in
      unknown r.0 r.1 (ground (arith, r.2)) (r.3, r.4)
  | inl (g, good) ↦
      let c = add_jobs-Counted jobs g d good in
      elim (from_graph-cases jobs g d c.0 c.1) [
        | inl (waves, e, respects, counts) ↦ ordered waves (ground arith) (respects, counts)
        | inr (k, ks, e, t) ↦ trapped k ks (ground arith) c.1 t
      ]
]

-- Where the function returns waves, every job stands in a later wave than each job that it needs.
pub order-Respects :
    (jobs : Dict Job) (waves : List (List Str))
    → Distinct (keys jobs)
    → build_execution_order jobs ≡ ok waves
    → Respects (needs_of jobs) [] waves
order-Respects jobs waves d h = elim (order-Outcome jobs d) [
  | ordered ws e o ↦ subst (Respects (needs_of jobs) []) (cc) o.0
  | trapped k ks e _ _ ↦ cc
  | unknown id n e _ ↦ cc
]

-- Where the function returns waves, each job stands in them exactly once and nothing else does.
pub order-count :
    (jobs : Dict Job) (waves : List (List Str)) (k : Str)
    → Distinct (keys jobs)
    → build_execution_order jobs ≡ ok waves
    → count k (concat waves) ≡ (if mem k (keys jobs) then 1 else 0)
order-count jobs waves k d h = elim (order-Outcome jobs d) [
  | ordered ws e o ↦
      let same : ws ≡ waves = cc in
      subst (λ w. count k (concat w) ≡ (if mem k (keys jobs) then 1 else 0)) same (o.1 k)
  | trapped _ ks e _ _ ↦ cc
  | unknown id n e _ ↦ cc
]

-- Where the function reports a cycle, there is a non-empty set of jobs each of which needs a job of
-- the set.
pub cycle_detected-Trapped :
    (jobs : Dict Job)
    → Distinct (keys jobs)
    → build_execution_order jobs ≡ err cycle_detected
    → (k : Str) × (ks : List Str) × Trapped (keys jobs) (needs_of jobs) (k ∷ ks) (k ∷ ks)
cycle_detected-Trapped jobs d h = elim (order-Outcome jobs d) [
  | ordered ws e o ↦ cc
  | trapped k ks e _ t ↦ (k, ks, t)
  | unknown id n e _ ↦ cc
]

-- Where the function reports an unknown job `n`, the job `id` needs it and the workflow has no job of
-- that name.
pub unknown_job_sound :
    (jobs : Dict Job) (id n : Str)
    → Distinct (keys jobs)
    → build_execution_order jobs ≡ err (unknown_job id n)
    → (mem n (needs_of jobs id) ≡ true) × (lookup n jobs ≡ none)
unknown_job_sound jobs id n d h = elim (order-Outcome jobs d) [
  | ordered ws e o ↦ cc
  | trapped k ks e _ t ↦ cc
  | unknown id' n' e u ↦ subst₂ (IsUnknown jobs) (cc) (cc) u
]

-- If all needs are jobs and some waves that respect the needs hold every job, the function returns
-- waves: it reports no error, and its fuel is enough.
pub order_complete :
    (jobs : Dict Job) (valid : List (List Str))
    → Distinct (keys jobs)
    → NeedsKnown jobs jobs
    → Respects (needs_of jobs) [] valid
    → Within (concat valid) (keys jobs)
    → (waves : List (List Str)) × (build_execution_order jobs ≡ ok waves)
unfolding mem
order_complete jobs valid d known r covers = elim (order-Outcome jobs d) [
  | ordered ws e o ↦ (ws, e)
  | trapped k ks e _ t ↦
      let here : mem k (k ∷ ks) ≡ true = ground (arith, str_eq_self k) in
      let never =
        Trapped-never (keys jobs) (needs_of jobs) (k ∷ ks) [] valid t r (λ x m. refl) k here in
      let there = Within-mem k (concat valid) (keys jobs) covers t.0 in
      absurd (ground (arith, never, there))
  | unknown id n e u ↦
      absurd (ground (arith, lookup_of_mem n jobs (need_known jobs jobs id n known u.0), u.1))
]

-- Whatever the workflow, the fuel of the model is enough.
pub order-ne-out_of_fuel :
    (jobs : Dict Job) → Distinct (keys jobs) → build_execution_order jobs ≢ err out_of_fuel
order-ne-out_of_fuel jobs d h = elim (order-Outcome jobs d) [
  | ordered ws e o ↦ cc
  | trapped k ks e _ t ↦ cc
  | unknown id n e _ ↦ cc
]
