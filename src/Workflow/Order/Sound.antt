-- ===== src/Workflow/Order/Sound.antt =====
-- What the results of BuildExecutionOrder mean.
use ghenkins.Prelude.{
  suc, ◌+◌, ◌<◌, ◌≡◌, refl, sym, ap, subst, ◌∙◌, true, false, ◌⊎◌, inl, inr, some, List, [], ◌∷◌,
  arith, if◌then◌else◌, length, Bool-cases,
}
use ghenkins.Prelude.Text.{Str}
use ghenkins.Prelude.Int.{pos}
use ghenkins.Prelude.Dict.{Dict, lookup, keys}
use ghenkins.Prelude.Names.{
  mem, count, count-Distinct, Distinct, Within-of, mem_of_lookup, lookup_of_mem, length-le-keys,
}
use ghenkins.Workflow.{
  Job, Graph, ok, err, cycle_detected, Progress, init_degrees, kahn, finish, from_graph,
}
use ghenkins.Workflow.Order.Setup.{Counted, needs_of, NeedsKnown, need_known, needs_of_absent}
use ghenkins.Workflow.Order.Pending.{pending, pending_witness}
use ghenkins.Workflow.Order.Loop.{Inv, Arrows, Ended, kahn-Ended, Names-cases}
use ghenkins.Workflow.Order.Degrees.{no_zero}
use ghenkins.Workflow.Order.Waves.{Trapped, Trapped-of, Respects, concat}

pending_all : (ns : List Str) → pending [] ns ≡ length ns
unfolding pending mem
pending_all [] = refl
pending_all (n ∷ ns) = ap suc (pending_all ns)

abbrev pub empty_graph : Dict Job → Graph
empty_graph jobs = record { in_degree = init_degrees jobs []; dependents = [] }

abbrev no_progress : Progress
no_progress = record { result = []; processed = 0 }

length-keys {ℓ} : {V : Type ℓ} (m : Dict V) → length (keys m) ≡ length m
length-keys [] = refl
length-keys ((k, v) ∷ m) = ap suc (length-keys m)

abbrev CountedJobs : Dict Job → Graph → Type 0
CountedJobs jobs =
    Counted (keys jobs) (λ k. length (needs_of jobs k)) (λ k n. count n (needs_of jobs k))

degree_keys :
    (jobs : Dict Job) (g : Graph) (k : Str)
    → CountedJobs jobs g
    → mem k (keys g.in_degree) ≡ mem k (keys jobs)
degree_keys jobs g k c = elim (Bool-cases (mem k (keys jobs))) [
  | inl m ↦ rw m (mem_of_lookup k g.in_degree (pos (length (needs_of jobs k))) (rw (c.degree k, m)))
  | inr m ↦ elim (Bool-cases (mem k (keys g.in_degree))) [
    | inl x ↦ let r = lookup_of_mem k g.in_degree x in ground (arith, r.1, c.degree k)
    | inr x ↦ rw (m, x)
  ]
]

mem_empty : (k : Str) (xs : List Str) → length xs ≡ 0 → mem k xs ≡ false
unfolding mem
mem_empty k [] h = refl
mem_empty k (x ∷ xs) h = ground arith

module _ (jobs : Dict Job) (g : Graph) (distinct : Distinct (keys jobs))
    (c : CountedJobs jobs g) where
  graph-Inv : Inv (keys jobs) (needs_of jobs) g.dependents [] g.in_degree
  unfolding mem
  graph-Inv = record {
    distinct = c.distinct;
    degree = λ k. ground (arith, c.degree k, pending_all (needs_of jobs k));
    done_distinct = tt;
    done_known = λ k h. cc;
    done_closed = λ k h. cc;
    size = omega (
      arith,
      length-le-keys (keys jobs) g.in_degree distinct c.distinct
          (Within-of (keys g.in_degree) (keys jobs) (λ k h. degree_keys jobs g k c ∙ h)),
      length-le-keys (keys g.in_degree) jobs c.distinct distinct
          (Within-of (keys jobs) (keys g.in_degree) (λ k h. sym (degree_keys jobs g k c) ∙ h)),
    );
  }

  graph-Arrows : Arrows (keys jobs) (needs_of jobs) g.dependents
  graph-Arrows = record { arrow = c.arrow; unnamed = λ k h. needs_of_absent k jobs h }

  abbrev EndedJobs : Type 0
  EndedJobs =
      Ended (keys jobs) (needs_of jobs) g.dependents [] no_progress
        (kahn (suc (length jobs)) g.dependents g.in_degree no_progress)

  graph-Ended : EndedJobs
  graph-Ended =
      kahn-Ended (keys jobs) (needs_of jobs) g.dependents graph-Arrows (suc (length jobs)) []
        g.in_degree no_progress graph-Inv (omega (arith, graph-Inv.size, length-keys {0} jobs))

  from_graph_runs :
      from_graph jobs g
      ≡ finish jobs
          (record { result = graph-Ended.waves; processed = 0 + length (concat graph-Ended.waves) })
  unfolding from_graph
  from_graph_runs = rw (graph-Ended.returns, from_graph)

  -- A job that is not done after the loop has a degree that is not 0.
  left_over :
      (k : Str)
      → mem k (keys jobs) ≡ true
      → mem k graph-Ended.done_after ≡ false
      → (mem k (keys graph-Ended.deg_after) ≡ true)
        × (0 < pending graph-Ended.done_after (needs_of jobs k))
  left_over k known open_job =
      let i = graph-Ended.invariant in
      let found : lookup k graph-Ended.deg_after
          ≡ some (pos (pending graph-Ended.done_after (needs_of jobs k))) =
        ground (arith, i.degree k) in
      (
        mem_of_lookup k graph-Ended.deg_after _ found,
        no_zero k graph-Ended.deg_after _ graph-Ended.no_zeros found,
      )

  -- What is left after the loop is a job, not done, and needs something else that is left.
  left-trapped :
      NeedsKnown jobs jobs
      → (k : Str) → mem k (keys graph-Ended.deg_after) ≡ true
      → (mem k (keys jobs) ≡ true)
        × ((n : Str) × (mem n (needs_of jobs k) ≡ true)
            × (mem n (keys graph-Ended.deg_after) ≡ true))
  left-trapped known k h =
      let found = lookup_of_mem k graph-Ended.deg_after h in
      let place : (mem k (keys jobs) ≡ true) × (mem k graph-Ended.done_after ≡ false) =
        ground (arith, graph-Ended.invariant.degree k, found.1) in
      let w =
        pending_witness graph-Ended.done_after (needs_of jobs k) (left_over k place.0 place.1).1 in
      (place.0, (w.0, w.1, (left_over w.0 (need_known jobs jobs k w.0 known w.1) w.2).0))

  all_left-Trapped :
      NeedsKnown jobs jobs
      → Trapped
          (keys jobs)
          (needs_of jobs)
          (keys graph-Ended.deg_after)
          (keys graph-Ended.deg_after)
  all_left-Trapped known =
      Trapped-of (keys jobs) (needs_of jobs) (keys graph-Ended.deg_after)
        (keys graph-Ended.deg_after) (left-trapped known)

  sizes : length (keys graph-Ended.deg_after) + length (concat graph-Ended.waves) ≡ length jobs
  sizes = omega (arith, graph-Ended.invariant.size, graph-Ended.lengths, length-keys {0} jobs)

  -- A job is in the waves as often as among the jobs done.
  wave_count :
      (k : Str)
      → count k (concat graph-Ended.waves) ≡ (if mem k graph-Ended.done_after then 1 else 0)
  unfolding count
  wave_count k =
      omega (arith, graph-Ended.counts k)
      ∙ count-Distinct k graph-Ended.done_after graph-Ended.invariant.done_distinct

  done_iff_job :
      length (keys graph-Ended.deg_after) ≡ 0
      → (k : Str) → mem k graph-Ended.done_after ≡ mem k (keys jobs)
  done_iff_job h k = elim (Bool-cases (mem k graph-Ended.done_after)) [
    | inl d ↦ d ∙ sym (graph-Ended.invariant.done_known k d)
    | inr d ↦ elim (Bool-cases (mem k (keys jobs))) [
      | inl j ↦
          let left = (left_over k j d).0 in
          ground (arith, left, mem_empty k (keys graph-Ended.deg_after) h)
      | inr j ↦ d ∙ sym j
    ]
  ]

  -- Where nothing is left each job is in the waves once, and nothing else is.
  complete_count :
      length (keys graph-Ended.deg_after) ≡ 0
      → (k : Str) → count k (concat graph-Ended.waves) ≡ (if mem k (keys jobs) then 1 else 0)
  complete_count h k = wave_count k ∙ ground (arith, done_iff_job h k)

  -- What the rest of BuildExecutionOrder returns once the graph is built.
  pub from_graph-cases :
      NeedsKnown jobs jobs
      → ((waves : List (List Str)) × (from_graph jobs g ≡ ok waves)
          × Respects (needs_of jobs) [] waves
          × ((k : Str) → count k (concat waves) ≡ (if mem k (keys jobs) then 1 else 0)))
        ⊎ ((k : Str) × (ks : List Str) × (from_graph jobs g ≡ err cycle_detected)
            × Trapped (keys jobs) (needs_of jobs) (k ∷ ks) (k ∷ ks))
  unfolding finish
  from_graph-cases known = elim (Names-cases (keys graph-Ended.deg_after)) [
    | inl e ↦
        let n = ap length e in
        inl (
          graph-Ended.waves,
          ground (arith, from_graph_runs, sizes),
          graph-Ended.respects,
          complete_count n,
        )
    | inr (k, ks, e) ↦
        let n = ap length e in
        inr (
          k,
          ks,
          ground (arith, from_graph_runs, sizes),
          subst (λ l. Trapped (keys jobs) (needs_of jobs) l l) e (all_left-Trapped known),
        )
  ]
