-- ===== src/Workflow/Order/Setup.antt =====
-- The first two loops of BuildExecutionOrder: inDegree counts the needs of each job, and dependents
-- holds an arrow for each of them.
use ghenkins.Prelude.{
  ℕ, suc, ◌+◌, ◌≡◌, refl, ◌∙◌, subst, true, false, ◌⊎◌, inl, inr, none, some, List, [], ◌∷◌, ◌++◌,
  arith, if◌then◌else◌, length, Bool-cases, Option-cases,
}
use ghenkins.Prelude.Text.{Str, str_eq, str_eq_iff}
use ghenkins.Prelude.Int.{ℤ, pos}
use ghenkins.Prelude.Dict.{Dict, lookup, insert, keys, lookup_or, lookup-insert, lookup_or-insert}
use ghenkins.Prelude.Names.{
  mem, count, count-append, Distinct, Distinct-insert, Within, Within-of, lookup-none,
  mem_of_lookup,
}
use ghenkins.Workflow.{
  Job, Graph, OrderResult, ok, err, OrderError, init_degrees, add_need, add_needs, add_jobs,
  needs_ids,
}

-- The graph over the jobs `names`, with `degrees k` needs of `k` and `arrows k n` arrows from `n` to `k`.
pub record Counted (names : List Str) (degrees : Str → ℕ) (arrows : Str → Str → ℕ) (g : Graph)
    : Type 0 where
  pub distinct : Distinct (keys g.in_degree)
  pub degree :
      (k : Str) → lookup k g.in_degree ≡ (if mem k names then some (pos (degrees k)) else none)
  pub arrow : (k n : Str) → count k (lookup_or [] n g.dependents) ≡ arrows k n

count_last :
    (k id : Str) (xs : List Str)
    → count k (xs ++ id ∷ []) ≡ (if str_eq id k then suc (count k xs) else count k xs)
unfolding count
count_last k id xs = rw count-append (ground arith)

lookup_or_known :
    (id : Str) (names : List Str) (degrees : Str → ℕ) {arrows : Str → Str → ℕ} (g : Graph)
    → Counted names degrees arrows g
    → mem id names ≡ true
    → lookup_or (pos 0) id g.in_degree ≡ pos (degrees id)
unfolding lookup_or
lookup_or_known id names degrees g c known = ground (arith, c.degree id)

Counted-add_need :
    (names : List Str) (degrees : Str → ℕ) (arrows : Str → Str → ℕ) (g : Graph) (id need : Str)
    → mem id names ≡ true
    → Counted names degrees arrows g
    → Counted names
        (λ k. if str_eq id k then suc (degrees k) else degrees k)
        (λ k n.
          if str_eq id k
          then (if str_eq need n then suc (arrows k n) else arrows k n)
          else arrows k n)
        (add_need id need g)
unfolding add_need
Counted-add_need names degrees arrows g id need known c = record {
  distinct = Distinct-insert id _ g.in_degree c.distinct;
  degree = λ k.
      rw lookup-insert
        (ground (arith, str_eq_iff id k, c.degree k, lookup_or_known id names degrees g c known));
  arrow = λ k n. rw lookup_or-insert (
      ground
        (arith, count_last k id (lookup_or [] need g.dependents), c.arrow k n, str_eq_iff need n));
}

-- Two functions that agree everywhere count alike.
Counted-ext :
    (names : List Str) (d d' : Str → ℕ) (a a' : Str → Str → ℕ) {g : Graph}
    → ((k : Str) → d k ≡ d' k)
    → ((k n : Str) → a k n ≡ a' k n)
    → Counted names d a g
    → Counted names d' a' g
Counted-ext names d d' a a' p q c = record {
  distinct = c.distinct;
  degree = λ k. rw (← p k) (c.degree k);
  arrow = λ k n. c.arrow k n ∙ q k n;
}

-- Every name of the list is the name of a job.
abbrev pub AllKnown : Dict Job → List Str → Type 0
AllKnown jobs [] = Unit {0}
AllKnown jobs (n ∷ ns) = ((job : Job) × (lookup n jobs ≡ some job)) × AllKnown jobs ns

Counted-add_needs :
    (jobs : Dict Job) (names : List Str) (id : Str) (needs : List Str) (d : Str → ℕ)
    (a : Str → Str → ℕ) (g g' : Graph)
    → mem id names ≡ true
    → Counted names d a g
    → add_needs jobs id needs g ≡ ok g'
    → Counted names
        (λ k. if str_eq id k then d k + length needs else d k)
        (λ k n. if str_eq id k then a k n + count n needs else a k n)
        g'
      × AllKnown jobs needs
unfolding add_needs count
Counted-add_needs jobs names id [] d a g g' known c e = (
  Counted-ext names d _ a _ (λ k. ground arith) (λ k n. ground arith)
      (subst (Counted names d a) (ground arith) c),
  tt,
)
Counted-add_needs jobs names id (need ∷ needs) d a g g' known c e =
    elim (Option-cases (lookup need jobs)) [
      | inl missing ↦ ground arith
      | inr (job, found) ↦
          let r =
            Counted-add_needs jobs names id needs _ _ (add_need id need g) g' known
              (Counted-add_need names d a g id need known c) (ground arith) in
          (
            Counted-ext names _ _ _ _ (λ k. ground arith) (λ k n. ground (arith, str_eq_iff need n))
                r.0,
            ((job, found), r.1),
          )
    ]

pub OrderResult-cases {ℓ} :
    {A : Type ℓ} (r : OrderResult A) → ((a : A) × (r ≡ ok a)) ⊎ ((e : OrderError) × (r ≡ err e))
OrderResult-cases (ok a) = inl (a, refl)
OrderResult-cases (err e) = inr (e, refl)

-- The needs of the job called `k`; none where there is no such job.
unfoldable pub needs_of : Dict Job → Str → List Str
unfolding lookup
needs_of jobs k = elim (lookup k jobs) [ none ↦ [] | some job ↦ needs_ids job ]

pub needs_of_cons :
    (id k : Str) (job : Job) (rest : Dict Job)
    → needs_of ((id, job) ∷ rest) k ≡ (if str_eq id k then needs_ids job else needs_of rest k)
unfolding needs_of
needs_of_cons id k job rest = ground arith

pub needs_of_absent : (k : Str) (jobs : Dict Job) → mem k (keys jobs) ≡ false → needs_of jobs k ≡ []
unfolding needs_of
needs_of_absent k jobs h = ground (arith, lookup-none k jobs h)

-- All needs of all jobs are known.
abbrev pub NeedsKnown : Dict Job → Dict Job → Type 0
NeedsKnown jobs [] = Unit {0}
NeedsKnown jobs ((id, job) ∷ rest) = AllKnown jobs (needs_ids job) × NeedsKnown jobs rest

Counted-add_jobs :
    (jobs : Dict Job) (names : List Str) (rest : Dict Job) (d : Str → ℕ) (a : Str → Str → ℕ)
    (g g' : Graph)
    → Within names (keys rest)
    → Distinct (keys rest)
    → Counted names d a g
    → add_jobs jobs rest g ≡ ok g'
    → Counted names
        (λ k. d k + length (needs_of rest k))
        (λ k n. a k n + count n (needs_of rest k))
        g'
      × NeedsKnown jobs rest
unfolding add_jobs count mem
Counted-add_jobs jobs names [] d a g g' within distinct c e = (
  Counted-ext names d _ a _ (λ k. ground (arith, needs_of_absent k [] refl))
      (λ k n. ground (arith, needs_of_absent k [] refl))
      (subst (Counted names d a) (ground arith) c),
  tt,
)
Counted-add_jobs jobs names ((id, job) ∷ rest) d a g g' within distinct c e =
    elim (OrderResult-cases (add_needs jobs id (needs_ids job) g)) [
      | inr (x, bad) ↦ ground arith
      | inl (g₁, good) ↦
          let first = Counted-add_needs jobs names id (needs_ids job) d a g g₁ within.0 c good in
          let r =
            Counted-add_jobs jobs names rest _ _ g₁ g' within.1 distinct.1 first.0 (ground arith) in
          (
            Counted-ext names _ _ _ _
                (λ k. ground (
                  arith,
                  needs_of_cons id k job rest,
                  str_eq_iff id k,
                  needs_of_absent id rest distinct.0,
                ))
                (λ k n. ground (
                  arith,
                  needs_of_cons id k job rest,
                  str_eq_iff id k,
                  needs_of_absent id rest distinct.0,
                ))
                r.0,
            (first.1, r.1),
          )
    ]

init_degrees-degree :
    (rest : Dict Job) (deg : Dict ℤ) (k : Str)
    → (lookup k deg ≡ none) ⊎ (lookup k deg ≡ some (pos 0))
    → (lookup k (init_degrees rest deg))
      ≡ (if mem k (keys rest) then some (pos 0) else lookup k deg)
unfolding init_degrees mem
init_degrees-degree [] deg k h = refl
init_degrees-degree ((id, job) ∷ rest) deg k h = elim (Option-cases (lookup id deg)) [
  | inl e ↦ rw e (
      init_degrees-degree rest (insert id (pos 0) deg) k
        (ground (arith, lookup-insert id k (pos 0) deg))
      ∙ ground (arith, lookup-insert id k (pos 0) deg, str_eq_iff id k))
  | inr (v, e) ↦ rw e (init_degrees-degree rest deg k h ∙ ground (arith, str_eq_iff id k))
]

init_degrees-Distinct :
    (rest : Dict Job) (deg : Dict ℤ) → Distinct (keys deg) → Distinct (keys (init_degrees rest deg))
unfolding init_degrees
init_degrees-Distinct [] deg d = d
init_degrees-Distinct ((id, job) ∷ rest) deg d = elim (Option-cases (lookup id deg)) [
  | inl e ↦ rw e (init_degrees-Distinct rest _ (Distinct-insert id (pos 0) deg d))
  | inr (v, e) ↦ rw e (init_degrees-Distinct rest deg d)
]

-- After both loops inDegree holds the number of needs of each job, and dependents their arrows.
pub add_jobs-Counted :
    (jobs : Dict Job) (g : Graph)
    → Distinct (keys jobs)
    → add_jobs jobs jobs (record { in_degree = init_degrees jobs []; dependents = [] }) ≡ ok g
    → Counted (keys jobs) (λ k. length (needs_of jobs k)) (λ k n. count n (needs_of jobs k)) g
      × NeedsKnown jobs jobs
unfolding lookup_or lookup count
add_jobs-Counted jobs g distinct e =
    let r =
      Counted-add_jobs jobs (keys jobs) jobs (λ _. 0) (λ _ _. 0) _ g
        (Within-of (keys jobs) (keys jobs) (λ k m. m)) distinct
        (record {
          distinct = init_degrees-Distinct jobs [] tt;
          degree = λ k. init_degrees-degree jobs [] k (inl refl);
          arrow = λ k n. refl;
        })
        e in
    (Counted-ext (keys jobs) _ _ _ _ (λ k. omega arith) (λ k n. omega arith) r.0, r.1)

AllKnown-mem :
    (jobs : Dict Job) (n : Str) (ns : List Str)
    → AllKnown jobs ns
    → mem n ns ≡ true
    → mem n (keys jobs) ≡ true
unfolding mem
AllKnown-mem jobs n [] a h = cc
AllKnown-mem jobs n (x ∷ xs) a h = elim (Bool-cases (str_eq x n)) [
  | inl e ↦ mem_of_lookup n jobs a.0.0 (ground (arith, a.0.1, str_eq_iff x n))
  | inr e ↦ AllKnown-mem jobs n xs a.1 (ground arith)
]

-- Where all needs are known, what a job needs is a job.
pub need_known :
    (jobs rest : Dict Job) (k n : Str)
    → NeedsKnown jobs rest
    → mem n (needs_of rest k) ≡ true
    → mem n (keys jobs) ≡ true
unfolding mem
need_known jobs [] k n a h = ground (arith, needs_of_absent k [] refl)
need_known jobs ((id, job) ∷ rest) k n a h = elim (Bool-cases (str_eq id k)) [
  | inl e ↦ AllKnown-mem jobs n (needs_ids job) a.0 (ground (arith, needs_of_cons id k job rest))
  | inr e ↦ need_known jobs rest k n a.1 (ground (arith, needs_of_cons id k job rest))
]

-- Only a job has needs.
pub mem_needs :
    (jobs : Dict Job) (k n : Str) → mem n (needs_of jobs k) ≡ true → mem k (keys jobs) ≡ true
unfolding mem
mem_needs jobs k n h = elim (Bool-cases (mem k (keys jobs))) [
  | inl e ↦ e
  | inr e ↦ ground (arith, needs_of_absent k jobs e)
]
