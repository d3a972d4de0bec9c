-- ===== src/Queue/Enqueue.antt =====
-- What Enqueue of internal/queue/queue.go leaves in the queue.
use ghenkins.Prelude.{
  ℕ, zero, suc, subst, ◌≤◌, ◌<◌, ◌≡◌, refl, ap, ◌↔◌, ◌⊎◌, inl, inr, true, false, List, [], ◌∷◌,
  ◌++◌, Option, none, some, arith, length, length-append, All, Bool-cases, Option-cases,
}
use ghenkins.Prelude.Int.{ℤ, pos, negsuc, is_positive}
use ghenkins.Poller.{Job}
use ghenkins.Queue.{
  below, Queue, Outcome, done, panicked, same_watch, replace_first, drop_oldest, or_drop_oldest,
  enqueue,
}

-- No job of the list belongs to the watch of `j`.
abbrev pub NoneOf : Job → List Job → Type 0
NoneOf j = All λ x. same_watch x j ≡ false

-- The first job of the watch of `j` gave way to `j`, in its place.
pub record Replaced (j : Job) (before after : List Job) : Type 0 where
  pub front : List Job
  pub old : Job
  pub back : List Job
  pub was : before ≡ front ++ old ∷ back
  pub now : after ≡ front ++ j ∷ back
  pub same : same_watch old j ≡ true
  pub first : NoneOf j front

Replaced-later :
    (j x : Job) {xs ys : List Job}
    → same_watch x j ≡ false
    → Replaced j xs ys
    → Replaced j (x ∷ xs) (x ∷ ys)
Replaced-later j x h r = record {
  front = x ∷ r.front;
  old = r.old;
  back = r.back;
  was = ap (λ l. x ∷ l) r.was;
  now = ap (λ l. x ∷ l) r.now;
  same = r.same;
  first = (h, r.first);
}

replace_first-some : (j : Job) (xs ys : List Job) → replace_first j xs ≡ some ys → Replaced j xs ys
unfolding replace_first
replace_first-some j [] ys e = cc
replace_first-some j (x ∷ xs) ys e = elim (Bool-cases (same_watch x j)) [
  | inl h ↦ record {
    front = [];
    old = x;
    back = xs;
    was = refl;
    now = ground arith;
    same = h;
    first = tt;
  }
  | inr h ↦ elim (Option-cases (replace_first j xs)) [
    | inl n ↦ ground arith
    | inr (zs, s) ↦
        subst (Replaced j (x ∷ xs)) (ground arith)
          (Replaced-later j x h (replace_first-some j xs zs s))
  ]
]

replace_first-none : (j : Job) (xs : List Job) → replace_first j xs ≡ none → NoneOf j xs
unfolding replace_first
replace_first-none j [] e = tt
replace_first-none j (x ∷ xs) e = ground (arith, replace_first-none j xs)

Replaced-length : {j : Job} {xs ys : List Job} → Replaced j xs ys → length ys ≡ length xs
Replaced-length {j} r = omega (
  arith,
  ap length r.was,
  ap length r.now,
  length-append {0} r.front (r.old ∷ r.back),
  length-append {0} r.front (j ∷ r.back),
)

abbrev pub OldestDropped : Job → List Job → List Job → Type 0
OldestDropped j before after =
    (x : Job) × (xs : List Job) × (before ≡ x ∷ xs) × (after ≡ xs ++ j ∷ [])

List-cases : (xs : List Job) → (xs ≡ []) ⊎ ((y : Job) × (ys : List Job) × (xs ≡ y ∷ ys))
List-cases [] = inl refl
List-cases (y ∷ ys) = inr (y, ys, refl)

Outcome-cases : (o : Outcome) → ((q : Queue) × (o ≡ done q)) ⊎ (o ≡ panicked)
Outcome-cases (done q) = inl (q, refl)
Outcome-cases panicked = inr refl

-- How many jobs a capacity allows: none if it is negative.
abbrev pub limit : ℤ → ℕ
limit (pos c) = c
limit (negsuc c) = 0

lt_of_below : (n : ℕ) (c : ℤ) → below n c ≡ true → n < limit c
lt_of_below n (pos c) h = ground arith
lt_of_below n (negsuc c) h = cc

le_of_not_below : (n : ℕ) (c : ℤ) → below n c ≡ false → limit c ≤ n
le_of_not_below n (pos c) h = ground arith
le_of_not_below n (negsuc c) h = omega arith

pub below_of_lt : (n : ℕ) (c : ℤ) → n < limit c → below n c ≡ true
below_of_lt n (pos c) h = ground arith
below_of_lt n (negsuc c) h = absurd (omega (arith, h))

limit-is_positive : (c : ℤ) → (limit c ≡ 0) ↔ (is_positive c ≡ false)
limit-is_positive (pos zero) = (λ h. refl, λ h. refl)
limit-is_positive (pos (suc n)) = (λ h. absurd (omega (arith, h)), λ h. cc)
limit-is_positive (negsuc n) = (λ h. refl, λ h. refl)

-- The three ways in which Enqueue changes the jobs, each with its condition.
abbrev pub Effect : Queue → Job → List Job → Type 0
Effect q j after =
    ((length q.jobs < limit q.cap) × (after ≡ q.jobs ++ j ∷ []))
    ⊎ ((limit q.cap ≤ length q.jobs) × Replaced j q.jobs after)
    ⊎ ((limit q.cap ≤ length q.jobs) × NoneOf j q.jobs × OldestDropped j q.jobs after)

full-Effect :
    (q : Queue) (j : Job) (r : Option (List Job)) (q' : Queue)
    → limit q.cap ≤ length q.jobs
    → replace_first j q.jobs ≡ r
    → or_drop_oldest q j r ≡ done q'
    → Effect q j q'.jobs × (q'.cap ≡ q.cap) × (q'.closed ≡ q.closed)
unfolding or_drop_oldest drop_oldest
full-Effect q j (some ys) q' full e h = (
  inr (inl (full, subst (Replaced j q.jobs) (ground arith) (replace_first-some j q.jobs ys e))),
  ground arith,
  ground arith,
)
full-Effect q j none q' full e h =
    let none_of = replace_first-none j q.jobs e in
    elim (List-cases q.jobs) [
      | inl empty ↦ ground arith
      | inr (x, xs, split) ↦
          (inr (inr (full, none_of, (x, xs, split, ground arith))), ground arith, ground arith)
    ]

-- Enqueue appends below the capacity; at the capacity it replaces the first job of the same watch,
-- in its place, and only where there is none it drops the oldest job. Capacity and closed flag stay.
pub enqueue-Effect :
    (q : Queue) (j : Job) (q' : Queue)
    → enqueue q j ≡ done q'
    → Effect q j q'.jobs × (q'.cap ≡ q.cap) × (q'.closed ≡ q.closed)
unfolding enqueue
enqueue-Effect q j q' h = elim (Bool-cases (below (length q.jobs) q.cap)) [
  | inl room ↦
      (inl (lt_of_below (length q.jobs) q.cap room, ground arith), ground arith, ground arith)
  | inr full ↦
      full-Effect q j (replace_first j q.jobs) q' (le_of_not_below (length q.jobs) q.cap full) refl
        (ground arith)
]

Effect-length :
    (q : Queue) (j : Job) (after : List Job)
    → length q.jobs ≤ limit q.cap
    → Effect q j after
    → length after ≤ limit q.cap
Effect-length q j after h (inl (room, e)) =
    omega (arith, ap length e, length-append {0} q.jobs (j ∷ []))
Effect-length q j after h (inr (inl (full, r))) = omega (arith, Replaced-length r)
Effect-length q j after h (inr (inr (full, free, (x, xs, e, e')))) =
    omega (arith, ap length e, ap length e', length-append {0} xs (j ∷ []))

-- Enqueue panics exactly on an empty queue whose capacity is not positive, where the Go code slices out of
-- range.
pub enqueue_panics_iff :
    (q : Queue) (j : Job) → (enqueue q j ≡ panicked) ↔ ((is_positive q.cap ≡ false) × (q.jobs ≡ []))
unfolding enqueue or_drop_oldest drop_oldest replace_first
enqueue_panics_iff q j = (
  λ h. elim (List-cases q.jobs) [
    | inl empty ↦ elim (Bool-cases (below (length q.jobs) q.cap)) [
      | inl room ↦ ground arith
      | inr full ↦
          let l = le_of_not_below (length q.jobs) q.cap full in
          ((limit-is_positive q.cap).0 (omega (arith, ap length empty, l)), empty)
    ]
    | inr (x, xs, split) ↦ ground arith
  ],
  λ h.
      let e0 = (limit-is_positive q.cap).1 h.0 in
      let e1 = h.1 in
      elim (Bool-cases (below (length q.jobs) q.cap)) [
        | inl room ↦ absurd (omega (arith, lt_of_below (length q.jobs) q.cap room, e0))
        | inr full ↦ ground arith
      ],
)

-- On a queue of positive capacity that is within it, Enqueue succeeds and the queue stays within it.
pub enqueue_bounded :
    (q : Queue) (j : Job)
    → 0 < limit q.cap
    → length q.jobs ≤ limit q.cap
    → (q' : Queue) × (enqueue q j ≡ done q') × (length q'.jobs ≤ limit q'.cap) × (q'.cap ≡ q.cap)
enqueue_bounded q j positive within = elim (Outcome-cases (enqueue q j)) [
  | inl (q', h) ↦
      let effect = enqueue-Effect q j q' h in
      (q', h, omega (arith, Effect-length q j q'.jobs within effect.0, ap limit effect.1), effect.1)
  | inr p ↦
      absurd (omega (arith, (limit-is_positive q.cap).1 ((enqueue_panics_iff q j).0 p).0, positive))
]
