-- ===== src/Queue.antt =====
-- internal/queue/queue.go: the bounded queue between the poller and the dispatch loop. The methods
-- run under the queue's mutex, so each is a function of the state; Queue/Wakeup.antt has the
-- condition variable.
pub mod Enqueue
pub mod Fifo
pub mod Wakeup
use ghenkins.Prelude.{
  ℕ, zero, suc, Bool, true, false, not, ◌&&◌, List, [], ◌∷◌, ◌++◌, Option, none, some, ltb, ◌==◌,
  if◌then◌else◌, length,
}
use ghenkins.Prelude.Text.{str_eq}
use ghenkins.Prelude.Int.{ℤ, pos, negsuc}
use ghenkins.Poller.{Job}

pub record Queue : Type 0 where
  pub jobs : List Job
  pub cap : ℤ
  pub closed : Bool

pub new : ℤ → Queue
new cap = record { jobs = []; cap = cap; closed = false }

-- n < c for a length and an int.
abbrev pub below : ℕ → ℤ → Bool
below n (pos c) = ltb n c
below n (negsuc c) = false

-- `panicked` is the slice `q.jobs[1:]` of an empty queue.
pub data Outcome : Type 0 where
  done : Queue → Outcome
  panicked : Outcome

abbrev pub same_watch : Job → Job → Bool
same_watch existing j = str_eq existing.watch_name j.watch_name

abbrev prepend : Job → Option (List Job) → Option (List Job)
prepend x none = none
prepend x (some xs) = some (x ∷ xs)

-- The loop that replaces the first job of the same watch; `none` if it ends.
unfoldable pub replace_first : Job → List Job → Option (List Job)
replace_first j [] = none
replace_first j (x ∷ xs) = if same_watch x j then some (j ∷ xs) else prepend x (replace_first j xs)

-- append(q.jobs[1:], j)
unfoldable pub drop_oldest : Queue → Job → Outcome
drop_oldest q j = elim q.jobs [ [] ↦ panicked | x ∷ xs ↦ done (record q { jobs = xs ++ j ∷ [] }) ]

unfoldable pub or_drop_oldest : Queue → Job → Option (List Job) → Outcome
unfolding drop_oldest
or_drop_oldest q j none = drop_oldest q j
or_drop_oldest q j (some replaced) = done (record q { jobs = replaced })

unfoldable pub enqueue : Queue → Job → Outcome
unfolding replace_first or_drop_oldest
enqueue q j =
    if below (length q.jobs) q.cap
    then done (record q { jobs = q.jobs ++ j ∷ [] })
    else or_drop_oldest q j (replace_first j q.jobs)

-- What one pass of Dequeue under the lock comes to.
pub data Pass : Type 0 where
  wait : Pass
  ctx_err : Pass
  canceled : Pass
  got : Job → Queue → Pass

-- After the loop the queue is closed or holds a job.
unfoldable pub take_head : Queue → Pass
take_head q = elim q.jobs [ [] ↦ canceled | x ∷ xs ↦ got x (record q { jobs = xs }) ]

-- From the head of the loop to the next Wait or to the return, with ctx.Err() != nil as argument.
unfoldable pub dequeue_pass : Bool → Queue → Pass
unfolding take_head
dequeue_pass ctx_done q =
    if (length q.jobs == 0) && not q.closed
    then (if ctx_done then ctx_err else wait)
    else if ctx_done
    then ctx_err
    else take_head q

unfoldable pub close : Queue → Queue
close q = record q { closed = true }

-- Enqueue of each job in turn.
unfoldable pub enqueue_all : Queue → List Job → Outcome
enqueue_all q [] = done q
enqueue_all q (j ∷ js) = elim (enqueue q j) [ panicked ↦ panicked | done q' ↦ enqueue_all q' js ]

-- Dequeue while a job is at hand, on fuel, with a context that is not done.
unfoldable pub drain : ℕ → Queue → List Job
drain zero q = []
drain (suc n) q = elim (dequeue_pass false q) [ got j q' ↦ j ∷ drain n q' | _ ↦ [] ]
