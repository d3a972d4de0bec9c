-- ===== src/Queue/Wakeup.antt =====
-- The condition variable of internal/queue/queue.go: one goroutine in Dequeue, others in Enqueue and
-- Close, and the function that context.AfterFunc runs, which does not take the lock.
use ghenkins.Prelude.{
  if◌then◌else◌, subst, ◌⊎◌, inl, inr, ◌≡◌, refl, Bool, true, false, [], ◌≢◌, arith, length,
}
use ghenkins.Prelude.Int.{ℤ}
use ghenkins.Poller.{Job}
use ghenkins.Queue.{
  below, Queue, done, new, enqueue, replace_first, or_drop_oldest, drop_oldest, Pass, wait, got,
  dequeue_pass, take_head, close,
}

-- Where the goroutine in Dequeue stands. `parking` is between the test of the loop and the
-- registration inside Wait: the lock is still held.
pub data Phase : Type 0 where
  runnable : Phase
  parking : Phase
  waiting : Phase
  returned : Pass → Phase

-- The context, and the AfterFunc goroutine: not started, started, over.
pub data Context : Type 0 where
  live : Context
  expired : Context
  announced : Context

pub record System : Type 0 where
  pub queue : Queue
  pub phase : Phase
  pub context : Context

abbrev pub ctx_done : Context → Bool
ctx_done live = false
ctx_done _ = true

-- cond.Signal and cond.Broadcast: only a registered waiter hears them.
abbrev pub wake : Phase → Phase
wake waiting = runnable
wake p = p

-- The first branch of Enqueue is the only one that signals.
pub signal_after : Queue → Phase → Phase
signal_after q p = if below (length q.jobs) q.cap then wake p else p

-- What the goroutine does with the result of a pass.
pub phase_of : Pass → Phase
phase_of wait = parking
phase_of p = returned p

pub queue_of : Queue → Pass → Queue
queue_of q (got j q') = q'
queue_of q p = q

-- One atomic action. Enqueue, Close and the passes need the lock, which `parking` holds.
pub data Step : System → System → Type 0 where
  passes :
      {s : System}
      → s.phase ≡ runnable
      → Step s (record s {
        queue = queue_of s.queue (dequeue_pass (ctx_done s.context) s.queue);
        phase = phase_of (dequeue_pass (ctx_done s.context) s.queue);
      })
  parks : {s : System} → s.phase ≡ parking → Step s (record s { phase = waiting })
  enqueues :
      {s : System} (j : Job) (q : Queue)
      → s.phase ≢ parking
      → enqueue s.queue j ≡ done q
      → Step s (record s { queue = q; phase = signal_after s.queue s.phase })
  closes :
      {s : System}
      → s.phase ≢ parking
      → Step s (record s { queue = close s.queue; phase = wake s.phase })
  expires : {s : System} → s.context ≡ live → Step s (record s { context = expired })
  announces :
      {s : System}
      → s.context ≡ expired
      → Step s (record s { context = announced; phase = wake s.phase })

pub data Reach (s : System) : System → Type 0 where
  here : Reach s s
  next : {t u : System} → Reach s t → Step t u → Reach s u

pub start : ℤ → System
start cap = record { queue = new cap; phase = runnable; context = live }

abbrev Idle : Phase → Queue → Type 0
Idle waiting q = (q.jobs ≡ []) × (q.closed ≡ false)
Idle parking q = (q.jobs ≡ []) × (q.closed ≡ false)
Idle _ q = Unit {0}

-- Whoever waits, or is about to, has an empty open queue before it.
abbrev pub NothingMissed : System → Type 0
NothingMissed s = Idle s.phase s.queue

pass-Idle :
    (ctx : Bool) (q : Queue)
    → Idle (phase_of (dequeue_pass ctx q)) (queue_of q (dequeue_pass ctx q))
unfolding dequeue_pass take_head phase_of queue_of
pass-Idle ctx q = ground arith

Idle-signal :
    (p : Phase) (q q' : Queue) (j : Job)
    → p ≢ parking
    → Idle p q
    → enqueue q j ≡ done q'
    → Idle (signal_after q p) q'
unfolding signal_after enqueue or_drop_oldest drop_oldest replace_first
Idle-signal runnable q q' j h i e = ground arith
Idle-signal parking q q' j h i e = absurd (h refl)
Idle-signal waiting q q' j h i e = ground arith
Idle-signal (returned r) q q' j h i e = ground arith

Idle-wake : (p : Phase) (q : Queue) → p ≢ parking → Idle (wake p) q
Idle-wake runnable q h = tt
Idle-wake parking q h = absurd (h refl)
Idle-wake waiting q h = tt
Idle-wake (returned r) q h = tt

Idle-announce : (p : Phase) (q : Queue) → Idle p q → Idle (wake p) q
Idle-announce runnable q h = tt
Idle-announce parking q h = h
Idle-announce waiting q h = tt
Idle-announce (returned r) q h = tt

-- No action leaves the goroutine waiting, or about to wait, before a job or a closed queue.
Step-NothingMissed : {s t : System} → Step s t → NothingMissed s → NothingMissed t
Step-NothingMissed (passes {s} e) h = pass-Idle (ctx_done s.context) s.queue
Step-NothingMissed (parks {s} e) h = subst (λ p. Idle p s.queue) e h
Step-NothingMissed (enqueues {s} j q free e) h = Idle-signal s.phase s.queue q j free h e
Step-NothingMissed (closes {s} free) h = Idle-wake s.phase (close s.queue) free
Step-NothingMissed (expires e) h = h
Step-NothingMissed (announces {s} e) h = Idle-announce s.phase s.queue h

Reach-keeps : {s t : System} → NothingMissed s → Reach s t → NothingMissed t
Reach-keeps h here = h
Reach-keeps h (next r st) = Step-NothingMissed st (Reach-keeps h r)

-- In every state that a queue of any capacity can come to, a goroutine that waits in Dequeue has an
-- empty and open queue before it: no Enqueue and no Close is missed, though the branches of Enqueue
-- that replace or drop a job do not signal.
pub Reach-NothingMissed :
    (cap : ℤ) (s : System)
    → Reach (start cap) s
    → s.phase ≡ waiting
    → (s.queue.jobs ≡ []) × (s.queue.closed ≡ false)
unfolding start
Reach-NothingMissed cap s r e = subst (λ p. Idle p s.queue) e (Reach-keeps tt r)

-- The goroutine waits although its context is done and the broadcast for that is over.
abbrev pub stranded : ℤ → System
stranded cap = record { queue = new cap; phase = waiting; context = announced }

-- For every capacity the broadcast of AfterFunc can fall between the test of the loop and Wait, after
-- which the goroutine waits on an open and empty queue with its context done.
pub stranded-Reach : (cap : ℤ) → Reach (start cap) (stranded cap)
unfolding start dequeue_pass phase_of queue_of new
stranded-Reach cap =
    next (next (next (next here (passes refl)) (expires refl)) (announces refl)) (parks refl)

-- Once a goroutine waits and its context has been announced, only an Enqueue or a Close can take a
-- step: each step leaves a job in the queue or closes it.
pub Step-announced :
    (s t : System)
    → s.phase ≡ waiting
    → s.context ≡ announced
    → Step s t
    → ((j : Job) × (enqueue s.queue j ≡ done t.queue)) ⊎ (t.queue ≡ close s.queue)
Step-announced s t w a (passes e) = cc
Step-announced s t w a (parks e) = cc
Step-announced s t w a (enqueues j q free e) = inl (j, e)
Step-announced s t w a (closes free) = inr refl
Step-announced s t w a (expires e) = cc
Step-announced s t w a (announces e) = cc
