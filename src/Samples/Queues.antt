-- ===== src/Samples/Queues.antt =====
-- Runs of internal/queue/queue.go.
use ghenkins.Prelude.{◌≤◌, ◌≡◌, refl, false, List, [], ◌∷◌, arith, length, ◌↔◌}
use ghenkins.Prelude.Text.{Str, lit, str_eq}
use ghenkins.Prelude.Int.{ℤ, pos, negsuc, is_positive}
use ghenkins.Poller.{Job}
use ghenkins.Queue.{Queue, done, panicked, enqueue, enqueue_all, drain, close}
use ghenkins.Queue.Enqueue.{limit, enqueue-Effect, enqueue_bounded, enqueue_panics_iff, Effect}
use ghenkins.Queue.Fifo.{drain-enqueue_all}
use ghenkins.Queue.Wakeup.{
  System, Phase, Reach, start, stranded, Reach-NothingMissed, stranded-Reach,
}

abbrev job : Str → Job
job name = record {
  watch_name = name;
  repo = lit "o/r";
  owner = lit "o";
  repo_name = lit "r";
  sha = lit "1";
  pr_number = pos 0;
  branch = lit "main";
  event_type = lit "push";
  workflow_refs = [];
  inputs = [];
  run_id = lit "";
}

abbrev queue_of : ℤ → List Job → Queue
queue_of size jobs = record { jobs = jobs; cap = size; closed = false }

abbrev full : Queue
full = queue_of (pos 2) (job (lit "a") ∷ job (lit "b") ∷ [])

full_runs :
    enqueue full (job (lit "c")) ≡ done (queue_of (pos 2) (job (lit "b") ∷ job (lit "c") ∷ []))
unfolding enqueue lit str_eq
full_runs = refl

enqueue-Effect_example :
    Effect full (job (lit "c")) (job (lit "b") ∷ job (lit "c") ∷ [])
    × (full.cap ≡ pos 2)
    × (false ≡ false)
enqueue-Effect_example =
    enqueue-Effect full (job (lit "c")) (queue_of (pos 2) (job (lit "b") ∷ job (lit "c") ∷ []))
      full_runs

enqueue_bounded_example :
    (q' : Queue) × (enqueue full (job (lit "c")) ≡ done q')
    × (length q'.jobs ≤ limit q'.cap)
    × (q'.cap ≡ pos 2)
enqueue_bounded_example = enqueue_bounded full (job (lit "c")) (omega arith) (omega arith)

enqueue_panics_iff_example :
    (enqueue (queue_of (negsuc 0) []) (job (lit "a")) ≡ panicked)
    ↔ ((is_positive ((queue_of (negsuc 0) []).cap) ≡ false) × ((queue_of (negsuc 0) []).jobs ≡ []))
enqueue_panics_iff_example = enqueue_panics_iff (queue_of (negsuc 0) []) (job (lit "a"))

abbrev two : List Job
two = job (lit "b") ∷ job (lit "a") ∷ []

drain-enqueue_all_example :
    (q' : Queue) × (enqueue_all (queue_of (pos 3) (job (lit "a") ∷ [])) two ≡ done q')
    × (drain 3 q' ≡ job (lit "a") ∷ two)
drain-enqueue_all_example =
    drain-enqueue_all two (queue_of (pos 3) (job (lit "a") ∷ [])) (omega arith)

Reach-NothingMissed_example :
    ((stranded (pos 4)).queue.jobs ≡ []) × ((stranded (pos 4)).queue.closed ≡ false)
Reach-NothingMissed_example =
    Reach-NothingMissed (pos 4) (stranded (pos 4)) (stranded-Reach (pos 4)) refl

stranded-Reach_example : Reach (start (pos 4)) (stranded (pos 4))
stranded-Reach_example = stranded-Reach (pos 4)

abbrev closed : System
closed = record (stranded (pos 4)) {
  queue = close ((stranded (pos 4)).queue);
  phase = Phase.runnable;
}
