-- ===== src/Queue/Fifo.antt =====
-- The order in which Dequeue of internal/queue/queue.go hands out what Enqueue took.
use ghenkins.Prelude.{
  Bool-cases, inl, inr, ◌∙◌, ℕ, zero, suc, ◌+◌, ◌≤◌, ◌≡◌, refl, ap, List, [], ◌∷◌, ◌++◌,
  append_assoc, append-nil, arith, length, length-append,
}
use ghenkins.Poller.{Job}
use ghenkins.Queue.Enqueue.{limit, below_of_lt}
use ghenkins.Queue.{Queue, done, enqueue, enqueue_all, dequeue_pass, take_head, drain}

drain_all : (js : List Job) (n : ℕ) (q : Queue) → q.jobs ≡ js → length js ≤ n → drain n q ≡ js
unfolding drain dequeue_pass take_head
drain_all [] zero q e h = refl
drain_all [] (suc n) q e h = elim (Bool-cases q.closed) [
  | inl c ↦ ground arith
  | inr o ↦ ground arith
]
drain_all (j ∷ js) zero q e h = absurd (omega arith)
drain_all (j ∷ js) (suc n) q e h = ground (arith, drain_all js n (record q { jobs = js }) refl)

enqueue_all_room :
    (js : List Job) (q : Queue)
    → length q.jobs + length js ≤ limit q.cap
    → enqueue_all q js ≡ done (record q { jobs = q.jobs ++ js })
unfolding enqueue_all enqueue
enqueue_all_room [] q h = rw append-nil
enqueue_all_room (j ∷ js) q h =
    rw (below_of_lt (length q.jobs) q.cap (omega arith), enqueue_all, enqueue)
      (enqueue_all_room js (record q { jobs = q.jobs ++ j ∷ [] })
          (omega (arith, length-append {0} q.jobs (j ∷ [])))
        ∙ ap (λ l. done (record q { jobs = l })) (append_assoc q.jobs (j ∷ []) js))

-- Jobs that fit below the capacity are taken without loss, and Dequeue returns them behind the older
-- ones, in the order in which they came.
pub drain-enqueue_all :
    (js : List Job) (q : Queue)
    → length q.jobs + length js ≤ limit q.cap
    → (q' : Queue) × (enqueue_all q js ≡ done q')
      × (drain (length q.jobs + length js) q' ≡ q.jobs ++ js)
drain-enqueue_all js q h = (
  record q { jobs = q.jobs ++ js },
  enqueue_all_room js q h,
  drain_all (q.jobs ++ js) _ _ refl (omega (arith, length-append {0} q.jobs js)),
)
