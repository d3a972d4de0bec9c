-- ===== src/Poller/Sends.antt =====
-- Which commits the loop of internal/poller/poller.go sends on.
use ghenkins.Prelude.{
  ℕ, ◌≡◌, ◌⊎◌, inl, inr, refl, sym, ap, ◌∙◌, Bool, true, false, ◌&&◌, ◌||◌, List, [], ◌∷◌, ◌++◌,
  arith, if◌then◌else◌, subst, zero, suc, some, get_elem?,
}
use ghenkins.Prelude.Text.{Str, split_n2, str_eq, str_eq_iff, str_eq_self}
use ghenkins.Prelude.Names.{mem, Distinct}
use ghenkins.Config.{Watch}
use ghenkins.Poller.{
  Job, begin, run_parts, waited, Answer, after_fetch, next_backoff, Duration, Loop, Round, Send,
  sent, dropped, send, SeenCommit, is_seen, mark_seen, same_commit, commit_key, pr_or_branch,
  job_of, handle_sha, round, rounds, run_watch, fetch_sha, failed, answered, is_rate_limit_err,
  poll_interval_or_default,
}

unfoldable pub sha_of : Send → Str
sha_of (sent j) = j.sha
sha_of (dropped j) = j.sha

-- The commits that were offered to the channel, whether it took the job or was full and the job was dropped.
unfoldable pub shas : List Send → List Str
unfolding sha_of
shas [] = []
shas (x ∷ xs) = sha_of x ∷ shas xs

-- The commits whose job the channel took.
unfoldable pub sent_shas : List Send → List Str
sent_shas [] = []
sent_shas (sent j ∷ xs) = j.sha ∷ sent_shas xs
sent_shas (dropped j ∷ xs) = sent_shas xs

-- The commits whose job was dropped, as the channel was full.
unfoldable pub dropped_shas : List Send → List Str
dropped_shas [] = []
dropped_shas (sent j ∷ xs) = dropped_shas xs
dropped_shas (dropped j ∷ xs) = j.sha ∷ dropped_shas xs

mem-shas :
    (k : Str) (xs : List Send) → mem k (shas xs) ≡ (mem k (sent_shas xs) || mem k (dropped_shas xs))
unfolding mem shas sha_of sent_shas dropped_shas
mem-shas k [] = refl
mem-shas k (sent j ∷ xs) = ground (arith, mem-shas k xs)
mem-shas k (dropped j ∷ xs) = ground (arith, mem-shas k xs)

is_seen-mark_seen :
    (rows : List SeenCommit) (k j : SeenCommit)
    → is_seen (rows ++ k ∷ []) j ≡ (is_seen rows j || same_commit k j)
unfolding is_seen
is_seen-mark_seen [] k j = ground arith
is_seen-mark_seen (x ∷ rows) k j = ground (arith, is_seen-mark_seen rows k j)

-- Since `old`, the rows of the watch have grown by just the commits of the sends, each once.
pub record SinceStart (w : Watch) (old : List SeenCommit) (s : Loop) : Type 0 where
  pub rows :
      (k : Str)
      → is_seen s.seen (commit_key w k) ≡ (is_seen old (commit_key w k) || mem k (shas s.sends))
  pub once : Distinct (shas s.sends)
  pub fresh : (k : Str) → (mem k (shas s.sends) && is_seen old (commit_key w k)) ≡ false

sha_of-send :
    (b : Bool) (w : Watch) (owner name sha : Str) → sha_of (send b (job_of w owner name sha)) ≡ sha
unfolding sha_of job_of
sha_of-send true w owner name sha = refl
sha_of-send false w owner name sha = refl

same_commit-key :
    (w : Watch) (a b : Str) → same_commit (commit_key w a) (commit_key w b) ≡ str_eq a b
same_commit-key w a b = ground (arith, str_eq_self w.repo, str_eq_self (pr_or_branch w))

abbrev added : Watch → Str → Str → Round → Str → Loop → Loop
added w owner name r sha s = record s {
  seen = s.seen ++ commit_key w sha ∷ [];
  sends = send r.has_room (job_of w owner name sha) ∷ s.sends;
}

handle_sha-cases :
    (w : Watch) (owner name : Str) (r : Round) (sha : Str) (s : Loop)
    → (handle_sha w owner name r sha s ≡ s)
      ⊎ ((is_seen s.seen (commit_key w sha) ≡ false)
          × (handle_sha w owner name r sha s ≡ added w owner name r sha s))
unfolding handle_sha mark_seen
handle_sha-cases w owner name r sha s = ground arith

added-SinceStart :
    (w : Watch) (owner name : Str) (r : Round) (sha : Str) (old : List SeenCommit) (s : Loop)
    → is_seen s.seen (commit_key w sha) ≡ false
    → SinceStart w old s
    → SinceStart w old (added w owner name r sha s)
unfolding shas mem
added-SinceStart w owner name r sha old s n h =
    let e = sha_of-send r.has_room w owner name sha in
    let rows_sha = h.rows sha in
    record {
      rows = λ k. ground (
        arith,
        e,
        h.rows k,
        is_seen-mark_seen s.seen (commit_key w sha) (commit_key w k),
        same_commit-key w sha k,
      );
      once = (ground (arith, e, rows_sha), h.once);
      fresh = λ k. ground (arith, e, h.fresh k, rows_sha, str_eq_iff sha k);
    }

handle_sha-SinceStart :
    (w : Watch) (owner name : Str) (r : Round) (sha : Str) (old : List SeenCommit) (s : Loop)
    → SinceStart w old s
    → SinceStart w old (handle_sha w owner name r sha s)
handle_sha-SinceStart w owner name r sha old s h = elim (handle_sha-cases w owner name r sha s) [
  | inl e ↦ subst (SinceStart w old) (sym e) h
  | inr (n, e) ↦ subst (SinceStart w old) (sym e) (added-SinceStart w owner name r sha old s n h)
]

-- The backoff and the waits do not matter.
paced_SinceStart :
    {w : Watch} {old : List SeenCommit} {s : Loop} {b : Duration} {ws : List Duration}
    → SinceStart w old s
    → SinceStart w old (record s { backoff = b; waits = ws })
paced_SinceStart h = record { rows = h.rows; once = h.once; fresh = h.fresh }

after_fetch-SinceStart :
    (initial : Duration) (w : Watch) (owner name : Str) (r : Round) (old : List SeenCommit)
    (s : Loop) (x : Answer Str)
    → SinceStart w old s
    → SinceStart w old (after_fetch initial w owner name r s x)
unfolding after_fetch
after_fetch-SinceStart initial w owner name r old s (failed e) h =
    elim (is_rate_limit_err e)
      as (λ b. SinceStart w old (
        if b
        then record s { backoff = next_backoff initial s.backoff }
        else record s { backoff = 0 })) [ true ↦ paced_SinceStart h | false ↦ paced_SinceStart h ]
after_fetch-SinceStart initial w owner name r old s (answered sha) h =
    handle_sha-SinceStart w owner name r sha old (record s { backoff = 0 }) (paced_SinceStart h)

rounds-SinceStart :
    (initial interval : Duration) (w : Watch) (owner name : Str) (old : List SeenCommit) (s : Loop)
    (rs : List Round)
    → SinceStart w old s
    → SinceStart w old (rounds initial interval w owner name s rs)
unfolding rounds
rounds-SinceStart initial interval w owner name old s [] h = h
rounds-SinceStart initial interval w owner name old s (r ∷ rs) h =
    rounds-SinceStart initial interval w owner name old (round initial interval w owner name s r) rs
      (after_fetch-SinceStart initial w owner name r old (waited interval s)
        (fetch_sha r.github owner name w) (paced_SinceStart h))

begin-SinceStart : (w : Watch) (old : List SeenCommit) → SinceStart w old (begin old)
unfolding shas mem
begin-SinceStart w old = record { rows = λ k. ground arith; once = tt; fresh = λ k. ground arith }

run_parts-SinceStart :
    (initial interval : Duration) (w : Watch) (old : List SeenCommit) (rs : List Round)
    (ps : List Str)
    → SinceStart w old (run_parts initial interval w (begin old) rs ps)
unfolding run_parts
run_parts-SinceStart initial interval w old rs [] = begin-SinceStart w old
run_parts-SinceStart initial interval w old rs (owner ∷ []) = begin-SinceStart w old
run_parts-SinceStart initial interval w old rs (owner ∷ name ∷ []) =
    rounds-SinceStart initial (poll_interval_or_default interval) w owner name old (begin old) rs
      (begin-SinceStart w old)
run_parts-SinceStart initial interval w old rs (owner ∷ name ∷ x ∷ xs) = begin-SinceStart w old

-- Over any rounds, the loop of a watch hands each commit to the channel at most once, whether the channel
-- takes the job or drops it, and none that had been seen before; the rows of the store grow by just the
-- commits of those jobs.
pub run_watch-SinceStart :
    (initial interval : Duration) (w : Watch) (old : List SeenCommit) (rs : List Round)
    → SinceStart w old (run_watch initial interval w (begin old) rs)
unfolding run_watch
run_watch-SinceStart initial interval w old rs =
    run_parts-SinceStart initial interval w old rs (split_n2 b'/' w.repo)

added-keeps :
    (w : Watch) (owner name : Str) (r : Round) (sha : Str) (s : Loop) (k : SeenCommit)
    → is_seen s.seen k ≡ true
    → is_seen (added w owner name r sha s).seen k ≡ true
added-keeps w owner name r sha s k h = ground (arith, is_seen-mark_seen s.seen (commit_key w sha) k)

handle_sha-keeps :
    (w : Watch) (owner name : Str) (r : Round) (sha : Str) (s : Loop) (k : SeenCommit)
    → is_seen s.seen k ≡ true
    → is_seen (handle_sha w owner name r sha s).seen k ≡ true
handle_sha-keeps w owner name r sha s k h = elim (handle_sha-cases w owner name r sha s) [
  | inl e ↦ subst (λ t. is_seen t.seen k ≡ true) (sym e) h
  | inr (n, e) ↦ subst (λ t. is_seen t.seen k ≡ true) (sym e) (added-keeps w owner name r sha s k h)
]

after_fetch-keeps :
    (initial : Duration) (w : Watch) (owner name : Str) (r : Round) (s : Loop) (x : Answer Str)
    (k : SeenCommit)
    → is_seen s.seen k ≡ true
    → is_seen (after_fetch initial w owner name r s x).seen k ≡ true
unfolding after_fetch
after_fetch-keeps initial w owner name r s (failed e) k h = ground arith
after_fetch-keeps initial w owner name r s (answered sha) k h =
    handle_sha-keeps w owner name r sha (record s { backoff = 0 }) k h

rounds-keeps :
    (initial interval : Duration) (w : Watch) (owner name : Str) (s : Loop) (rs : List Round)
    (k : SeenCommit)
    → is_seen s.seen k ≡ true
    → is_seen (rounds initial interval w owner name s rs).seen k ≡ true
unfolding rounds
rounds-keeps initial interval w owner name s [] k h = h
rounds-keeps initial interval w owner name s (r ∷ rs) k h =
    rounds-keeps initial interval w owner name (round initial interval w owner name s r) rs k (
      after_fetch-keeps initial w owner name r (waited interval s) (fetch_sha r.github owner name w)
        k h)

handle_sha-seen :
    (w : Watch) (owner name : Str) (r : Round) (sha : Str) (s : Loop)
    → r.is_seen_fails ≡ false
    → r.mark_seen_fails ≡ false
    → is_seen (handle_sha w owner name r sha s).seen (commit_key w sha) ≡ true
unfolding handle_sha mark_seen
handle_sha-seen w owner name r sha s f g = ground (
  arith,
  is_seen-mark_seen s.seen (commit_key w sha) (commit_key w sha),
  same_commit-key w sha sha,
  str_eq_self sha,
)

rounds-seen :
    (initial interval : Duration) (w : Watch) (owner name : Str) (s : Loop) (rs : List Round)
    (i : ℕ) (r : Round) (sha : Str)
    → get_elem? rs i ≡ some r
    → fetch_sha r.github owner name w ≡ answered sha
    → r.is_seen_fails ≡ false
    → r.mark_seen_fails ≡ false
    → is_seen (rounds initial interval w owner name s rs).seen (commit_key w sha) ≡ true
unfolding rounds after_fetch
rounds-seen initial interval w owner name s [] i r sha m a f g = absurd (cc)
rounds-seen initial interval w owner name s (x ∷ rs) zero r sha m a f g =
    let e : x ≡ r = cc in
    let now : is_seen
          (after_fetch initial w owner name x (waited interval s)
            (fetch_sha x.github owner name w)).seen
          (commit_key w sha)
        ≡ true =
      rw (e, a)
        (handle_sha-seen w owner name r sha (record (waited interval s) { backoff = 0 }) f g) in
    rounds-keeps initial interval w owner name (round initial interval w owner name s x) rs
      (commit_key w sha) now
rounds-seen initial interval w owner name s (x ∷ rs) (suc i) r sha m a f g =
    rounds-seen initial interval w owner name (round initial interval w owner name s x) rs i r sha m
      a f g

-- A round that found the commit and a full channel.
abbrev pub IsFullAt : Watch → Str → Str → List Round → Str → Type 0
IsFullAt w owner name rs sha =
    (j : ℕ) × (r : Round) × (get_elem? rs j ≡ some r)
    × (fetch_sha r.github owner name w ≡ answered sha)
    × (r.has_room ≡ false)

dropped_shas-send :
    (b : Bool) (j : Job) (xs : List Send) (k : Str)
    → mem k (dropped_shas (send b j ∷ xs)) ≡ true
    → (mem k (dropped_shas xs) ≡ true) ⊎ ((b ≡ false) × (j.sha ≡ k))
unfolding mem dropped_shas
dropped_shas-send true j xs k h = inl h
dropped_shas-send false j xs k h = ground (arith, str_eq_iff j.sha k)

handle_sha-dropped :
    (w : Watch) (owner name : Str) (r : Round) (sha : Str) (s : Loop) (k : Str)
    → mem k (dropped_shas (handle_sha w owner name r sha s).sends) ≡ true
    → (mem k (dropped_shas s.sends) ≡ true) ⊎ ((r.has_room ≡ false) × (sha ≡ k))
unfolding job_of
handle_sha-dropped w owner name r sha s k h = elim (handle_sha-cases w owner name r sha s) [
  | inl e ↦ inl (subst (λ t. mem k (dropped_shas t.sends) ≡ true) e h)
  | inr (n, e) ↦
      dropped_shas-send r.has_room (job_of w owner name sha) s.sends k
        (subst (λ t. mem k (dropped_shas t.sends) ≡ true) e h)
]

after_fetch-dropped :
    (initial : Duration) (w : Watch) (owner name : Str) (r : Round) (s : Loop) (x : Answer Str)
    (k : Str)
    → mem k (dropped_shas (after_fetch initial w owner name r s x).sends) ≡ true
    → (mem k (dropped_shas s.sends) ≡ true) ⊎ ((r.has_room ≡ false) × (x ≡ answered k))
unfolding after_fetch
after_fetch-dropped initial w owner name r s (failed e) k h = inl (ground arith)
after_fetch-dropped initial w owner name r s (answered sha) k h =
    elim (handle_sha-dropped w owner name r sha (record s { backoff = 0 }) k h) [
      | inl old ↦ inl old
      | inr (full, same) ↦ inr (full, ap answered same)
    ]

rounds-dropped :
    (initial interval : Duration) (w : Watch) (owner name : Str) (s : Loop) (rs : List Round)
    (k : Str)
    → mem k (dropped_shas (rounds initial interval w owner name s rs).sends) ≡ true
    → (mem k (dropped_shas s.sends) ≡ true) ⊎ IsFullAt w owner name rs k
unfolding rounds
rounds-dropped initial interval w owner name s [] k h = inl h
rounds-dropped initial interval w owner name s (r ∷ rs) k h =
    elim (rounds-dropped initial interval w owner name (round initial interval w owner name s r) rs
      k h) [
        | inr (j, x, at, found, full) ↦ inr (suc j, x, at, found, full)
        | inl old ↦
            elim (after_fetch-dropped initial w owner name r (waited interval s)
              (fetch_sha r.github owner name w) k old) [
                | inl older ↦ inl older
                | inr (full, found) ↦ inr (zero, r, refl, found, full)
              ]
      ]

begin-undropped : (old : List SeenCommit) (k : Str) → mem k (dropped_shas (begin old).sends) ≡ false
unfolding mem dropped_shas
begin-undropped old k = refl

-- If GitHub answers a round with a commit and the store does not fail in that round, then the commit had been
-- seen before the loop began, or by the end the channel has taken its job, or some round has found the commit
-- and a full channel.
pub rounds-covers :
    (initial interval : Duration) (w : Watch) (owner name : Str) (old : List SeenCommit)
    (rs : List Round) (i : ℕ) (r : Round) (sha : Str)
    → get_elem? rs i ≡ some r
    → fetch_sha r.github owner name w ≡ answered sha
    → r.is_seen_fails ≡ false
    → r.mark_seen_fails ≡ false
    → let sends = (rounds initial interval w owner name (begin old) rs).sends in
      (is_seen old (commit_key w sha) ≡ true)
      ⊎ (mem sha (sent_shas sends) ≡ true)
      ⊎ IsFullAt w owner name rs sha
rounds-covers initial interval w owner name old rs i r sha m a f g =
    let since =
      rounds-SinceStart initial interval w owner name old (begin old) rs (begin-SinceStart w old) in
    let seen = rounds-seen initial interval w owner name (begin old) rs i r sha m a f g in
    let sends : List Send = (rounds initial interval w owner name (begin old) rs).sends in
    elim (one_of (is_seen old (commit_key w sha)) (mem sha (sent_shas sends))
      (mem sha (dropped_shas sends))
      (ap (λ b. is_seen old (commit_key w sha) || b) (sym (mem-shas sha sends))
        ∙ sym (since.rows sha)
        ∙ seen)) [
          | inl before ↦ inl before
          | inr (inl taken) ↦ inr (inl taken)
          | inr (inr lost) ↦
              elim (rounds-dropped initial interval w owner name (begin old) rs sha lost) [
                | inl early ↦
                    let clash : true ≡ false = sym early ∙ begin-undropped old sha in absurd (cc)
                | inr full ↦ inr (inr full)
              ]
        ]
  where
    one_of : (a b c : Bool) → (a || (b || c)) ≡ true → (a ≡ true) ⊎ (b ≡ true) ⊎ (c ≡ true)
    one_of true b c h = inl refl
    one_of false true c h = inr (inl refl)
    one_of false false true h = inr (inr refl)
    one_of false false false h = cc
