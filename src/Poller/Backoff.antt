-- ===== src/Poller/Backoff.antt =====
-- The backoff of internal/poller/poller.go under rate limits.

use ghenkins.Prelude.{
  ℕ, zero, suc, ◌+◌, ◌*◌, ap, length, ◌∙◌, refl, ◌≤◌, ◌<◌, ◌≡◌, ◌⊎◌, subst, sym, true, false, List,
  [], ◌∷◌, arith, ltb, if◌then◌else◌, All,
}
use ghenkins.Prelude.Text.{Str, split_n2}
use ghenkins.Config.{Watch}
use ghenkins.Poller.{
  begin, run_parts, ApiError, Answer, SeenCommit, after_fetch, waited, Duration, Loop, Round,
  five_minutes, next_backoff, round, rounds, run_watch, handle_sha, wait_of, is_rate_limit_err,
  fetch_sha, failed, answered, poll_interval_or_default,
}

next_backoff-le :
    (initial d : Duration)
    → initial ≤ five_minutes
    → d ≤ five_minutes
    → next_backoff initial d ≤ five_minutes
unfolding next_backoff
next_backoff-le initial d i h = ground arith

-- The smaller of two durations.
abbrev pub min_of : Duration → Duration → Duration
min_of a b = if ltb a b then a else b

-- The backoff of so many rate limits in a row.
unfoldable pub after_limits : Duration → ℕ → Duration
unfolding next_backoff
after_limits initial zero = 0
after_limits initial (suc n) = next_backoff initial (after_limits initial n)

-- The first backoff doubled so many times.
unfoldable pub doubled : Duration → ℕ → ℕ
doubled initial zero = initial
doubled initial (suc n) = doubled initial n * 2

doubled_pos : (initial : Duration) (n : ℕ) → 0 < initial → 0 < doubled initial n
unfolding doubled
doubled_pos initial zero h = h
doubled_pos initial (suc n) h = omega (arith, doubled_pos initial n h)

next_backoff_step :
    (initial q b : ℕ)
    → 0 < q
    → b ≡ min_of q five_minutes
    → next_backoff initial b ≡ min_of (q * 2) five_minutes
unfolding next_backoff
next_backoff_step initial q b l e = ground arith

after_limits-doubled :
    (initial : Duration) (n : ℕ)
    → 0 < initial
    → initial ≤ five_minutes
    → after_limits initial (suc n) ≡ min_of (doubled initial n) five_minutes
unfolding after_limits doubled next_backoff
after_limits-doubled initial zero l h = ground arith
after_limits-doubled initial (suc n) l h =
    next_backoff_step initial (doubled initial n) (after_limits initial (suc n))
      (doubled_pos initial n l) (after_limits-doubled initial n l h)

-- GitHub answers the round with a rate limit.
abbrev pub IsLimited : Watch → Str → Str → Round → Type 0
IsLimited w owner name r =
    (e : ApiError) × (fetch_sha r.github owner name w ≡ failed e) × (is_rate_limit_err e ≡ true)

after_fetch_limited :
    (initial : Duration) (w : Watch) (owner name : Str) (r : Round) (s : Loop) (x : Answer Str)
    (e : ApiError)
    → x ≡ failed e
    → is_rate_limit_err e ≡ true
    → (after_fetch initial w owner name r s x).backoff ≡ next_backoff initial s.backoff
unfolding after_fetch
after_fetch_limited initial w owner name r s (failed x) e same h = ground arith
after_fetch_limited initial w owner name r s (answered sha) e same h = cc

-- `m` rate limits lie behind the state.
rounds_limited :
    (initial interval : Duration) (w : Watch) (owner name : Str) (rs : List Round) (s : Loop)
    (m : ℕ)
    → s.backoff ≡ after_limits initial m
    → All (IsLimited w owner name) rs
    → (rounds initial interval w owner name s rs).backoff ≡ after_limits initial (m + length rs)
unfolding rounds after_limits
rounds_limited initial interval w owner name [] s m b h = let e : m + 0 ≡ m = omega arith in rw e b
rounds_limited initial interval w owner name (r ∷ rs) s m b (l, h) =
    let e : m + suc (length rs) ≡ suc m + length rs = omega arith in
    rw e (
      rounds_limited initial interval w owner name rs (round initial interval w owner name s r)
        (suc m)
        (after_fetch_limited initial w owner name r (waited interval s)
            (fetch_sha r.github owner name w) l.0 l.1 l.2
          ∙ ap (next_backoff initial) b)
        h)

zero_add : (n : ℕ) → 0 + n ≡ n
zero_add n = omega arith

-- If the first backoff is positive and at most five minutes, then n + 1 rounds from the start of the loop that
-- GitHub answers with a rate limit make the backoff the first one doubled n times, but at most five minutes;
-- the doubling does not overflow.
pub rounds-doubled :
    (initial interval : Duration) (w : Watch) (owner name : Str) (seen : List SeenCommit)
    (rs : List Round) (n : ℕ)
    → 0 < initial
    → initial ≤ five_minutes
    → length rs ≡ suc n
    → All (IsLimited w owner name) rs
    → (rounds initial interval w owner name (begin seen) rs).backoff
      ≡ min_of (doubled initial n) five_minutes
unfolding after_limits
rounds-doubled initial interval w owner name seen rs n l h k limited =
    rounds_limited initial interval w owner name rs (begin seen) 0 refl limited
    ∙ ap (after_limits initial) (zero_add (length rs) ∙ k)
    ∙ after_limits-doubled initial n l h

-- The wait of a round is the interval, or a backoff of at most five minutes.
abbrev pub IsWait : Duration → Duration → Type 0
IsWait interval d = (d ≡ interval) ⊎ ((0 < d) × (d ≤ five_minutes))

wait_of-IsWait : (interval b : Duration) → b ≤ five_minutes → IsWait interval (wait_of interval b)
wait_of-IsWait interval b h = ground arith

abbrev pub IsPaced : Duration → Loop → Type 0
IsPaced interval s = (s.backoff ≤ five_minutes) × All (IsWait interval) s.waits

handle_sha-waits :
    (w : Watch) (owner name : Str) (r : Round) (sha : Str) (s : Loop)
    → ((handle_sha w owner name r sha s).waits ≡ s.waits)
      × ((handle_sha w owner name r sha s).backoff ≡ s.backoff)
unfolding handle_sha
handle_sha-waits w owner name r sha s = (ground arith, ground arith)

after_fetch-IsPaced :
    (initial interval : Duration) (w : Watch) (owner name : Str) (r : Round) (s : Loop)
    (x : Answer Str)
    → initial ≤ five_minutes
    → IsPaced interval s
    → IsPaced interval (after_fetch initial w owner name r s x)
unfolding after_fetch
after_fetch-IsPaced initial interval w owner name r s (failed e) i h =
    elim (is_rate_limit_err e)
      as (λ b. IsPaced interval (
        if b
        then record s { backoff = next_backoff initial s.backoff }
        else record s { backoff = 0 })) [
          | true ↦ (next_backoff-le initial s.backoff i h.0, h.1)
          | false ↦ (omega arith, h.1)
        ]
after_fetch-IsPaced initial interval w owner name r s (answered sha) i h =
    let e = handle_sha-waits w owner name r sha (record s { backoff = 0 }) in
    (omega (arith, e.1), subst (All (IsWait interval)) (sym e.0) h.1)

rounds-IsPaced :
    (initial interval : Duration) (w : Watch) (owner name : Str) (s : Loop) (rs : List Round)
    → initial ≤ five_minutes
    → IsPaced interval s
    → IsPaced interval (rounds initial interval w owner name s rs)
unfolding rounds
rounds-IsPaced initial interval w owner name s [] i h = h
rounds-IsPaced initial interval w owner name s (r ∷ rs) i h =
    let p =
      after_fetch-IsPaced initial interval w owner name r (waited interval s)
        (fetch_sha r.github owner name w) i (h.0, (wait_of-IsWait interval s.backoff h.0, h.1)) in
    rounds-IsPaced initial interval w owner name (round initial interval w owner name s r) rs i p

run_parts-waits :
    (initial interval : Duration) (w : Watch) (seen : List SeenCommit) (rs : List Round)
    (ps : List Str)
    → initial ≤ five_minutes
    → All
        (IsWait (poll_interval_or_default interval))
        (run_parts initial interval w (begin seen) rs ps).waits
unfolding run_parts
run_parts-waits initial interval w seen rs [] i = tt
run_parts-waits initial interval w seen rs (owner ∷ []) i = tt
run_parts-waits initial interval w seen rs (owner ∷ name ∷ []) i =
    (rounds-IsPaced initial (poll_interval_or_default interval) w owner name (begin seen) rs i
      (omega arith, tt)).1
run_parts-waits initial interval w seen rs (owner ∷ name ∷ x ∷ xs) i = tt

-- If the first backoff is at most five minutes, every wait of the loop is the poll interval (30 seconds
-- when none is set) or a positive backoff of at most five minutes, whatever GitHub answers.
pub run_watch-waits :
    (initial interval : Duration) (w : Watch) (seen : List SeenCommit) (rs : List Round)
    → initial ≤ five_minutes
    → All
        (IsWait (poll_interval_or_default interval))
        (run_watch initial interval w (begin seen) rs).waits
unfolding run_watch
run_watch-waits initial interval w seen rs i =
    run_parts-waits initial interval w seen rs (split_n2 b'/' w.repo) i
