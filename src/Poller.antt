-- ===== src/Poller.antt =====
-- internal/poller/poller.go: the loop of one watch, which turns new commits into jobs. The commits
-- that have been seen are those of internal/store/store.go (MarkSeen and IsSeen). GitHub's answers are a
-- parameter of each round.
pub mod Backoff
pub mod Sends
use Prim.Native.Nat.{◌%◌, ◌^◌}
use ghenkins.Prelude.{
  ℕ, zero, suc, ◌+◌, ◌*◌, Bool, true, false, not, ◌&&◌, ◌||◌, List, [], ◌∷◌, ◌++◌, Option, none,
  some, ltb, leb, ◌==◌, if◌then◌else◌,
}
use ghenkins.Prelude.Text.{Str, lit, str_eq, split_n2}
use ghenkins.Prelude.Decimal.{show_int}
use ghenkins.Prelude.Dict.{Dict}
use ghenkins.Prelude.Int.{ℤ, pos, is_zero}
use ghenkins.Config.{WorkflowRef, Watch}

-- A new commit, or a manual trigger.
pub record Job : Type 0 where
  pub watch_name : Str
  pub repo : Str
  pub owner : Str
  pub repo_name : Str
  pub sha : Str
  pub pr_number : ℤ
  pub branch : Str
  pub event_type : Str
  pub workflow_refs : List WorkflowRef
  pub inputs : Dict Str
  pub run_id : Str

-- The errors that isRateLimitErr tells apart; an ErrorResponse has a status if it has a Response.
pub data ApiError : Type 0 where
  rate_limit_error abuse_rate_limit_error other_error : ApiError
  error_response : Option ℕ → ApiError

pub data Answer {ℓ} (A : Type ℓ) : Type ℓ where
  failed : ApiError → Answer A
  answered : A → Answer A

-- PullRequests.ListCommits with owner, repository, number and PerPage, and Git.GetRef with owner,
-- repository and ref, as the SHAs that they answer.
pub record GitHub : Type 0 where
  pub list_commits : Str → Str → ℤ → ℕ → Answer (List Str)
  pub get_ref : Str → Str → Str → Answer Str

-- commits[len(commits)-1], where there is one.
unfoldable pub last_commit : List Str → Answer Str
last_commit [] = failed other_error
last_commit (x ∷ []) = answered x
last_commit (x ∷ y ∷ xs) = last_commit (y ∷ xs)

unfoldable pub fetch_sha : GitHub → Str → Str → Watch → Answer Str
unfolding last_commit
fetch_sha g owner repo w =
    if not (is_zero w.pr)
    then elim (g.list_commits owner repo w.pr 1) [
      | failed e ↦ failed e
      | answered commits ↦ last_commit commits
    ]
    else g.get_ref owner repo (lit "heads/" ++ w.branch)

abbrev is_too_many : Option ℕ → Bool
is_too_many none = false
is_too_many (some status) = status == 429

unfoldable pub is_rate_limit_err : ApiError → Bool
is_rate_limit_err rate_limit_error = true
is_rate_limit_err abuse_rate_limit_error = true
is_rate_limit_err (error_response status) = is_too_many status
is_rate_limit_err other_error = false

-- A time.Duration in nanoseconds: an int64 as its residue modulo 2 ^ 64.
abbrev pub Duration : Type 0
Duration = ℕ

abbrev pub five_minutes : Duration
five_minutes = 300_000_000_000

-- d > limit for signed words, where the limit is not negative.
abbrev pub exceeds : Duration → Duration → Bool
exceeds d limit = ltb limit d && ltb d 9_223_372_036_854_775_808

unfoldable pub next_backoff : Duration → Duration → Duration
next_backoff initial current =
    if current == 0
    then initial
    else if exceeds ((current * 2) % 18_446_744_073_709_551_616) five_minutes
    then five_minutes
    else (current * 2) % 18_446_744_073_709_551_616

-- A row of seen_commits without its time.
pub record SeenCommit : Type 0 where
  pub repo : Str
  pub sha : Str
  pub pr_or_branch : Str

abbrev pub same_commit : SeenCommit → SeenCommit → Bool
same_commit a b =
    str_eq a.repo b.repo && (str_eq a.sha b.sha && str_eq a.pr_or_branch b.pr_or_branch)

unfoldable pub is_seen : List SeenCommit → SeenCommit → Bool
is_seen [] k = false
is_seen (x ∷ xs) k = same_commit x k || is_seen xs k

-- INSERT OR IGNORE
unfoldable pub mark_seen : List SeenCommit → SeenCommit → List SeenCommit
unfolding is_seen
mark_seen rows k = if is_seen rows k then rows else rows ++ k ∷ []

-- What a round of the loop finds: GitHub's answers, whether the store fails, and whether the channel
-- has room.
pub record Round : Type 0 where
  pub github : GitHub
  pub is_seen_fails : Bool
  pub mark_seen_fails : Bool
  pub has_room : Bool

pub data Send : Type 0 where
  sent : Job → Send
  dropped : Job → Send

-- The state of the loop: the backoff, the store's rows, and, latest first, the waits and the sends.
pub record Loop : Type 0 where
  pub backoff : Duration
  pub seen : List SeenCommit
  pub waits : List Duration
  pub sends : List Send

unfoldable pub pr_or_branch : Watch → Str
unfolding show_int
pr_or_branch w = if not (is_zero w.pr) then lit "pr/" ++ show_int w.pr else w.branch

abbrev pub commit_key : Watch → Str → SeenCommit
commit_key w sha = record { repo = w.repo; sha = sha; pr_or_branch = pr_or_branch w }

unfoldable pub job_of : Watch → Str → Str → Str → Job
job_of w owner name sha = record {
  watch_name = w.name;
  repo = w.repo;
  owner = owner;
  repo_name = name;
  sha = sha;
  pr_number = w.pr;
  branch = w.branch;
  event_type = if not (is_zero w.pr) then lit "pull_request" else lit "push";
  workflow_refs = w.workflows;
  inputs = [];
  run_id = lit "";
}

abbrev pub send : Bool → Job → Send
send true j = sent j
send false j = dropped j

-- From IsSeen on.
unfoldable pub handle_sha : Watch → Str → Str → Round → Str → Loop → Loop
unfolding is_seen mark_seen job_of
handle_sha w owner name r sha s =
    if r.is_seen_fails
    then s
    else if is_seen s.seen (commit_key w sha)
    then s
    else if r.mark_seen_fails
    then s
    else record s {
      seen = mark_seen s.seen (commit_key w sha);
      sends = send r.has_room (job_of w owner name sha) ∷ s.sends;
    }

abbrev pub wait_of : Duration → Duration → Duration
wait_of interval backoff = if exceeds backoff 0 then backoff else interval

-- From the error test on.
unfoldable pub after_fetch : Duration → Watch → Str → Str → Round → Loop → Answer Str → Loop
unfolding next_backoff handle_sha
after_fetch initial w owner name r s (failed e) =
    if is_rate_limit_err e
    then record s { backoff = next_backoff initial s.backoff }
    else record s { backoff = 0 }
after_fetch initial w owner name r s (answered sha) =
    handle_sha w owner name r sha (record s { backoff = 0 })

abbrev pub waited : Duration → Loop → Loop
waited interval s = record s { waits = wait_of interval s.backoff ∷ s.waits }

-- One round of the loop, the wait included.
unfoldable pub round : Duration → Duration → Watch → Str → Str → Loop → Round → Loop
unfolding fetch_sha after_fetch
round initial interval w owner name s r =
    after_fetch initial w owner name r (waited interval s) (fetch_sha r.github owner name w)

unfoldable pub rounds : Duration → Duration → Watch → Str → Str → Loop → List Round → Loop
unfolding round
rounds initial interval w owner name s [] = s
rounds initial interval w owner name s (r ∷ rs) =
    rounds initial interval w owner name (round initial interval w owner name s r) rs

abbrev pub poll_interval_or_default : Duration → Duration
poll_interval_or_default d = if d == 0 then 30_000_000_000 else d

-- From the test of the parts on.
unfoldable pub run_parts : Duration → Duration → Watch → Loop → List Round → List Str → Loop
unfolding rounds
run_parts initial interval w s rs (owner ∷ name ∷ []) =
    rounds initial (poll_interval_or_default interval) w owner name s rs
run_parts initial interval w s rs _ = s

-- The whole method, for the rounds until the context is done; a repository without "/" ends it.
unfoldable pub run_watch : Duration → Duration → Watch → Loop → List Round → Loop
unfolding run_parts split_n2
run_watch initial interval w s rs = run_parts initial interval w s rs (split_n2 b'/' w.repo)

abbrev pub begin : List SeenCommit → Loop
begin seen = record { backoff = 0; seen = seen; waits = []; sends = [] }
