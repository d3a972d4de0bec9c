-- ===== src/Samples/Polls.antt =====
-- Runs of internal/poller/poller.go, internal/reporter/reporter.go, internal/config/config.go and
-- internal/logserver/retention.go.
use ghenkins.Prelude.{
  ℕ, zero, suc, ◌≡◌, ◌⊎◌, ◌==◌, not, refl, Bool, true, false, List, [], ◌∷◌, arith, All,
}
use ghenkins.Prelude.Text.{Str, lit, str_eq, split_n2}
use ghenkins.Prelude.Names.{mem}
use ghenkins.Prelude.Int.{pos}
use ghenkins.Config.{Environment, Watch, Config, validate}
use ghenkins.Config.Checks.{IsWatch, validate-IsWatch}
use ghenkins.Poller.{
  GitHub, answered, failed, rate_limit_error, Round, begin, run_watch, rounds, is_seen, commit_key,
  fetch_sha, poll_interval_or_default, is_rate_limit_err, pr_or_branch,
}
use ghenkins.Poller.Sends.{
  SinceStart, run_watch-SinceStart, rounds-covers, shas, sent_shas, IsFullAt,
}
use ghenkins.Poller.Backoff.{doubled, min_of, IsWait, rounds-doubled, run_watch-waits}
use ghenkins.Retention.{LogFile, apply_retention, IsRetained, apply_retention-IsRetained}
use ghenkins.Reporter.{
  Reply, created, no_response, error_status, report, ReportRequest, report-retries, IsTransient,
}

abbrev watch : Watch
watch = record {
  name = lit "w";
  repo = lit "o/r";
  pr = pos 0;
  branch = lit "main";
  workflows = [];
  on = [];
}

-- A server whose branches all stand at one commit.
abbrev server : Str → GitHub
server sha = record {
  list_commits = λ owner repo pr per_page. answered (sha ∷ []);
  get_ref = λ owner repo ref. answered sha;
}

abbrev limited : GitHub
limited = record {
  list_commits = λ owner repo pr per_page. failed rate_limit_error;
  get_ref = λ owner repo ref. failed rate_limit_error;
}

abbrev round_of : GitHub → Bool → Round
round_of g room = record {
  github = g;
  is_seen_fails = false;
  mark_seen_fails = false;
  has_room = room;
}

-- A commit that finds no room, a rate limit, the same commit with room, and another commit.
abbrev history : List Round
history =
    round_of (server (lit "1")) false
    ∷ round_of limited true
    ∷ round_of (server (lit "1")) true
    ∷ round_of (server (lit "2")) true
    ∷ []

history_runs : shas (run_watch 5 30 watch (begin []) history).sends ≡ lit "2" ∷ lit "1" ∷ []
unfolding run_watch shas lit str_eq is_rate_limit_err pr_or_branch
history_runs = refl

run_watch-SinceStart_example : SinceStart watch [] (run_watch 5 30 watch (begin []) history)
run_watch-SinceStart_example = run_watch-SinceStart 5 30 watch [] history

rounds-covers_example :
    let sends = (rounds 5 30 watch (lit "o") (lit "r") (begin []) history).sends in
    (is_seen [] (commit_key watch (lit "1")) ≡ true)
    ⊎ (mem (lit "1") (sent_shas sends) ≡ true)
    ⊎ IsFullAt watch (lit "o") (lit "r") history (lit "1")
unfolding fetch_sha
rounds-covers_example =
    rounds-covers 5 30 watch (lit "o") (lit "r") [] history 2 (round_of (server (lit "1")) true)
      (lit "1") refl refl refl refl

abbrev limits : List Round
limits = round_of limited true ∷ round_of limited false ∷ round_of limited true ∷ []

rounds-doubled_example :
    (rounds 5_000_000_000 30 watch (lit "o") (lit "r") (begin []) limits).backoff
    ≡ min_of (doubled 5_000_000_000 2) 300_000_000_000
unfolding fetch_sha is_rate_limit_err
rounds-doubled_example =
    rounds-doubled 5_000_000_000 30 watch (lit "o") (lit "r") [] limits 2 (omega arith)
      (omega arith) refl
      (
        (rate_limit_error, refl, refl),
        ((rate_limit_error, refl, refl), ((rate_limit_error, refl, refl), tt)),
      )

run_watch-waits_example :
    All (IsWait (poll_interval_or_default 30)) (run_watch 5 30 watch (begin []) history).waits
run_watch-waits_example = run_watch-waits 5 30 watch [] history (omega arith)

-- Two replies that are tried again, then success.
abbrev flaky : ℕ → Reply
flaky zero = no_response
flaky (suc zero) = error_status 502
flaky _ = created

abbrev in_time : ℕ → Bool
in_time n = false

report-retries_example : IsTransient (flaky 1)
unfolding report
report-retries_example = report-retries in_time flaky 1 (omega arith)

abbrev request : ReportRequest
request = record {
  owner = lit "o";
  repo = lit "r";
  sha = lit "1";
  workflow_name = lit "ci";
  status = lit "success";
  description = lit "all good";
  target_url = lit "";
}

abbrev config : Config
config = record {
  token = lit "";
  poll_interval = pos 0;
  bind = lit "";
  retention_days = pos 0;
  retention_bytes = pos 0;
  store_path = lit "";
  default_image = lit "";
  workspace_dir = lit "";
  max_concurrency = pos 0;
  projects = [];
  watches = watch ∷ [];
}

validate-IsWatch_example : All IsWatch (watch ∷ [])
unfolding validate lit str_eq split_n2
validate-IsWatch_example = validate-IsWatch config refl

abbrev log : ℕ → ℕ → LogFile
log size mtime = record { path = lit "x.log"; size = size; mtime = mtime }

-- The file of size 5 cannot be removed.
abbrev removable : LogFile → Bool
removable f = not (f.size == 5)

abbrev logs : List LogFile
logs = log 8 90 ∷ log 5 70 ∷ log 6 80 ∷ log 9 10 ∷ []

apply_retention-IsRetained_example :
    IsRetained removable 100 50 12 logs (apply_retention removable 100 50 12 logs)
apply_retention-IsRetained_example = apply_retention-IsRetained removable 100 50 12 logs

abbrev environment : Environment
environment = record { home = lit "/root"; workspace_env = lit "" }
