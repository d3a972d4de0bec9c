-- ===== src/Lib.antt =====
-- ghenkins watches GitHub repositories and runs their workflows on the machine at hand. The poller
-- (internal/poller) turns new commits into jobs, the queue (internal/queue) holds them for the dispatch
-- loop of the daemon (internal/daemon), and the runner (internal/runner) orders the jobs of a workflow and
-- runs their steps; the store (internal/store) keeps runs, their jobs and the projects to watch;
-- expressions in a workflow are evaluated in contexts, and steps hand variables on through files. The
-- reporter (internal/reporter) sends commit statuses, the log server removes old logs, and the
-- configuration (internal/config) says what to watch.
--
-- Files and the code that they model:
--   Config        internal/config/config.go: the data, applyDefaults (apply_defaults), validate and
--                 EffectiveProjects (effective_projects)
--   Poller        internal/poller/poller.go: runWatch (run_watch, a fold of rounds over what GitHub and the
--                 store answer), fetchSHA, nextBackoff, isRateLimitErr; MarkSeen and IsSeen of
--                 internal/store/store.go as rows of a list
--   Queue         internal/queue/queue.go: Enqueue, Dequeue (one pass under the lock), Close. In
--                 Queue/Wakeup the condition variable is a step relation with one goroutine in Dequeue
--   Workflow      internal/runner/workflow.go: the data, RunsOnImage, NeedsIDs, JobNeeds and
--                 BuildExecutionOrder (build_execution_order). A job that is null in the file is `none` there: Run
--                 panics on it (check_jobs of Workflow/Nil) or goes on with the jobs, of which none is nil; RunJob panics on a
--                 step that is null (all_steps)
--   Expr          internal/runner/eval.go and internal/runner/context.go: tokenizer (Token), parser
--                 (Parser), functions (Builtin), values (Value), Lookup (Context), BuildEvalContext (Build, with
--                 internal/runner/event.go), Eval, EvalBool and Interpolate (Eval; Interpolation). Expr/Grammar has syntax
--                 trees and their meaning, which know nothing of tokens
--   EnvFile       internal/runner/stepenv.go: ReadDelta, readNewBytes, parseEnvFile, parsePathFile
--   Action        internal/runner/action.go: ResolveAction (resolve_action) and what it calls; the data of
--                 actions in internal/runner/workflow.go
--   Executor      internal/runner/executor.go: in Executor/RunStep RunStep (run_step) with the composite and docker
--                 actions of internal/runner/action.go, on the commands of Executor/Command; in Executor/Jobs RunJob
--                 (run_job) and its loop over the steps
--   Runner        internal/runner/runner.go: the loop of Run over the jobs (run_jobs), with the calls of
--                 JobCallback; Run itself in Runner/Run, and in Runner/Prepare its workspace, with
--                 internal/runner/clone.go
--   Store         internal/store/store.go: the tables of runs and their jobs; in Store/Projects those of
--                 projects, workflows and triggers, and the older watches; Store/Selections is about its
--                 SELECT statements
--   Accounts      internal/logserver/server.go: set-up, log-in and the handlers of users behind authMiddleware and
--                 adminMiddleware (handle), with the tables of users and sessions of internal/store/store.go
--   Daemon        internal/daemon/daemon.go: recoverStaleRuns, runJob (run_job, the row of a run and its reports),
--                 with the writes of UpdateRunSHA and CancelRun to the row, and JobCallback (job_callback); in
--                 Daemon/Shared the runs in flight as a step relation; in Daemon/Requests, with Daemon/Manual,
--                 TriggerRun, CancelRun, the seeding of projects and the watch provider
--   Reporter      internal/reporter/reporter.go: Report
--   Retention     internal/logserver/retention.go: ApplyRetention
--   Secrets       internal/secrets/secrets.go: ResolveSecrets (resolve_secrets), resolveValue
--   Prelude       strings as lists of bytes with the functions of package strings that the code calls,
--                 Go maps as association lists, numbers, and their lemmas
--   Samples       runs at concrete inputs
--
-- Conventions. A Go map is an association list; its order stands for the order of iteration, which Go
-- leaves open. An int is an integer without bound, except for the backoff of the poller, whose doubling
-- wraps modulo 2 ^ 64. Errors are values, without their texts where those are not looked at. Letter case and
-- white space are those of ASCII. Parameters stand for code outside of the repository: float64, strconv and
-- encoding/json (GoLib of Expr/Value), the GitHub client (GitHub of Poller, Reply of Reporter), os.Remove
-- (Retention), the store of secrets and envsubst (Sources of Secrets), the home directory (Environment of Config), files, HTTP, the
-- container and podman (Host of Action), and git, the clock and the YAML decoder of workflows (Site of Runner/Prepare), and
-- bcrypt (Crypto of Accounts).
-- The set-up of a job's container is a parameter of run_job. In runJob of the daemon flags say whether its context is
-- alive at each statement, calls of CancelRun write between its statements, and statements of the store
-- otherwise succeed. JobCallback of the runner is set.
--
-- Fuel. tokenize has a round for each byte, the parser eight for each token and eight more (fuel_for), and
-- kahn one for each job and one more; out_of_fuel and `none` stand for fuel that runs out, and the results
-- say that it never does. interpolate_loop has a round for each byte, each of which takes a byte at least.
--
-- The fuel of run_step is the depth of composite actions in each other; nothing bounds it in the code, where an action
-- may use itself, so out_of_fuel is an answer of its own there and an end of its own in RunJob and Run.
--
-- Not modelled: a nil step of a composite action, on which the code panics; timeouts, bind mounts, artifacts and logs of a job; foreign keys and artifacts of
-- the store, and its texts of times; the files of secrets, the other HTTP handlers, command line, and the podman library, which are
-- input and output; the start of the daemon's goroutines; YAML and JSON decoding, which libraries do.
pub mod Prelude
pub mod Config
pub mod Poller
pub mod Queue
pub mod Workflow
pub mod Expr
pub mod EnvFile
pub mod Reporter
pub mod Retention
pub mod Secrets
pub mod Action
pub mod Executor
pub mod Runner
pub mod Store
pub mod Accounts
pub mod Daemon
pub mod Samples
