-- ===== src/Samples/Workflows.antt =====
-- Runs of internal/runner/workflow.go.
use ghenkins.Prelude.{◌≡◌, ◌≢◌, refl, arith, true, List, [], ◌∷◌, none, some}
use ghenkins.Prelude.Text.{Str, lit, str_eq}
use ghenkins.Prelude.Dict.{Dict, lookup, keys, insert, delete, lookup_or}
use ghenkins.Prelude.Int.{pos}
use ghenkins.Prelude.Names.{mem, count}
use ghenkins.Workflow.{
  Job, StringOrList, text, items, other, ok, err, unknown_job, cycle_detected, out_of_fuel,
  build_execution_order, needs_ids,
}
use ghenkins.Workflow.Nil.{check_jobs, nil_pointer}
use ghenkins.Workflow.Order.Setup.{needs_of}
use ghenkins.Workflow.Order.Waves.{Respects, Trapped, concat}
use ghenkins.Workflow.Order.Results.{
  order-Respects, order-count, cycle_detected-Trapped, unknown_job_sound, order_complete,
  order-ne-out_of_fuel,
}

abbrev pub job : StringOrList → Job
job needs = record {
  name = lit "";
  runs_on = text (lit "ubuntu-22.04");
  needs = needs;
  condition = lit "";
  env = [];
  defaults = none;
  timeout_minutes = pos 0;
  steps = [];
  extra_binds = [];
  volumes = [];
  artifact_paths = [];
}

-- `deploy` needs `test` and `build`, `test` needs `build`.
abbrev pub pipeline : Dict Job
pipeline =
    (lit "deploy", job (items (some (lit "test") ∷ some (lit "build") ∷ [])))
    ∷ (lit "test", job (text (lit "build")))
    ∷ (lit "build", job other)
    ∷ []

abbrev pub pipeline_waves : List (List Str)
pipeline_waves = (lit "build" ∷ []) ∷ (lit "test" ∷ []) ∷ (lit "deploy" ∷ []) ∷ []

-- Two jobs that need each other.
abbrev ring : Dict Job
ring = (lit "a", job (text (lit "b"))) ∷ (lit "b", job (text (lit "a"))) ∷ []

abbrev dangling : Dict Job
dangling = (lit "a", job (text (lit "x"))) ∷ []

pub pipeline_runs : build_execution_order pipeline ≡ ok pipeline_waves
unfolding build_execution_order lit str_eq lookup insert needs_ids lookup_or delete
pipeline_runs = refl

ring_runs : build_execution_order ring ≡ err cycle_detected
unfolding build_execution_order lit str_eq lookup insert needs_ids lookup_or delete
ring_runs = refl

dangling_runs : build_execution_order dangling ≡ err (unknown_job (lit "a") (lit "x"))
unfolding build_execution_order lit str_eq lookup insert needs_ids lookup_or delete
dangling_runs = refl

order-Respects_example : Respects (needs_of pipeline) [] pipeline_waves
unfolding lit str_eq mem
order-Respects_example =
    order-Respects pipeline pipeline_waves (refl, (refl, (refl, tt))) pipeline_runs

order-count_example : count (lit "test") (concat pipeline_waves) ≡ 1
unfolding lit str_eq mem
order-count_example =
    order-count pipeline pipeline_waves (lit "test") (refl, (refl, (refl, tt))) pipeline_runs

cycle_detected-Trapped_example :
    (k : Str) × (ks : List Str) × Trapped (keys ring) (needs_of ring) (k ∷ ks) (k ∷ ks)
unfolding lit str_eq mem
cycle_detected-Trapped_example = cycle_detected-Trapped ring (refl, (refl, tt)) ring_runs

unknown_job_sound_example :
    (mem (lit "x") (needs_of dangling (lit "a")) ≡ true) × (lookup (lit "x") dangling ≡ none)
unfolding lit str_eq mem
unknown_job_sound_example = unknown_job_sound dangling (lit "a") (lit "x") (refl, tt) dangling_runs

order_complete_example : (waves : List (List Str)) × (build_execution_order pipeline ≡ ok waves)
unfolding lit str_eq mem needs_of needs_ids lookup
order_complete_example =
    order_complete pipeline pipeline_waves (refl, (refl, (refl, tt)))
      (((_, refl), ((_, refl), tt)), (((_, refl), tt), (tt, tt))) (ground arith) (ground arith)

order-ne-out_of_fuel_example : build_execution_order ring ≢ err out_of_fuel
unfolding lit str_eq mem
order-ne-out_of_fuel_example = order-ne-out_of_fuel ring (refl, (refl, tt))

-- A job that is null in the file.
null_panics :
    check_jobs
      ((lit "a", some (job other)) ∷ (lit "b", none) ∷ [])
      ((lit "a", some (job other)) ∷ (lit "b", none) ∷ [])
    ≡ nil_pointer
unfolding check_jobs needs_ids
null_panics = refl
