-- ===== src/Workflow.antt =====
-- internal/runner/workflow.go: the workflow data, and the order in which its jobs run. YAML decoding
-- is a library's: the data types below are what it fills.
pub mod Order
pub mod Nil
use ghenkins.Prelude.{
  ℕ, zero, suc, ◌+◌, Bool, List, [], ◌∷◌, ◌++◌, Option, none, some, ◌==◌, if◌then◌else◌, length,
}
use ghenkins.Prelude.Text.{Str, lit, str_eq}
use ghenkins.Prelude.Dict.{Dict, lookup, insert, delete, lookup_or}
use ghenkins.Prelude.Int.{ℤ, pos, is_zero, inc, dec}

pub record WorkflowInput : Type 0 where
  pub description : Str
  pub default : Str
  pub required : Bool
  pub type : Str

pub record Defaults : Type 0 where
  pub shell : Str
  pub working_directory : Str

pub record JobBindMount : Type 0 where
  pub host : Str
  pub container : Str
  pub read_only : Bool

pub record JobVolumeMount : Type 0 where
  pub name : Str
  pub container : Str
  pub copy : Bool

pub record Step : Type 0 where
  pub id : Str
  pub name : Str
  pub uses : Str
  pub run : Str
  pub shell : Str
  pub working_directory : Str
  pub with_inputs : Dict Str
  pub env : Dict Str
  pub condition : Str
  pub continue_on_error : Bool
  pub timeout_minutes : ℤ

-- An interface{} field as the type switches see it: a string, a list whose items are strings
-- (`some`) or not (`none`), or anything else, nil included.
pub data StringOrList : Type 0 where
  text : Str → StringOrList
  items : List (Option Str) → StringOrList
  other : StringOrList

-- `none` among the steps is a nil pointer, from a step that is null in the file.
pub record Job : Type 0 where
  pub name : Str
  pub runs_on : StringOrList
  pub needs : StringOrList
  pub condition : Str
  pub env : Dict Str
  pub defaults : Option Defaults
  pub timeout_minutes : ℤ
  pub steps : List (Option Step)
  pub extra_binds : List JobBindMount
  pub volumes : List JobVolumeMount
  pub artifact_paths : List Str

-- `none` among the jobs is a nil pointer, from a job that is null in the file.
pub record Workflow : Type 0 where
  pub name : Str
  pub env : Dict Str
  pub defaults : Option Defaults
  pub jobs : Dict (Option Job)
  pub inputs : Dict WorkflowInput

first_image : List (Option Str) → Str
first_image (some s ∷ rest) = s
first_image (none ∷ rest) = lit ""
first_image [] = lit ""

-- (j *Job) RunsOnImage
unfoldable pub runs_on_image : Job → Str
unfolding first_image
runs_on_image j = elim j.runs_on [ text s ↦ s | items v ↦ first_image v | other ↦ lit "" ]

pub strings : List (Option Str) → List Str
strings [] = []
strings (some s ∷ rest) = s ∷ strings rest
strings (none ∷ rest) = strings rest

-- (j *Job) NeedsIDs
unfoldable pub needs_ids : Job → List Str
unfolding strings
needs_ids j = elim j.needs [
  | text s ↦ if str_eq s (lit "") then [] else s ∷ []
  | items v ↦ strings v
  | other ↦ []
]

-- (w *Workflow) JobNeeds; the result `none` is the panic on a nil job.
unfoldable pub job_needs : Workflow → Str → Option (List Str)
unfolding needs_ids
job_needs w id = elim (lookup id w.jobs) [
  | none ↦ some []
  | some none ↦ none
  | some (some job) ↦ some (needs_ids job)
]

-- The errors of BuildExecutionOrder. `out_of_fuel` belongs to the model only.
pub data OrderError : Type 0 where
  unknown_job : Str → Str → OrderError
  cycle_detected : OrderError
  out_of_fuel : OrderError

pub data OrderResult {ℓ} (A : Type ℓ) : Type ℓ where
  ok : A → OrderResult A
  err : OrderError → OrderResult A

-- inDegree and dependents.
pub record Graph : Type 0 where
  pub in_degree : Dict ℤ
  pub dependents : Dict (List Str)

-- The first loop: each job has degree 0.
unfoldable pub init_degrees : Dict Job → Dict ℤ → Dict ℤ
init_degrees [] deg = deg
init_degrees ((id, job) ∷ rest) deg =
    init_degrees rest (elim (lookup id deg) [ none ↦ insert id (pos 0) deg | some _ ↦ deg ])

-- inDegree[id]++, dependents[need] = append(dependents[need], id)
unfoldable pub add_need : Str → Str → Graph → Graph
add_need id need g = record {
  in_degree = insert id (inc (lookup_or (pos 0) id g.in_degree)) g.in_degree;
  dependents = insert need (lookup_or [] need g.dependents ++ id ∷ []) g.dependents;
}

unfoldable pub add_needs : Dict Job → Str → List Str → Graph → OrderResult Graph
unfolding add_need
add_needs jobs id [] g = ok g
add_needs jobs id (need ∷ needs) g = elim (lookup need jobs) [
  | none ↦ err (unknown_job id need)
  | some _ ↦ add_needs jobs id needs (add_need id need g)
]

-- The second loop.
unfoldable pub add_jobs : Dict Job → Dict Job → Graph → OrderResult Graph
unfolding add_needs
add_jobs jobs [] g = ok g
add_jobs jobs ((id, job) ∷ rest) g = elim (add_needs jobs id (needs_ids job) g) [
  | err e ↦ err e
  | ok g' ↦ add_jobs jobs rest g'
]

-- The jobs of degree 0.
unfoldable pub zeros : Dict ℤ → List Str
zeros [] = []
zeros ((id, deg) ∷ rest) = if is_zero deg then id ∷ zeros rest else zeros rest

unfoldable pub delete_all : List Str → Dict ℤ → Dict ℤ
delete_all [] deg = deg
delete_all (id ∷ ids) deg = delete_all ids (delete id deg)

-- for _, dep := range dependents[id] { inDegree[dep]-- }
unfoldable pub decrement : List Str → Dict ℤ → Dict ℤ
decrement [] deg = deg
decrement (dep ∷ deps) deg = decrement deps (insert dep (dec (lookup_or (pos 0) dep deg)) deg)

unfoldable pub decrement_all : List Str → Dict (List Str) → Dict ℤ → Dict ℤ
unfolding decrement
decrement_all [] dependents deg = deg
decrement_all (id ∷ ids) dependents deg =
    decrement_all ids dependents (decrement (lookup_or [] id dependents) deg)

-- result and processed
pub record Progress : Type 0 where
  pub result : List (List Str)
  pub processed : ℕ

unfoldable pub kahn : ℕ → Dict (List Str) → Dict ℤ → Progress → OrderResult Progress
unfolding zeros delete_all decrement_all
kahn zero dependents deg p = err out_of_fuel
kahn (suc fuel) dependents deg p = elim (zeros deg) [
  | [] ↦ ok p
  | id ∷ ids ↦
      kahn fuel dependents (decrement_all (id ∷ ids) dependents (delete_all (id ∷ ids) deg))
        (record {
          result = p.result ++ (id ∷ ids) ∷ [];
          processed = p.processed + length (id ∷ ids);
        })
]

-- The test for a cycle.
unfoldable pub finish : Dict Job → Progress → OrderResult (List (List Str))
finish jobs p = if p.processed == length jobs then ok p.result else err cycle_detected

unfoldable pub from_graph : Dict Job → Graph → OrderResult (List (List Str))
unfolding kahn finish
from_graph jobs g =
    elim (kahn (suc (length jobs)) g.dependents g.in_degree
      (record { result = []; processed = 0 })) [ err e ↦ err e | ok p ↦ finish jobs p ]

unfoldable pub build_execution_order : Dict Job → OrderResult (List (List Str))
unfolding add_jobs init_degrees from_graph
build_execution_order jobs =
    elim (add_jobs jobs jobs (record { in_degree = init_degrees jobs []; dependents = [] })) [
      | err e ↦ err e
      | ok g ↦ from_graph jobs g
    ]
