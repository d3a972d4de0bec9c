-- ===== src/Store.antt =====
-- The tables of internal/store/store.go for runs and their jobs. A table is the list of its
-- rows in the order in which they came; a statement that breaks a primary key or a unique column
-- is an error. Foreign keys are left out, and so are times as such: a row holds their texts.
pub mod Runs
pub mod Projects
pub mod Selections
use ghenkins.Prelude.{
  ℕ, zero, suc, ◌≡◌, Bool, true, false, not, ◌&&◌, ◌||◌, List, [], ◌∷◌, ◌++◌, Option, none, some,
  ltb, take, length, if◌then◌else◌,
}
use ghenkins.Prelude.Text.{Str, lit, str_eq}
use ghenkins.Prelude.Int.{ℤ, pos, negsuc}

pub data RunStatus : Type 0 where
  queued running success failure error canceled : RunStatus

pub data RunJobStatus : Type 0 where
  job_pending job_running job_success job_failure job_skipped : RunJobStatus

pub record RunJob : Type 0 where
  pub id : Str
  pub run_id : Str
  pub job_name : Str
  pub status : RunJobStatus
  pub started_at : Option Str
  pub finished_at : Option Str

pub record Run : Type 0 where
  pub id : Str
  pub watch_name : Str
  pub repo : Str
  pub sha : Str
  pub workflow_name : Str
  pub status : RunStatus
  pub started_at : Str
  pub finished_at : Option Str
  pub exit_code : Option ℤ
  pub log_path : Str

-- SELECT ... WHERE
unfoldable pub select {ℓ} : {A : Type ℓ} → (A → Bool) → List A → List A
select p [] = []
select p (x ∷ xs) = if p x then x ∷ select p xs else select p xs

-- UPDATE ... WHERE
unfoldable pub update {ℓ} : {A : Type ℓ} → (A → Bool) → (A → A) → List A → List A
update p f [] = []
update p f (x ∷ xs) = (if p x then f x else x) ∷ update p f xs

unfoldable pub any {ℓ} : {A : Type ℓ} → (A → Bool) → List A → Bool
any p [] = false
any p (x ∷ xs) = p x || any p xs

abbrev pub first {ℓ} : {A : Type ℓ} → List A → Option A
first [] = none
first (x ∷ xs) = some x

abbrev pub is_run : Str → Run → Bool
is_run id r = str_eq r.id id

unfoldable pub create_run : List Run → Run → Option (List Run)
unfolding any
create_run rows r = if any (is_run r.id) rows then none else some (rows ++ r ∷ [])

unfoldable pub update_run_sha : List Run → Str → Str → List Run
unfolding update
update_run_sha rows id sha = update (is_run id) (λ r. record r { sha = sha }) rows

abbrev pub set_status : RunStatus → Option ℤ → Option Str → Run → Run
set_status status exit_code finished_at r = record r {
  status = status;
  exit_code = exit_code;
  finished_at = finished_at;
}

unfoldable pub update_run_status : List Run → Str → RunStatus → Option ℤ → Option Str → List Run
unfolding update
update_run_status rows id status exit_code finished_at =
    update (is_run id) (set_status status exit_code finished_at) rows

unfoldable pub get_run : List Run → Str → Option Run
unfolding select
get_run rows id = first (select (is_run id) rows)

unfoldable pub delete_run : List Run → Str → List Run
unfolding select
delete_run rows id = select (λ r. not (is_run id r)) rows

abbrev is_active : RunStatus → Bool
is_active queued = true
is_active running = true
is_active _ = false

unfoldable pub run_exists : List Run → Str → Str → Str → Bool
unfolding any
run_exists rows repo sha workflow_name =
    any
      (λ r.
        str_eq r.repo repo
        && (str_eq r.sha sha && (str_eq r.workflow_name workflow_name && is_active r.status)))
      rows

-- The order of texts in SQLite, byte by byte.
unfoldable pub text_lt : Str → Str → Bool
text_lt [] [] = false
text_lt [] (y ∷ ys) = true
text_lt (x ∷ xs) [] = false
text_lt (x ∷ xs) (y ∷ ys) = ltb x y || (not (ltb y x) && text_lt xs ys)

-- ORDER BY started_at DESC
unfoldable pub put_row : Run → List Run → List Run
unfolding text_lt
put_row r [] = r ∷ []
put_row r (x ∷ xs) =
    let rest = put_row r xs in if text_lt r.started_at x.started_at then x ∷ rest else r ∷ x ∷ xs

unfoldable pub newest_first : List Run → List Run
unfolding put_row
newest_first [] = []
newest_first (r ∷ rows) = put_row r (newest_first rows)

abbrev row_limit : ℤ → ℕ
row_limit (pos zero) = 10000
row_limit (pos (suc n)) = suc n
row_limit (negsuc n) = 10000

unfoldable pub list_runs : List Run → ℤ → List Run
unfolding newest_first
list_runs rows limit = take (row_limit limit) (newest_first rows)

abbrev pub same_job : RunJob → RunJob → Bool
same_job a b = str_eq a.run_id b.run_id && str_eq a.job_name b.job_name

abbrev pub overwrite : RunJob → RunJob → RunJob
overwrite new old = record old {
  id = new.id;
  status = new.status;
  started_at = new.started_at;
  finished_at = new.finished_at;
}

-- A row of another job that has the key.
abbrev pub is_taken : RunJob → RunJob → Bool
is_taken new x = str_eq x.id new.id && not (same_job x new)

unfoldable pub upsert_run_job : List RunJob → RunJob → Option (List RunJob)
unfolding any update
upsert_run_job rows j =
    if any (is_taken j) rows
    then none
    else if any (λ x. same_job x j) rows
    then some (update (λ x. same_job x j) (overwrite j) rows)
    else some (rows ++ j ∷ [])

unfoldable pub list_run_jobs : List RunJob → Str → List RunJob
unfolding select
list_run_jobs rows run_id = select (λ x. str_eq x.run_id run_id) rows
