-- ===== src/Store/Runs.antt =====
-- Laws of the statements on runs in internal/store/store.go.
use ghenkins.Prelude.{
  ◌≤◌, ◌≡◌, refl, ◌∙◌, ap, Bool, false, ◌||◌, List, [], ◌∷◌, ◌++◌, arith, length, take_all, suc,
  if◌then◌else◌,
}
use ghenkins.Prelude.Int.{pos}
use ghenkins.Store.{Run, any, select, update, put_row, newest_first, list_runs}

pub any-put_row :
    (p : Run → Bool) (r : Run) (rows : List Run) → any p (put_row r rows) ≡ (p r || any p rows)
unfolding any put_row
any-put_row p r [] = refl
any-put_row p r (x ∷ xs) = ground (arith, any-put_row p r xs)

pub any-newest_first : (p : Run → Bool) (rows : List Run) → any p (newest_first rows) ≡ any p rows
unfolding any newest_first
any-newest_first p [] = refl
any-newest_first p (r ∷ rows) =
    ground (arith, any-put_row p r (newest_first rows), any-newest_first p rows)

length-put_row : (r : Run) (rows : List Run) → length (put_row r rows) ≡ suc (length rows)
unfolding put_row
length-put_row r [] = refl
length-put_row r (x ∷ xs) = ground (arith, length-put_row r xs)

length-newest_first : (rows : List Run) → length (newest_first rows) ≡ length rows
unfolding newest_first
length-newest_first [] = refl
length-newest_first (r ∷ rows) =
    length-put_row r (newest_first rows) ∙ ap suc (length-newest_first rows)

-- With no limit given, all runs are listed while there are at most 10000.
pub list_runs_all :
    (rows : List Run) → length rows ≤ 10000 → list_runs rows (pos 0) ≡ newest_first rows
unfolding list_runs
list_runs_all rows h = take_all 10000 (newest_first rows) (omega (arith, length-newest_first rows))

pub select-append :
    (p : Run → Bool) (xs ys : List Run) → select p (xs ++ ys) ≡ select p xs ++ select p ys
unfolding select
select-append p [] ys = refl
select-append p (x ∷ xs) ys = ground (arith, select-append p xs ys)

-- Where nothing meets the test, an update changes nothing.
pub update_none :
    (p : Run → Bool) (f : Run → Run) (rows : List Run) → any p rows ≡ false → update p f rows ≡ rows
unfolding update any
update_none p f [] h = refl
update_none p f (x ∷ xs) h = ground (arith, update_none p f xs)

pub update-append :
    (p : Run → Bool) (f : Run → Run) (xs ys : List Run)
    → update p f (xs ++ ys) ≡ update p f xs ++ update p f ys
unfolding update
update-append p f [] ys = refl
update-append p f (x ∷ xs) ys = ap (λ rs. (if p x then f x else x) ∷ rs) (update-append p f xs ys)
