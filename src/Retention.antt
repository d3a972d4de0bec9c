-- ===== src/Retention.antt =====
-- ApplyRetention of internal/logserver/retention.go: which log files stay. Directories and files whose
-- information cannot be read are not among the entries. Whether os.Remove succeeds is a parameter.
use ghenkins.Prelude.{
  ℕ, suc, ◌+◌, ◌-◌, ◌≤◌, ◌<◌, ◌≡◌, ◌⊎◌, inl, inr, refl, ap, sym, subst, ◌∙◌, Bool, true, false,
  ◌&&◌, List, [], ◌∷◌, ◌++◌, arith, ltb, leb, if◌then◌else◌, All, Bool-cases,
}
use ghenkins.Prelude.Text.{Str}

-- Sizes below 2 ^ 63 in sum, so that an int64 holds totalSize.
pub record LogFile : Type 0 where
  pub path : Str
  pub size : ℕ
  pub mtime : ℕ

-- The sum of the sizes.
unfoldable pub total : List LogFile → ℕ
total [] = 0
total (f ∷ fs) = f.size + total fs

-- The first loop: the files that are not too old. An old file is left out whether or not it can be
-- removed.
unfoldable pub young : ℕ → ℕ → List LogFile → List LogFile
young now max_age [] = []
young now max_age (f ∷ fs) =
    if ltb max_age (now - f.mtime) then young now max_age fs else f ∷ young now max_age fs

-- sort.Slice by mtime.
unfoldable pub place : LogFile → List LogFile → List LogFile
place f [] = f ∷ []
place f (g ∷ gs) = if ltb g.mtime f.mtime then g ∷ place f gs else f ∷ g ∷ gs

unfoldable pub sort_by_mtime : List LogFile → List LogFile
unfolding place
sort_by_mtime [] = []
sort_by_mtime (f ∷ fs) = place f (sort_by_mtime fs)

-- What the second loop leaves: the files that could not be removed, and the files that it did not come to.
pub record Kept : Type 0 where
  pub stuck : List LogFile
  pub rest : List LogFile

abbrev keep : LogFile → Kept → Kept
keep f k = record k { stuck = f ∷ k.stuck }

-- The second loop, with totalSize.
unfoldable pub shrink : (LogFile → Bool) → ℕ → ℕ → List LogFile → Kept
shrink removable max_bytes size [] = record { stuck = []; rest = [] }
shrink removable max_bytes size (f ∷ fs) = elim (ltb max_bytes size) [
  | false ↦ record { stuck = []; rest = f ∷ fs }
  | true ↦ elim (removable f) [
    | true ↦ shrink removable max_bytes (size - f.size) fs
    | false ↦ keep f (shrink removable max_bytes size fs)
  ]
]

unfoldable pub apply_retention : (LogFile → Bool) → ℕ → ℕ → ℕ → List LogFile → Kept
unfolding young sort_by_mtime shrink total
apply_retention removable now max_age max_bytes files =
    let kept = young now max_age files in
    shrink removable max_bytes (total kept) (sort_by_mtime kept)

total-place : (f : LogFile) (fs : List LogFile) → total (place f fs) ≡ f.size + total fs
unfolding total place
total-place f [] = refl
total-place f (g ∷ gs) = ground (arith, total-place f gs)

total-sort : (fs : List LogFile) → total (sort_by_mtime fs) ≡ total fs
unfolding total sort_by_mtime
total-sort [] = refl
total-sort (f ∷ fs) = ground (arith, total-place f (sort_by_mtime fs), total-sort fs)

-- The files that cannot be removed.
unfoldable pub unremovable : (LogFile → Bool) → List LogFile → List LogFile
unremovable removable [] = []
unremovable removable (f ∷ fs) =
    if removable f then unremovable removable fs else f ∷ unremovable removable fs

-- The bytes that stay when the loop takes the file.
abbrev kept_size : (LogFile → Bool) → LogFile → ℕ
kept_size removable f = if removable f then 0 else f.size

-- Whenever the loop takes a file, what is still there is too much: `base` bytes that have stayed, the file,
-- and the files behind it.
abbrev Needed : (LogFile → Bool) → ℕ → ℕ → List LogFile → List LogFile → Type 0
Needed removable max_bytes base [] rest = Unit
Needed removable max_bytes base (f ∷ fs) rest =
    (max_bytes < base + total (f ∷ (fs ++ rest)))
    × Needed removable max_bytes (base + kept_size removable f) fs rest

-- The second loop takes the files of a first part of the list, `base` being the bytes that have stayed.
record Shrunk (removable : LogFile → Bool) (max_bytes base : ℕ) (fs : List LogFile) (k : Kept)
    : Type 0 where
  taken : List LogFile
  split : fs ≡ taken ++ k.rest
  stuck : k.stuck ≡ unremovable removable taken
  needed : Needed removable max_bytes base taken k.rest
  ends : (base + total k.stuck + total k.rest ≤ max_bytes) ⊎ (k.rest ≡ [])

module _ (removable : LogFile → Bool) (max_bytes : ℕ) where
  total_same : (xs ys : List LogFile) → xs ≡ ys → total xs ≡ total ys
  total_same xs ys e = ap total e

  take_removable :
      (base : ℕ) (f : LogFile) (fs : List LogFile) (k : Kept)
      → removable f ≡ true
      → max_bytes < base + total (f ∷ fs)
      → Shrunk removable max_bytes base fs k
      → Shrunk removable max_bytes base (f ∷ fs) k
  unfolding total unremovable
  take_removable base f fs k r h s = record {
    taken = f ∷ s.taken;
    split = ap (λ xs. f ∷ xs) s.split;
    stuck = s.stuck ∙ rw r refl;
    needed = (
      omega (arith, h, total_same fs (s.taken ++ k.rest) s.split),
      let e : base + kept_size removable f ≡ base = rw r (omega arith) in rw e s.needed,
    );
    ends = s.ends;
  }

  take_stuck :
      (base : ℕ) (f : LogFile) (fs : List LogFile) (k : Kept)
      → removable f ≡ false
      → max_bytes < base + total (f ∷ fs)
      → Shrunk removable max_bytes (base + f.size) fs k
      → Shrunk removable max_bytes base (f ∷ fs) (keep f k)
  unfolding total unremovable
  take_stuck base f fs k r h s = record {
    taken = f ∷ s.taken;
    split = ap (λ xs. f ∷ xs) s.split;
    stuck = ap (λ xs. f ∷ xs) s.stuck ∙ rw r refl;
    needed = (
      omega (arith, h, total_same fs (s.taken ++ k.rest) s.split),
      let e : base + kept_size removable f ≡ base + f.size = rw r refl in rw e s.needed,
    );
    ends = elim s.ends [ inl l ↦ inl (omega arith) | inr l ↦ inr l ];
  }

  shrink-Shrunk :
      (base size : ℕ) (fs : List LogFile)
      → size ≡ base + total fs
      → Shrunk removable max_bytes base fs (shrink removable max_bytes size fs)
  unfolding shrink total unremovable
  shrink-Shrunk base size [] e = record {
    taken = [];
    split = refl;
    stuck = refl;
    needed = tt;
    ends = inr refl;
  }
  shrink-Shrunk base size (f ∷ fs) e = elim (Bool-cases (ltb max_bytes size)) [
    | inr h ↦
        rw (h, shrink)
          (record {
            taken = [];
            split = refl;
            stuck = refl;
            needed = tt;
            ends = inl (omega (arith, e, ltb_false max_bytes size h));
          })
    | inl h ↦
        let over : max_bytes < base + total (f ∷ fs) =
          omega (arith, e, ltb_true max_bytes size h) in
        elim (Bool-cases (removable f)) [
          | inl r ↦
              rw (h, shrink, r)
                (take_removable base f fs (shrink removable max_bytes (size - f.size) fs) r over
                  (shrink-Shrunk base (size - f.size) fs (omega (arith, e))))
          | inr r ↦
              rw (h, shrink, r)
                (take_stuck base f fs (shrink removable max_bytes size fs) r over
                  (shrink-Shrunk (base + f.size) size fs (omega (arith, e))))
        ]
  ]
    where
      ltb_false : (a b : ℕ) → ltb a b ≡ false → b ≤ a
      ltb_false a b h = ground arith

      ltb_true : (a b : ℕ) → ltb a b ≡ true → a < b
      ltb_true a b h = ground arith

-- How many files pass a test.
unfoldable pub count_of : (LogFile → Bool) → List LogFile → ℕ
count_of test [] = 0
count_of test (f ∷ fs) = if test f then suc (count_of test fs) else count_of test fs

count_of-place :
    (test : LogFile → Bool) (f : LogFile) (fs : List LogFile)
    → count_of test (place f fs) ≡ count_of test (f ∷ fs)
unfolding count_of place
count_of-place test f [] = refl
count_of-place test f (g ∷ gs) = ground (arith, count_of-place test f gs)

count_of-sort :
    (test : LogFile → Bool) (fs : List LogFile)
    → count_of test (sort_by_mtime fs) ≡ count_of test fs
unfolding count_of sort_by_mtime
count_of-sort test [] = refl
count_of-sort test (f ∷ fs) =
    ground (arith, count_of-place test f (sort_by_mtime fs), count_of-sort test fs)

-- The file passes the test and is not older than the limit.
abbrev is_fresh : ℕ → ℕ → (LogFile → Bool) → LogFile → Bool
is_fresh now max_age test f = test f && leb (now - f.mtime) max_age

count_of-young :
    (test : LogFile → Bool) (now max_age : ℕ) (fs : List LogFile)
    → count_of test (young now max_age fs) ≡ count_of (is_fresh now max_age test) fs
unfolding count_of young
count_of-young test now max_age [] = refl
count_of-young test now max_age (f ∷ fs) = ground (arith, count_of-young test now max_age fs)

-- No file is older than one in front of it.
abbrev pub IsOldestFirst : List LogFile → Type 0
IsOldestFirst [] = Unit
IsOldestFirst (f ∷ fs) = All (λ g. f.mtime ≤ g.mtime) fs × IsOldestFirst fs

place-All :
    (n : ℕ) (f : LogFile) (fs : List LogFile)
    → n ≤ f.mtime
    → All (λ g. n ≤ g.mtime) fs
    → All (λ g. n ≤ g.mtime) (place f fs)
unfolding place
place-All n f [] h k = (h, tt)
place-All n f (g ∷ gs) h k = elim (Bool-cases (ltb g.mtime f.mtime)) [
  | inl e ↦ rw (e, place) (k.0, place-All n f gs h k.1)
  | inr e ↦ rw (e, place) (h, k)
]

later-All :
    (m n : ℕ) (fs : List LogFile) → m ≤ n → All (λ g. n ≤ g.mtime) fs → All (λ g. m ≤ g.mtime) fs
later-All m n [] h k = tt
later-All m n (g ∷ gs) h k = (omega (arith, k.0), later-All m n gs h k.1)

place-IsOldestFirst :
    (f : LogFile) (fs : List LogFile) → IsOldestFirst fs → IsOldestFirst (place f fs)
unfolding place
place-IsOldestFirst f [] h = (tt, tt)
place-IsOldestFirst f (g ∷ gs) h = elim (Bool-cases (ltb g.mtime f.mtime)) [
  | inl e ↦ rw (e, place) (place-All g.mtime f gs (ground arith) h.0, place-IsOldestFirst f gs h.1)
  | inr e ↦
      let l : f.mtime ≤ g.mtime = ground arith in
      rw (e, place) ((l, later-All f.mtime g.mtime gs l h.0), h)
]

sort-IsOldestFirst : (fs : List LogFile) → IsOldestFirst (sort_by_mtime fs)
unfolding sort_by_mtime
sort-IsOldestFirst [] = tt
sort-IsOldestFirst (f ∷ fs) = place-IsOldestFirst f (sort_by_mtime fs) (sort-IsOldestFirst fs)

-- The files taken, and the files behind them that the loop has not come to.
pub record IsRetained (removable : LogFile → Bool) (now max_age max_bytes : ℕ)
    (files : List LogFile) (k : Kept) : Type 0 where
  pub taken : List LogFile
  pub young_files :
      (test : LogFile → Bool)
      → count_of test (taken ++ k.rest) ≡ count_of (is_fresh now max_age test) files
  pub oldest_first : IsOldestFirst (taken ++ k.rest)
  pub stuck : k.stuck ≡ unremovable removable taken
  pub needed : Needed removable max_bytes 0 taken k.rest
  pub ends : (total k.stuck + total k.rest ≤ max_bytes) ⊎ (k.rest ≡ [])

-- ApplyRetention goes through the files that are not too old, oldest first, and takes one after another only
-- while those still there are too many bytes for the limit. Of the files taken just those that cannot be
-- removed are still there. At its end the files still there fit into the limit, or it has taken every one.
pub apply_retention-IsRetained :
    (removable : LogFile → Bool) (now max_age max_bytes : ℕ) (files : List LogFile)
    → IsRetained removable now max_age max_bytes files
        (apply_retention removable now max_age max_bytes files)
unfolding apply_retention
apply_retention-IsRetained removable now max_age max_bytes files =
    let kept = young now max_age files in
    let s =
      shrink-Shrunk removable max_bytes 0 (total kept) (sort_by_mtime kept)
        (omega (arith, total-sort kept)) in
    record {
      taken = s.taken;
      young_files = λ test.
          ap (count_of test) (sym s.split)
          ∙ count_of-sort test kept
          ∙ count_of-young test now max_age files;
      oldest_first = subst IsOldestFirst s.split (sort-IsOldestFirst kept);
      stuck = s.stuck;
      needed = s.needed;
      ends = elim s.ends [ inl h ↦ inl (omega arith) | inr h ↦ inr h ];
    }
