-- ===== src/Prelude/Names.antt =====
-- Lists of strings as sets: membership and counting by Boolean tests, and the keys of a map.
use ghenkins.Prelude.{
  ℕ, suc, ◌+◌, ◌≤◌, ◌≡◌, refl, Bool, true, false, not, ◌||◌, ◌&&◌, inl, inr, none, some, List, [],
  ◌∷◌, ◌++◌, arith, if◌then◌else◌, length, Bool-cases,
}
use ghenkins.Prelude.Text.{Str, str_eq, str_eq_iff, str_eq_self}
use ghenkins.Prelude.Dict.{Dict, lookup, insert, delete, keys}

unfoldable pub mem : Str → List Str → Bool
mem k [] = false
mem k (x ∷ xs) = str_eq x k || mem k xs

unfoldable pub count : Str → List Str → ℕ
count k [] = 0
count k (x ∷ xs) = if str_eq x k then suc (count k xs) else count k xs

abbrev pub Distinct : List Str → Type 0
Distinct [] = Unit {0}
Distinct (x ∷ xs) = (mem x xs ≡ false) × Distinct xs

pub mem-append : (k : Str) (xs ys : List Str) → mem k (xs ++ ys) ≡ (mem k xs || mem k ys)
unfolding mem
mem-append k [] ys = refl
mem-append k (x ∷ xs) ys = ground (arith, mem-append k xs ys)

pub count-append : (k : Str) (xs ys : List Str) → count k (xs ++ ys) ≡ count k xs + count k ys
unfolding count
count-append k [] ys = omega arith
count-append k (x ∷ xs) ys = ground (arith, count-append k xs ys)

-- A string occurs in a list exactly when its count is positive.
pub count_pos : (k : Str) (xs : List Str) → (if mem k xs then 1 else 0) ≤ count k xs
unfolding mem count
count_pos k [] = omega arith
count_pos k (x ∷ xs) = ground (arith, count_pos k xs)

pub count_zero : (k : Str) (xs : List Str) → mem k xs ≡ false → count k xs ≡ 0
unfolding mem count
count_zero k [] h = refl
count_zero k (x ∷ xs) h = ground (arith, count_zero k xs)

pub count-Distinct :
    (k : Str) (xs : List Str) → Distinct xs → count k xs ≡ (if mem k xs then 1 else 0)
unfolding mem count
count-Distinct k [] d = refl
count-Distinct k (x ∷ xs) d =
    ground (arith, count-Distinct k xs d.1, str_eq_iff x k, count_zero k xs)

module _ {ℓ} {V : Type ℓ} where
  pub lookup-none : (k : Str) (m : Dict V) → mem k (keys m) ≡ false → lookup k m ≡ none
  unfolding mem lookup
  lookup-none k [] h = refl
  lookup-none k ((j, v) ∷ m) h = ground (arith, lookup-none k m)

  pub mem_of_lookup : (k : Str) (m : Dict V) (v : V) → lookup k m ≡ some v → mem k (keys m) ≡ true
  unfolding mem lookup
  mem_of_lookup k [] v h = ground arith
  mem_of_lookup k ((j, w) ∷ m) v h = ground (arith, mem_of_lookup k m v)

  pub lookup_of_mem :
      (k : Str) (m : Dict V) → mem k (keys m) ≡ true → (v : V) × (lookup k m ≡ some v)
  unfolding mem lookup
  lookup_of_mem k [] h = ground arith
  lookup_of_mem k ((j, w) ∷ m) h = elim (Bool-cases (str_eq j k)) [
    | inl e ↦ (w, ground arith)
    | inr n ↦ let r = lookup_of_mem k m (ground arith) in (r.0, ground (arith, r.1))
  ]

  -- Writing a key that is there keeps the keys.
  pub keys-insert :
      (k : Str) (v : V) (m : Dict V) → mem k (keys m) ≡ true → keys (insert k v m) ≡ keys m
  unfolding mem insert
  keys-insert k v [] h = ground arith
  keys-insert k v ((j, w) ∷ m) h = ground (arith, str_eq_iff j k, keys-insert k v m)

  pub mem-keys-insert :
      (x k : Str) (v : V) (m : Dict V)
      → mem x (keys (insert k v m)) ≡ (str_eq k x || mem x (keys m))
  unfolding mem insert
  mem-keys-insert x k v [] = refl
  mem-keys-insert x k v ((j, w) ∷ m) =
      ground (arith, str_eq_iff j k, str_eq_iff j x, str_eq_iff k x, mem-keys-insert x k v m)

  pub Distinct-insert :
      (k : Str) (v : V) (m : Dict V) → Distinct (keys m) → Distinct (keys (insert k v m))
  unfolding mem insert
  Distinct-insert k v [] d = (refl, tt)
  Distinct-insert k v ((j, w) ∷ m) d =
      ground
        (arith, str_eq_iff j k, str_eq_iff k j, mem-keys-insert j k v m, Distinct-insert k v m d.1)

  pub mem-keys-delete :
      (x k : Str) (m : Dict V) → mem x (keys (delete k m)) ≡ (not (str_eq k x) && mem x (keys m))
  unfolding mem delete
  mem-keys-delete x k [] = ground arith
  mem-keys-delete x k ((j, w) ∷ m) =
      ground (arith, str_eq_iff j k, str_eq_iff j x, str_eq_iff k x, mem-keys-delete x k m)

  pub Distinct-delete : (k : Str) (m : Dict V) → Distinct (keys m) → Distinct (keys (delete k m))
  unfolding mem delete
  Distinct-delete k [] d = tt
  Distinct-delete k ((j, w) ∷ m) d =
      ground (arith, str_eq_iff j k, mem-keys-delete j k m, Distinct-delete k m d.1)

  delete_absent : (k : Str) (m : Dict V) → mem k (keys m) ≡ false → delete k m ≡ m
  unfolding mem delete
  delete_absent k [] h = refl
  delete_absent k ((j, w) ∷ m) h = ground (arith, delete_absent k m)

  pub length-delete :
      (k : Str) (m : Dict V)
      → Distinct (keys m)
      → mem k (keys m) ≡ true
      → suc (length (keys (delete k m))) ≡ length (keys m)
  unfolding mem delete
  length-delete k [] d h = ground arith
  length-delete k ((j, w) ∷ m) d h =
      ground (arith, str_eq_iff j k, delete_absent k m, length-delete k m d.1)

-- Every name of `ids` is in `names`.
abbrev pub Within : List Str → List Str → Type 0
Within names [] = Unit {0}
Within names (id ∷ ids) = (mem id names ≡ true) × Within names ids

pub Within-of :
    (names ids : List Str) → ((k : Str) → mem k ids ≡ true → mem k names ≡ true) → Within names ids
unfolding mem
Within-of names [] h = tt
Within-of names (id ∷ ids) h =
    (h id (ground (arith, str_eq_self id)), Within-of names ids (λ k m. h k (ground arith)))

pub Within-mem :
    (k : Str) (names ids : List Str) → Within names ids → mem k ids ≡ true → mem k names ≡ true
unfolding mem
Within-mem k names [] w h = ground arith
Within-mem k names (id ∷ ids) w h = ground (arith, str_eq_iff id k, Within-mem k names ids w.1)

module _ {ℓ} {V : Type ℓ} where
  pub Within-delete :
      (id : Str) (ids : List Str) (m : Dict V)
      → mem id ids ≡ false
      → Within (keys m) ids
      → Within (keys (delete id m)) ids
  unfolding mem
  Within-delete id [] m h a = tt
  Within-delete id (x ∷ xs) m h a = (
    ground (arith, mem-keys-delete x id m, str_eq_iff x id, str_eq_iff id x),
    Within-delete id xs m (ground arith) a.1,
  )

  -- Distinct names among the keys of a map are no more than its keys.
  pub length-le-keys :
      (ids : List Str) (m : Dict V)
      → Distinct ids
      → Distinct (keys m)
      → Within (keys m) ids
      → length ids ≤ length (keys m)
  length-le-keys [] m d e w = omega arith
  length-le-keys (id ∷ ids) m d e w = omega (
    arith,
    length-le-keys ids (delete id m) d.1 (Distinct-delete id m e) (Within-delete id ids m d.0 w.1),
    length-delete id m e w.0,
  )
