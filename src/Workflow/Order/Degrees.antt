-- ===== src/Workflow/Order/Degrees.antt =====
-- What the loops of BuildExecutionOrder do to inDegree: the jobs of degree 0, their removal, and the
-- decrements for what depends on them.
use ghenkins.Prelude.{
  sym, subst, ℕ, zero, suc, ◌+◌, ◌-◌, ◌≤◌, ◌<◌, ◌≡◌, refl, ap, ◌∙◌, true, false, Option, none, some,
  List, [], ◌∷◌, arith, if◌then◌else◌, length,
}
use ghenkins.Prelude.Text.{Str, str_eq, str_eq_iff, str_eq_self}
use ghenkins.Prelude.Int.{ℤ, pos, negsuc, dec}
use ghenkins.Prelude.Dict.{
  Dict, lookup, insert, delete, keys, lookup_or, lookup-insert, lookup-delete,
}
use ghenkins.Prelude.Names.{
  mem, count, Distinct, mem_of_lookup, keys-insert, Distinct-delete, length-delete, Within,
  Within-delete,
}
use ghenkins.Workflow.{zeros, delete_all, decrement, decrement_all}

mem-zeros-le : (k : Str) (deg : Dict ℤ) → mem k (keys deg) ≡ false → mem k (zeros deg) ≡ false
unfolding mem zeros
mem-zeros-le k [] h = refl
mem-zeros-le k ((j, n) ∷ deg) h = ground (arith, mem-zeros-le k deg)

pub zeros-Distinct : (deg : Dict ℤ) → Distinct (keys deg) → Distinct (zeros deg)
unfolding mem zeros
zeros-Distinct [] d = tt
zeros-Distinct ((j, n) ∷ deg) d = ground (arith, zeros-Distinct deg d.1, mem-zeros-le j deg)

pub mem-zeros :
    (k : Str) (deg : Dict ℤ)
    → Distinct (keys deg)
    → mem k (zeros deg) ≡ true
    → lookup k deg ≡ some (pos 0)
unfolding mem zeros lookup
mem-zeros k [] d h = ground arith
mem-zeros k ((j, pos zero) ∷ deg) d h =
    ground (arith, str_eq_iff j k, mem-zeros k deg d.1, mem-zeros-le k deg)
mem-zeros k ((j, n) ∷ deg) d h =
    ground (arith, str_eq_iff j k, mem-zeros k deg d.1, mem-zeros-le k deg)

pub zeros_complete :
    (k : Str) (deg : Dict ℤ) → lookup k deg ≡ some (pos 0) → mem k (zeros deg) ≡ true
unfolding mem zeros lookup
zeros_complete k [] h = ground arith
zeros_complete k ((j, pos zero) ∷ deg) h = ground (arith, zeros_complete k deg)
zeros_complete k ((j, n) ∷ deg) h = ground (arith, zeros_complete k deg)

pub lookup-delete_all :
    (k : Str) (ids : List Str) (deg : Dict ℤ)
    → lookup k (delete_all ids deg) ≡ (if mem k ids then none else lookup k deg)
unfolding mem delete_all
lookup-delete_all k [] deg = refl
lookup-delete_all k (id ∷ ids) deg =
    ground (arith, lookup-delete_all k ids (delete id deg), lookup-delete id k deg)

pub Distinct-delete_all :
    (ids : List Str) (deg : Dict ℤ) → Distinct (keys deg) → Distinct (keys (delete_all ids deg))
unfolding delete_all
Distinct-delete_all [] deg d = d
Distinct-delete_all (id ∷ ids) deg d =
    Distinct-delete_all ids (delete id deg) (Distinct-delete id deg d)

pub length-delete_all :
    (ids : List Str) (deg : Dict ℤ)
    → Distinct (keys deg)
    → Distinct ids
    → Within (keys deg) ids
    → length (keys (delete_all ids deg)) + length ids ≡ length (keys deg)
unfolding delete_all
length-delete_all [] deg d e a = omega arith
length-delete_all (id ∷ ids) deg d e a = omega (
  arith,
  length-delete_all ids (delete id deg) (Distinct-delete id deg d) e.1
      (Within-delete id ids deg e.0 a.1),
  length-delete id deg d a.0,
)

-- `n` decrements leave the degree at 0 or above.
abbrev pub Fits : ℕ → Option ℤ → Type 0
Fits n none = n ≡ 0
Fits n (some (pos m)) = n ≤ m
Fits n (some (negsuc m)) = ⊥

abbrev pub lower : ℕ → Option ℤ → Option ℤ
lower n none = none
lower n (some (pos m)) = some (pos (m - n))
lower n (some (negsuc m)) = some (negsuc m)

abbrev pub Lowered : (Str → ℕ) → Dict ℤ → Dict ℤ → Type 0
Lowered n deg deg' =
    (keys deg' ≡ keys deg) × ((k : Str) → lookup k deg' ≡ lower (n k) (lookup k deg))

lower_zero : (o : Option ℤ) → lower 0 o ≡ o
lower_zero none = refl
lower_zero (some (pos m)) = ground arith
lower_zero (some (negsuc m)) = refl

lower_add : (m n : ℕ) (o : Option ℤ) → lower n (lower m o) ≡ lower (m + n) o
lower_add m n none = refl
lower_add m n (some (pos k)) = ground arith
lower_add m n (some (negsuc k)) = refl

Fits-rest : (m n : ℕ) (o : Option ℤ) → Fits (m + n) o → Fits m o × Fits n (lower m o)
Fits-rest m n none h = omega arith
Fits-rest m n (some (pos k)) h = omega arith
Fits-rest m n (some (negsuc k)) h = absurd h

-- One decrement of a degree that can take it.
decrement_once :
    (dep k : Str) (deg : Dict ℤ) (o : Option ℤ)
    → lookup dep deg ≡ o
    → Fits 1 o
    → (mem dep (keys deg) ≡ true)
      × (lookup k (insert dep (dec (lookup_or (pos 0) dep deg)) deg)
          ≡ lower (if str_eq dep k then 1 else 0) (lookup k deg))
unfolding lookup_or
decrement_once dep k deg none e h = absurd (omega arith)
decrement_once dep k deg (some (pos zero)) e h = absurd (omega arith)
decrement_once dep k deg (some (pos (suc m))) e h = (
  mem_of_lookup dep deg _ e,
  rw lookup-insert (ground (arith, str_eq_iff dep k, lower_zero (lookup k deg))),
)
decrement_once dep k deg (some (negsuc m)) e h = absurd h

abbrev one_if : Str → Str → ℕ
one_if dep k = if str_eq dep k then 1 else 0

count_step : (dep k : Str) (deps : List Str) → count k (dep ∷ deps) ≡ one_if dep k + count k deps
unfolding count
count_step dep k deps = ground arith

Fits-one :
    (dep : Str) (deps : List Str) (o : Option ℤ)
    → Fits (one_if dep dep + count dep deps) o
    → Fits 1 o
Fits-one dep deps none h = ground (arith, str_eq_self dep)
Fits-one dep deps (some (pos m)) h = ground (arith, str_eq_self dep)
Fits-one dep deps (some (negsuc m)) h = absurd h

-- Decrements that the degrees can take keep the keys and lower each degree by its count.
pub decrement_lem :
    (deps : List Str) (deg : Dict ℤ)
    → ((k : Str) → Fits (count k deps) (lookup k deg))
    → Lowered (λ k. count k deps) deg (decrement deps deg)
unfolding decrement count
decrement_lem [] deg fits = (refl, λ k. sym (lower_zero (lookup k deg)))
decrement_lem (dep ∷ deps) deg fits =
    let deg₁ : Dict ℤ = insert dep (dec (lookup_or (pos 0) dep deg)) deg in
    let split : ((k : Str) → Fits (one_if dep k + count k deps) (lookup k deg)) =
      λ k. subst (λ n. Fits n (lookup k deg)) (count_step dep k deps) (fits k) in
    let once = λ (k : Str).
      decrement_once dep k deg (lookup dep deg) refl (Fits-one dep deps _ (split dep)) in
    let rest = decrement_lem deps deg₁ (λ k.
      subst (Fits (count k deps)) (sym (once k).1)
        (Fits-rest (one_if dep k) (count k deps) (lookup k deg) (split k)).1) in
    (
      rest.0 ∙ keys-insert dep _ deg (once dep).0,
      λ k.
          rest.1 k
          ∙ ap (lower (count k deps)) (once k).1
          ∙ lower_add (one_if dep k) (count k deps) (lookup k deg)
          ∙ ap (λ n. lower n (lookup k deg)) (sym (count_step dep k deps)),
    )

-- How many arrows lead from the jobs `ids` to the job `k`.
abbrev pub hits : List Str → Dict (List Str) → Str → ℕ
hits [] dependents k = 0
hits (id ∷ ids) dependents k = count k (lookup_or [] id dependents) + hits ids dependents k

pub decrement_all_lem :
    (ids : List Str) (dependents : Dict (List Str)) (deg : Dict ℤ)
    → ((k : Str) → Fits (hits ids dependents k) (lookup k deg))
    → Lowered (hits ids dependents) deg (decrement_all ids dependents deg)
unfolding decrement_all
decrement_all_lem [] dependents deg fits = (refl, λ k. sym (lower_zero (lookup k deg)))
decrement_all_lem (id ∷ ids) dependents deg fits =
    let deps : List Str = lookup_or [] id dependents in
    let split =
      λ (k : Str). Fits-rest (count k deps) (hits ids dependents k) (lookup k deg) (fits k) in
    let once = decrement_lem deps deg (λ k. (split k).0) in
    let rest =
      decrement_all_lem ids dependents (decrement deps deg)
        (λ k. subst (Fits (hits ids dependents k)) (sym (once.1 k)) (split k).1) in
    (
      rest.0 ∙ once.0,
      λ k.
          rest.1 k
          ∙ ap (lower (hits ids dependents k)) (once.1 k)
          ∙ lower_add (count k deps) (hits ids dependents k) (lookup k deg),
    )

pub no_zero :
    (k : Str) (deg : Dict ℤ) (n : ℕ) → zeros deg ≡ [] → lookup k deg ≡ some (pos n) → 0 < n
unfolding mem
no_zero k deg zero e h = ground (arith, zeros_complete k deg)
no_zero k deg (suc n) e h = omega arith
