-- ===== src/Workflow/Order/Pending.antt =====
-- Counting the needs that are not done yet.
use ghenkins.Prelude.{
  ℕ, suc, ◌+◌, ◌<◌, inl, inr, ◌≡◌, true, false, List, [], ◌∷◌, ◌++◌, arith, if◌then◌else◌,
  Bool-cases,
}
use ghenkins.Prelude.Text.{Str, str_eq_iff}
use ghenkins.Prelude.Names.{mem, count, Distinct, mem-append, Within}

unfoldable pub pending : List Str → List Str → ℕ
pending done [] = 0
pending done (n ∷ ns) = if mem n done then pending done ns else suc (pending done ns)

-- How often the names `ids` occur in `ns`, together.
abbrev pub sum_counts : List Str → List Str → ℕ
sum_counts [] ns = 0
sum_counts (id ∷ ids) ns = count id ns + sum_counts ids ns

pending_step :
    (id : Str) (done ns : List Str)
    → mem id done ≡ false
    → pending (id ∷ done) ns + count id ns ≡ pending done ns
unfolding pending count mem
pending_step id done [] h = omega arith
pending_step id done (n ∷ ns) h =
    ground (arith, pending_step id done ns, str_eq_iff id n, str_eq_iff n id)

-- No name of the first list is in the second.
abbrev pub Disjoint : List Str → List Str → Type 0
Disjoint [] done = Unit {0}
Disjoint (id ∷ ids) done = (mem id done ≡ false) × Disjoint ids done

pub Disjoint-of :
    (ids done : List Str) → ((k : Str) → mem k ids ≡ true → mem k done ≡ false) → Disjoint ids done
unfolding mem
Disjoint-of [] done h = tt
Disjoint-of (id ∷ ids) done h =
    (h id (ground (arith, str_eq_iff id id)), Disjoint-of ids done (λ k m. h k (ground arith)))

pub pending_wave :
    (ids done ns : List Str)
    → Distinct ids
    → Disjoint ids done
    → pending (ids ++ done) ns + sum_counts ids ns ≡ pending done ns
pending_wave [] done ns d e = omega arith
pending_wave (id ∷ ids) done ns d e = omega (
  arith,
  pending_step id (ids ++ done) ns (ground (arith, mem-append id ids done)),
  pending_wave ids done ns d.1 e.1,
)

pub Distinct-append :
    (ids done : List Str)
    → Distinct ids
    → Distinct done
    → Disjoint ids done
    → Distinct (ids ++ done)
Distinct-append [] done d e f = e
Distinct-append (id ∷ ids) done d e f =
    (ground (arith, mem-append id ids done), Distinct-append ids done d.1 e f.1)

pub pending_zero : (done ns : List Str) → pending done ns ≡ 0 → Within done ns
unfolding pending
pending_zero done [] h = tt
pending_zero done (n ∷ ns) h = elim (Bool-cases (mem n done)) [
  | inl m ↦ (m, pending_zero done ns (ground arith))
  | inr m ↦ ground arith
]

-- Where a need is pending there is one that is not done.
pub pending_witness :
    (done ns : List Str)
    → 0 < pending done ns
    → (n : Str) × (mem n ns ≡ true) × (mem n done ≡ false)
unfolding pending mem
pending_witness done [] h = absurd (omega arith)
pending_witness done (n ∷ ns) h = elim (Bool-cases (mem n done)) [
  | inr m ↦ (n, ground (arith, str_eq_iff n n), m)
  | inl m ↦ let r = pending_witness done ns (ground arith) in (r.0, ground (arith, r.1), r.2)
]
