-- ===== src/Workflow/Order/Waves.antt =====
-- What it means for waves of jobs to respect the needs of the jobs.
use ghenkins.Prelude.{
  refl, subst, inl, inr, Bool-cases, ◌≡◌, true, false, List, [], ◌∷◌, ◌++◌, arith,
}
use ghenkins.Prelude.Text.{Str, str_eq, str_eq_iff, str_eq_self}
use ghenkins.Prelude.Names.{mem, mem-append, Within, Within-mem}

abbrev pub concat : List (List Str) → List Str
concat [] = []
concat (wave ∷ waves) = wave ++ concat waves

-- Each job of the wave has all its needs among the jobs `done`.
abbrev pub Ready : (Str → List Str) → List Str → List Str → Type 0
Ready needs done [] = Unit {0}
Ready needs done (id ∷ ids) = Within done (needs id) × Ready needs done ids

-- Each wave is ready once `done` and the waves before it are done.
abbrev pub Respects : (Str → List Str) → List Str → List (List Str) → Type 0
Respects needs done [] = Unit {0}
Respects needs done (wave ∷ waves) = Ready needs done wave × Respects needs (wave ++ done) waves

pub Ready-of :
    (needs : Str → List Str) (done ids : List Str)
    → ((k : Str) → mem k ids ≡ true → Within done (needs k))
    → Ready needs done ids
unfolding mem
Ready-of needs done [] h = tt
Ready-of needs done (id ∷ ids) h =
    (h id (ground (arith, str_eq_self id)), Ready-of needs done ids (λ k m. h k (ground arith)))

-- Each of the jobs `xs` is a job, and needs one of the jobs `trap`.
abbrev pub Trapped : List Str → (Str → List Str) → List Str → List Str → Type 0
Trapped names needs trap [] = Unit {0}
Trapped names needs trap (x ∷ xs) =
    (mem x names ≡ true)
    × ((n : Str) × (mem n (needs x) ≡ true) × (mem n trap ≡ true))
    × Trapped names needs trap xs

pub Trapped-of :
    (names : List Str) (needs : Str → List Str) (trap xs : List Str)
    → ((k : Str)
        → mem k xs ≡ true
        → (mem k names ≡ true) × ((n : Str) × (mem n (needs k) ≡ true) × (mem n trap ≡ true)))
    → Trapped names needs trap xs
unfolding mem
Trapped-of names needs trap [] h = tt
Trapped-of names needs trap (x ∷ xs) h =
    let here = h x (ground (arith, str_eq_self x)) in
    (here.0, here.1, Trapped-of names needs trap xs (λ k m. h k (ground arith)))

Trapped-at :
    (names : List Str) (needs : Str → List Str) (trap xs : List Str) (k : Str)
    → Trapped names needs trap xs
    → mem k xs ≡ true
    → (n : Str) × (mem n (needs k) ≡ true) × (mem n trap ≡ true)
unfolding mem
Trapped-at names needs trap [] k t h = absurd (ground arith)
Trapped-at names needs trap (x ∷ xs) k t h = elim (Bool-cases (str_eq x k)) [
  | inl e ↦
      subst (λ y. (n : Str) × (mem n (needs y) ≡ true) × (mem n trap ≡ true)) ((str_eq_iff x k).0 e)
        t.1
  | inr e ↦ Trapped-at names needs trap xs k t.2 (ground arith)
]

Ready-at :
    (needs : Str → List Str) (done ids : List Str) (k : Str)
    → Ready needs done ids
    → mem k ids ≡ true
    → Within done (needs k)
unfolding mem
Ready-at needs done [] k r h = absurd (ground arith)
Ready-at needs done (id ∷ ids) k r h = elim (Bool-cases (str_eq id k)) [
  | inl e ↦ subst (λ y. Within done (needs y)) ((str_eq_iff id k).0 e) r.0
  | inr e ↦ Ready-at needs done ids k r.1 (ground arith)
]

-- Waves that respect the needs never reach a trapped job.
pub Trapped-never :
    (names : List Str) (needs : Str → List Str) (trap done : List Str) (waves : List (List Str))
    → Trapped names needs trap trap
    → Respects needs done waves
    → ((k : Str) → mem k trap ≡ true → mem k done ≡ false)
    → (k : Str) → mem k trap ≡ true
    → mem k (concat waves) ≡ false
unfolding mem
Trapped-never names needs trap done [] t r h k m = refl
Trapped-never names needs trap done (wave ∷ waves) t r h k m =
    let free : (x : Str) → mem x trap ≡ true → mem x wave ≡ false = λ x mx.
      elim (Bool-cases (mem x wave)) [
        | inr e ↦ e
        | inl e ↦
            let n = Trapped-at names needs trap trap x t mx in
            let d = Within-mem n.0 done (needs x) (Ready-at needs done wave x r.0 e) n.1 in
            absurd (ground (arith, h n.0 n.2))
      ] in
    let rest =
      Trapped-never names needs trap (wave ++ done) waves t r.1
        (λ x mx. ground (arith, mem-append x wave done, free x mx, h x mx)) k m in
    ground (arith, mem-append k wave (concat waves), free k m)
