-- ===== src/Workflow/Order/Loop.antt =====
-- Kahn's loop of BuildExecutionOrder: its invariant, and what holds when it ends.
use ghenkins.Prelude.{
  ℕ, zero, suc, ◌+◌, ◌<◌, ◌≡◌, refl, sym, ap, ap₂, append_assoc, append-nil, subst, ◌∙◌, true,
  false, not, ◌&&◌, ◌⊎◌, inl, inr, none, some, List, [], ◌∷◌, ◌++◌, arith, if◌then◌else◌, length,
  length-append, Bool-cases,
}
use ghenkins.Prelude.Text.{Str}
use ghenkins.Prelude.Int.{ℤ, pos}
use ghenkins.Prelude.Dict.{Dict, lookup, keys, lookup_or}
use ghenkins.Prelude.Names.{
  mem, count, Distinct, mem-append, count-append, Within-of, mem_of_lookup,
}
use ghenkins.Workflow.{zeros, delete_all, decrement_all, kahn, Progress, OrderResult, ok}
use ghenkins.Workflow.Order.Degrees.{
  zeros-Distinct, mem-zeros, lookup-delete_all, Distinct-delete_all, length-delete_all, Fits, hits,
  Lowered, decrement_all_lem,
}
use ghenkins.Workflow.Order.Waves.{concat, Respects, Ready-of}
use ghenkins.Workflow.Order.Pending.{
  pending, sum_counts, Disjoint, Disjoint-of, pending_wave, Distinct-append, pending_zero,
}

pub Names-cases : (xs : List Str) → (xs ≡ []) ⊎ ((y : Str) × (ys : List Str) × (xs ≡ y ∷ ys))
Names-cases [] = inl refl
Names-cases (y ∷ ys) = inr (y, ys, refl)

-- The jobs are `names`, and `needs k` are the needs of `k`.
module _ (names : List Str) (needs : Str → List Str) (dependents : Dict (List Str)) where
  -- Between two waves: `done` are the jobs of the waves so far, last first.
  pub record Inv (done : List Str) (deg : Dict ℤ) : Type 0 where
    pub distinct : Distinct (keys deg)
    pub degree :
        (k : Str)
        → lookup k deg
          ≡ (if mem k names && not (mem k done) then some (pos (pending done (needs k))) else none)
    pub done_distinct : Distinct done
    pub done_known : (k : Str) → mem k done ≡ true → mem k names ≡ true
    pub done_closed : (k : Str) → mem k done ≡ true → pending done (needs k) ≡ 0
    pub size : length (keys deg) + length done ≡ length names

  -- What the graph has to satisfy.
  pub record Arrows : Type 0 where
    pub arrow : (k n : Str) → count k (lookup_or [] n dependents) ≡ count n (needs k)
    pub unnamed : (k : Str) → mem k names ≡ false → needs k ≡ []

  hits_lem : Arrows → (ids : List Str) (k : Str) → hits ids dependents k ≡ sum_counts ids (needs k)
  hits_lem a [] k = refl
  hits_lem a (id ∷ ids) k = omega (arith, a.arrow k id, hits_lem a ids k)

  module _ {done : List Str} {deg : Dict ℤ} (i : Inv done deg) where
    zero_is_ready :
        (k : Str)
        → mem k (zeros deg) ≡ true
        → (mem k names ≡ true) × (mem k done ≡ false) × (pending done (needs k) ≡ 0)
    zero_is_ready k h = let z = mem-zeros k deg i.distinct h in ground (arith, z, i.degree k)

    wave-Disjoint : Disjoint (zeros deg) done
    wave-Disjoint = Disjoint-of (zeros deg) done (λ k h. (zero_is_ready k h).1)

    wave_pending :
        Arrows
        → (k : Str)
        → pending (zeros deg ++ done) (needs k) + hits (zeros deg) dependents k
          ≡ pending done (needs k)
    wave_pending a k = omega (
      arith,
      pending_wave (zeros deg) done (needs k) (zeros-Distinct deg i.distinct) wave-Disjoint,
      hits_lem a (zeros deg) k,
    )

    -- Where a degree is missing nothing is pending.
    pending_absent :
        Arrows → (k : Str) → (mem k names && not (mem k done)) ≡ false → pending done (needs k) ≡ 0
    unfolding pending
    pending_absent a k h = elim (Bool-cases (mem k done)) [
      | inl m ↦ i.done_closed k m
      | inr m ↦ ground (arith, a.unnamed k)
    ]

    wave_Fits :
        Arrows
        → (k : Str) → Fits (hits (zeros deg) dependents k) (lookup k (delete_all (zeros deg) deg))
    wave_Fits a k =
        rw lookup-delete_all
          (ground (arith, wave_pending a k, i.degree k, zero_is_ready k, pending_absent a k))

    wave_Lowered :
        Arrows
        → Lowered
            (hits (zeros deg) dependents)
            (delete_all (zeros deg) deg)
            (decrement_all (zeros deg) dependents (delete_all (zeros deg) deg))
    wave_Lowered a =
        decrement_all_lem (zeros deg) dependents (delete_all (zeros deg) deg) (wave_Fits a)

    -- One round keeps the invariant.
    pub Inv-round :
        Arrows
        → Inv
            (zeros deg ++ done)
            (decrement_all (zeros deg) dependents (delete_all (zeros deg) deg))
    Inv-round a = record {
      distinct =
          subst Distinct (sym (wave_Lowered a).0) (Distinct-delete_all (zeros deg) deg i.distinct);
      degree = λ k.
          (wave_Lowered a).1 k
          ∙ rw lookup-delete_all (
              ground (
                arith,
                wave_pending a k,
                i.degree k,
                zero_is_ready k,
                pending_absent a k,
                mem-append k (zeros deg) done,
              ));
      done_distinct =
          Distinct-append (zeros deg) done (zeros-Distinct deg i.distinct) i.done_distinct
            wave-Disjoint;
      done_known =
          λ k h. ground (arith, mem-append k (zeros deg) done, zero_is_ready k, i.done_known k);
      done_closed = λ k h. ground (
        arith,
        mem-append k (zeros deg) done,
        zero_is_ready k,
        i.done_closed k,
        wave_pending a k,
      );
      size = omega (
        arith,
        i.size,
        ap length (wave_Lowered a).0,
        length-append {0} (zeros deg) done,
        length-delete_all (zeros deg) deg i.distinct (zeros-Distinct deg i.distinct) (
            Within-of (keys deg) (zeros deg)
              (λ k h. mem_of_lookup k deg _ (mem-zeros k deg i.distinct h))),
      );
    }

  -- How the loop ends.
  pub record Ended (done : List Str) (p : Progress) (r : OrderResult Progress) : Type 0 where
    pub waves : List (List Str)
    pub done_after : List Str
    pub deg_after : Dict ℤ
    pub returns :
        r
        ≡ ok
            (record { result = p.result ++ waves; processed = p.processed + length (concat waves) })
    pub invariant : Inv done_after deg_after
    pub no_zeros : zeros deg_after ≡ []
    pub respects : Respects needs done waves
    pub counts : (k : Str) → count k (concat waves) + count k done ≡ count k done_after
    pub lengths : length (concat waves) + length done ≡ length done_after

  abbrev after_wave : Dict ℤ → Progress → Progress
  after_wave deg p = record {
    result = p.result ++ zeros deg ∷ [];
    processed = p.processed + length (zeros deg);
  }

  kahn_stop :
      (fuel : ℕ) (deg : Dict ℤ) (p : Progress)
      → zeros deg ≡ []
      → kahn (suc fuel) dependents deg p
        ≡ ok (record { result = p.result ++ []; processed = p.processed + 0 })
  unfolding kahn
  kahn_stop fuel deg p e = rw (e, kahn) (ground (arith, append-nil p.result))

  kahn_wave :
      (fuel : ℕ) (deg : Dict ℤ) (p : Progress) (id : Str) (ids : List Str)
      → zeros deg ≡ id ∷ ids
      → kahn (suc fuel) dependents deg p
        ≡ kahn fuel dependents
            (decrement_all (zeros deg) dependents (delete_all (zeros deg) deg))
            (after_wave deg p)
  unfolding kahn
  kahn_wave fuel deg p id ids e = rw (e, kahn)

  Ended-wave :
      (fuel : ℕ) {done : List Str} {deg : Dict ℤ} (p : Progress)
      → Inv done deg
      → Ended (zeros deg ++ done) (after_wave deg p) (
          kahn fuel dependents
            (decrement_all (zeros deg) dependents (delete_all (zeros deg) deg))
            (after_wave deg p))
      → (id : Str) (ids : List Str) → zeros deg ≡ id ∷ ids
      → Ended done p (kahn (suc fuel) dependents deg p)
  Ended-wave fuel {done} {deg} p i r id ids e = record {
    waves = zeros deg ∷ r.waves;
    done_after = r.done_after;
    deg_after = r.deg_after;
    returns =
        kahn_wave fuel deg p id ids e
        ∙ r.returns
        ∙ ap₂ (λ a b. ok (record { result = a; processed = b }))
            (append_assoc p.result (zeros deg ∷ []) r.waves)
            (omega (arith, length-append {0} (zeros deg) (concat r.waves)));
    invariant = r.invariant;
    no_zeros = r.no_zeros;
    respects = (
      Ready-of needs done (zeros deg) (λ k h. pending_zero done (needs k) (zero_is_ready i k h).2),
      r.respects,
    );
    counts = λ k. omega (
      arith,
      r.counts k,
      count-append k (zeros deg) (concat r.waves),
      count-append k (zeros deg) done,
    );
    lengths = omega (
      arith,
      r.lengths,
      length-append {0} (zeros deg) (concat r.waves),
      length-append {0} (zeros deg) done,
    );
  }

  -- With fuel above the number of keys the loop ends, in that way.
  pub kahn-Ended :
      Arrows
      → (fuel : ℕ) (done : List Str) (deg : Dict ℤ) (p : Progress) → Inv done deg
      → length (keys deg) < fuel
      → Ended done p (kahn fuel dependents deg p)
  unfolding count
  kahn-Ended a zero done deg p i h = absurd (omega arith)
  kahn-Ended a (suc fuel) done deg p i h = elim (Names-cases (zeros deg)) [
    | inl e ↦ record {
      waves = [];
      done_after = done;
      deg_after = deg;
      returns = kahn_stop fuel deg p e;
      invariant = i;
      no_zeros = e;
      respects = tt;
      counts = λ k. omega arith;
      lengths = omega arith;
    }
    | inr (id, ids, e) ↦
        Ended-wave fuel p i
          (kahn-Ended a fuel (zeros deg ++ done) _ (after_wave deg p) (Inv-round i a) (
            omega (
              arith,
              (Inv-round i a).size,
              i.size,
              ap length e,
              length-append {0} (zeros deg) done,
            )))
          id ids e
  ]
