-- ===== src/Action/Resolve.antt =====
-- How internal/runner/action.go takes a reference apart.
use ghenkins.Prelude.{
  ℕ, suc, ◌+◌, ◌≡◌, refl, ap, ◌∙◌, true, [], ◌∷◌, ◌++◌, none, some, Option, arith, ◌==◌, ==_iff,
  if◌then◌else◌, length, take_front, drop_front,
}
use ghenkins.Prelude.Text.{Str, lit, HasNo, index_byte}
use ghenkins.Action.{found, parse_reference, last_index_from}

no_later : (n b : ℕ) (s : Str) (o : Option ℕ) → HasNo b s → last_index_from n b s o ≡ o
unfolding last_index_from
no_later n b [] o h = refl
no_later n b (x ∷ s) o h = rw (h.0, last_index_from) (no_later (suc n) b s o h.1)

last_index_byte :
    (n b : ℕ) (k s : Str) (o : Option ℕ)
    → HasNo b s
    → last_index_from n b (k ++ b ∷ s) o ≡ some (n + length k)
unfolding last_index_from
last_index_byte n b [] s o h =
    let here : (b == b) ≡ true = (==_iff b b).1 refl in
    let e : n ≡ n + 0 = omega arith in
    rw (here, last_index_from) (no_later (suc n) b s (some n) h ∙ ap (λ i. some i) e)
last_index_byte n b (x ∷ k) s o h =
    let e : suc n + length k ≡ n + suc (length k) = omega arith in
    last_index_byte (suc n) b k s (if x == b then some n else o) h ∙ ap (λ i. some i) e

-- The reference of "owner/repo@ref" is these three parts, if the owner has no "/" and the ref no "@"; the
-- repository may go on with a path, and may hold either.
pub parse_reference_parts :
    (owner repo ref : Str)
    → HasNo b'/' owner
    → HasNo b'@' ref
    → parse_reference ((owner ++ b'/' ∷ repo) ++ b'@' ∷ ref)
      ≡ found (record { owner = owner; repo = repo; ref = ref })
unfolding parse_reference lit
parse_reference_parts owner repo ref h k =
    let text = owner ++ b'/' ∷ repo in
    let e : 0 + length text ≡ length text = omega arith in
    rw
      (
        last_index_byte 0 b'@' text ref none k ∙ ap (λ i. some i) e,
        parse_reference,
        take_front text (b'@' ∷ ref),
        drop_front 1 text (b'@' ∷ ref),
        index_byte b'/' owner repo h,
        take_front owner (b'/' ∷ repo),
        drop_front 1 owner (b'/' ∷ repo),
      )
      refl
