-- ===== src/Store/Selections.antt =====
-- Members of what SELECT gives with WHERE, ORDER BY and LIMIT 1 in internal/store/store.go.
use ghenkins.Prelude.{
  suc, zero, ◌≡◌, refl, sym, ap, ◌∙◌, ◌⊎◌, inl, inr, Bool, true, false, subst, List, [], ◌∷◌,
  Option, none, some, Member, Bool-cases,
}
use ghenkins.Prelude.Text.{Str}
use ghenkins.Store.{select, first, text_lt}
use ghenkins.Store.Projects.{put_by, order_by}

module _ {A : Type 0} where
  abbrev holds : (A → Bool) → Option A → Bool
  holds p none = false
  holds p (some x) = p x

  pub first_select :
      (p : A → Bool) (xs : List A) (a : A)
      → first (select p xs) ≡ some a
      → Member a xs × (p a ≡ true)
  unfolding select
  first_select p [] a e = cc
  first_select p (x ∷ xs) a e = elim (Bool-cases (p x)) [
    | inl h ↦
        let here : first (select p (x ∷ xs)) ≡ some x = rw h refl in
        let same = sym here ∙ e in ((0, same), sym (ap (holds p) same) ∙ h)
    | inr h ↦
        let there : first (select p (x ∷ xs)) ≡ first (select p xs) = rw h refl in
        let r = first_select p xs a (sym there ∙ e) in ((suc r.0.0, r.0.1), r.1)
  ]

  Member-cons : (x : A) (xs : List A) (a : A) → Member a (x ∷ xs) → (x ≡ a) ⊎ Member a xs
  Member-cons x xs a (zero, e) = inl (ap (value x) e)
    where
      value : A → Option A → A
      value x none = x
      value x (some y) = y
  Member-cons x xs a (suc n, e) = inr (n, e)

  later : (x : A) (xs : List A) (a : A) → Member a xs → Member a (x ∷ xs)
  later x xs a (n, e) = (suc n, e)

  pub Member-select :
      (p : A → Bool) (xs : List A) (a : A) → Member a (select p xs) → Member a xs × (p a ≡ true)
  unfolding select
  Member-select p [] a (n, e) = cc
  Member-select p (x ∷ xs) a m = elim (Bool-cases (p x)) [
    | inl h ↦
        let here : select p (x ∷ xs) ≡ x ∷ select p xs = rw h refl in
        elim (Member-cons x (select p xs) a (subst (Member a) here m)) [
          | inl e ↦ ((0, ap some e), sym (ap p e) ∙ h)
          | inr n ↦ let r = Member-select p xs a n in (later x xs a r.0, r.1)
        ]
    | inr h ↦
        let there : select p (x ∷ xs) ≡ select p xs = rw h refl in
        let r = Member-select p xs a (subst (Member a) there m) in (later x xs a r.0, r.1)
  ]

  Member-put_by :
      (f : A → Str) (x : A) (xs : List A) (a : A) → Member a (put_by f x xs) → (x ≡ a) ⊎ Member a xs
  unfolding put_by
  Member-put_by f x [] a m = Member-cons x [] a m
  Member-put_by f x (y ∷ ys) a m = elim (Bool-cases (text_lt (f y) (f x))) [
    | inl h ↦
        let behind : put_by f x (y ∷ ys) ≡ y ∷ put_by f x ys = rw (h, put_by) refl in
        elim (Member-cons y (put_by f x ys) a (subst (Member a) behind m)) [
          | inl e ↦ inr (0, ap some e)
          | inr n ↦ elim (Member-put_by f x ys a n) [ inl e ↦ inl e | inr k ↦ inr (later y ys a k) ]
        ]
    | inr h ↦
        let front : put_by f x (y ∷ ys) ≡ x ∷ y ∷ ys = rw (h, put_by) refl in
        Member-cons x (y ∷ ys) a (subst (Member a) front m)
  ]

  pub Member-order_by : (f : A → Str) (xs : List A) (a : A) → Member a (order_by f xs) → Member a xs
  unfolding order_by
  Member-order_by f [] a m = m
  Member-order_by f (x ∷ xs) a m = elim (Member-put_by f x (order_by f xs) a m) [
    | inl e ↦ (0, ap some e)
    | inr n ↦ later x xs a (Member-order_by f xs a n)
  ]
