-- ===== src/Prelude/Sorting/Laws.antt =====
-- Sorting by a total and transitive test gives a sorted rearrangement, and filtering commutes with it.
use Prim.Native.Nat.{ℕ, zero}
use mathlib.Core.Option.{some}
use vaultmcp.Prelude.Lists.{take}
use mathlib.Core.Path.{subst}
use vaultmcp.Prelude.Lists.{last?}
use mathlib.Core.Path.{◌≡◌, refl, ap, sym, ◌∙◌}
use mathlib.Core.Bool.{Bool, true, false, ◌&&◌, ◌||◌}
use mathlib.Core.Logic.{inl, inr}
use mathlib.Core.List.{List, [], ◌∷◌, ◌++◌, Perm}
use mathlib.Core.List.Perm
use Prim.Native.Nat.{suc, ◌≤◌}
use native.Mathlib.Omega.{arith}
use vaultmcp.Prelude.Tests.{Bool-cases}
use vaultmcp.Prelude.Lists.{All, select, any, length}
use vaultmcp.Prelude.Sorting.{place, sort_by}

module _ {ℓ} {A : Type ℓ} (before : A → A → Bool) where
  -- Each member may stand before all later ones.
  abbrev pub IsSorted : List A → Type 0
  IsSorted [] = Unit
  IsSorted (x ∷ xs) = All (λ y. before x y ≡ true) xs × IsSorted xs

  pub All-place {κ} :
      (P : A → Type κ) (x : A) (ys : List A) → P x → All P ys → All P (place before x ys)
  unfolding place
  All-place P x [] px h = (px, tt)
  All-place P x (y ∷ ys) px h = elim (Bool-cases (before x y)) [
    | inl e ↦ rw e (px, h)
    | inr e ↦ rw e (h.0, All-place P x ys px h.1)
  ]

  pub All-sort_by {κ} : (P : A → Type κ) (xs : List A) → All P xs → All P (sort_by before xs)
  unfolding sort_by
  All-sort_by P [] h = h
  All-sort_by P (x ∷ xs) h = All-place P x (sort_by before xs) h.0 (All-sort_by P xs h.1)

  pub All-select {κ} :
      (P : A → Type κ) (p : A → Bool) (xs : List A) → All P xs → All P (select p xs)
  All-select P p [] h = tt
  All-select P p (x ∷ xs) h = elim (Bool-cases (p x)) [
    | inl e ↦ rw e (h.0, All-select P p xs h.1)
    | inr e ↦ rw e (All-select P p xs h.1)
  ]

  pub place_first :
      (x : A) (ys : List A) → All (λ y. before x y ≡ true) ys → place before x ys ≡ x ∷ ys
  unfolding place
  place_first x [] h = refl
  place_first x (y ∷ ys) h = rw h.0

  pub sort_by_sorted : (xs : List A) → IsSorted xs → sort_by before xs ≡ xs
  unfolding sort_by
  sort_by_sorted [] h = refl
  sort_by_sorted (x ∷ xs) h = rw (sort_by_sorted xs h.1) (place_first x xs h.0)

  place-perm : (x : A) (ys : List A) → Perm (place before x ys) (x ∷ ys)
  unfolding place
  place-perm x [] = Perm.refl (x ∷ [])
  place-perm x (y ∷ ys) = elim (Bool-cases (before x y)) [
    | inl e ↦ rw e (Perm.refl (x ∷ y ∷ ys))
    | inr e ↦ rw e (Perm.trans (Perm.cons y (place-perm x ys)) (Perm.swap x y ys))
  ]

  -- Sorting loses no row and makes none up.
  pub sort_by-perm : (xs : List A) → Perm (sort_by before xs) xs
  unfolding sort_by
  sort_by-perm [] = Perm.refl []
  sort_by-perm (x ∷ xs) =
      Perm.trans (place-perm x (sort_by before xs)) (Perm.cons x (sort_by-perm xs))

module _ {ℓ} {A : Type ℓ} (before : A → A → Bool)
    (total : (a b : A) → before a b ≡ false → before b a ≡ true)
    (trans : (a b c : A) → before a b ≡ true → before b c ≡ true → before a c ≡ true) where
  All-before :
      (x y : A) (ys : List A)
      → before x y ≡ true
      → All (λ z. before y z ≡ true) ys
      → All (λ z. before x z ≡ true) ys
  All-before x y [] h k = tt
  All-before x y (z ∷ zs) h k = (trans x y z h k.0, All-before x y zs h k.1)

  pub place-IsSorted :
      (x : A) (ys : List A) → IsSorted before ys → IsSorted before (place before x ys)
  unfolding place
  place-IsSorted x [] h = (tt, tt)
  place-IsSorted x (y ∷ ys) h = elim (Bool-cases (before x y)) [
    | inl e ↦ rw e ((e, All-before x y ys e h.0), h)
    | inr e ↦
        rw e (
          All-place before (λ z. before y z ≡ true) x ys (total x y e) h.0,
          place-IsSorted x ys h.1,
        )
  ]

  pub sort_by-IsSorted : (xs : List A) → IsSorted before (sort_by before xs)
  unfolding sort_by
  sort_by-IsSorted [] = tt
  sort_by-IsSorted (x ∷ xs) = place-IsSorted x (sort_by before xs) (sort_by-IsSorted xs)

  select-place_in :
      (p : A → Bool) (x : A) (ys : List A)
      → IsSorted before ys
      → p x ≡ true
      → select p (place before x ys) ≡ place before x (select p ys)
  unfolding place
  select-place_in p x [] h px = rw px
  select-place_in p x (y ∷ ys) h px = elim (Bool-cases (before x y)) [
    | inl e ↦
        rw (e, px)
          (sym (
            place_first before x (select p (y ∷ ys))
              (All-select before (λ z. before x z ≡ true) p (y ∷ ys) (e, All-before x y ys e h.0))))
    | inr e ↦ elim (Bool-cases (p y)) [
      | inl py ↦ rw (e, py) (rw e (ap (λ zs. y ∷ zs) (select-place_in p x ys h.1 px)))
      | inr py ↦ rw (e, py) (select-place_in p x ys h.1 px)
    ]
  ]

  select-place_out :
      (p : A → Bool) (x : A) (ys : List A)
      → p x ≡ false
      → select p (place before x ys) ≡ select p ys
  unfolding place
  select-place_out p x [] px = rw px
  select-place_out p x (y ∷ ys) px = ground (arith, select-place_out p x ys)

  pub select-sort_by :
      (p : A → Bool) (xs : List A) → select p (sort_by before xs) ≡ sort_by before (select p xs)
  unfolding sort_by
  select-sort_by p [] = refl
  select-sort_by p (x ∷ xs) = elim (Bool-cases (p x)) [
    | inl px ↦
        rw (px, select-place_in p x (sort_by before xs) (sort_by-IsSorted xs) px)
          (ap (place before x) (select-sort_by p xs))
    | inr px ↦ rw (px, select-place_out p x (sort_by before xs) px) (select-sort_by p xs)
  ]

module _ {ℓ} {A : Type ℓ} (p : A → Bool) where
  pub any-append : (xs ys : List A) → any p (xs ++ ys) ≡ (any p xs || any p ys)
  any-append [] ys = refl
  any-append (x ∷ xs) ys = ground (arith, any-append xs ys)

  pub any-select : (q : A → Bool) (xs : List A) → any p (select q xs) ≡ any (λ x. q x && p x) xs
  any-select q [] = refl
  any-select q (x ∷ xs) = ground (arith, any-select q xs)

  pub any-place :
      (before : A → A → Bool) (x : A) (ys : List A) → any p (place before x ys) ≡ (p x || any p ys)
  unfolding place
  any-place before x [] = refl
  any-place before x (y ∷ ys) = ground (arith, any-place before x ys)

  pub any-sort_by : (before : A → A → Bool) (xs : List A) → any p (sort_by before xs) ≡ any p xs
  unfolding sort_by
  any-sort_by before [] = refl
  any-sort_by before (x ∷ xs) =
      any-place before x (sort_by before xs) ∙ ap (λ (b : Bool). p x || b) (any-sort_by before xs)

module _ {ℓ} {A : Type ℓ} where
  length-place :
      (before : A → A → Bool) (p : A) (ps : List A) → length (place before p ps) ≡ suc (length ps)
  unfolding place
  length-place before p [] = refl
  length-place before p (q ∷ ps) = ground (arith, length-place before p ps)

  pub length-sort_by :
      (before : A → A → Bool) (ps : List A) → length (sort_by before ps) ≡ length ps
  unfolding sort_by
  length-sort_by before [] = refl
  length-sort_by before (p ∷ ps) =
      omega (arith, length-place before p (sort_by before ps), length-sort_by before ps)

  pub length-select : (t : A → Bool) (ps : List A) → length (select t ps) ≤ length ps
  length-select t [] = omega arith
  length-select t (p ∷ ps) = ground (arith, length-select t ps)

module _ {ℓ} {A : Type ℓ} where
  pub All-take : (P : A → Type 0) (n : ℕ) (xs : List A) → All P xs → All P (take n xs)
  All-take P zero xs h = tt
  All-take P (suc n) [] h = tt
  All-take P (suc n) (x ∷ xs) h = (h.0, All-take P n xs h.1)

  -- The selected rows pass the test.
  pub selected : (t : A → Bool) (xs : List A) → All (λ x. t x ≡ true) (select t xs)
  selected t [] = tt
  selected t (x ∷ xs) = elim (Bool-cases (t x)) [
    | inl e ↦ rw e (e, selected t xs)
    | inr e ↦ rw e (selected t xs)
  ]

  pub All-last : (P : A → Type 0) (xs : List A) (x : A) → All P xs → last? xs ≡ some x → P x
  All-last P [] x h e = cc
  All-last P (y ∷ []) x h e = subst P (some_same y x e) h.0
    where
      some_same : (a b : A) → last? (a ∷ []) ≡ some b → a ≡ b
      some_same a b q = cc
  All-last P (y ∷ z ∷ xs) x h e = All-last P (z ∷ xs) x h.1 e
