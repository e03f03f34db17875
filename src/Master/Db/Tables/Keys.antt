-- ===== src/Master/Db/Tables/Keys.antt =====
-- Predicates on the rows of a table, and how an upsert and a deletion keep them.
use vaultmcp.Prelude.{◌≡◌, inl, inr}
use vaultmcp.Prelude.{Bool, true, false, List, [], ◌∷◌, ◌++◌}
use vaultmcp.Prelude.{arith, Bool-cases}
use vaultmcp.Prelude.{◌==◌, nat_Eq, list_Eq, option_Eq, list_eq_iff}
use vaultmcp.Prelude.{select, All}
use vaultmcp.Prelude.{Text}
use vaultmcp.Master.Db.Tables.{upsert}

module _ {ℓ} {Row : Type ℓ} where
  -- A relation holds between each row and all later ones.
  abbrev pub Pairwise : (Row → Row → Type 0) → List Row → Type 0
  Pairwise R [] = Unit
  Pairwise R (x ∷ xs) = All (R x) xs × Pairwise R xs

  pub All-append {κ} :
      (P : Row → Type κ) (xs ys : List Row) → All P xs → All P ys → All P (xs ++ ys)
  All-append P [] ys h k = k
  All-append P (x ∷ xs) ys h k = (h.0, All-append P xs ys h.1 k)

  pub All-mono {κ μ} :
      (P : Row → Type κ) (Q : Row → Type μ) (xs : List Row)
      → ((x : Row) → P x → Q x)
      → All P xs
      → All Q xs
  All-mono P Q [] f h = tt
  All-mono P Q (x ∷ xs) f h = (f x h.0, All-mono P Q xs f h.1)

  pub All-where {κ} :
      (P : Row → Type κ) (p : Row → Bool) (xs : List Row) → All P xs → All P (select p xs)
  All-where P p [] h = tt
  All-where P p (x ∷ xs) h = elim (Bool-cases (p x)) [
    | inl e ↦ rw e (h.0, All-where P p xs h.1)
    | inr e ↦ rw e (All-where P p xs h.1)
  ]

  pub Pairwise-where :
      (R : Row → Row → Type 0) (p : Row → Bool) (xs : List Row)
      → Pairwise R xs
      → Pairwise R (select p xs)
  Pairwise-where R p [] h = tt
  Pairwise-where R p (x ∷ xs) h = elim (Bool-cases (p x)) [
    | inl e ↦ rw e (All-where (R x) p xs h.0, Pairwise-where R p xs h.1)
    | inr e ↦ rw e (Pairwise-where R p xs h.1)
  ]

  pub Pairwise-append :
      (R : Row → Row → Type 0) (xs : List Row) (y : Row)
      → Pairwise R xs
      → All (λ x. R x y) xs
      → Pairwise R (xs ++ y ∷ [])
  Pairwise-append R [] y h k = (tt, tt)
  Pairwise-append R (x ∷ xs) y h k =
      (All-append (R x) xs (y ∷ []) h.0 (k.0, tt), Pairwise-append R xs y h.1 k.1)

module _ {ℓ} {Row : Type ℓ} (key : Row → Text) where
  pub All-upsert {κ} :
      (P : Row → Type κ) (new : Row) (rows : List Row)
      → P new
      → All P rows
      → All P (upsert key new rows)
  unfolding upsert
  All-upsert P new [] n h = (n, tt)
  All-upsert P new (r ∷ rows) n h = elim (Bool-cases (key r == key new)) [
    | inl e ↦ rw e (n, h.1)
    | inr e ↦ rw e (h.0, All-upsert P new rows n h.1)
  ]

  -- A relation that the new row has with every row, in either order, survives its upsert.
  pub Pairwise-upsert :
      (R : Row → Row → Type 0) (new : Row) (rows : List Row)
      → All (λ r. R r new) rows
      → All (R new) rows
      → Pairwise R rows
      → Pairwise R (upsert key new rows)
  unfolding upsert
  Pairwise-upsert R new [] before after h = (tt, tt)
  Pairwise-upsert R new (r ∷ rows) before after h = elim (Bool-cases (key r == key new)) [
    | inl e ↦ rw e (after.1, h.1)
    | inr e ↦
        rw e
          (All-upsert (R r) new rows before.0 h.0, Pairwise-upsert R new rows before.1 after.1 h.1)
  ]

  -- No two rows have one key.
  abbrev pub NodupKeys : List Row → Type 0
  NodupKeys = Pairwise (λ a b. (key a == key b) ≡ false)

  apart_upsert :
      (r new : Row) (rows : List Row)
      → (key r == key new) ≡ false
      → All (λ b. (key r == key b) ≡ false) rows
      → All (λ b. (key r == key b) ≡ false) (upsert key new rows)
  apart_upsert r new rows n h = All-upsert (λ b. (key r == key b) ≡ false) new rows n h

  replace_head :
      (q new : Row) (rows : List Row)
      → (key q == key new) ≡ true
      → All (λ b. (key q == key b) ≡ false) rows
      → All (λ b. (key new == key b) ≡ false) rows
  replace_head q new rows e h =
      All-mono (λ b. (key q == key b) ≡ false) (λ b. (key new == key b) ≡ false) rows
        (λ b k. ground (
          arith,
          list_eq_iff (key q) (key new),
          list_eq_iff (key q) (key b),
          list_eq_iff (key new) (key b),
        ))
        h

  pub NodupKeys-upsert :
      (new : Row) (rows : List Row) → NodupKeys rows → NodupKeys (upsert key new rows)
  unfolding upsert
  NodupKeys-upsert new [] h = (tt, tt)
  NodupKeys-upsert new (r ∷ rows) h = elim (Bool-cases (key r == key new)) [
    | inl e ↦ rw e (replace_head r new rows e h.0, h.1)
    | inr e ↦ rw e (apart_upsert r new rows e h.0, NodupKeys-upsert new rows h.1)
  ]
