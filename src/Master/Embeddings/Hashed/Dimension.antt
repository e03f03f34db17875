-- ===== src/Master/Embeddings/Hashed/Dimension.antt =====
-- The vectors of `NullEmbeddingProvider` have the dimension asked for.
use vaultmcp.Prelude.{ℕ, zero, suc, ◌+◌, ◌*◌, ◌/◌, ◌%◌, ◌^◌, ◌≤◌, ◌<◌}
use vaultmcp.Prelude.{◌≡◌, refl, ◌∙◌, inl, inr}
use vaultmcp.Prelude.{some, List, [], ◌∷◌, ◌++◌}
use vaultmcp.Prelude.{map, arith, ltb, Bool-cases}
use vaultmcp.Prelude.{nat_Eq, list_Eq, option_Eq}
use vaultmcp.Prelude.{length, length-append}
use vaultmcp.Prelude.{Text}
use vaultmcp.Master.Embeddings.Hashed.{
  Numbers, Bytes, to_bytes, encode, fill, collect, normalized, embed_hashed,
}

module _ (numbers : Numbers) where
  open numbers use {Float, scaled, square_sum, root, is_positive, over}

  -- The digest adds a value for each two bytes, up to the dimension.
  length-fill :
      (dim : ℕ) (h : Bytes) (out : List Float)
      → length out ≤ dim
      → (length out ≤ length (fill numbers dim h out)) × (length (fill numbers dim h out) ≤ dim)
  unfolding fill
  length-fill dim [] out l = (omega arith, l)
  length-fill dim (a ∷ []) out l = ground (arith, length-append out (scaled a ∷ []))
  length-fill dim (a ∷ b ∷ h) out l = ground (
    arith,
    length-append out (scaled (a * 256 + b) ∷ []),
    length-fill dim h (out ++ scaled (a * 256 + b) ∷ []),
  )

  -- A digest that is not empty adds at least one value while there is room.
  fill_adds :
      (dim a : ℕ) (h : Bytes) (out : List Float)
      → length out < dim
      → (length out < length (fill numbers dim (a ∷ h) out))
        × (length (fill numbers dim (a ∷ h) out) ≤ dim)
  unfolding fill
  fill_adds dim a [] out l = ground (arith, length-append out (scaled a ∷ []))
  fill_adds dim a (b ∷ h) out l = ground (
    arith,
    length-append out (scaled (a * 256 + b) ∷ []),
    length-fill dim h (out ++ scaled (a * 256 + b) ∷ []),
  )

  counter_bytes : (n : ℕ) → n < 2 ^ 32 → (c : Bytes) × (to_bytes n ≡ some c)
  unfolding to_bytes
  counter_bytes n l =
      (n / 2 ^ 24 ∷ n / 2 ^ 16 % 256 ∷ n / 2 ^ 8 % 256 ∷ n % 256 ∷ [], ground (arith, l))

  module _ (digest : Bytes → Bytes) (dim : ℕ) (seed : Bytes)
      (some_byte : (s : Bytes) → (a : ℕ) × (h : Bytes) × (digest s ≡ a ∷ h)) where
    collect-dimension :
        (fuel counter : ℕ) (out : List Float)
        → length out ≤ dim
        → dim < length out + fuel
        → counter + fuel ≤ 2 ^ 32
        → (v : List Float) × (collect numbers fuel digest dim seed counter out ≡ some v)
          × (length v ≡ dim)
    unfolding collect
    collect-dimension zero counter out l f c = absurd (omega arith)
    collect-dimension (suc fuel) counter out l f c = elim (Bool-cases (ltb (length out) dim)) [
      | inr e ↦ (out, rw e refl, ground (arith, e, l))
      | inl e ↦
          let bytes = counter_bytes counter (omega arith) in
          let given = some_byte (seed ++ bytes.0) in
          let more : (length out < length (fill numbers dim (digest (seed ++ bytes.0)) out))
              × (length (fill numbers dim (digest (seed ++ bytes.0)) out) ≤ dim) =
            rw given.2 (fill_adds dim given.0 given.1 out (ground (arith, e))) in
          let rest =
            collect-dimension fuel (suc counter) (fill numbers dim (digest (seed ++ bytes.0)) out)
              more.1 (omega (arith, more.0, f)) (omega arith) in
          (rest.0, rw (e, bytes.1, collect) rest.1, rest.2)
    ]

  length-normalized : (out : List Float) → length (normalized numbers out) ≡ length out
  unfolding normalized
  length-normalized out = elim (Bool-cases (is_positive (root (square_sum out)))) [
    | inl e ↦ rw e (length-map (λ x. over x (root (square_sum out))) out)
    | inr e ↦ rw e refl
  ]
    where
      length-map : (f : Float → Float) (xs : List Float) → length (map f xs) ≡ length xs
      length-map f [] = refl
      length-map f (x ∷ xs) = omega (arith, length-map f xs)

-- For a text that encodes, a digest that always has a byte, and a dimension below 2 ^ 32, the loop ends
-- within one round more than the dimension, and the vector has exactly that many values.
pub length-embed_hashed :
    (numbers : Numbers) (digest : Bytes → Bytes) (dim : ℕ) (text : Text) (seed : Bytes)
    → ((s : Bytes) → (a : ℕ) × (h : Bytes) × (digest s ≡ a ∷ h))
    → dim < 2 ^ 32
    → encode text ≡ some seed
    → (v : List numbers.Float) × (embed_hashed numbers digest dim text ≡ some v) × (length v ≡ dim)
unfolding embed_hashed
length-embed_hashed numbers digest dim text seed some_byte small e =
    let done =
      collect-dimension numbers digest dim seed some_byte (suc dim) 0 [] (omega arith) (omega arith)
        (omega arith) in
    (
      normalized numbers done.0,
      rw (e, embed_hashed) (rw done.1 refl),
      length-normalized numbers done.0 ∙ done.2,
    )
