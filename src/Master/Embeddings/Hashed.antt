-- ===== src/Master/Embeddings/Hashed.antt =====
-- `NullEmbeddingProvider` of src/vaultmcp/master/embeddings.py: vectors from SHA-256, which is the
-- argument `digest`. The floats are abstract.
pub mod Dimension
use vaultmcp.Prelude.{ℕ, zero, suc, ◌+◌, ◌-◌, ◌*◌, ◌/◌, ◌%◌, ◌^◌, ◌≤◌, ◌<◌, min, max, String}
use vaultmcp.Prelude.{◌≡◌, refl, sym, ap, ◌∙◌, fun_ext, ◌≢◌, ◌↔◌, ◌⊎◌, inl, inr}
use vaultmcp.Prelude.{Bool, true, false, not, ◌&&◌, ◌||◌, Option, none, some, List, [], ◌∷◌, ◌++◌}
use vaultmcp.Prelude.{
  map, reverse, arith, ltb, leb, nat_eq, if◌then◌else◌, Bool-cases, Option-cases,
}
use vaultmcp.Prelude.{
  Eq, ◌==◌, nat_Eq, list_Eq, option_Eq, list_eq_iff, option_eq_iff, nat_eq_iff, beq_refl,
}
use vaultmcp.Prelude.{
  length, take, drop, last?, select, find, any, all, All, length-append, length-take,
}
use vaultmcp.Prelude.{
  take_all, place, sort_by, Result, ok, err, ◌>>=◌, ◌>>◌, guard, bind-ok, Result-cases,
}
use vaultmcp.Prelude.{
  Text, codes, starts_with, is_space, lstrip, rstrip, strip, partition, split, join, text_le,
}
use vaultmcp.Prelude.{subst}

-- `raw / 32767.5 - 1.0`, and what the normalisation computes with.
pub record Numbers : Type 1 where
  pub Float : Type 0
  pub scaled : ℕ → Float
  pub square_sum : List Float → Float
  pub root : Float → Float
  pub is_positive : Float → Bool
  pub over : Float → Float → Float

abbrev pub Bytes : Type 0
Bytes = List ℕ

-- `text.encode("utf-8")`, which raises for a surrogate.
unfoldable pub encode_char : ℕ → Option Bytes
encode_char c =
    if ltb c 0x80
    then some (c ∷ [])
    else if ltb c 0x800
    then some ((0xc0 + c / 0x40) ∷ (0x80 + c % 0x40) ∷ [])
    else if leb 0xd800 c && leb c 0xdfff
    then none
    else if ltb c 0x10000
    then some ((0xe0 + c / 0x1000) ∷ (0x80 + c / 0x40 % 0x40) ∷ (0x80 + c % 0x40) ∷ [])
    else some (
        (0xf0 + c / 0x40000)
        ∷ (0x80 + c / 0x1000 % 0x40)
        ∷ (0x80 + c / 0x40 % 0x40)
        ∷ (0x80 + c % 0x40)
        ∷ [])

abbrev pub joined : Option Bytes → Option Bytes → Option Bytes
joined (some a) (some b) = some (a ++ b)
joined (some a) none = none
joined none b = none

unfoldable pub encode : Text → Option Bytes
unfolding encode_char
encode [] = some []
encode (c ∷ s) = joined (encode_char c) (encode s)

-- `counter.to_bytes(4, "big")`, which raises from 2 ^ 32 on.
unfoldable pub to_bytes : ℕ → Option Bytes
to_bytes n =
    if ltb n (2 ^ 32)
    then some (n / 2 ^ 24 ∷ n / 2 ^ 16 % 256 ∷ n / 2 ^ 8 % 256 ∷ n % 256 ∷ [])
    else none

module _ (numbers : Numbers) where
  open numbers use {Float, scaled, square_sum, root, is_positive, over}

  -- The loop over the digest, two bytes at a time; a last odd byte stands alone.
  unfoldable pub fill : ℕ → Bytes → List Float → List Float
  fill dim [] out = out
  fill dim (a ∷ []) out = if leb dim (length out) then out else out ++ scaled a ∷ []
  fill dim (a ∷ b ∷ h) out =
      let rest = fill dim h (out ++ scaled (a * 256 + b) ∷ []) in
      if leb dim (length out) then out else rest

  -- The outer loop, on fuel. `none` is the exception of `to_bytes`.
  unfoldable pub collect : ℕ → (Bytes → Bytes) → ℕ → Bytes → ℕ → List Float → Option (List Float)
  unfolding fill to_bytes
  collect zero digest dim seed counter out = none
  collect (suc fuel) digest dim seed counter out =
      if ltb (length out) dim
      then (elim (to_bytes counter) [
        | none ↦ none
        | some c ↦ collect fuel digest dim seed (suc counter) (fill dim (digest (seed ++ c)) out)
      ])
      else some out

  unfoldable pub normalized : List Float → List Float
  normalized out =
      let norm = root (square_sum out) in
      if is_positive norm then map (λ x. over x norm) out else out

  unfoldable pub embed_hashed : (Bytes → Bytes) → ℕ → Text → Option (List Float)
  unfolding encode collect normalized
  embed_hashed digest dim text = elim (encode text) [
    | none ↦ none
    | some seed ↦ elim (collect (suc dim) digest dim seed 0 []) [
      | none ↦ none
      | some out ↦ some (normalized out)
    ]
  ]
