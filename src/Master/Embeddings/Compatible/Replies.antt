-- ===== src/Master/Embeddings/Compatible/Replies.antt =====
-- A provider that is built answers with vectors of its own dimension only.
use vaultmcp.Prelude.{ℕ, suc}
use vaultmcp.Prelude.{◌≡◌, refl, inl, inr}
use vaultmcp.Prelude.{◌&&◌, Option, none, some, List, [], ◌∷◌, ◌++◌}
use vaultmcp.Prelude.{arith, ltb, leb, Bool-cases, Option-cases}
use vaultmcp.Prelude.{◌==◌, nat_Eq, list_Eq, option_Eq, nat_eq_iff}
use vaultmcp.Prelude.{length}
use vaultmcp.Prelude.{Result, ok, err}
use vaultmcp.Prelude.{Text, codes}
use vaultmcp.Prelude.{subst}
use vaultmcp.Shared.Value.{Value}
use vaultmcp.Master.Embeddings.Provider.{EmbedError, EmbeddingProvider}
use vaultmcp.Master.Embeddings.Hashed.{Numbers, Bytes, Bytes, encode, embed_hashed}
use vaultmcp.Master.Embeddings.Hashed.Dimension.{length-embed_hashed}
use vaultmcp.Master.Embeddings.Compatible.{
  Post, rstrip_slashes, given_key, vector_of, iterated, floats_of, read_vector, read_payload,
  read_response, embed_compatible, null_provider, compatible_provider, build_compatible,
  build_provider, ProviderSettings, ProviderError,
}

module _ {Float : Type 0} (float : Value → Option Float) where
  abbrev HasLength : ℕ → Result EmbedError (List Float) → Type 0
  HasLength n (ok v) = length v ≡ n
  HasLength n (err e) = Unit

  floats-HasLength : (vs : List Value) → HasLength (length vs) (floats_of float vs)
  unfolding floats_of
  floats-HasLength [] = refl
  floats-HasLength (v ∷ vs) = elim (Option-cases (float v)) [
    | inl q ↦ rw (q, HasLength, floats_of) tt
    | inr (x, q) ↦ rw (q, floats_of) (go x (floats_of float vs) (floats-HasLength vs))
  ]
    where
      go :
          (x : Float) (r : Result EmbedError (List Float))
          → HasLength (length vs) r
          → HasLength (suc (length vs)) (elim r [ err e ↦ err e | ok xs ↦ ok (x ∷ xs) ])
      go x (ok xs) h = omega (arith, h)
      go x (err e) h = tt

  vector-HasLength : (dim : ℕ) (o : Option (List Value)) → HasLength dim (read_vector float dim o)
  unfolding read_vector
  vector-HasLength dim none = tt
  vector-HasLength dim (some vs) = elim (Bool-cases (length vs == dim)) [
    | inl e ↦ rw e (
        subst (λ (n : ℕ). HasLength n (floats_of float vs)) ((nat_eq_iff (length vs) dim).0 e)
          (floats-HasLength vs))
    | inr e ↦ rw e tt
  ]

  response-HasLength :
      (dim : ℕ) (o : Option (ℕ × Value)) → HasLength dim (read_response float dim o)
  unfolding read_response read_payload
  response-HasLength dim none = tt
  response-HasLength dim (some (code, payload)) = elim (Bool-cases (leb 200 code && ltb code 300)) [
    | inl e ↦ elim (Option-cases (vector_of payload)) [
      | inl q ↦ rw (e, q, read_payload) tt
      | inr (v, q) ↦ rw (e, q, read_payload) (vector-HasLength dim (iterated v))
    ]
    | inr e ↦ rw e tt
  ]

  HasLength-ok :
      (dim : ℕ) (r : Result EmbedError (List Float)) (v : List Float)
      → HasLength dim r
      → r ≡ ok v
      → length v ≡ dim
  HasLength-ok dim r v h q = subst (λ (x : Result EmbedError (List Float)). HasLength dim x) q h

module _ (numbers : Numbers) (digest : Bytes → Bytes) (post : Post)
    (float : Value → Option numbers.Float)
    (some_byte : (s : Bytes) → (a : ℕ) × (h : Bytes) × (digest s ≡ a ∷ h)) where
  abbrev Keeps : EmbeddingProvider numbers.Float → Type 0
  Keeps p = (content : Text) → HasLength float p.dim (p.embed content)

  null-Keeps : Keeps (null_provider numbers digest post float)
  unfolding null_provider
  null-Keeps content = elim (Option-cases (encode content)) [
    | inl q ↦ rw (q, embed_hashed) tt
    | inr (seed, q) ↦
        let done = length-embed_hashed numbers digest 1024 content seed some_byte (omega arith) q in
        rw done.1 done.2
  ]

  abbrev AllKeep : Result ProviderError (EmbeddingProvider numbers.Float) → Type 0
  AllKeep (ok p) = Keeps p
  AllKeep (err e) = Unit

  compatible-AllKeep :
      (s : ProviderSettings) (base_url model : Option Text)
      → AllKeep (build_compatible numbers digest post float s base_url model)
  unfolding build_compatible compatible_provider embed_compatible
  compatible-AllKeep s none model = tt
  compatible-AllKeep s (some []) model = tt
  compatible-AllKeep s (some (b ∷ url)) none = tt
  compatible-AllKeep s (some (b ∷ url)) (some []) = tt
  compatible-AllKeep s (some (b ∷ url)) (some (m ∷ model)) = λ content.
      response-HasLength float s.dim (
        post (rstrip_slashes (b ∷ url) ++ codes "/embeddings") (given_key s.api_key) (m ∷ model)
          content)

  build-AllKeep : (s : ProviderSettings) → AllKeep (build_provider numbers digest post float s)
  unfolding build_provider
  build-AllKeep s = elim (Bool-cases (s.name == codes "null/sha-1024")) [
    | inl e ↦ rw e null-Keeps
    | inr e ↦ elim (Bool-cases (s.name == codes "openai-compat")) [
      | inl k ↦ rw (e, k) (compatible-AllKeep s s.base_url s.model)
      | inr k ↦ rw (e, k) tt
    ]
  ]

-- A provider that is built from the settings answers with vectors of its own dimension only, whatever
-- the embedding service sends back.
pub length-embed :
    (numbers : Numbers) (digest : Bytes → Bytes) (post : Post)
    (float : Value → Option numbers.Float) (s : ProviderSettings)
    (p : EmbeddingProvider numbers.Float) (content : Text) (v : List numbers.Float)
    → ((s : Bytes) → (a : ℕ) × (h : Bytes) × (digest s ≡ a ∷ h))
    → build_provider numbers digest post float s ≡ ok p
    → p.embed content ≡ ok v
    → length v ≡ p.dim
length-embed numbers digest post float s p content v some_byte h e =
    HasLength-ok float p.dim (p.embed content) v
      (subst (AllKeep numbers digest post float some_byte) h
        (build-AllKeep numbers digest post float some_byte s) content)
      e
