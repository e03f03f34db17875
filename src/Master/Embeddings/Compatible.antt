-- ===== src/Master/Embeddings/Compatible.antt =====
-- `OpenAICompatibleEmbeddingProvider` and `build_provider` of src/vaultmcp/master/embeddings.py. The HTTP
-- client is the argument `post`, `float(x)` the argument `float`.
pub mod Replies
use vaultmcp.Prelude.{ℕ, zero, suc, ◌+◌, ◌-◌, ◌*◌, ◌/◌, ◌%◌, ◌^◌, ◌≤◌, ◌<◌, min, max, String}
use vaultmcp.Prelude.{◌≡◌, refl, sym, ap, ◌∙◌, fun_ext, ◌≢◌, ◌↔◌, ◌⊎◌, inl, inr}
use vaultmcp.Prelude.{Bool, true, false, not, ◌&&◌, ◌||◌, Option, none, some, List, [], ◌∷◌, ◌++◌}
use vaultmcp.Prelude.{
  map, reverse, arith, ltb, leb, nat_eq, if◌then◌else◌, Bool-cases, Option-cases,
}
use vaultmcp.Prelude.{
  Eq, ◌==◌, nat_Eq, list_Eq, option_Eq, list_eq_iff, option_eq_iff, nat_eq_iff, beq_refl,
}
use vaultmcp.Prelude.{
  length, take, drop, last?, select, find, any, all, All, length-append, length-take,
}
use vaultmcp.Prelude.{
  take_all, place, sort_by, Result, ok, err, ◌>>=◌, ◌>>◌, guard, bind-ok, Result-cases,
}
use vaultmcp.Prelude.{
  Text, codes, starts_with, is_space, lstrip, rstrip, strip, partition, split, join, text_le,
}
use vaultmcp.Prelude.{subst}
use vaultmcp.Shared.Value.{
  Value, Items, Fields, null, bool, int, text, date, datetime, list, dict, other, nil, cons, end,
  field, get, key_is,
}
use vaultmcp.Master.Embeddings.Provider.{
  EmbedError, not_encodable, http_status, http_failed, unexpected_shape, no_length, wrong_dimension,
  not_a_number, EmbeddingProvider,
}
use vaultmcp.Master.Embeddings.Hashed.{Numbers, Bytes, embed_hashed}

-- The POST: its address, its bearer token, the model and the text; the answer's status and payload, or
-- none if the call or the reading of the JSON fails.
abbrev pub Post : Type 0
Post = Text → Option Text → Text → Text → Option (ℕ × Value)

-- `base_url.rstrip("/")`
unfoldable pub rstrip_slashes : Text → Text
rstrip_slashes [] = []
rstrip_slashes (c ∷ s) =
    let rest = rstrip_slashes s in
    elim rest [ [] ↦ (if c == b'/' then [] else c ∷ []) | d ∷ t ↦ c ∷ d ∷ t ]

-- `if self.api_key:`
abbrev pub given_key : Option Text → Option Text
given_key none = none
given_key (some []) = none
given_key (some (c ∷ s)) = some (c ∷ s)

-- `payload["data"]`, `[0]` and `["embedding"]`; `none` is a KeyError, IndexError or TypeError. The keys of
-- a JSON object are texts, so `[0]` finds nothing in it, and in a text it finds a text.
abbrev pub at_key : Text → Value → Option Value
at_key k (dict fields) = get fields k
at_key k _ = none

abbrev pub at_first : Value → Option Value
at_first (list (cons v rest)) = some v
at_first _ = none

unfoldable pub vector_of : Value → Option Value
vector_of payload = elim (at_key (codes "data") payload) [
  | none ↦ none
  | some entries ↦ elim (at_first entries) [
    | none ↦ none
    | some entry ↦ at_key (codes "embedding") entry
  ]
]

abbrev pub items_of : Items → List Value
items_of nil = []
items_of (cons v rest) = v ∷ items_of rest

abbrev pub keys_of : Fields → List Value
keys_of end = []
keys_of (field k v rest) = k ∷ keys_of rest

-- What `len` counts and the comprehension runs over; `none` is a TypeError.
unfoldable pub iterated : Value → Option (List Value)
iterated (list items) = some (items_of items)
iterated (dict fields) = some (keys_of fields)
iterated (text t) = some (map (λ c. text (c ∷ [])) t)
iterated _ = none

module _ {Float : Type 0} (float : Value → Option Float) where
  unfoldable pub floats_of : List Value → Result EmbedError (List Float)
  floats_of [] = ok []
  floats_of (v ∷ vs) = elim (float v) [
    | none ↦ err not_a_number
    | some x ↦ elim (floats_of vs) [ err e ↦ err e | ok xs ↦ ok (x ∷ xs) ]
  ]

  unfoldable pub read_vector : ℕ → Option (List Value) → Result EmbedError (List Float)
  unfolding floats_of
  read_vector dim none = err no_length
  read_vector dim (some vs) =
      if not (length vs == dim) then err (wrong_dimension (length vs) dim) else floats_of vs

  unfoldable pub read_payload : ℕ → Value → Result EmbedError (List Float)
  unfolding vector_of iterated read_vector
  read_payload dim payload = elim (vector_of payload) [
    | none ↦ err unexpected_shape
    | some vec ↦ read_vector dim (iterated vec)
  ]

  -- `resp.raise_for_status()` raises unless the status is one of success.
  unfoldable pub read_response : ℕ → Option (ℕ × Value) → Result EmbedError (List Float)
  unfolding read_payload
  read_response dim none = err http_failed
  read_response dim (some (code, payload)) =
      if leb 200 code && ltb code 300 then read_payload dim payload else err (http_status code)

  unfoldable pub embed_compatible :
      Post → Text → Text → Option Text → ℕ → Text → Result EmbedError (List Float)
  unfolding rstrip_slashes read_response
  embed_compatible post base_url model api_key dim content =
      read_response dim
        (post (rstrip_slashes base_url ++ codes "/embeddings") (given_key api_key) model content)

-- The parts of the configuration that `build_provider` reads.
pub record ProviderSettings : Type 0 where
  pub name : Text
  pub base_url : Option Text
  pub model : Option Text
  pub api_key : Option Text
  pub dim : ℕ

pub data ProviderError : Type 0 where
  missing_settings unknown_provider : ProviderError

module _ (numbers : Numbers) (digest : Bytes → Bytes) (post : Post)
    (float : Value → Option numbers.Float) where
  abbrev or_raise : Option (List numbers.Float) → Result EmbedError (List numbers.Float)
  or_raise none = err not_encodable
  or_raise (some v) = ok v

  unfoldable pub null_provider : EmbeddingProvider numbers.Float
  unfolding embed_hashed
  null_provider = record {
    name = codes "null/sha-1024";
    dim = 1024;
    embed = λ t. or_raise (embed_hashed numbers digest 1024 t);
  }

  unfoldable pub compatible_provider :
      Text → Text → Option Text → ℕ → EmbeddingProvider numbers.Float
  unfolding embed_compatible
  compatible_provider base_url model api_key dim = record {
    name = codes "openai-compat/" ++ model;
    dim = dim;
    embed = embed_compatible float post base_url model api_key dim;
  }

  unfoldable pub build_compatible :
      ProviderSettings
      → Option Text
      → Option Text
      → Result ProviderError (EmbeddingProvider numbers.Float)
  unfolding compatible_provider
  build_compatible s (some (b ∷ url)) (some (m ∷ model)) =
      ok (compatible_provider (b ∷ url) (m ∷ model) s.api_key s.dim)
  build_compatible s _ _ = err missing_settings

  unfoldable pub build_provider :
      ProviderSettings → Result ProviderError (EmbeddingProvider numbers.Float)
  unfolding null_provider build_compatible
  build_provider s =
      if s.name == codes "null/sha-1024"
      then ok null_provider
      else if s.name == codes "openai-compat"
      then build_compatible s s.base_url s.model
      else err unknown_provider

  unfoldable pub get_provider_from_name :
      Text → Result ProviderError (EmbeddingProvider numbers.Float)
  unfolding null_provider
  get_provider_from_name name =
      if name == codes "null/sha-1024" then ok null_provider else err unknown_provider
