-- ===== src/Agent/Client/Stream.antt =====
-- The event stream is read alike however the network cuts it into chunks.
use vaultmcp.Prelude.{ℕ}
use vaultmcp.Prelude.{◌≡◌, refl, sym, ap, ◌∙◌, inl, inr}
use vaultmcp.Prelude.{Bool, false, ◌&&◌, Option, List, [], ◌∷◌, ◌++◌}
use vaultmcp.Prelude.{arith, Bool-cases}
use vaultmcp.Prelude.{◌==◌, nat_Eq, list_Eq, option_Eq}
use vaultmcp.Prelude.{Text}
use mathlib.Core.List.{append_assoc, append-nil}
use vaultmcp.Shared.Value.{Fields}
use vaultmcp.Agent.Client.{drain, onto_first, block_events, parse_sse}

-- The blocks of a text and then of a continuation of what stays in the buffer.
abbrev continue : List Text × Text → Text → List Text × Text
continue (bs, rest) t = let (cs, last) = drain (rest ++ t) in (bs ++ cs, last)

onto_first-nil :
    (c : ℕ) (r : List Text × Text) (rest : Text)
    → onto_first c r ≡ ([], rest)
    → (r ≡ ([], r.1)) × (rest ≡ c ∷ r.1)
onto_first-nil c ([], x) rest h = (refl, cc)
onto_first-nil c (b ∷ bs, x) rest h = cc

abbrev is_break : ℕ → ℕ → Bool
is_break c d = c == 10 && d == 10

-- Without a block all of the text stays.
drain_rest : (s rest : Text) → drain s ≡ ([], rest) → rest ≡ s
unfolding drain
drain_rest [] rest h = cc
drain_rest (c ∷ []) rest h = cc
drain_rest (c ∷ d ∷ s) rest h = elim (Bool-cases (is_break c d)) [
  | inl e ↦ cc (rw e at h)
  | inr e ↦
      let parts = onto_first-nil c (drain (d ∷ s)) rest (rw e at h) in
      parts.1 ∙ ap (λ t. c ∷ t) (drain_rest (d ∷ s) (drain (d ∷ s)).1 parts.0)
]

drain-append_step :
    (c d : ℕ) (s t : Text) (r : List Text × Text)
    → is_break c d ≡ false
    → drain (d ∷ s) ≡ r
    → drain (d ∷ (s ++ t)) ≡ continue r t
    → onto_first c (drain (d ∷ (s ++ t))) ≡ continue (onto_first c r) t
unfolding drain
drain-append_step c d s t ([], x) e q ih =
    let same : x ≡ d ∷ s = drain_rest (d ∷ s) x q in rw (same, e)
drain-append_step c d s t (b ∷ bs, x) e q ih = rw ih

drain-append : (s t : Text) → drain (s ++ t) ≡ continue (drain s) t
unfolding drain
drain-append [] t = refl
drain-append (c ∷ []) t = refl
drain-append (c ∷ d ∷ s) t = elim (Bool-cases (is_break c d)) [
  | inl e ↦ rw e (rw (drain-append s t))
  | inr e ↦ rw e (drain-append_step c d s t (drain (d ∷ s)) e refl (drain-append (d ∷ s) t))
]

block_events-append :
    (json_loads : Text → Option Fields) (bs cs : List Text)
    → block_events json_loads (bs ++ cs) ≡ block_events json_loads bs ++ block_events json_loads cs
unfolding block_events
block_events-append json_loads [] cs = refl
block_events-append json_loads (b ∷ bs) cs = ground (arith, block_events-append json_loads bs cs)

parse_sse-split :
    (json_loads : Text → Option Fields) (buf s t : Text) (chunks : List Text)
    → parse_sse json_loads buf (s ∷ t ∷ chunks) ≡ parse_sse json_loads buf ((s ++ t) ∷ chunks)
unfolding parse_sse
parse_sse-split json_loads buf s t chunks =
    rw
      (
        ← append_assoc buf s t,
        drain-append (buf ++ s) t,
        block_events-append json_loads (drain (buf ++ s)).0 (drain ((drain (buf ++ s)).1 ++ t)).0,
      )
      (sym (append_assoc (block_events json_loads (drain (buf ++ s)).0) _ _))

abbrev pub concat : List Text → Text
concat [] = []
concat (s ∷ ss) = s ++ concat ss

-- The events that are read do not depend on where the network cuts the stream: any chunks give what
-- their concatenation gives as one chunk.
pub parse_sse-concat :
    (json_loads : Text → Option Fields) (buf s : Text) (chunks : List Text)
    → parse_sse json_loads buf (s ∷ chunks) ≡ parse_sse json_loads buf ((s ++ concat chunks) ∷ [])
parse_sse-concat json_loads buf s [] =
    ap (λ x. parse_sse json_loads buf (x ∷ [])) (sym (append-nil s))
parse_sse-concat json_loads buf s (t ∷ chunks) =
    parse_sse-split json_loads buf s t chunks
    ∙ parse_sse-concat json_loads buf (s ++ t) chunks
    ∙ ap (λ x. parse_sse json_loads buf (x ∷ [])) (append_assoc s t (concat chunks))
