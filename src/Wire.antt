-- ===== src/Wire.antt =====
-- The event stream from src/vaultmcp/master/sse.py to src/vaultmcp/agent/client.py: what `format_sse`
-- writes and `_parse_sse` reads.
pub mod Lines
use vaultmcp.Prelude.{ℕ}
use vaultmcp.Prelude.{◌≡◌, refl, sym, ap, ◌∙◌, inl, inr}
use vaultmcp.Prelude.{Bool, true, false, not, Option, none, some, List, [], ◌∷◌, ◌++◌}
use vaultmcp.Prelude.{arith, Bool-cases}
use vaultmcp.Prelude.{◌==◌, nat_Eq, list_Eq, option_Eq, nat_eq_iff}
use vaultmcp.Prelude.{all, All}
use vaultmcp.Prelude.{Text, codes, is_space, lstrip, strip}
use mathlib.Core.List.{append_assoc, append-nil}
use vaultmcp.Prelude.{splitlines}
use vaultmcp.Prelude.Texts.{is_line_end, lines_with}
use vaultmcp.Shared.Value.{Value, Fields, get}
use vaultmcp.Master.Sse.{event_name, format_sse}
use vaultmcp.Agent.Client.{
  drain, onto_first, block_fields, with_event_type, block_event, block_events, parse_sse,
}
use vaultmcp.Agent.Client.Stream.{concat, parse_sse-concat}
use vaultmcp.Wire.Lines.{is_line, lines_first, lines_last, opened, drain_line}

abbrev data_alone : Option Text → Text → Option Text × List Text
data_alone name d = (name, d ∷ [])

strip_after_space : (s : Text) → strip (b' ' ∷ s) ≡ strip s
unfolding strip lstrip is_space
strip_after_space s = refl

module _ (dumps : Fields → Text) (str : Value → Text) (loads : Text → Option Fields) where
  -- An event with a type on one line, whose JSON is on one line, has no space around it, and reads back.
  abbrev pub IsSendable : Fields → Type 0
  IsSendable p =
      (v : Value) × (get p (codes "event_type") ≡ some v)
      × (is_line (event_name str (some v)) ≡ true)
      × (is_line (dumps p) ≡ true)
      × (strip (dumps p) ≡ dumps p)
      × (loads (dumps p) ≡ some p)

  -- The stream of several events.
  abbrev pub sent : List Fields → Text
  sent [] = []
  sent (p ∷ ps) = format_sse dumps str p ++ sent ps

  abbrev type_line : Value → Text
  type_line v = codes "event: " ++ event_name str (some v)

  abbrev data_line : Fields → Text
  data_line p = codes "data: " ++ dumps p

  abbrev block_of : Value → Fields → Text
  block_of v p = type_line v ++ 10 ∷ data_line p

  type_line-is_line :
      (v : Value) → is_line (event_name str (some v)) ≡ true → is_line (type_line v) ≡ true
  unfolding is_line_end
  type_line-is_line v h = h

  data_line-is_line : (p : Fields) → is_line (dumps p) ≡ true → is_line (data_line p) ≡ true
  unfolding is_line_end
  data_line-is_line p h = h

  drain-frame :
      (v : Value) (p : Fields) (t : Text) (bs : List Text) (rest : Text)
      → is_line (event_name str (some v)) ≡ true
      → is_line (dumps p) ≡ true
      → drain t ≡ (bs, rest)
      → drain (type_line v ++ 10 ∷ (data_line p ++ 10 ∷ 10 ∷ t)) ≡ (block_of v p ∷ bs, rest)
  unfolding drain
  drain-frame v p t bs rest h k q =
      drain_line (type_line v) (10 ∷ (data_line p ++ 10 ∷ 10 ∷ t)) (10 ∷ data_line p) bs rest
        (type_line-is_line v h)
        (ap (onto_first 10) (
          drain_line (data_line p) (10 ∷ 10 ∷ t) [] bs rest (data_line-is_line p k)
            (ap (λ (r : List Text × Text). opened [] r.0 r.1) q)
          ∙ ap (λ (b : Text). opened b bs rest) (append-nil (data_line p))))

  splitlines-block :
      (v : Value) (p : Fields)
      → is_line (event_name str (some v)) ≡ true
      → is_line (dumps p) ≡ true
      → splitlines (block_of v p) ≡ type_line v ∷ data_line p ∷ []
  unfolding splitlines
  splitlines-block v p h k =
      lines_first [] (type_line v) b'd' (codes "ata: " ++ dumps p) (type_line-is_line v h)
      ∙ ap (λ x. type_line v ∷ x)
          (lines_last [] b'd' (codes "ata: " ++ dumps p) (data_line-is_line p k))

  block_fields-frame :
      (v : Value) (p : Fields)
      → strip (dumps p) ≡ dumps p
      → block_fields (type_line v ∷ data_line p ∷ []) none []
        ≡ (some (strip (b' ' ∷ event_name str (some v))), dumps p ∷ [])
  unfolding block_fields
  block_fields-frame v p h =
      ap (λ (d : Text). data_alone (some (strip (b' ' ∷ event_name str (some v)))) d)
        (strip_after_space (dumps p) ∙ h)

  with_type_kept :
      (name : Option Text) (p : Fields) (v : Value)
      → get p (codes "event_type") ≡ some v
      → with_event_type name p ≡ p
  with_type_kept none p v h = refl
  with_type_kept (some []) p v h = refl
  with_type_kept (some (c ∷ s)) p v h = rw h refl

  block_events_step :
      (b : Text) (bs : List Text) (e : Fields)
      → block_event loads (block_fields (splitlines b) none []) ≡ some e
      → block_events loads (b ∷ bs) ≡ e ∷ block_events loads bs
  unfolding block_events
  block_events_step b bs e q = rw (q, block_events) refl

  block_event_read :
      (name : Option Text) (p : Fields) (v : Value)
      → get p (codes "event_type") ≡ some v
      → loads (dumps p) ≡ some p
      → block_event loads (name, dumps p ∷ []) ≡ some p
  block_event_read name p v has_type read =
      rw (read, block_event) (ap some (with_type_kept name p v has_type))

  -- What the blocks of the stream are read as.
  block_events-frame :
      (v : Value) (p : Fields) (bs : List Text)
      → get p (codes "event_type") ≡ some v
      → is_line (event_name str (some v)) ≡ true
      → is_line (dumps p) ≡ true
      → strip (dumps p) ≡ dumps p
      → loads (dumps p) ≡ some p
      → block_events loads (block_of v p ∷ bs) ≡ p ∷ block_events loads bs
  block_events-frame v p bs has_type h k solid read =
      let name = some (strip (b' ' ∷ event_name str (some v))) in
      block_events_step (block_of v p) bs p (
        ap (λ (ls : List Text). block_event loads (block_fields ls none []))
          (splitlines-block v p h k)
        ∙ ap (block_event loads) (block_fields-frame v p solid)
        ∙ block_event_read name p v has_type read)

  abbrev Reads : List Fields → Text → Type 0
  Reads ps s = (block_events loads (drain s).0 ≡ ps) × ((drain s).1 ≡ [])

  sent_step :
      (v : Value) (p : Fields) (ps : List Fields)
      → get p (codes "event_type") ≡ some v
      → sent (p ∷ ps) ≡ type_line v ++ 10 ∷ (data_line p ++ 10 ∷ 10 ∷ sent ps)
  unfolding format_sse
  sent_step v p ps has_type = rw has_type (
      append_assoc (type_line v) (10 ∷ (data_line p ++ 10 ∷ 10 ∷ [])) (sent ps)
      ∙ ap (λ (t : Text). type_line v ++ 10 ∷ t)
          (append_assoc (data_line p) (10 ∷ 10 ∷ []) (sent ps)))

  frame-Reads :
      (p : Fields) (ps : List Fields)
      → IsSendable p
      → Reads ps (sent ps)
      → Reads (p ∷ ps) (sent (p ∷ ps))
  frame-Reads p ps (v, has_type, h, k, solid, read) (ih, done) =
      let drained =
        ap drain (sent_step v p ps has_type)
        ∙ drain-frame v p (sent ps) (drain (sent ps)).0 (drain (sent ps)).1 h k refl in
      (
        ap (λ (r : List Text × Text). block_events loads r.0) drained
            ∙ block_events-frame v p (drain (sent ps)).0 has_type h k solid read
            ∙ ap (λ (es : List Fields). p ∷ es) ih,
        ap (λ (r : List Text × Text). r.1) drained ∙ done,
      )

  sent-Reads : (ps : List Fields) → All IsSendable ps → Reads ps (sent ps)
  unfolding drain block_events
  sent-Reads [] h = (refl, refl)
  sent-Reads (p ∷ ps) (h, hs) = frame-Reads p ps h (sent-Reads ps hs)

-- Events whose type is on one line, and whose JSON is on one line, has no space around it and reads
-- back, arrive on the other side as they were sent, in order and nothing besides, however the network
-- cuts the stream.
pub parse_sse-sent :
    (dumps : Fields → Text) (str : Value → Text) (loads : Text → Option Fields) (ps : List Fields)
    (s : Text) (chunks : List Text)
    → All (IsSendable dumps str loads) ps
    → s ++ concat chunks ≡ sent dumps str loads ps
    → parse_sse loads [] (s ∷ chunks) ≡ ps
unfolding parse_sse
parse_sse-sent dumps str loads ps s chunks h whole =
    parse_sse-concat loads [] s chunks
    ∙ append-nil (block_events loads (drain (s ++ concat chunks)).0)
    ∙ ap (λ (t : Text). block_events loads (drain t).0) whole
    ∙ (sent-Reads dumps str loads ps h).0
