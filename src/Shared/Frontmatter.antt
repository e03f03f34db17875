-- ===== src/Shared/Frontmatter.antt =====
-- src/vaultmcp/shared/frontmatter.py. The YAML package and `datetime.fromisoformat` are the fields of
-- `Codec`: `safe_load` gives `none` for a `YAMLError`, `fromisoformat` for a `ValueError`.
use vaultmcp.Prelude.{ℕ, ◌-◌}
use vaultmcp.Prelude.{Bool, Option, none, some, List, [], ◌∷◌, ◌++◌}
use vaultmcp.Prelude.{reverse, leb, if◌then◌else◌}
use vaultmcp.Prelude.{◌==◌, nat_Eq, list_Eq, option_Eq}
use vaultmcp.Prelude.{length, take, last?, any}
use vaultmcp.Prelude.{Result, ok, err, ◌>>=◌}
use vaultmcp.Prelude.{Text, codes, strip, split, join}
use vaultmcp.Prelude.Ints.{print, print_int}
use vaultmcp.Shared.Value.{
  Value, Items, Fields, Date, DateTime, bool, int, text, date, datetime, list, dict, nil, cons, end,
  field, truthy, get,
}

pub record Codec : Type 0 where
  pub safe_load : Text → Option Value
  pub safe_dump : Fields → Text
  pub fromisoformat : Text → Option DateTime

pub data FrontmatterError : Type 0 where
  never_closed not_yaml not_mapping : FrontmatterError

abbrev pub newline : ℕ
newline = 10

abbrev pub dashes : Text
dashes = codes "---"

unfoldable pub is_delimiter : Text → Bool
unfolding strip
is_delimiter line = strip line == dashes

unfoldable pub strip_bom : Text → Text
strip_bom [] = []
strip_bom (c ∷ s) = if c == 0xfeff then s else c ∷ s

abbrev pub onto_block : Text → Option (List Text × List Text) → Option (List Text × List Text)
onto_block line none = none
onto_block line (some (block, rest)) = some (line ∷ block, rest)

-- The lines before the first delimiter, and those after it.
unfoldable pub find_close : List Text → Option (List Text × List Text)
unfolding is_delimiter
find_close [] = none
find_close (line ∷ lines) =
    let rest = onto_block line (find_close lines) in
    if is_delimiter line then some ([], lines) else rest

-- The body without one blank line in front.
unfoldable pub trim_newline : Text → Text
trim_newline [] = []
trim_newline (c ∷ s) = if c == newline then s else c ∷ s

abbrev pub midnight : Date → DateTime
midnight d = record { day = d; time = 0; zone = none }

unfoldable pub normalize : Fields → Fields
normalize end = end
normalize (field k (date d) r) = field k (datetime (midnight d)) (normalize r)
normalize (field k v r) = field k v (normalize r)

-- `safe_load(fm_text) or {}`, which must be a mapping.
unfoldable pub mapping : Option Value → Result FrontmatterError Fields
unfolding normalize
mapping none = err not_yaml
mapping (some (dict f)) = ok (normalize f)
mapping (some v) = if truthy v then err not_mapping else ok end

abbrev pub zero_pad : ℕ → Text → Text
zero_pad n s = if leb n (length s) then s else take (n - length s) (codes "0000") ++ s

-- `date.isoformat()`
unfoldable pub isoformat : Date → Text
unfolding print
isoformat d =
    zero_pad 4 (print d.year)
    ++ codes "-"
    ++ zero_pad 2 (print d.month)
    ++ codes "-"
    ++ zero_pad 2 (print d.day)

unfoldable pub denormalize : Fields → Fields
unfolding isoformat
denormalize end = end
denormalize (field k (datetime d) r) =
    let rest = denormalize r in
    if d.time == 0 then field k (text (isoformat d.day)) rest else field k (datetime d) rest
denormalize (field k v r) = field k v (denormalize r)

-- `s.rstrip("\n")`
unfoldable pub drop_newlines : Text → Text
drop_newlines [] = []
drop_newlines (c ∷ s) = let rest = drop_newlines s in if c == newline then rest else c ∷ s

unfoldable pub rstrip_newlines : Text → Text
unfolding drop_newlines
rstrip_newlines s = reverse (drop_newlines (reverse s))

-- `body if body.endswith("\n") else body + "\n"`
unfoldable pub ensure_newline : Text → Text
ensure_newline body = if last? body == some newline then body else body ++ newline ∷ []

module _ (codec : Codec) where
  open codec use {safe_load, safe_dump, fromisoformat}

  unfoldable pub parse_block : List Text → List Text → Result FrontmatterError (Fields × Text)
  unfolding mapping trim_newline
  parse_block block rest = do
    metadata ← mapping (safe_load (join newline block))
    ok (metadata, trim_newline (join newline rest))

  unfoldable pub parse_lines : Text → List Text → Result FrontmatterError (Fields × Text)
  unfolding is_delimiter find_close parse_block
  parse_lines content [] = ok (end, content)
  parse_lines content (first ∷ lines) =
      if is_delimiter first
      then (elim (find_close lines) [
        | none ↦ err never_closed
        | some (block, rest) ↦ parse_block block rest
      ])
      else ok (end, content)

  unfoldable pub parse : Text → Result FrontmatterError (Fields × Text)
  unfolding strip_bom parse_lines
  parse content = parse_lines (strip_bom content) (split newline (strip_bom content))

  unfoldable pub serialize : Fields → Text → Text
  unfolding denormalize rstrip_newlines ensure_newline
  serialize end body = ensure_newline body
  serialize (field k v r) body =
      dashes
      ++ newline ∷ rstrip_newlines (safe_dump (denormalize (field k v r)))
      ++ newline ∷ dashes
      ++ newline ∷ newline ∷ (elim body [ [] ↦ [] | c ∷ s ↦ ensure_newline (c ∷ s) ])

  unfoldable pub extract_updated : Fields → Option DateTime
  extract_updated metadata = elim (get metadata (codes "updated")) [
    | some (datetime d) ↦ some d
    | some (date d) ↦ some (midnight d)
    | some (text t) ↦ fromisoformat t
    | _ ↦ none
  ]

abbrev pub known_page_types : List Text
known_page_types =
    codes "app"
    ∷ codes "integration"
    ∷ codes "flow"
    ∷ codes "adr"
    ∷ codes "log"
    ∷ codes "index"
    ∷ codes "module"
    ∷ codes "debugging"
    ∷ codes "runbook"
    ∷ codes "shared"
    ∷ []

unfoldable pub is_page_type : Text → Bool
is_page_type t = any (λ k. k == t) known_page_types

unfoldable pub extract_type : Fields → Text
unfolding is_page_type
extract_type metadata = elim (get metadata (codes "type")) [
  | some (text t) ↦ if is_page_type t then t else codes "shared"
  | _ ↦ codes "shared"
]

-- `[str(x) for x in raw if isinstance(x, (str, int))]`; a `bool` is an `int`.
unfoldable pub owner_texts : Items → List Text
unfolding print_int
owner_texts nil = []
owner_texts (cons (text t) r) = t ∷ owner_texts r
owner_texts (cons (int n) r) = print_int n ∷ owner_texts r
owner_texts (cons (bool b) r) = (if b then codes "True" else codes "False") ∷ owner_texts r
owner_texts (cons v r) = owner_texts r

unfoldable pub extract_owners : Fields → List Text
unfolding owner_texts
extract_owners metadata = elim (get metadata (codes "owners")) [
  | some (list vs) ↦ owner_texts vs
  | some (text t) ↦ t ∷ []
  | _ ↦ []
]
