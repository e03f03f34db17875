-- ===== src/Master/Ownership.antt =====
-- src/vaultmcp/master/ownership.py, with `fnmatch.fnmatchcase` of the standard library.
pub mod Subtrees
use vaultmcp.Prelude.{ℕ, zero, suc}
use vaultmcp.Prelude.{Bool, true, false, not, ◌&&◌, ◌||◌, Option, none, some, List, [], ◌∷◌}
use vaultmcp.Prelude.{leb, if◌then◌else◌}
use vaultmcp.Prelude.{◌==◌, nat_Eq, list_Eq, option_Eq}
use vaultmcp.Prelude.{length, drop, find, any}
use vaultmcp.Prelude.{Result, ok, err, ◌>>=◌}
use vaultmcp.Prelude.{Text, codes, starts_with, strip}
use vaultmcp.Shared.Value.{Value, Fields, text, dict, end, field, truthy, get}
use vaultmcp.Shared.Frontmatter.{Codec}
use vaultmcp.Master.Errors.{
  ToolError, forbidden, human_only, not_producer, ownership_config, not_a_string, empty_producer,
  not_supported, unrecognised, bad_yaml, not_a_mapping, bad_section, bad_pattern,
}

pub record Rule : Type 0 where
  pub pattern : Text
  pub producer : Option Text
  pub is_human_only : Bool

-- `pattern.replace("**", "*")`
unfoldable pub collapse : Text → Text
collapse [] = []
collapse (c ∷ []) = c ∷ []
collapse (c ∷ d ∷ p) =
    let pair = collapse p in
    let single = collapse (d ∷ p) in if c == b'*' && d == b'*' then b'*' ∷ pair else c ∷ single

-- A member of a `[..]` class.
pub data Member : Type 0 where
  single : ℕ → Member
  range : ℕ → ℕ → Member

pub data Glob : Type 0 where
  star : Glob
  any_char : Glob
  exactly : ℕ → Glob
  class : Bool → List Member → Glob

-- What stands between the brackets; a `-` between two characters makes a range.
unfoldable pub members : Text → List Member
members [] = []
members (c ∷ []) = single c ∷ []
members (c ∷ d ∷ []) = single c ∷ members (d ∷ [])
members (c ∷ d ∷ e ∷ p) =
    let ranged = range c e ∷ members p in
    let plain = single c ∷ members (d ∷ e ∷ p) in if d == b'-' then ranged else plain

abbrev onto_class : ℕ → Option (Text × Text) → Option (Text × Text)
onto_class c none = none
onto_class c (some (inside, rest)) = some (c ∷ inside, rest)

-- The text before the closing bracket and the text after it. A bracket in the first place is a member.
unfoldable pub to_bracket : Bool → Text → Option (Text × Text)
to_bracket first [] = none
to_bracket first (c ∷ p) =
    let more = onto_class c (to_bracket false p) in
    if c == b']' && not first then some ([], p) else more

unfoldable pub to_class_end : Text → Option (Bool × Text × Text)
unfolding to_bracket
to_class_end [] = none
to_class_end (c ∷ p) =
    if c == b'!'
    then (elim (to_bracket true p) [ none ↦ none | some (i, r) ↦ some (true, i, r) ])
    else (elim (to_bracket true (c ∷ p)) [ none ↦ none | some (i, r) ↦ some (false, i, r) ])

-- The pattern as pieces, on fuel: each round takes at least one character.
unfoldable pub glob_pieces : ℕ → Text → List Glob
unfolding to_class_end members
glob_pieces zero p = []
glob_pieces (suc f) [] = []
glob_pieces (suc f) (c ∷ p) =
    let rest = glob_pieces f p in
    let bracket : List Glob = elim (to_class_end p) [
      | none ↦ exactly c ∷ glob_pieces f p
      | some (negated, inside, after) ↦ class negated (members inside) ∷ glob_pieces f after
    ] in
    if c == b'*'
    then star ∷ rest
    else if c == b'?'
    then any_char ∷ rest
    else if c == b'['
    then bracket
    else exactly c ∷ rest

abbrev pub is_member : ℕ → Member → Bool
is_member c (single d) = c == d
is_member c (range lo hi) = leb lo c && leb c hi

abbrev pub accepts : Glob → ℕ → Bool
accepts star c = true
accepts any_char c = true
accepts (exactly d) c = c == d
accepts (class true ms) c = not (any (is_member c) ms)
accepts (class false ms) c = any (is_member c) ms

unfoldable pub glob_run : List Glob → Text → Bool
glob_run [] [] = true
glob_run [] (c ∷ s) = false
glob_run (star ∷ g) [] = glob_run g []
glob_run (star ∷ g) (c ∷ s) = glob_run g (c ∷ s) || glob_run (star ∷ g) s
glob_run (p ∷ g) [] = false
glob_run (p ∷ g) (c ∷ s) = accepts p c && glob_run g s

unfoldable pub fnmatchcase : Text → Text → Bool
unfolding glob_pieces glob_run
fnmatchcase path pattern = glob_run (glob_pieces (suc (length pattern)) pattern) path

unfoldable pub glob_match : Text → Text → Bool
unfolding collapse fnmatchcase
glob_match pattern path = fnmatchcase path (collapse pattern)

unfoldable pub matching_rule : List Rule → Text → Option Rule
unfolding glob_match
matching_rule rules path = find (λ (r : Rule). glob_match r.pattern path) rules

abbrev pub check_producer : Rule → Text → Text → Option Text → Result ToolError (Unit {0})
check_producer r path app none = ok tt
check_producer r path app (some producer) =
    if producer == app then ok tt else err (forbidden (not_producer path producer r.pattern app))

abbrev pub check_rule : Option Rule → Text → Text → Result ToolError (Unit {0})
check_rule none path app = ok tt
check_rule (some r) path app =
    if r.is_human_only
    then err (forbidden (human_only path r.pattern))
    else check_producer r path app r.producer

unfoldable pub check_write : List Rule → Text → Text → Result ToolError (Unit {0})
unfolding matching_rule
check_write rules path app = check_rule (matching_rule rules path) path app

abbrev pub producer_mark : Text
producer_mark = codes "producer="

unfoldable pub parse_rule_text : Text → Text → Result ToolError Rule
parse_rule_text pattern t =
    if t == codes "write=human-only"
    then ok (record { pattern = pattern; producer = none; is_human_only = true })
    else if starts_with t producer_mark
    then (elim (strip (drop 9 t)) [
      | [] ↦ err (ownership_config (empty_producer pattern))
      | c ∷ s ↦ ok (record { pattern = pattern; producer = some (c ∷ s); is_human_only = false })
    ])
    else if starts_with t (codes "consumer=") || starts_with t (codes "policy=")
    then err (ownership_config (not_supported pattern t))
    else err (ownership_config (unrecognised pattern t))

unfoldable pub parse_rule : Value → Value → Result ToolError Rule
unfolding parse_rule_text strip
parse_rule (text pattern) (text expr) = parse_rule_text pattern (strip expr)
parse_rule (text pattern) v = err (ownership_config (not_a_string pattern))
parse_rule k v = err (ownership_config bad_pattern)

unfoldable pub parse_rules : Fields → Result ToolError (List Rule)
unfolding parse_rule
parse_rules end = ok []
parse_rules (field k v r) = do rule ← parse_rule k v; rules ← parse_rules r; ok (rule ∷ rules)

-- `raw.get("ownership", {}) or {}`, which must be a mapping.
unfoldable pub section_rules : Option Value → Result ToolError (List Rule)
unfolding parse_rules
section_rules none = ok []
section_rules (some (dict f)) = parse_rules f
section_rules (some v) = if truthy v then err (ownership_config bad_section) else ok []

-- What is at the path of the config file: nothing that can be read as a file, or a text.
unfoldable pub load_rules : Codec → Option Text → Result ToolError (List Rule)
unfolding section_rules
load_rules codec none = ok []
load_rules codec (some content) = elim (codec.safe_load content) [
  | none ↦ err (ownership_config bad_yaml)
  | some (dict f) ↦ section_rules (get f (codes "ownership"))
  | some v ↦ if truthy v then err (ownership_config not_a_mapping) else ok []
]
