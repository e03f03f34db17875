-- ===== src/Master/Validation.antt =====
-- src/vaultmcp/master/validation.py.
pub mod Accepts
pub mod Secrets
use vaultmcp.Prelude.{ℕ, ◌+◌, ◌*◌}
use vaultmcp.Prelude.{Bool, true, false, not, ◌&&◌, ◌||◌, Option, none, some, List, [], ◌∷◌}
use vaultmcp.Prelude.{ltb, leb, if◌then◌else◌}
use vaultmcp.Prelude.{◌==◌, nat_Eq, list_Eq, option_Eq}
use vaultmcp.Prelude.{select, any}
use vaultmcp.Prelude.{Result, ok, err, ◌>>=◌, ◌>>◌}
use vaultmcp.Prelude.{Text, codes, is_space, strip}
use vaultmcp.Prelude.Regex.{
  Unicode, Regex, boundary, run, seq, alt, empty, lit, one, one_of, is_upper, is_lower, is_digit,
  is_ident, regex_search,
}
use vaultmcp.Shared.Value.{Value, Items, Fields, text, list, nil, cons, end, field, get}
use vaultmcp.Shared.Frontmatter.{FrontmatterError, Codec, parse, extract_updated, is_page_type}
use vaultmcp.Master.Errors.{
  ToolError, validation_failed, size_limit_exceeded, nul_byte, bare_cr, no_frontmatter, bad_title,
  bad_owners, bad_owner_entry, bad_updated, bad_frontmatter, missing_keys, bad_type, secret,
}
use vaultmcp.Master.Validation.Secrets.{check_no_secrets}

abbrev pub default_max_file_size_bytes : ℕ
default_max_file_size_bytes = 1 * 1024 * 1024

abbrev pub required_frontmatter_keys : List Text
required_frontmatter_keys = codes "title" ∷ codes "type" ∷ codes "owners" ∷ codes "updated" ∷ []

-- The bytes of a character in UTF-8. A lone surrogate cannot be encoded and is ignored.
abbrev pub utf8_size : ℕ → ℕ
utf8_size c =
    if ltb c 0x80
    then 1
    else if ltb c 0x800
    then 2
    else if leb 0xd800 c && leb c 0xdfff
    then 0
    else if ltb c 0x10000
    then 3
    else 4

unfoldable pub encoded_size : Text → ℕ
encoded_size [] = 0
encoded_size (c ∷ s) = utf8_size c + encoded_size s

unfoldable pub check_size : Text → ℕ → Result ToolError (Unit {0})
unfolding encoded_size
check_size content limit =
    let size = encoded_size content in
    if ltb limit size then err (size_limit_exceeded size limit) else ok tt

-- The loop over the characters: a CR must be followed by an LF.
unfoldable pub has_bare_cr : Text → Bool
has_bare_cr [] = false
has_bare_cr (c ∷ []) = c == 13
has_bare_cr (c ∷ d ∷ s) = (c == 13 && not (d == 10)) || has_bare_cr (d ∷ s)

unfoldable pub check_encoding : Text → Result ToolError (Unit {0})
unfolding has_bare_cr
check_encoding content =
    if any (λ c. c == 0) content
    then err (validation_failed nul_byte)
    else if has_bare_cr content
    then err (validation_failed bare_cr)
    else ok tt

abbrev pub is_given : Option Value → Bool
is_given none = false
is_given (some v) = true

unfoldable pub missing_required : Fields → List Text
missing_required metadata = select (λ k. not (is_given (get metadata k))) required_frontmatter_keys

abbrev pub is_blank : Text → Bool
is_blank t = elim (strip t) [ [] ↦ true | c ∷ s ↦ false ]

unfoldable pub check_title : Option Value → Result ToolError (Unit {0})
unfolding strip
check_title (some (text t)) = if is_blank t then err (validation_failed bad_title) else ok tt
check_title v = err (validation_failed bad_title)

unfoldable pub check_type : Option Value → Result ToolError (Unit {0})
unfolding is_page_type
check_type (some (text t)) =
    if is_page_type t then ok tt else err (validation_failed (bad_type (some (text t))))
check_type v = err (validation_failed (bad_type v))

unfoldable pub all_named : Items → Bool
unfolding strip
all_named nil = true
all_named (cons (text t) r) = not (is_blank t) && all_named r
all_named (cons v r) = false

unfoldable pub check_owners : Option Value → Result ToolError (Unit {0})
unfolding all_named
check_owners (some (list (cons v r))) =
    if all_named (cons v r) then ok tt else err (validation_failed bad_owner_entry)
check_owners v = err (validation_failed bad_owners)

abbrev pub require_keys : List Text → Result ToolError (Unit {0})
require_keys [] = ok tt
require_keys (k ∷ ks) = err (validation_failed (missing_keys (k ∷ ks)))

abbrev pub require_metadata : Fields → Result ToolError (Unit {0})
require_metadata end = err (validation_failed no_frontmatter)
require_metadata (field k v r) = ok tt

-- `except FrontmatterError as exc: raise ValidationFailed(..)`
abbrev pub or_invalid : Result FrontmatterError (Fields × Text) → Result ToolError (Fields × Text)
or_invalid (ok p) = ok p
or_invalid (err e) = err (validation_failed (bad_frontmatter e))

module _ (codec : Codec) where
  unfoldable pub parsed : Text → Result ToolError (Fields × Text)
  unfolding parse
  parsed content = or_invalid (parse codec content)

  unfoldable pub check_updated : Fields → Result ToolError (Unit {0})
  unfolding extract_updated
  check_updated metadata = elim (extract_updated codec metadata) [
    | none ↦ err (validation_failed bad_updated)
    | some d ↦ ok tt
  ]

  unfoldable pub check_metadata : Fields → Result ToolError (Unit {0})
  unfolding missing_required check_title check_type check_owners check_updated
  check_metadata metadata = do
    require_metadata metadata
    require_keys (missing_required metadata)
    check_title (get metadata (codes "title"))
    check_type (get metadata (codes "type"))
    check_owners (get metadata (codes "owners"))
    check_updated metadata

  unfoldable pub check_frontmatter : Text → Result ToolError Fields
  check_frontmatter content = do
    (metadata, body) ← parsed content
    check_metadata metadata
    ok metadata

module _ (u : Unicode) where
  unfoldable pub validate_write_content : Codec → Text → ℕ → Result ToolError (Unit {0})
  validate_write_content codec content max_bytes = do
    check_size content max_bytes
    check_encoding content
    metadata ← check_frontmatter codec content
    check_no_secrets u content
