-- ===== src/Master/Validation/Accepts.antt =====
-- What a content that unless_raised `validate_write_content` is known to be.
use vaultmcp.Prelude.{Bool, if◌then◌else◌}
use vaultmcp.Master.Errors.{validation_failed, bad_type}
use vaultmcp.Shared.Value.{other}
use vaultmcp.Master.Validation.{require_metadata, require_keys, missing_required}
use vaultmcp.Prelude.{
  ◌≢◌, ap, subst, ◌++◌, true, Option, some, none, codes, strip, nat_eq_iff, Option-cases, inl, inr,
}
use vaultmcp.Shared.Value.{
  Value, Items, DateTime, null, bool, int, text, date, datetime, list, dict, nil, cons, get,
}
use vaultmcp.Shared.Frontmatter.{known_page_types, is_page_type, extract_updated}
use vaultmcp.Master.Validation.{
  is_blank, check_title, check_type, all_named, check_owners, check_updated,
}
use vaultmcp.Prelude.{ℕ, ◌≤◌}
use vaultmcp.Prelude.{◌≡◌, refl}
use vaultmcp.Prelude.{false, List, [], ◌∷◌}
use vaultmcp.Prelude.{arith}
use vaultmcp.Prelude.{◌==◌, nat_Eq, list_Eq, option_Eq}
use vaultmcp.Prelude.{any, All}
use vaultmcp.Prelude.{Result, ok, err, ◌>>=◌, ◌>>◌}
use vaultmcp.Prelude.{Text}
use vaultmcp.Prelude.Regex.{Unicode, Regex, regex_search}
use vaultmcp.Shared.Value.{Fields}
use vaultmcp.Shared.Frontmatter.{FrontmatterError, Codec, parse}
use vaultmcp.Master.Errors.{ToolError}
use vaultmcp.Master.Validation.{
  encoded_size, check_size, check_encoding, has_bare_cr, check_frontmatter, parsed, check_metadata,
  or_invalid, validate_write_content,
}
use vaultmcp.Master.Validation.Secrets.{check_no_secrets, scan_secrets, secret_patterns}

abbrev pub CleanOf : Unicode → Text → Text × Regex → Type 0
CleanOf u content (name, pattern) = regex_search u pattern content ≡ false

abbrev pub IsSolid : Text → Type 0
IsSolid t = strip t ≢ []

abbrev pub HasTitle : Option Value → Type 0
HasTitle o = (t : Text) × (o ≡ some (text t)) × IsSolid t

abbrev pub HasType : Option Value → Type 0
HasType o = (t : Text) × (o ≡ some (text t)) × (any (λ k. k == t) known_page_types ≡ true)

-- Each owner is a text that is not blank.
abbrev pub AllSolid : Items → Type 0
AllSolid nil = Unit
AllSolid (cons v r) = ((t : Text) × (v ≡ text t) × IsSolid t) × AllSolid r

abbrev pub HasOwners : Option Value → Type 0
HasOwners o = (v : Value) × (r : Items) × (o ≡ some (list (cons v r))) × AllSolid (cons v r)

-- The four required keys.
abbrev pub IsDescription : Codec → Fields → Type 0
IsDescription codec m =
    HasTitle (get m (codes "title"))
    × HasType (get m (codes "type"))
    × HasOwners (get m (codes "owners"))
    × ((d : DateTime) × (extract_updated codec m ≡ some d))

module _ (u : Unicode) (codec : Codec) (content : Text) (max_bytes : ℕ) where
  pub record IsAcceptable : Type 0 where
    pub fits : encoded_size content ≤ max_bytes
    pub no_nul : All (λ c. c ≢ 0) content
    pub crlf : (a b : Text) → content ≡ a ++ 13 ∷ b → (r : Text) × (b ≡ 10 ∷ r)
    pub described :
        (metadata : Fields) × ((body : Text) × (parse codec content ≡ ok (metadata, body))
          × IsDescription codec metadata)
    pub no_secret : All (CleanOf u content) (secret_patterns u)

size_fits : (content : Text) (n : ℕ) → check_size content n ≡ ok tt → encoded_size content ≤ n
unfolding check_size
size_fits content n h = ground arith

nul_free : (s : Text) → any (λ c. c == 0) s ≡ false → All (λ c. c ≢ 0) s
nul_free [] h = tt
nul_free (c ∷ s) h =
    (λ e. absurd (ground (arith, h, e, nat_eq_iff c 0)), nul_free s (ground (arith, h)))

lf_behind : (a b : Text) → has_bare_cr (a ++ 13 ∷ b) ≡ false → (r : Text) × (b ≡ 10 ∷ r)
unfolding has_bare_cr
lf_behind [] [] h = cc
lf_behind [] (d ∷ b) h = (b, ap (λ (c : ℕ). c ∷ b) ((nat_eq_iff d 10).0 (ground (arith, h))))
lf_behind (x ∷ []) b h = lf_behind [] b (ground (arith, h))
lf_behind (x ∷ y ∷ a) b h = lf_behind (y ∷ a) b (ground (arith, h))

encoding_clean :
    (content : Text)
    → check_encoding content ≡ ok tt
    → (any (λ c. c == 0) content ≡ false) × (has_bare_cr content ≡ false)
unfolding check_encoding
encoding_clean content h = ground arith

not_blank : (t : Text) → is_blank t ≡ false → IsSolid t
not_blank t h = go (strip t) h
  where
    go : (s : Text) → (elim s [ [] ↦ true | c ∷ r ↦ false ]) ≡ false → s ≢ []
    go [] h e = cc
    go (c ∷ r) h e = cc

titled : (o : Option Value) → check_title o ≡ ok tt → HasTitle o
unfolding check_title
titled (some (text t)) h = (t, refl, not_blank t (ground (arith, h)))
titled none h = cc
titled (some null) h = cc
titled (some (bool b)) h = cc
titled (some (int n)) h = cc
titled (some (date d)) h = cc
titled (some (datetime d)) h = cc
titled (some (dict f)) h = cc
titled (some (other b)) h = cc
titled (some (list r)) h = cc

known_type : (t : Text) → is_page_type t ≡ true → any (λ k. k == t) known_page_types ≡ true
unfolding is_page_type
known_type t h = h

abbrev unless_raised : Bool → ToolError → Result ToolError (Unit {0})
unless_raised b e = if b then ok tt else err e

chosen : (b : Bool) (e : ToolError) → unless_raised b e ≡ ok tt → b ≡ true
chosen true e h = refl
chosen false e h = cc

typed : (o : Option Value) → check_type o ≡ ok tt → HasType o
unfolding check_type
typed (some (text t)) h = (
  t,
  refl,
  known_type t (chosen (is_page_type t) (validation_failed (bad_type (some (text t)))) h),
)
typed none h = cc
typed (some null) h = cc
typed (some (bool b)) h = cc
typed (some (int n)) h = cc
typed (some (date d)) h = cc
typed (some (datetime d)) h = cc
typed (some (dict f)) h = cc
typed (some (other b)) h = cc
typed (some (list r)) h = cc

solid_items : (r : Items) → all_named r ≡ true → AllSolid r
unfolding all_named
solid_items nil h = tt
solid_items (cons (text t) r) h =
    ((t, refl, not_blank t (ground (arith, h))), solid_items r (ground (arith, h)))
solid_items (cons null r) h = cc
solid_items (cons (bool b) r) h = cc
solid_items (cons (int n) r) h = cc
solid_items (cons (date d) r) h = cc
solid_items (cons (datetime d) r) h = cc
solid_items (cons (dict f) r) h = cc
solid_items (cons (other b) r) h = cc
solid_items (cons (list s) r) h = cc

owned_by : (o : Option Value) → check_owners o ≡ ok tt → HasOwners o
unfolding check_owners
owned_by (some (list (cons v r))) h = (v, r, refl, solid_items (cons v r) (ground (arith, h)))
owned_by (some (list nil)) h = cc
owned_by (some (text t)) h = cc
owned_by none h = cc
owned_by (some null) h = cc
owned_by (some (bool b)) h = cc
owned_by (some (int n)) h = cc
owned_by (some (date d)) h = cc
owned_by (some (datetime d)) h = cc
owned_by (some (dict f)) h = cc
owned_by (some (other b)) h = cc

dated :
    (codec : Codec) (m : Fields)
    → check_updated codec m ≡ ok tt
    → (d : DateTime) × (extract_updated codec m ≡ some d)
unfolding check_updated
dated codec m h = elim (Option-cases (extract_updated codec m)) [
  | inl q ↦ absurd (ground (arith, h, q))
  | inr k ↦ k
]

seq_ok : (r s : Result ToolError (Unit {0})) → (r >> s) ≡ ok tt → (r ≡ ok tt) × (s ≡ ok tt)
seq_ok (ok tt) s h = (refl, h)
seq_ok (err e) s h = cc

described_fully :
    (codec : Codec) (m : Fields) → check_metadata codec m ≡ ok tt → IsDescription codec m
unfolding check_metadata
described_fully codec m h =
    let given = seq_ok (require_metadata m) _ h in
    let keys = seq_ok (require_keys (missing_required m)) _ given.1 in
    let title = seq_ok (check_title (get m (codes "title"))) _ keys.1 in
    let kind = seq_ok (check_type (get m (codes "type"))) _ title.1 in
    let owners = seq_ok (check_owners (get m (codes "owners"))) _ kind.1 in
    (
      titled (get m (codes "title")) title.0,
      typed (get m (codes "type")) kind.0,
      owned_by (get m (codes "owners")) owners.0,
      dated codec m owners.1,
    )

or_invalid-ok :
    (r : Result FrontmatterError (Fields × Text)) (p : Fields × Text)
    → or_invalid r ≡ ok p
    → r ≡ ok p
or_invalid-ok (ok q) p h = cc
or_invalid-ok (err e) p h = cc

pub parsed-ok :
    (codec : Codec) (content : Text) (p : Fields × Text)
    → parsed codec content ≡ ok p
    → parse codec content ≡ ok p
unfolding parsed
parsed-ok codec content p h = or_invalid-ok (parse codec content) p h

scan_clean :
    (u : Unicode) (patterns : List (Text × Regex)) (content : Text)
    → scan_secrets u patterns content ≡ ok tt
    → All (CleanOf u content) patterns
unfolding scan_secrets
scan_clean u [] content h = tt
scan_clean u ((name, pattern) ∷ rest) content h =
    let clean : (regex_search u pattern content ≡ false) × (scan_secrets u rest content ≡ ok tt) =
      ground arith in
    (clean.0, scan_clean u rest content clean.1)

described_by :
    (codec : Codec) (content : Text) (metadata : Fields)
    → check_frontmatter codec content ≡ ok metadata
    → (body : Text) × (parse codec content ≡ ok (metadata, body))
      × (check_metadata codec metadata ≡ ok tt)
unfolding check_frontmatter
described_by codec content metadata h = go (parsed codec content) refl h
  where
    go :
        (r : Result ToolError (Fields × Text))
        → parsed codec content ≡ r
        → (r >>= λ (m, body). check_metadata codec m >> ok m) ≡ ok metadata
        → (body : Text) × (parse codec content ≡ ok (metadata, body))
          × (check_metadata codec metadata ≡ ok tt)
    go (err e) q k = cc
    go (ok (m, body)) q k =
        let both : (m ≡ metadata) × (check_metadata codec m ≡ ok tt) = ground arith in
        (body, rw (← both.0) (parsed-ok codec content (m, body) q), rw (← both.0) both.1)

no_secrets_clean :
    (u : Unicode) (content : Text)
    → check_no_secrets u content ≡ ok tt
    → All (CleanOf u content) (secret_patterns u)
unfolding check_no_secrets
no_secrets_clean u content h = scan_clean u (secret_patterns u) content h

-- A content that is accepted is no larger in UTF-8 than the limit, holds no NUL, and each CR in it stands
-- before an LF. It parses into front matter with a title that is not blank, a known page type, at least
-- one owner and no owner that is not a text or blank, and a date of the last update that can be read. It
-- matches none of the secret patterns.
pub validate_write_content-IsAcceptable :
    (u : Unicode) (codec : Codec) (content : Text) (max_bytes : ℕ)
    → validate_write_content u codec content max_bytes ≡ ok tt
    → IsAcceptable u codec content max_bytes
unfolding validate_write_content
validate_write_content-IsAcceptable u codec content max_bytes h =
    let steps : (check_size content max_bytes ≡ ok tt)
        × (check_encoding content ≡ ok tt)
        × ((metadata : Fields) × (check_frontmatter codec content ≡ ok metadata))
        × (check_no_secrets u content ≡ ok tt) =
      ground arith in
    let encoding = encoding_clean content steps.1 in
    let front = described_by codec content steps.2.0 steps.2.1 in
    record {
      fits = size_fits content max_bytes steps.0;
      no_nul = nul_free content encoding.0;
      crlf = λ a b e. lf_behind a b (subst (λ (s : Text). has_bare_cr s ≡ false) e encoding.1);
      described = (steps.2.0, (front.0, front.1, described_fully codec steps.2.0 front.2));
      no_secret = no_secrets_clean u content steps.3;
    }
