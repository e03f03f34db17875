-- ===== src/Master/Validation/Secrets.antt =====
-- `_SECRET_PATTERNS` and `_check_no_secrets` of src/vaultmcp/master/validation.py.
use vaultmcp.Prelude.{ℕ}
use vaultmcp.Prelude.{Bool, not, ◌&&◌, ◌||◌, none, some, List, [], ◌∷◌}
use vaultmcp.Prelude.{leb, if◌then◌else◌}
use vaultmcp.Prelude.{◌==◌, nat_Eq, list_Eq, option_Eq}
use vaultmcp.Prelude.{Result, ok, err}
use vaultmcp.Prelude.{Text, codes, is_space}
use vaultmcp.Prelude.Regex.{
  Unicode, Regex, boundary, run, seq, alt, empty, lit, one, one_of, is_upper, is_lower, is_digit,
  is_ident, regex_search,
}
use vaultmcp.Master.Errors.{ToolError, validation_failed, secret}

-- `[^\s/:@]`
abbrev pub is_uri_part : ℕ → Bool
is_uri_part c = not (is_space c) && not (one_of (codes "/:@") c)

abbrev pub is_base64_part : ℕ → Bool
is_base64_part c = one_of (codes "./") c || is_upper c || is_lower c || is_digit c

abbrev pub sequence : List Regex → Regex
sequence [] = empty
sequence (r ∷ []) = r
sequence (r ∷ q ∷ rs) = seq r (sequence (q ∷ rs))

abbrev some_of : (ℕ → Bool) → Regex
some_of p = run p 1 none

-- `_SECRET_PATTERNS`
module _ (u : Unicode) where
  abbrev pub is_digit_of : ℕ → Bool
  is_digit_of c = is_digit c || (leb 128 c && u.digit c)

  unfoldable pub secret_patterns : List (Text × Regex)
  unfolding lit is_space
  secret_patterns =
      (
        codes "aws-access-key-id",
        sequence (
            boundary
            ∷ lit (codes "AKIA")
            ∷ run (λ c. is_digit c || is_upper c) 16 (some 16)
            ∷ boundary
            ∷ []),
      )
      ∷ (
        codes "github-personal-access-token",
        sequence (
            boundary
            ∷ lit (codes "gh")
            ∷ one (one_of (codes "pousr"))
            ∷ lit (codes "_")
            ∷ run is_ident 36 (some 255)
            ∷ boundary
            ∷ []),
      )
      ∷ (
        codes "github-fine-grained-pat",
        sequence (boundary ∷ lit (codes "github_pat_") ∷ run is_ident 20 none ∷ boundary ∷ []),
      )
      ∷ (
        codes "slack-bot-or-user-token",
        sequence (
            boundary
            ∷ lit (codes "xox")
            ∷ one (one_of (codes "abprs"))
            ∷ lit (codes "-")
            ∷ run (λ c. is_upper c || is_lower c || is_digit c || c == b'-') 10 none
            ∷ boundary
            ∷ []),
      )
      ∷ (
        codes "bcrypt-hash",
        sequence (
            lit (codes "$2")
            ∷ run (one_of (codes "aby")) 0 (some 1)
            ∷ lit (codes "$")
            ∷ run is_digit_of 2 (some 2)
            ∷ lit (codes "$")
            ∷ run is_base64_part 53 (some 53)
            ∷ []),
      )
      ∷ (
        codes "postgres-uri-with-password",
        sequence (
            boundary
            ∷ lit (codes "postgres")
            ∷ alt (lit (codes "ql")) empty
            ∷ lit (codes "://")
            ∷ some_of is_uri_part
            ∷ lit (codes ":")
            ∷ some_of is_uri_part
            ∷ lit (codes "@")
            ∷ some_of (λ c. not (is_space c) && not (c == b'/'))
            ∷ []),
      )
      ∷ (
        codes "mysql-uri-with-password",
        sequence (
            boundary
            ∷ lit (codes "mysql://")
            ∷ some_of is_uri_part
            ∷ lit (codes ":")
            ∷ some_of is_uri_part
            ∷ lit (codes "@")
            ∷ some_of (λ c. not (is_space c) && not (c == b'/'))
            ∷ []),
      )
      ∷ (
        codes "private-key-pem",
        sequence (
            lit (codes "-----BEGIN ")
            ∷ alt (lit (codes "RSA ")) (
                alt (lit (codes "EC ")) (
                  alt (lit (codes "OPENSSH "))
                    (alt (lit (codes "DSA ")) (alt (lit (codes "ENCRYPTED ")) empty))))
            ∷ lit (codes "PRIVATE KEY-----")
            ∷ []),
      )
      ∷ []

  unfoldable pub scan_secrets : List (Text × Regex) → Text → Result ToolError (Unit {0})
  unfolding regex_search
  scan_secrets [] content = ok tt
  scan_secrets ((name, pattern) ∷ rest) content =
      let more = scan_secrets rest content in
      if regex_search u pattern content then err (validation_failed (secret name)) else more

  unfoldable pub check_no_secrets : Text → Result ToolError (Unit {0})
  unfolding scan_secrets
  check_no_secrets content = scan_secrets secret_patterns content
