-- ===== src/Master/Db/Like.antt =====
-- The `LIKE` of the queries in src/vaultmcp/master/db.py: `%` is any text, `_` any one character,
-- and a backslash takes the next character as it is.
pub mod Prefix
use vaultmcp.Prelude.{ℕ}
use vaultmcp.Prelude.{Bool, true, false, ◌&&◌, ◌||◌, List, [], ◌∷◌, ◌++◌}
use vaultmcp.Prelude.{if◌then◌else◌}
use vaultmcp.Prelude.{◌==◌, nat_Eq, list_Eq, option_Eq}
use vaultmcp.Prelude.{Text}

-- One step of a pattern.
pub data Piece : Type 0 where
  star : Piece
  one : Piece
  exactly : ℕ → Piece

unfoldable pub like_pieces : Text → List Piece
like_pieces [] = []
like_pieces (c ∷ []) =
    if c == b'%' then star ∷ [] else if c == b'_' then one ∷ [] else exactly c ∷ []
like_pieces (c ∷ d ∷ p) =
    let rest = like_pieces (d ∷ p) in
    let escaped = like_pieces p in
    if c == b'%'
    then star ∷ rest
    else if c == b'_'
    then one ∷ rest
    else if c == 92
    then exactly d ∷ escaped
    else exactly c ∷ rest

unfoldable pub matches : List Piece → Text → Bool
matches [] [] = true
matches [] (c ∷ s) = false
matches (star ∷ p) [] = matches p []
matches (star ∷ p) (c ∷ s) = matches p (c ∷ s) || matches (star ∷ p) s
matches (one ∷ p) [] = false
matches (one ∷ p) (c ∷ s) = matches p s
matches (exactly d ∷ p) [] = false
matches (exactly d ∷ p) (c ∷ s) = c == d && matches p s

unfoldable pub like : Text → Text → Bool
unfolding like_pieces matches
like path pattern = matches (like_pieces pattern) path

-- `path LIKE prefix || '%'`
unfoldable pub like_prefix : Text → Text → Bool
unfolding like
like_prefix path prefix = like path (prefix ++ b'%' ∷ [])
