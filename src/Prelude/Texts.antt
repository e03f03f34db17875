-- ===== src/Prelude/Texts.antt =====
-- Texts as lists of code points, with the methods of Python's `str` that the program calls.
pub mod Stripping
pub mod Order
pub mod Newlines
use Prim.Native.Nat.{ℕ}
use Prim.Native.Char.{code}
use Prim.Native.String.{String}
use mathlib.Core.Bool.{Bool, true, false, ◌&&◌, ◌||◌}
use mathlib.Core.Option.{Option, none, some}
use mathlib.Core.List.{List, [], ◌∷◌, ◌++◌, reverse}
use vaultmcp.Prelude.Tests.{ltb, leb, ◌==◌, nat_Eq, list_Eq, if◌then◌else◌}

abbrev pub Text : Type 0
Text = List ℕ

-- The code points of a literal.
abbrev pub codes : String → Text
codes String.[] = []
codes (String.◌∷◌ c s) = code c ∷ codes s

abbrev pub starts_with : Text → Text → Bool
starts_with s [] = true
starts_with [] (p ∷ ps) = false
starts_with (c ∷ s) (p ∷ ps) = c == p && starts_with s ps

-- The white space of `str.strip` and `str.split`.
unfoldable pub is_space : ℕ → Bool
is_space c =
    (leb 0x09 c && leb c 0x0d)
    || (leb 0x1c c && leb c 0x20)
    || c == 0x85
    || c == 0xa0
    || c == 0x1680
    || (leb 0x2000 c && leb c 0x200a)
    || c == 0x2028
    || c == 0x2029
    || c == 0x202f
    || c == 0x205f
    || c == 0x3000

unfoldable pub lstrip : Text → Text
unfolding is_space
lstrip [] = []
lstrip (c ∷ s) = let rest = lstrip s in if is_space c then rest else c ∷ s

unfoldable pub rstrip : Text → Text
unfolding lstrip
rstrip s = reverse (lstrip (reverse s))

unfoldable pub strip : Text → Text
unfolding lstrip rstrip
strip s = rstrip (lstrip s)

-- `s.partition(sep)` at a separator of one character: what stands before the first one, and after.
abbrev pub in_front : ℕ → Option (Text × Text) → Option (Text × Text)
in_front c none = none
in_front c (some (a, b)) = some (c ∷ a, b)

abbrev pub partition : ℕ → Text → Option (Text × Text)
partition sep [] = none
partition sep (c ∷ s) =
    let rest = in_front c (partition sep s) in if c == sep then some ([], s) else rest

-- `s.split(sep)` at a separator of one character. There is always a first part.
abbrev pub split_with : ℕ → Text → Text → List Text
split_with sep part [] = part ∷ []
split_with sep part (c ∷ s) =
    let rest = split_with sep (part ++ c ∷ []) s in
    if c == sep then part ∷ split_with sep [] s else rest

abbrev pub split : ℕ → Text → List Text
split sep s = split_with sep [] s

-- `sep.join(parts)` at a separator of one character.
abbrev pub join : ℕ → List Text → Text
join sep [] = []
join sep (p ∷ []) = p
join sep (p ∷ q ∷ ps) = p ++ sep ∷ join sep (q ∷ ps)

-- `a <= b` on texts, by code points.
abbrev pub text_le : Text → Text → Bool
text_le [] b = true
text_le (x ∷ a) [] = false
text_le (x ∷ a) (y ∷ b) = ltb x y || (x == y && text_le a b)

-- The line ends of `str.splitlines`.
unfoldable pub is_line_end : ℕ → Bool
is_line_end c =
    (leb 0x0a c && leb c 0x0d)
    || (leb 0x1c c && leb c 0x1e)
    || c == 0x85
    || c == 0x2028
    || c == 0x2029

-- The lines, the current one so far as an argument. CR LF is one end, and an end at the very end of
-- the text opens no new line.
unfoldable pub lines_with : Text → Text → List Text
unfolding is_line_end
lines_with [] [] = []
lines_with (p ∷ part) [] = (p ∷ part) ∷ []
lines_with part (c ∷ []) = if is_line_end c then part ∷ [] else (part ++ c ∷ []) ∷ []
lines_with part (c ∷ d ∷ s) =
    let after_pair = part ∷ lines_with [] s in
    let after_one = part ∷ lines_with [] (d ∷ s) in
    let more = lines_with (part ++ c ∷ []) (d ∷ s) in
    if c == 0x0d && d == 0x0a then after_pair else if is_line_end c then after_one else more

unfoldable pub splitlines : Text → List Text
unfolding lines_with
splitlines s = lines_with [] s

-- Universal newlines, as `read_text` reads a file: CR LF and a single CR become LF.
unfoldable pub universal_newlines : Text → Text
universal_newlines [] = []
universal_newlines (c ∷ []) = (if c == 0x0d then 0x0a else c) ∷ []
universal_newlines (c ∷ d ∷ s) =
    let pair = 0x0a ∷ universal_newlines s in
    let one = 0x0a ∷ universal_newlines (d ∷ s) in
    let more = c ∷ universal_newlines (d ∷ s) in
    if c == 0x0d && d == 0x0a then pair else if c == 0x0d then one else more
