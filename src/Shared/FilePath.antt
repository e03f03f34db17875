-- ===== src/Shared/FilePath.antt =====
-- The paths of `pathlib` as the program uses them: joining, `resolve` and `relative_to`. An absolute
-- path is the list of its parts. There are no symbolic links.
use vaultmcp.Prelude.{◌≡◌, refl}
use vaultmcp.Prelude.{Bool, true, false, ◌&&◌, ◌||◌, Option, none, some, List, [], ◌∷◌, ◌++◌}
use vaultmcp.Prelude.{arith, if◌then◌else◌}
use vaultmcp.Prelude.{◌==◌, nat_Eq, list_Eq, option_Eq, list_eq_iff}
use vaultmcp.Prelude.{Text, codes, starts_with, split}
use vaultmcp.Prelude.Texts.{universal_newlines}

abbrev pub Parts : Type 0
Parts = List Text

-- Parts that are empty or a dot are skipped, and `..` goes up, at the root nowhere.
abbrev pub up : Parts → Parts
up [] = []
up (p ∷ []) = []
up (p ∷ q ∷ ps) = p ∷ up (q ∷ ps)

unfoldable pub enter : Parts → List Text → Parts
enter base [] = base
enter base (p ∷ ps) =
    enter
      (if p == [] || p == codes "."
        then base
        else if p == codes ".."
        then up base
        else base ++ p ∷ [])
      ps

-- `(base / path).resolve()`: a path that begins with a slash replaces the base.
unfoldable pub resolve : Parts → Text → Parts
unfolding enter
resolve base path =
    if starts_with path (codes "/")
    then enter [] (split b'/' path)
    else enter base (split b'/' path)

-- `target.relative_to(base)`, which raises a `ValueError` unless the base is a prefix.
unfoldable pub is_relative_to : Parts → Parts → Bool
is_relative_to target [] = true
is_relative_to [] (b ∷ bs) = false
is_relative_to (t ∷ ts) (b ∷ bs) = t == b && is_relative_to ts bs

-- A tree of files: the contents under their resolved paths.
abbrev pub Disk : Type 0
Disk = List (Parts × Text)

abbrev pub file_at : Parts → Disk → Option Text
file_at p [] = none
file_at p ((q, t) ∷ d) = let rest = file_at p d in if q == p then some t else rest

unfoldable pub put_file : Parts → Text → Disk → Disk
put_file p t [] = (p, t) ∷ []
put_file p t ((q, s) ∷ d) =
    let rest = put_file p t d in if q == p then (p, t) ∷ d else (q, s) ∷ rest

unfoldable pub remove_file : Parts → Disk → Disk
remove_file p [] = []
remove_file p ((q, s) ∷ d) = let rest = remove_file p d in if q == p then rest else (q, s) ∷ rest

pub file_at-put_file :
    (p q : Parts) (t : Text) (d : Disk)
    → file_at q (put_file p t d) ≡ (if p == q then some t else file_at q d)
unfolding put_file
file_at-put_file p q t [] = refl
file_at-put_file p q t ((r, s) ∷ d) =
    ground (arith, file_at-put_file p q t d, list_eq_iff r p, list_eq_iff r q, list_eq_iff p q)

pub file_at-remove_file :
    (p q : Parts) (d : Disk) → file_at q (remove_file p d) ≡ (if p == q then none else file_at q d)
unfolding remove_file
file_at-remove_file p q [] = ground arith
file_at-remove_file p q ((r, s) ∷ d) =
    ground (arith, file_at-remove_file p q d, list_eq_iff r p, list_eq_iff r q, list_eq_iff p q)

-- `path.read_text()`
unfoldable pub read_text : Parts → Disk → Option Text
unfolding universal_newlines
read_text p d = elim (file_at p d) [ none ↦ none | some t ↦ some (universal_newlines t) ]

-- `target.with_suffix(target.suffix + ".tmp")`: the sibling whose name has `.tmp` behind it.
unfoldable pub temp_of : Parts → Parts
temp_of [] = []
temp_of (p ∷ []) = (p ++ codes ".tmp") ∷ []
temp_of (p ∷ q ∷ ps) = p ∷ temp_of (q ∷ ps)

-- The write of the temporary file and `os.replace(tmp, target)`: what stood under either name is gone.
unfoldable pub replace_file : Parts → Text → Disk → Disk
unfolding put_file remove_file temp_of
replace_file target t d = put_file target t (remove_file (temp_of target) d)

pub file_at-replace_file :
    (p q : Parts) (t : Text) (d : Disk)
    → file_at q (replace_file p t d)
      ≡ (if p == q then some t else if temp_of p == q then none else file_at q d)
unfolding replace_file
file_at-replace_file p q t d =
    ground (
      arith,
      file_at-put_file p q t (remove_file (temp_of p) d),
      file_at-remove_file (temp_of p) q d,
    )
