-- ===== src/Shared/EnvFile.antt =====
-- src/vaultmcp/shared/envfile.py. The environment is a list of variables; a file is its text, or
-- nothing if it cannot be read.
use vaultmcp.Prelude.{ℕ, suc}
use vaultmcp.Prelude.{◌≡◌, refl}
use vaultmcp.Prelude.{Bool, true, false, ◌&&◌, ◌||◌, Option, none, some, List, [], ◌∷◌, ◌++◌}
use vaultmcp.Prelude.{arith, if◌then◌else◌}
use vaultmcp.Prelude.{◌==◌, nat_Eq, list_Eq, option_Eq}
use vaultmcp.Prelude.{last?}
use vaultmcp.Prelude.{Text, strip, partition}
use vaultmcp.Prelude.{splitlines}

abbrev pub Environ : Type 0
Environ = List (Text × Text)

unfoldable pub environ_get : Text → Environ → Option Text
environ_get k [] = none
environ_get k ((j, v) ∷ r) = let rest = environ_get k r in if j == k then some v else rest

-- `os.environ.setdefault`
unfoldable pub setdefault : Text → Text → Environ → Environ
unfolding environ_get
setdefault k v env = elim (environ_get k env) [ some w ↦ env | none ↦ env ++ (k, v) ∷ [] ]

abbrev is_quote : ℕ → Bool
is_quote c = c == 39 || c == 34

abbrev drop_last : Text → Text
drop_last [] = []
drop_last (c ∷ []) = []
drop_last (c ∷ d ∷ s) = c ∷ drop_last (d ∷ s)

-- One matched pair of quotes around a value of at least two characters goes.
unfoldable pub strip_quotes : Text → Text
strip_quotes [] = []
strip_quotes (c ∷ []) = c ∷ []
strip_quotes (c ∷ d ∷ s) =
    if is_quote c && last? (d ∷ s) == some c then drop_last (d ∷ s) else c ∷ d ∷ s

abbrev named : Text → Text → Option (Text × Text)
named [] value = none
named (c ∷ key) value = some (c ∷ key, strip_quotes (strip value))

-- The assignment that a line makes.
unfoldable pub parse_line : Text → Option (Text × Text)
unfolding strip strip_quotes
parse_line raw_line = elim (strip raw_line) [
  | [] ↦ none
  | c ∷ s ↦ if c == b'#' then none else (elim (partition b'=' (c ∷ s)) [
    | none ↦ none
    | some (key, value) ↦ named (strip key) value
  ])
]

abbrev assign : Option (Text × Text) → Environ → Environ
assign none env = env
assign (some (k, v)) env = setdefault k v env

unfoldable pub load_lines : List Text → Environ → Environ
unfolding parse_line setdefault
load_lines [] env = env
load_lines (line ∷ lines) env = load_lines lines (assign (parse_line line) env)

unfoldable pub maybe_load_env_file : Option Text → Environ → Bool × Environ
unfolding load_lines splitlines
maybe_load_env_file none env = (false, env)
maybe_load_env_file (some content) env = (true, load_lines (splitlines content) env)

-- `autoload_agent_env` and `autoload_master_env`: the first file of the list that can be read. The
-- position stands for its path.
unfoldable pub autoload : List (Option Text) → Environ → Option ℕ × Environ
unfolding maybe_load_env_file
autoload [] env = (none, env)
autoload (none ∷ files) env =
    let (found, env') = autoload files env in
    (elim found [ none ↦ none | some i ↦ some (suc i) ], env')
autoload (some content ∷ files) env = (some 0, (maybe_load_env_file (some content) env).1)

environ_get-snoc :
    (k v j : Text) (env : Environ)
    → environ_get j (env ++ (k, v) ∷ [])
      ≡ (elim (environ_get j env) [ some w ↦ some w | none ↦ if k == j then some v else none ])
unfolding environ_get
environ_get-snoc k v j [] = refl
environ_get-snoc k v j ((i, w) ∷ env) = ground (arith, environ_get-snoc k v j env)

setdefault_keeps :
    (k v j w : Text) (env : Environ)
    → environ_get j env ≡ some w
    → environ_get j (setdefault k v env) ≡ some w
unfolding setdefault
setdefault_keeps k v j w env h = ground (arith, environ_get-snoc k v j env)

assign_keeps :
    (o : Option (Text × Text)) (j w : Text) (env : Environ)
    → environ_get j env ≡ some w
    → environ_get j (assign o env) ≡ some w
assign_keeps none j w env h = h
assign_keeps (some (k, v)) j w env h = setdefault_keeps k v j w env h

load_lines_keeps :
    (lines : List Text) (j w : Text) (env : Environ)
    → environ_get j env ≡ some w
    → environ_get j (load_lines lines env) ≡ some w
unfolding load_lines
load_lines_keeps [] j w env h = h
load_lines_keeps (line ∷ lines) j w env h =
    load_lines_keeps lines j w (assign (parse_line line) env)
      (assign_keeps (parse_line line) j w env h)

-- Loading an env file, whatever it holds, changes no variable that was set before.
pub maybe_load_env_file_keeps :
    (file : Option Text) (j w : Text) (env : Environ)
    → environ_get j env ≡ some w
    → environ_get j (maybe_load_env_file file env).1 ≡ some w
unfolding maybe_load_env_file
maybe_load_env_file_keeps none j w env h = h
maybe_load_env_file_keeps (some content) j w env h = load_lines_keeps (splitlines content) j w env h
