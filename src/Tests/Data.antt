-- ===== src/Tests/Data.antt =====
-- The inputs that the examples share: a page, its front matter, and a table with one page and one server.
use vaultmcp.Prelude.{ℕ, true, false, Option, none, some, [], ◌∷◌, ◌++◌, Text, codes}
use vaultmcp.Prelude.Regex.{Unicode}
use vaultmcp.Shared.Value.{Fields, Date, text, date, list, cons, nil, dict, field, end}
use vaultmcp.Shared.Frontmatter.{Codec}
use vaultmcp.Master.Db.Rows.{Db, fresh}
use vaultmcp.Master.Db.Pages.{PageWrite, write_page}
use vaultmcp.Master.Db.Servers.{add_server}
use vaultmcp.Prelude.{◌-◌, ◌+◌, leb}
use vaultmcp.Master.Fusion.{Floats}
use vaultmcp.Master.Server.{Backend}
use vaultmcp.Master.Tools.{Env, World, Settings, Session, WriteInput}

-- No character above 127 is a letter or a digit here.
abbrev pub ascii : Unicode
ascii = record { word = λ c. false; digit = λ c. false }

abbrev pub day : Date
day = record { year = 2026; month = 5; day = 10 }

abbrev pub home_metadata : Fields
home_metadata = field (text (codes "title")) (text (codes "Home")) (
    field (text (codes "type")) (text (codes "index")) (
      field (text (codes "owners")) (list (cons (text (codes "ops")) nil))
        (field (text (codes "updated")) (date day) end)))

-- A reader of YAML that finds the same mapping in every block.
abbrev pub home_codec : Codec
home_codec = record {
  safe_load = λ t. some (dict home_metadata);
  safe_dump = λ f. [];
  fromisoformat = λ t. none;
}

abbrev pub nl : Text
nl = 10 ∷ []

abbrev pub home_content : Text
home_content = codes "---" ++ nl ++ codes "title: Home" ++ nl ++ codes "---" ++ nl ++ codes "Hi"

abbrev pub home_write : Option ℕ → Text → PageWrite
home_write base content = record {
  path = codes "a.md";
  content = content;
  base_version = base;
  metadata = home_metadata;
  page_type = codes "index";
  owners = codes "ops" ∷ [];
  updated = 3;
  last_writer_server = codes "s1";
  last_writer_app = codes "app";
  last_writer_session = codes "x";
  agent_model = none;
  prompt_hash = none;
  client_ip = none;
}

abbrev pub one_page : Db
one_page = (write_page 5 (home_write none (codes "one")) fresh).1

abbrev pub one_server : Db
one_server = (add_server 1 (codes "s1") (codes "app" ∷ []) (codes "tok") fresh).1

abbrev pub test_env : Env
test_env = record {
  codec = home_codec;
  unicode = ascii;
  timestamp = λ d. 7;
  now = 9;
  disk_works = true;
  storable = λ f. true;
}

abbrev pub test_settings : Settings
test_settings = record { wiki_dir = codes "wiki" ∷ []; max_bytes = 1000; ownership = none }

abbrev pub test_session : Session
test_session = record {
  server_id = codes "s1";
  app = codes "app";
  agent_model = codes "m";
  prompt_hash = none;
  session_id = codes "x";
}

abbrev pub home_input : WriteInput
home_input = record {
  path = codes "a.md";
  content = home_content;
  base_version = none;
  session = test_session;
}

abbrev pub test_world : World
test_world = record { db = one_server; disk = [] }

-- A search that finds nothing, roles that may do all, and SQL that gives nothing. The floats are whole
-- numbers, with a reciprocal that falls.
abbrev pub rough : Floats
rough = record { Float = ℕ; one_over = λ n. 100 - n; plus = λ a b. a + b; at_most = λ a b. leb a b }

abbrev pub test_backend : Backend
test_backend = record {
  engine = record {
    floats = rough;
    Vector = Unit;
    search_pages = λ db query prefix page_type limit. [];
    search_pages_semantic = λ db v prefix page_type limit. [];
    embedder = none;
  };
  postgres = record { creates = true; drops = true; emits = true };
  sql = record { fetch = λ role sql params db. some []; execute = λ role sql params db. none };
}
