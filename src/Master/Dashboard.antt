-- ===== src/Master/Dashboard.antt =====
-- src/vaultmcp/master/dashboard/router.py: the pages of the dashboard, up to the templates. A page is
-- what its template is given of the tables.
pub mod AuditPage
use vaultmcp.Prelude.{ℕ, zero, suc, ◌+◌, ◌-◌, ◌*◌, ◌/◌, ◌%◌, ◌^◌, ◌≤◌, ◌<◌, min, max, String}
use vaultmcp.Prelude.{◌≡◌, refl, sym, ap, ◌∙◌, fun_ext, ◌≢◌, ◌↔◌, ◌⊎◌, inl, inr}
use vaultmcp.Prelude.{Bool, true, false, not, ◌&&◌, ◌||◌, Option, none, some, List, [], ◌∷◌, ◌++◌}
use vaultmcp.Prelude.{
  map, reverse, arith, ltb, leb, nat_eq, if◌then◌else◌, Bool-cases, Option-cases,
}
use vaultmcp.Prelude.{
  Eq, ◌==◌, nat_Eq, list_Eq, option_Eq, list_eq_iff, option_eq_iff, nat_eq_iff, beq_refl,
}
use vaultmcp.Prelude.{
  length, take, drop, last?, select, find, any, all, All, length-append, length-take,
}
use vaultmcp.Prelude.{
  take_all, place, sort_by, Result, ok, err, ◌>>=◌, ◌>>◌, guard, bind-ok, Result-cases,
}
use vaultmcp.Prelude.{
  Text, codes, starts_with, is_space, lstrip, rstrip, strip, partition, split, join, text_le,
}
use vaultmcp.Prelude.{subst}
use vaultmcp.Shared.Frontmatter.{known_page_types}
use vaultmcp.Master.Db.Rows.{
  Db, EventRow, AuditRow, Outcome, succeeded, conflict, forbidden, validation_failed,
}
use vaultmcp.Master.Db.Tables.{lookup}
use vaultmcp.Master.Db.Events.{recent_events}
use vaultmcp.Master.Db.Audit.{AuditFilter, list_audit}
use vaultmcp.Master.Db.Jobs.{QueueStats, embedding_queue_stats, embedding_key}
use vaultmcp.Master.Db.Servers.{servers_with_activity}
use vaultmcp.Master.Db.Ranked.{Ranker, Hit, search_pages, neighbors_of}

-- The Basic gate: the page is served, or a 401 asks for credentials or refuses those given. Equal
-- texts have equal bytes, so `compare_digest` is a comparison of texts.
pub data Gate : Type 0 where
  served credentials_required invalid_credentials : Gate

pub record DashboardConfig : Type 0 where
  pub username : Text
  pub password : Option Text

unfoldable pub check_credentials : Text → Text → Option (Text × Text) → Gate
check_credentials username password none = credentials_required
check_credentials username password (some (user, pass)) =
    if not (user == username && pass == password) then invalid_credentials else served

unfoldable pub basic_auth : DashboardConfig → Option (Text × Text) → Gate
unfolding check_credentials
basic_auth config creds = elim config.password [
  | none ↦ served
  | some password ↦ check_credentials config.username password creds
]

-- `x or None`
abbrev pub or_none : Option Text → Option Text
or_none none = none
or_none (some []) = none
or_none (some (c ∷ s)) = some (c ∷ s)

unfoldable pub activity_events : Db → List EventRow
unfolding recent_events
activity_events db = recent_events 50 db

pub record ServersPage : Type 0 where
  pub servers : List (Text × List Text × Option ℕ × Option ℕ)
  pub worker_provider : Option Text
  pub worker_stats : QueueStats

unfoldable pub servers_page : Option Text → Db → ServersPage
unfolding servers_with_activity embedding_queue_stats
servers_page embedder_name db = record {
  servers = servers_with_activity db;
  worker_provider = embedder_name;
  worker_stats = embedding_queue_stats db;
}

abbrev pub outcome_name : Outcome → Text
outcome_name succeeded = codes "ok"
outcome_name conflict = codes "conflict"
outcome_name forbidden = codes "forbidden"
outcome_name validation_failed = codes "validation_failed"

pub record AuditQuery : Type 0 where
  pub path : Option Text
  pub server_id : Option Text
  pub app : Option Text
  pub outcome : Option Text

abbrev pub audit_filter : AuditQuery → AuditFilter
audit_filter q = record {
  path = or_none q.path;
  since = none;
  server_id = or_none q.server_id;
  app = or_none q.app;
  operation = none;
  limit = 500;
}

abbrev pub has_outcome : Option Text → AuditRow → Bool
has_outcome none r = true
has_outcome (some o) r = outcome_name r.outcome == o

-- The outcome is filtered after the newest 500 rows have been read.
unfoldable pub audit_entries : AuditQuery → Db → List AuditRow
unfolding list_audit
audit_entries q db =
    take 200 (select (has_outcome (or_none q.outcome)) (list_audit (audit_filter q) db))

module _ (ranker : Ranker) where
  abbrev pub search_for : Option Text → Option Text → Option Text → Db → List (Hit ranker)
  search_for none prefix type_filter db = []
  search_for (some q) prefix type_filter db = search_pages ranker q prefix type_filter 50 db

  unfoldable pub search_entries : Option Text → Option Text → Option Text → Db → List (Hit ranker)
  unfolding search_pages
  search_entries q prefix type_filter db =
      search_for (or_none q) (or_none prefix) (or_none type_filter) db

  pub record VectorsPage : Type 0 where
    pub missing : Bool
    pub neighbors : List (Hit ranker)

  abbrev pub vectors_of : Option Text → Db → VectorsPage
  vectors_of none db = record { missing = false; neighbors = [] }
  vectors_of (some path) db = elim (lookup embedding_key path db.embeddings) [
    | none ↦ record { missing = true; neighbors = [] }
    | some e ↦ record { missing = false; neighbors = neighbors_of ranker path 10 db }
  ]

  unfoldable pub vectors_page : Option Text → Db → VectorsPage
  unfolding neighbors_of lookup
  vectors_page path db = vectors_of (or_none path) db

  pub data Route : Type 0 where
    activity servers : Route
    search : Option Text → Option Text → Option Text → Route
    vectors : Option Text → Route
    audit : AuditQuery → Route

  pub data Page : Type 0 where
    activity_page : List EventRow → Page
    servers_view : ServersPage → Page
    search_page : List (Hit ranker) → List Text → Page
    vectors_view : VectorsPage → Page
    audit_page : List AuditRow → Page

  unfoldable pub show : Option Text → Route → Db → Page
  unfolding activity_events servers_page search_entries vectors_page audit_entries sort_by
  show embedder_name activity db = activity_page (activity_events db)
  show embedder_name servers db = servers_view (servers_page embedder_name db)
  show embedder_name (search q prefix type_filter) db =
      search_page (search_entries q prefix type_filter db) (sort_by text_le known_page_types)
  show embedder_name (vectors path) db = vectors_view (vectors_page path db)
  show embedder_name (audit q) db = audit_page (audit_entries q db)

  abbrev pub gated : Gate → Page → Result Gate Page
  gated served p = ok p
  gated credentials_required p = err credentials_required
  gated invalid_credentials p = err invalid_credentials

  -- A request: every route stands behind the gate.
  unfoldable pub request :
      DashboardConfig → Option (Text × Text) → Option Text → Route → Db → Result Gate Page
  unfolding basic_auth show
  request config creds embedder_name route db =
      gated (basic_auth config creds) (show embedder_name route db)
