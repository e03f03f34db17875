-- ===== src/Master/Dashboard/AuditPage.antt =====
-- Who sees a page of the dashboard, and which rows the audit page shows.
use vaultmcp.Master.Dashboard.{Route}
use vaultmcp.Prelude.{◌≤◌}
use vaultmcp.Prelude.{◌≡◌, refl, sym, ap, ◌∙◌, inl, inr}
use vaultmcp.Prelude.{true, false, ◌&&◌, Option, none, some, List}
use vaultmcp.Prelude.{arith, Bool-cases}
use vaultmcp.Prelude.{◌==◌, nat_Eq, list_Eq, option_Eq, list_eq_iff}
use vaultmcp.Prelude.{length, take, select}
use vaultmcp.Prelude.{take_all, sort_by, ok}
use vaultmcp.Prelude.{Text}
use vaultmcp.Prelude.Sorting.Laws.{select-sort_by, length-sort_by}
use vaultmcp.Master.Db.Rows.{Db, AuditRow}
use vaultmcp.Master.Db.Audit.{audit_matches, newer, list_audit}
use vaultmcp.Master.Db.Ranked.{Ranker}
use vaultmcp.Master.Dashboard.{
  Gate, served, credentials_required, invalid_credentials, gated, check_credentials, basic_auth,
  DashboardConfig, AuditQuery, audit_filter, has_outcome, or_none, audit_entries, Page, show,
  request, audit, audit_page,
}

newer_total : (a b : AuditRow) → newer a b ≡ false → newer b a ≡ true
unfolding newer
newer_total a b h = ground (arith, h)

newer_trans : (a b c : AuditRow) → newer a b ≡ true → newer b c ≡ true → newer a c ≡ true
unfolding newer
newer_trans a b c h k = ground (arith, h, k)

-- The rows that pass every filter, the newest first.
abbrev pub audit_rows : AuditQuery → Db → List AuditRow
audit_rows q db =
    sort_by newer
      (select (has_outcome (or_none q.outcome)) (select (audit_matches (audit_filter q)) db.audit))

audit_entries-audit_rows :
    (q : AuditQuery) (db : Db)
    → length (select (audit_matches (audit_filter q)) db.audit) ≤ 500
    → audit_entries q db ≡ take 200 (audit_rows q db)
unfolding audit_entries list_audit
audit_entries-audit_rows q db few =
    let matching = select (audit_matches (audit_filter q)) db.audit in
    let wanted = has_outcome (or_none q.outcome) in
    ap (λ rows. take 200 (select wanted rows))
      (take_all 500 (sort_by newer matching) (omega (arith, few, length-sort_by newer matching)))
    ∙ ap (take 200) (select-sort_by newer newer_total newer_trans wanted matching)

served_to :
    (username password : Text) (creds : Option (Text × Text))
    → check_credentials username password creds ≡ served
    → creds ≡ some (username, password)
unfolding check_credentials
served_to username password none h = cc
served_to username password (some (user, pass)) h =
    elim (Bool-cases (user == username && pass == password)) [
      | inl e ↦
          both user pass (ground (arith, e, list_eq_iff user username))
            (ground (arith, e, list_eq_iff pass password))
      | inr e ↦ absurd (ground (arith, h, e))
    ]
  where
    creds_of : Text → Text → Option (Text × Text)
    creds_of a b = some (a, b)

    both : (a b : Text) → a ≡ username → b ≡ password → creds_of a b ≡ creds_of username password
    both a b p q = ap (λ (x : Text). creds_of x b) p ∙ ap (λ (y : Text). creds_of username y) q

passed :
    (ranker : Ranker) (g : Gate) (shows shown : Page ranker)
    → gated ranker g shows ≡ ok shown
    → (g ≡ served) × (shown ≡ shows)
passed ranker served shows shown k = (refl, ground (arith, k))
passed ranker credentials_required shows shown k = cc
passed ranker invalid_credentials shows shown k = cc

-- With a password configured, a page of the dashboard, whichever it is, is shown only to a request with
-- the configured user name and password.
pub request-served :
    (ranker : Ranker) (config : DashboardConfig) (creds : Option (Text × Text))
    (embedder_name : Option Text) (route : Route ranker) (db : Db) (password : Text)
    (shown : Page ranker)
    → config.password ≡ some password
    → request ranker config creds embedder_name route db ≡ ok shown
    → creds ≡ some (config.username, password)
unfolding request basic_auth
request-served ranker config creds embedder_name route db password shown p h =
    let opened =
      passed ranker (basic_auth config creds) (show ranker embedder_name route db) shown h in
    served_to config.username password creds (
      sym (
        ap
          (λ (o : Option Text). elim o as (λ _. Gate) [
            | none ↦ served
            | some w ↦ check_credentials config.username w creds
          ])
          p)
      ∙ opened.0)

-- If at most 500 rows pass the filters on path, server and app, the audit page shows the newest 200 of
-- the rows that pass every filter, the outcome's included.
pub audit_page_lem :
    (ranker : Ranker) (config : DashboardConfig) (creds : Option (Text × Text))
    (embedder_name : Option Text) (q : AuditQuery) (db : Db) (shown : Page ranker)
    → request ranker config creds embedder_name (audit q) db ≡ ok shown
    → length (select (audit_matches (audit_filter q)) db.audit) ≤ 500
    → shown ≡ audit_page (take 200 (audit_rows q db))
unfolding request show
audit_page_lem ranker config creds embedder_name q db shown h few =
    (passed ranker (basic_auth config creds) (audit_page (audit_entries q db)) shown h).1
    ∙ ap (λ (rows : List AuditRow). audit_page rows) (audit_entries-audit_rows q db few)
