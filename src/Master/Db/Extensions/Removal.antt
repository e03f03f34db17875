-- ===== src/Master/Db/Extensions/Removal.antt =====
-- Which tables the removal of an extension drops.
use vaultmcp.Prelude.{Bool-cases, inl, inr, ◌&&◌}
use vaultmcp.Master.Db.Extensions.{Report, deregister_found, takes_extensions}
use vaultmcp.Prelude.{◌≡◌, refl, ap, ◌≢◌}
use vaultmcp.Prelude.{Bool, true, false, not, none, some, List, [], ◌∷◌, ◌++◌}
use vaultmcp.Prelude.{arith}
use vaultmcp.Prelude.{◌==◌, nat_Eq, list_Eq, option_Eq, list_eq_iff}
use vaultmcp.Prelude.{select, any, all}
use vaultmcp.Prelude.{Text, codes}
use vaultmcp.Prelude.{subst}
use vaultmcp.Master.Db.Rows.{PageRow, Db, ExtensionRow}
use vaultmcp.Master.Db.Pages.{get_page, page_key}
use vaultmcp.Master.Db.Tables.{lookup}
use vaultmcp.Master.Db.Like.{like}
use vaultmcp.Master.Db.Extensions.{namespace_pattern, ext_get, ext_deregister}
use vaultmcp.Master.Extensions.{is_identifier, is_name_char, default_schema_prefix}
use vaultmcp.Master.Db.Like.Prefix.{
  is_literal, fits, like-fits, is_literal-append, fits-append, like-prefix,
}

literal_name : (s : Text) → all is_name_char s ≡ true → is_literal s ≡ true
literal_name [] h = refl
literal_name (c ∷ s) h = ground (arith, literal_name s)

literal_identifier : (s : Text) → is_identifier s ≡ true → is_literal s ≡ true
unfolding is_identifier
literal_identifier [] h = cc
literal_identifier (c ∷ s) h = ground (arith, literal_name s)

append_assoc : (xs ys zs : Text) → (xs ++ ys) ++ zs ≡ xs ++ (ys ++ zs)
append_assoc [] ys zs = refl
append_assoc (x ∷ xs) ys zs = ap (λ (r : Text). x ∷ r) (append_assoc xs ys zs)

literal_prefix : (n : Text) → is_identifier n ≡ true → is_literal (default_schema_prefix n) ≡ true
unfolding default_schema_prefix
literal_prefix n h =
    is_literal-append (codes "ext_") (n ++ codes "_") refl
      (is_literal-append n (codes "_") (literal_identifier n h) refl)

regroup :
    (n m t : Text)
    → ((n ++ b'_' ∷ m) ++ codes "_") ++ t ≡ (n ++ codes "_") ++ (m ++ (codes "_" ++ t))
regroup [] m t = ap (λ (r : Text). b'_' ∷ r) (append_assoc m (codes "_") t)
regroup (c ∷ n) m t = ap (λ (r : Text). c ∷ r) (regroup n m t)

sibling_prefix :
    (n m t : Text)
    → default_schema_prefix (n ++ b'_' ∷ m) ++ t
      ≡ default_schema_prefix n ++ (m ++ (codes "_" ++ t))
unfolding default_schema_prefix
sibling_prefix n m t = ap (λ (r : Text). codes "ext_" ++ r) (regroup n m t)

some_prefix : (n : Text) → default_schema_prefix n ≢ []
unfolding default_schema_prefix
some_prefix n e = cc

takes_siblings :
    (n m t : Text)
    → is_identifier n ≡ true
    → like (default_schema_prefix (n ++ b'_' ∷ m) ++ t) (default_schema_prefix n ++ codes "%")
      ≡ true
takes_siblings n m t h = rw (sibling_prefix n m t) (
    like-prefix (default_schema_prefix n) (m ++ (codes "_" ++ t)) (literal_prefix n h)
      (some_prefix n))

-- What a removal that gives its report leaves.
after_removal :
    (drops : Bool) (name prefix role : Text) (db : Db) (e : ExtensionRow) (report : Report)
    → ext_get name db ≡ some e
    → (ext_deregister drops name prefix role db).0 ≡ some report
    → ((ext_deregister drops name prefix role db).1.tables
        ≡ select (λ t. not (like t (prefix ++ codes "%"))) db.tables)
      × ((ext_deregister drops name prefix role db).1.pages
          ≡ select (λ (p : PageRow). not (like p.path (namespace_pattern name))) db.pages)
unfolding ext_deregister deregister_found
after_removal drops name prefix role db e report found h =
    elim (Bool-cases (any (λ r. r == role) db.roles && not drops)) [
      | inl f ↦ absurd (ground (arith, h, found, f))
      | inr f ↦ elim (Bool-cases (takes_extensions (prefix ++ codes "%"))) [
        | inl k ↦ absurd (ground (arith, h, found, f, k))
        | inr k ↦ rw (found, ext_deregister) (rw (f, k, deregister_found) (refl, refl))
      ]
    ]

dropped :
    (p : Text → Bool) (x : Text) (ts : List Text)
    → p x ≡ false
    → any (λ t. t == x) (select p ts) ≡ false
dropped p x [] h = refl
dropped p x (t ∷ ts) h = ground (arith, h, dropped p x ts h, list_eq_iff t x, λ (q : t ≡ x). ap p q)

-- Removing the extension `n`, if it gives its report, drops every table under the default prefix of an
-- extension that is called `n`, an underscore and more: no such table is left.
pub removal_drops_siblings :
    (drops : Bool) (n m t role : Text) (db : Db) (e : ExtensionRow) (report : Report)
    → is_identifier n ≡ true
    → ext_get n db ≡ some e
    → (ext_deregister drops n (default_schema_prefix n) role db).0 ≡ some report
    → any
        (λ x. x == default_schema_prefix (n ++ b'_' ∷ m) ++ t)
        (ext_deregister drops n (default_schema_prefix n) role db).1.tables
      ≡ false
removal_drops_siblings drops n m t role db e report h k done =
    rw ((after_removal drops n (default_schema_prefix n) role db e report k done).0) (
      dropped _ (default_schema_prefix (n ++ b'_' ∷ m) ++ t) db.tables
        (rw (takes_siblings n m t h) refl))

takes_pages :
    (n n' file : Text)
    → is_identifier n ≡ true
    → fits n n' ≡ true
    → like (codes "ext/" ++ (n' ++ (codes "/" ++ file))) (namespace_pattern n) ≡ true
takes_pages n n' file h f =
    let owned = codes "ext/" ++ (n ++ codes "/") in
    let other = codes "ext/" ++ (n' ++ codes "/") in
    let same : owned ++ codes "%" ≡ namespace_pattern n =
      ap (λ (r : Text). codes "ext/" ++ r) (append_assoc n (codes "/") (codes "%")) in
    let split : other ++ file ≡ codes "ext/" ++ (n' ++ (codes "/" ++ file)) =
      ap (λ (r : Text). codes "ext/" ++ r) (append_assoc n' (codes "/") file) in
    subst (λ (x : Text). like x (namespace_pattern n) ≡ true) split
      (subst (λ (x : Text). like (other ++ file) x ≡ true) same
        (like-fits b'e' b'e' (codes "xt/" ++ (n ++ codes "/")) (codes "xt/" ++ (n' ++ codes "/"))
          file
          (is_literal-append (codes "ext/") (n ++ codes "/") refl
            (is_literal-append n (codes "/") (literal_identifier n h) refl))
          (fits-append n n' (codes "/") (codes "/") f refl)))

lookup-select :
    (p : PageRow → Bool) (path : Text) (rows : List PageRow)
    → ((r : PageRow) → r.path ≡ path → p r ≡ false)
    → lookup page_key path (select p rows) ≡ none
unfolding lookup
lookup-select p path [] h = refl
lookup-select p path (r ∷ rows) h =
    ground (arith, lookup-select p path rows h, h r, list_eq_iff r.path path)

-- Removing the extension `n`, if it gives its report, deletes every page below the namespace of `n`, and
-- every page below the namespace of a name of the same length that differs from `n` only where `n` has
-- an underscore: such a page cannot be found afterwards.
pub removal_deletes_lookalikes :
    (drops : Bool) (n n' file prefix role : Text) (db : Db) (e : ExtensionRow) (report : Report)
    → is_identifier n ≡ true
    → fits n n' ≡ true
    → ext_get n db ≡ some e
    → (ext_deregister drops n prefix role db).0 ≡ some report
    → get_page
        (codes "ext/" ++ (n' ++ (codes "/" ++ file)))
        (ext_deregister drops n prefix role db).1
      ≡ none
unfolding get_page
removal_deletes_lookalikes drops n n' file prefix role db e report h f k done =
    rw ((after_removal drops n prefix role db e report k done).1) (
      lookup-select _ (codes "ext/" ++ (n' ++ (codes "/" ++ file))) db.pages
        λ r q. rw (q, takes_pages n n' file h f) refl)
