-- ===== src/Master/Db/Events/Replay.antt =====
-- What `events_since` gives on a consistent event log.
use vaultmcp.Prelude.{
  ℕ, zero, suc, ◌<◌, ◌≤◌, ◌++◌, ◌⊎◌, inl, inr, true, false, refl, length, All, Bool-cases, ◌∙◌, ap,
}
use vaultmcp.Prelude.Sorting.Laws.{All-take}
use vaultmcp.Prelude.{ℕ}
use vaultmcp.Prelude.{◌≡◌, ap}
use vaultmcp.Prelude.{true, List, [], ◌∷◌}
use vaultmcp.Prelude.{arith}
use vaultmcp.Prelude.{nat_Eq, list_Eq, option_Eq}
use vaultmcp.Prelude.{take, select}
use vaultmcp.Prelude.Sorting.Laws.{IsSorted, sort_by_sorted}
use vaultmcp.Master.Db.Rows.{Db, EventRow}
use vaultmcp.Master.Db.Tables.Keys.{Pairwise, Pairwise-where, All-mono}
use vaultmcp.Master.Db.Invariant.{IsConsistent, Precedes}
use vaultmcp.Master.Db.Events.{events_since, newer_than, earlier}

ordered : (es : List EventRow) → Pairwise Precedes es → IsSorted earlier es
unfolding earlier
ordered [] h = tt
ordered (e ∷ es) h =
    (All-mono (Precedes e) (λ x. earlier e x ≡ true) es (λ x k. ground arith) h.0, ordered es h.1)

events_since-select :
    (db : Db) (n limit : ℕ)
    → IsConsistent db
    → events_since n limit db ≡ take limit (select (newer_than n) db.events)
unfolding events_since
events_since-select db n limit c = ap (take limit) (
    sort_by_sorted earlier (select (newer_than n) db.events) (
      ordered (select (newer_than n) db.events)
        (Pairwise-where Precedes (newer_than n) db.events c.log)))

is_newer : (n : ℕ) (e : EventRow) → newer_than n e ≡ true → n < e.global_version
is_newer n e h = ground (arith, h)

not_newer : (n : ℕ) (e : EventRow) → newer_than n e ≡ false → e.global_version ≤ n
not_newer n e h = ground (arith, h)

all_newer :
    (n : ℕ) (es : List EventRow)
    → All (λ (e : EventRow). n < e.global_version) es
    → select (newer_than n) es ≡ es
all_newer n [] h = refl
all_newer n (e ∷ es) h = ground (arith, h.0, all_newer n es h.1)

abbrev pub AllNewer : ℕ → List EventRow → Type 0
AllNewer n es = All (λ (e : EventRow). n < e.global_version) es

-- The newer events are the end of the log.
cut_at :
    (n : ℕ) (es : List EventRow)
    → Pairwise Precedes es
    → (before : List EventRow) × (new : List EventRow) × (es ≡ before ++ new)
      × All (λ (e : EventRow). e.global_version ≤ n) before
      × AllNewer n new
      × (select (newer_than n) es ≡ new)
cut_at n [] h = ([], [], refl, tt, tt, refl)
cut_at n (e ∷ es) h = elim (Bool-cases (newer_than n e)) [
  | inl q ↦
      let later : AllNewer n es =
        All-mono (Precedes e) (λ (x : EventRow). n < x.global_version) es
          (λ x k. omega (arith, k, is_newer n e q)) h.0 in
      (
        [],
        e ∷ es,
        refl,
        tt,
        (is_newer n e q, later),
        rw q (ap (λ (xs : List EventRow). e ∷ xs) (all_newer n es later)),
      )
  | inr q ↦
      let (before, new, whole, old, later, chosen) = cut_at n es h.1 in
      (
        e ∷ before,
        new,
        ap (λ (xs : List EventRow). e ∷ xs) whole,
        (not_newer n e q, old),
        later,
        rw q chosen,
      )
]

take_rest :
    (limit : ℕ) (es : List EventRow)
    → (after : List EventRow) × (es ≡ take limit es ++ after)
      × ((after ≡ []) ⊎ (length (take limit es) ≡ limit))
take_rest zero es = (es, refl, inr refl)
take_rest (suc n) [] = ([], refl, inl refl)
take_rest (suc n) (e ∷ es) =
    let (after, whole, ends) = take_rest n es in
    (
      after,
      ap (λ (xs : List EventRow). e ∷ xs) whole,
      elim ends [ inl k ↦ inl k | inr k ↦ inr (omega (arith, k)) ],
    )

-- On a consistent log the replay after a global version is one piece of the log: the events before it
-- are not newer, all of its own are, and behind it the log ends or the replay is as long as the limit.
pub events_since_lem :
    (db : Db) (n limit : ℕ)
    → IsConsistent db
    → (before : List EventRow) × (after : List EventRow) × (db.events
        ≡ before ++ (events_since n limit db ++ after))
      × All (λ (e : EventRow). e.global_version ≤ n) before
      × AllNewer n (events_since n limit db)
      × ((after ≡ []) ⊎ (length (events_since n limit db) ≡ limit))
events_since_lem db n limit c =
    let (before, new, whole, old, later, chosen) = cut_at n db.events c.log in
    let (after, parts, ends) = take_rest limit new in
    let out : events_since n limit db ≡ take limit new =
      events_since-select db n limit c ∙ ap (take limit) chosen in
    rw out (
      before,
      after,
      whole ∙ ap (λ (xs : List EventRow). before ++ xs) parts,
      old,
      All-take (λ (e : EventRow). n < e.global_version) limit new later,
      ends,
    )
