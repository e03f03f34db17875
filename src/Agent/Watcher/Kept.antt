-- ===== src/Agent/Watcher/Kept.antt =====
-- The queue directories keep each write through one round of the replay.
use vaultmcp.Prelude.{ℕ}
use vaultmcp.Prelude.{◌≡◌, refl, sym, inl, inr}
use vaultmcp.Prelude.{Bool, true, false, not, ◌&&◌, ◌||◌, List, [], ◌∷◌}
use vaultmcp.Prelude.{map, arith, Bool-cases}
use vaultmcp.Prelude.{◌==◌, nat_Eq, list_Eq, option_Eq, list_eq_iff}
use vaultmcp.Prelude.{select, any}
use vaultmcp.Prelude.{sort_by, Result, ok, err}
use vaultmcp.Prelude.{Text, codes}
use vaultmcp.Prelude.{subst}
use vaultmcp.Prelude.Sorting.Laws.{any-append, any-select, any-sort_by}
use vaultmcp.Shared.FilePath.{Parts, resolve}
use vaultmcp.Agent.Client.{
  ClientError, conflict_error, not_found_error, validation_error, http_failure, unexpected,
}
use vaultmcp.Agent.Queue.{
  sidelined, is_set_aside, list_pending, by_name, QueuedWrite, Queue, Entry, Sidelined, has_id,
  remove, mark_failed,
}
use vaultmcp.Agent.Mirror.{Agent, write_at, replace_local}
use vaultmcp.Agent.Watcher.{Written, after_replay}

abbrev pub is_failed : Text → Sidelined → Bool
is_failed id s = s.id == id

-- The write is in one of the two directories.
abbrev pub is_kept : Text → Queue → Bool
is_kept id q = any (has_id id) q.pending || any (is_failed id) q.failed

abbrev pub is_ok : Result ClientError Written → Bool
is_ok (ok r) = true
is_ok (err e) = false

others_stay :
    (id other : Text) (es : List Entry)
    → (other == id) ≡ false
    → any (has_id id) (select (λ e. not (has_id other e)) es) ≡ any (has_id id) es
others_stay id other [] h = refl
others_stay id other (e ∷ es) h = ground (
  arith,
  h,
  others_stay id other es h,
  list_eq_iff e.id other,
  list_eq_iff e.id id,
  list_eq_iff other id,
)

kept-remove :
    (id : Text) (item : QueuedWrite) (q : Queue)
    → is_kept id q ≡ true
    → (item.id == id || is_kept id (remove item q)) ≡ true
unfolding remove
kept-remove id item q h = elim (Bool-cases (item.id == id)) [
  | inl e ↦ rw e refl
  | inr e ↦ rw (e, others_stay id item.id q.pending e) h
]

moved :
    (id : Text) (reason : Text) (es : List Entry)
    → any (is_failed id) (map (sidelined reason) (select (has_id id) es)) ≡ any (has_id id) es
moved id reason [] = refl
moved id reason (e ∷ es) = ground (arith, moved id reason es)

either : (a b : Bool) → (a || b) ≡ (b || a)
either a b = ground arith

absorbed : (a b c : Bool) → (b || a) ≡ true → (c || (a || b)) ≡ true
absorbed a b c h = ground (arith, h)

widened : (a b c : Bool) → (a || b) ≡ true → (a || (b || c)) ≡ true
widened a b c h = ground (arith, h)

kept-mark_failed :
    (id : Text) (item : QueuedWrite) (reason : Text) (q : Queue)
    → is_kept id q ≡ true
    → is_kept id (mark_failed item reason q) ≡ true
unfolding mark_failed
kept-mark_failed id item reason q h = elim (Bool-cases (item.id == id)) [
  | inl e ↦
      let same : any (is_failed id) (map (sidelined reason) (select (has_id item.id) q.pending))
          ≡ any (has_id id) q.pending =
        subst
          (λ (k : Text).
            any (is_failed id) (map (sidelined reason) (select (has_id k) q.pending))
            ≡ any (has_id id) q.pending)
          (sym ((list_eq_iff item.id id).0 e)) (moved id reason q.pending) in
      rw (any-append (is_failed id) q.failed _, same)
        (absorbed (any (is_failed id) q.failed) (any (has_id id) q.pending) _ h)
  | inr e ↦
      rw (others_stay id item.id q.pending e, any-append (is_failed id) q.failed _)
        (widened (any (has_id id) q.pending) (any (is_failed id) q.failed) _ h)
]

any-sidelined :
    (id reason : Text) (es : List Entry)
    → any (is_failed id) (map (sidelined reason) es) ≡ any (has_id id) es
any-sidelined id reason [] = refl
any-sidelined id reason (e ∷ es) = ground (arith, any-sidelined id reason es)

one_more :
    (c x a rest y z : Bool)
    → ((x || a) || rest) ≡ true
    → ((a || rest) ≡ true → (y || (rest || z)) ≡ true)
    → (((not c && x) || y) || (rest || ((c && x) || z))) ≡ true
one_more c x a rest y z h ih = ground (arith, h, ih)

either_kind :
    (goes : Entry → Bool) (id : Text) (es : List Entry) (rest : Bool)
    → (any (has_id id) es || rest) ≡ true
    → (any (λ e. not (goes e) && has_id id e) es || (rest || any (λ e. goes e && has_id id e) es))
      ≡ true
either_kind goes id [] rest h = ground (arith, h)
either_kind goes id (e ∷ es) rest h =
    one_more (goes e) (has_id id e) (any (has_id id) es) rest _ _ h (either_kind goes id es rest)

-- A file that is set aside moves to the failed directory; no other file goes.
pub kept-list_pending :
    (id : Text) (q : Queue) → is_kept id q ≡ true → is_kept id (list_pending q).1 ≡ true
unfolding list_pending
kept-list_pending id q h =
    let goes = is_set_aside q.pending in
    rw
      (
        any-select (has_id id) (λ e. not (goes e)) q.pending,
        any-append (is_failed id) q.failed _,
        any-sidelined id (codes "corrupt") (select goes (sort_by by_name q.pending)),
        any-select (has_id id) goes (sort_by by_name q.pending),
        any-sort_by (λ (e : Entry). goes e && has_id id e) by_name q.pending,
      )
      (either_kind goes id q.pending (any (is_failed id) q.failed) h)

queue-write_at :
    (now : ℕ) (vault target : Parts) (content : Text) (a : Agent)
    → (write_at now vault target content a).queue ≡ a.queue
unfolding write_at
queue-write_at now vault target content a = ground arith

queue-replace_local :
    (works : Bool) (now : ℕ) (vault : Parts) (path content : Text) (a : Agent)
    → (replace_local works now vault path content a).1.queue ≡ a.queue
unfolding replace_local
queue-replace_local works now vault path content a =
    ground (arith, queue-write_at now vault (resolve vault path) content a)

unless_accepted : (b k : Bool) → k ≡ true → ((b && false) || k) ≡ true
unless_accepted b k h = ground (arith, h)

-- One answer: the write is still there, or it is the one that was accepted.
pub kept-after_replay :
    (works : Bool) (now : ℕ) (vault : Parts) (id : Text) (item : QueuedWrite)
    (r : Result ClientError Written) (a : Agent)
    → is_kept id a.queue ≡ true
    → ((item.id == id && is_ok r) || is_kept id (after_replay works now vault item r a).1.queue)
      ≡ true
unfolding after_replay
kept-after_replay works now vault id item (ok r) a h =
    with_true (item.id == id) (is_kept id (remove item a.queue)) (kept-remove id item a.queue h)
  where
    with_true : (b k : Bool) → (b || k) ≡ true → ((b && true) || k) ≡ true
    with_true b k h = ground (arith, h)
kept-after_replay works now vault id item (err (conflict_error v t w)) a h =
    elim (Bool-cases (replace_local works now vault item.path t a).0) [
      | inl e ↦ rw e (
          unless_accepted (item.id == id) _ (
            kept-mark_failed id item (codes "conflict")
              (replace_local works now vault item.path t a).1.queue
              (rw (queue-replace_local works now vault item.path t a) h)))
      | inr e ↦ rw e (
          unless_accepted (item.id == id) _
            (rw (queue-replace_local works now vault item.path t a) h))
    ]
kept-after_replay works now vault id item (err not_found_error) a h =
    unless_accepted (item.id == id) _ h
kept-after_replay works now vault id item (err validation_error) a h =
    unless_accepted (item.id == id) _ h
kept-after_replay works now vault id item (err http_failure) a h =
    unless_accepted (item.id == id) _ h
kept-after_replay works now vault id item (err (unexpected n)) a h =
    unless_accepted (item.id == id) _ h
