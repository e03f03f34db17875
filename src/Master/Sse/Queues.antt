-- ===== src/Master/Sse/Queues.antt =====
-- The fan-out, over the whole life of a subscription.
use vaultmcp.Prelude.{ℕ, zero, suc, ◌≤◌}
use vaultmcp.Prelude.{◌≡◌, refl, sym, ap, ◌∙◌, inl, inr}
use vaultmcp.Prelude.{Bool, true, false, List, [], ◌∷◌, ◌++◌}
use vaultmcp.Prelude.{map, arith, ltb, if◌then◌else◌, Bool-cases}
use vaultmcp.Prelude.{nat_Eq, list_Eq, option_Eq}
use vaultmcp.Prelude.{length, take, select, length-append, length-take}
use vaultmcp.Prelude.{take_all}
use vaultmcp.Prelude.{ltb→lt}
use vaultmcp.Master.Sse.{Notice, Message, event, Subscriber, max_queue, put_nowait, wants, deliver}

-- The notices that arrive one after the other at one subscriber.
abbrev pub deliver_all : List Notice → Subscriber → Subscriber
deliver_all [] s = s
deliver_all (n ∷ ns) s = deliver_all ns (deliver n s)

take_nil : {A : Type 0} (n : ℕ) → take {A = A} n [] ≡ []
take_nil zero = refl
take_nil (suc n) = refl

append_nil : (xs : List Message) → xs ++ [] ≡ xs
append_nil [] = refl
append_nil (x ∷ xs) = ap (λ (r : List Message). x ∷ r) (append_nil xs)

take-take_append :
    (n : ℕ) (xs ys : List Message) (x : Message)
    → take n (take n (xs ++ x ∷ []) ++ ys) ≡ take n (xs ++ x ∷ ys)
take-take_append zero xs ys x = refl
take-take_append (suc n) [] ys x = rw (take_nil {A = Message} n) refl
take-take_append (suc n) (y ∷ xs) ys x =
    ap (λ (r : List Message). y ∷ r) (take-take_append n xs ys x)

-- A queue with room for `n`: a message that does not fit is dropped.
take_one_more :
    (n : ℕ) (xs : List Message) (m : Message)
    → length xs ≤ n
    → (if ltb (length xs) n then xs ++ m ∷ [] else xs) ≡ take n (xs ++ m ∷ [])
take_one_more n xs m h = elim (Bool-cases (ltb (length xs) n)) [
  | inl e ↦ rw e (
      sym (
        take_all n (xs ++ m ∷ [])
          (omega (arith, ltb→lt (length xs) n e, length-append xs (m ∷ [])))))
  | inr e ↦ rw e (sym (full n xs (ground (arith, e, h))))
]
  where
    full : (k : ℕ) (ys : List Message) → length ys ≡ k → take k (ys ++ m ∷ []) ≡ ys
    full zero [] q = refl
    full (suc k) [] q = absurd (omega arith)
    full zero (y ∷ ys) q = absurd (omega arith)
    full (suc k) (y ∷ ys) q = ap (λ (r : List Message). y ∷ r) (full k ys (omega arith))

queue-if :
    (b : Bool) (q : List Message) (s : Subscriber)
    → (if b then record s { queue = q } else s).queue ≡ (if b then q else s.queue)
queue-if true q s = refl
queue-if false q s = refl

prefix-if :
    (b : Bool) (q : List Message) (s : Subscriber)
    → (if b then record s { queue = q } else s).prefix ≡ s.prefix
prefix-if true q s = refl
prefix-if false q s = refl

queue-put_nowait :
    (m : Message) (s : Subscriber)
    → length s.queue ≤ max_queue
    → (put_nowait m s).queue ≡ take max_queue (s.queue ++ m ∷ [])
unfolding put_nowait
queue-put_nowait m s h =
    queue-if (ltb (length s.queue) max_queue) (s.queue ++ m ∷ []) s
    ∙ take_one_more max_queue s.queue m h

prefix-put_nowait : (m : Message) (s : Subscriber) → (put_nowait m s).prefix ≡ s.prefix
unfolding put_nowait
prefix-put_nowait m s = prefix-if (ltb (length s.queue) max_queue) (s.queue ++ m ∷ []) s

deliver_wanted :
    (n : Notice) (s : Subscriber)
    → wants s.prefix n.path ≡ true
    → deliver n s ≡ put_nowait (event n) s
unfolding deliver
deliver_wanted n s e = rw e refl

deliver_unwanted : (n : Notice) (s : Subscriber) → wants s.prefix n.path ≡ false → deliver n s ≡ s
unfolding deliver
deliver_unwanted n s e = rw e refl

-- A subscriber whose queue is not read meanwhile holds, of the notices that its prefix lets through, the
-- first ones in their order up to the 256 that fit; the later ones are dropped.
pub queue-deliver_all :
    (ns : List Notice) (s : Subscriber)
    → length s.queue ≤ max_queue
    → (deliver_all ns s).queue
      ≡ take max_queue (s.queue ++ map event (select (λ (n : Notice). wants s.prefix n.path) ns))
queue-deliver_all [] s h = sym (rw (append_nil s.queue) (take_all max_queue s.queue h))
queue-deliver_all (n ∷ ns) s h = elim (Bool-cases (wants s.prefix n.path)) [
  | inl e ↦ rw e (
      let t = put_nowait (event n) s in
      let q : t.queue ≡ take max_queue (s.queue ++ event n ∷ []) = queue-put_nowait (event n) s h in
      let p : t.prefix ≡ s.prefix = prefix-put_nowait (event n) s in
      let le : length t.queue ≤ max_queue =
        rw q (omega (arith, length-take max_queue (s.queue ++ event n ∷ []))) in
      ap (λ (t : Subscriber). (deliver_all ns t).queue) (deliver_wanted n s e)
      ∙ queue-deliver_all ns t le
      ∙ rw (q, p)
          (take-take_append max_queue s.queue
            (map event (select (λ (x : Notice). wants s.prefix x.path) ns)) (event n)))
  | inr e ↦ rw e (
      ap (λ (t : Subscriber). (deliver_all ns t).queue) (deliver_unwanted n s e)
      ∙ queue-deliver_all ns s h)
]
