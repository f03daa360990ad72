-- ===== src/Queue/Bounds.antt =====
-- transaction_queue.cpp: the invariant of the queue, and the order of its entries.
use beer_tab.Common.{
  ℕ, suc, ◌+◌, ◌≤◌, ◌<◌, ◌≡◌, refl, sym, ap, ◌∙◌, append-nil, append_assoc, zero, List, [], ◌∷◌,
  ◌++◌, none, some, Bool, true, Text, length, length-append, leb, Option-cases, Bool-cases, inl,
  inr, arith,
}
use beer_tab.Settings.{max_queued_transactions}
use beer_tab.Records.{Entry, IsEntry}
use beer_tab.Codec.Loops.{All, All-append}
use beer_tab.Codec.Format.{encode_queue}
use beer_tab.Storage.{LittleFs, Storage}
use beer_tab.Queue.{Queue, head, push, pop, remove_from, remove_purchase, flush}

-- The queue fits its array, and every entry fits its fields.
pub record IsQueue (q : Queue) : Type 0 where
  pub bounded : length q.items ≤ max_queued_transactions
  pub entries : All IsEntry q.items

-- A push onto a valid queue leaves a valid queue, also where it is refused.
pub push-IsQueue : (q : Queue) (e : Entry) → IsQueue q → IsEntry e → IsQueue (push q e).0
unfolding push
push-IsQueue q e v h = elim (Bool-cases (leb max_queued_transactions (length q.items))) [
  | inl is_full ↦ rw is_full v
  | inr room ↦ rw room (record {
    bounded = ground (arith, room, length-append q.items (e ∷ []));
    entries = All-append IsEntry q.items (e ∷ []) v.entries (h, tt);
  })
]

pub pop-IsQueue : (q : Queue) → IsQueue q → IsQueue (pop q)
unfolding pop
pop-IsQueue q v = ground arith

remove_from-All :
    (id : Text) (es : List Entry) {rest : List Entry}
    → remove_from id es ≡ some rest
    → All IsEntry es
    → All IsEntry rest × (length es ≡ suc (length rest))
unfolding remove_from
remove_from-All id [] h v = cc
remove_from-All id (e ∷ es) h v = elim (Option-cases (remove_from id es)) [
  | inl q ↦ ground (arith, q)
  | inr (es', q) ↦ ground (arith, q, remove_from-All id es q v.1)
]

pub remove_purchase-IsQueue : (q : Queue) (id : Text) → IsQueue q → IsQueue (remove_purchase q id).0
unfolding remove_purchase
remove_purchase-IsQueue q id v = elim (Option-cases (remove_from id q.items)) [
  | inl e ↦ ground (arith, e)
  | inr (es, e) ↦ ground (arith, e, remove_from-All id q.items e v.entries)
]

-- Whatever changes the queue keeps it within its array and its entries within theirs: a push that is
-- accepted or refused, a pop of a queue that is empty or not, and the removal of a purchase that is
-- there or not.
pub changes-IsQueue :
    (q : Queue) (e : Entry) (id : Text)
    → IsQueue q
    → IsEntry e
    → IsQueue (push q e).0 × IsQueue (pop q) × IsQueue (remove_purchase q id).0
changes-IsQueue q e id v h = (push-IsQueue q e v h, pop-IsQueue q v, remove_purchase-IsQueue q id v)

-- A flush leaves the entries alone.
pub items-flush : {fs : LittleFs} (s : Storage fs) (q : Queue) → (flush s q).1.items ≡ q.items
unfolding flush
items-flush s q = ground (arith, encode_queue)

-- Pushing one entry after another.
abbrev pub push_all : Queue → List Entry → Queue
push_all q [] = q
push_all q (e ∷ es) = push_all (push q e).0 es

-- Sending and removing the head until nothing is left, `n` times at most.
abbrev pub drain : ℕ → Queue → List Entry
drain zero q = []
drain (suc n) q = let rest = drain n (pop q) in elim (head q) [ none ↦ [] | some e ↦ e ∷ rest ]

items-push :
    (q : Queue) (e : Entry)
    → length q.items < max_queued_transactions
    → (push q e).0.items ≡ q.items ++ (e ∷ [])
unfolding push
items-push q e h = ground arith

items-push_all :
    (q : Queue) (es : List Entry)
    → length q.items + length es ≤ max_queued_transactions
    → (push_all q es).items ≡ q.items ++ es
items-push_all q [] h = sym (append-nil q.items)
items-push_all q (e ∷ es) h =
    items-push_all (push q e).0 es
      (rw (items-push q e (omega arith)) (omega (arith, length-append q.items (e ∷ []))))
    ∙ rw (items-push q e (omega arith)) (append_assoc q.items (e ∷ []) es)

drain_items :
    (n : ℕ) (es : List Entry) (d : Bool)
    → length es ≤ n
    → drain n (record { items = es; dirty = d }) ≡ es
unfolding head pop
drain_items zero [] d h = refl
drain_items zero (e ∷ es) d h = absurd (omega arith)
drain_items (suc n) [] d h = refl
drain_items (suc n) (e ∷ es) d h = ap (λ t. e ∷ t) (drain_items n es true (omega arith))

-- First in, first out: what fits is sent in the order of pushing, behind what was already waiting,
-- nothing lost and nothing twice.
pub drain-push_all :
    (q : Queue) (es : List Entry)
    → length q.items + length es ≤ max_queued_transactions
    → drain max_queued_transactions (push_all q es) ≡ q.items ++ es
drain-push_all q es h =
    drain_items max_queued_transactions (push_all q es).items (push_all q es).dirty
      (rw (items-push_all q es h) (omega (arith, length-append q.items es)))
    ∙ items-push_all q es h
