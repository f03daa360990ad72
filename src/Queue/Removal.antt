-- ===== src/Queue/Removal.antt =====
-- transaction_queue.cpp: `remove_purchase`.
use beer_tab.Common.{
  ◌≡◌, refl, ap, List, [], ◌∷◌, ◌++◌, none, some, Bool, true, false, Text, Option-cases, Bool-cases,
  inl, inr, arith,
}
use beer_tab.Records.{Entry}
use beer_tab.Codec.Loops.{All}
use beer_tab.Queue.{Queue, is_purchase_of, remove_from, remove_purchase}

-- No entry of the list is a purchase with this id.
abbrev pub NonePurchases : Text → List Entry → Type 0
NonePurchases id = All (λ e. is_purchase_of id e ≡ false)

-- The list with the first purchase of this id marked out: what stands before it, it, and the rest.
pub record Found (id : Text) (es rest : List Entry) : Type 0 where
  pub before : List Entry
  pub entry : Entry
  pub behind : List Entry
  pub is_found : is_purchase_of id entry ≡ true
  pub is_first : NonePurchases id before
  pub split : es ≡ before ++ (entry ∷ behind)
  pub removed : rest ≡ before ++ behind

remove_from-none : (id : Text) (es : List Entry) → remove_from id es ≡ none → NonePurchases id es
unfolding remove_from
remove_from-none id [] h = tt
remove_from-none id (e ∷ es) h = elim (Bool-cases (is_purchase_of id e)) [
  | inl b ↦ ground (arith, b)
  | inr b ↦ elim (Option-cases (remove_from id es)) [
    | inl q ↦ (b, remove_from-none id es q)
    | inr (es', q) ↦ ground (arith, b, q)
  ]
]

remove_from-some :
    (id : Text) (es rest : List Entry) → remove_from id es ≡ some rest → Found id es rest
unfolding remove_from
remove_from-some id [] rest h = cc
remove_from-some id (e ∷ es) rest h = elim (Bool-cases (is_purchase_of id e)) [
  | inl b ↦ record {
    before = [];
    entry = e;
    behind = es;
    is_found = b;
    is_first = tt;
    split = refl;
    removed = ground (arith, b);
  }
  | inr b ↦ elim (Option-cases (remove_from id es)) [
    | inl q ↦ ground (arith, b, q)
    | inr (es', q) ↦
        let f = remove_from-some id es es' q in
        record {
          before = e ∷ f.before;
          entry = f.entry;
          behind = f.behind;
          is_found = f.is_found;
          is_first = (b, f.is_first);
          split = ap (λ t. e ∷ t) f.split;
          removed = ground (arith, b, q, f.removed);
        }
  ]
]

-- What `remove_purchase` promises of the queue it leaves and of its answer.
abbrev pub Removes : Text → Queue → Queue × Bool → Type 0
Removes id q (q', true) = Found id q.items q'.items × (q'.dirty ≡ true)
Removes id q (q', false) = NonePurchases id q.items × (q' ≡ q)

remove_purchase-none :
    (q : Queue) (id : Text) → remove_from id q.items ≡ none → remove_purchase q id ≡ (q, false)
unfolding remove_purchase
remove_purchase-none q id e = rw (e, remove_purchase)

remove_purchase-some :
    (q : Queue) (id : Text) (es : List Entry)
    → remove_from id q.items ≡ some es
    → remove_purchase q id ≡ (record { items = es; dirty = true }, true)
unfolding remove_purchase
remove_purchase-some q id es e = rw (e, remove_purchase)

-- `remove_purchase` answers true when it took out exactly the first purchase with the id, keeping
-- the other entries in order, and then marks the queue; it answers false when no purchase has the
-- id, and then the queue is as it was.
pub remove_purchase-Removes : (q : Queue) (id : Text) → Removes id q (remove_purchase q id)
remove_purchase-Removes q id = elim (Option-cases (remove_from id q.items)) [
  | inl e ↦ rw (remove_purchase-none q id e) (remove_from-none id q.items e, refl)
  | inr (es, e) ↦ rw (remove_purchase-some q id es e) (remove_from-some id q.items es e, refl)
]

-- The two answers, one by one.
pub removed_Found :
    (id : Text) (q : Queue) (x : Queue × Bool)
    → Removes id q x
    → x.1 ≡ true
    → Found id q.items x.0.items
removed_Found id q (q', true) r h = r.0
removed_Found id q (q', false) r h = cc

pub left_NonePurchases :
    (id : Text) (q : Queue) (x : Queue × Bool)
    → Removes id q x
    → x.1 ≡ false
    → NonePurchases id q.items
left_NonePurchases id q (q', true) r h = cc
left_NonePurchases id q (q', false) r h = r.0
