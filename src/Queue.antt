-- ===== src/Queue.antt =====
-- firmware/beer_terminal/transaction_queue.cpp. The first `g_count` elements of `g_items` are the
-- list `items`, oldest first, so `g_count` is its length.
pub mod Bounds
pub mod Removal
pub mod Durable
use beer_tab.Common.{
  ℕ, suc, List, [], ◌∷◌, ◌++◌, Option, none, some, Bool, true, false, not, ◌&&◌, ◌||◌, Text, ascii,
  text_eq, length, get_elem?, leb, if◌then◌else◌,
}
use beer_tab.Settings.{max_queued_transactions}
use beer_tab.Records.{Entry, Kind, purchase, void, archive, restore, create, change_price}
use beer_tab.Codec.Format.{encode_queue, decode_queue, max_queue_bytes}
use beer_tab.Storage
use beer_tab.Storage.{LittleFs, Storage}

pub record Queue : Type 0 where
  pub items : List Entry
  pub dirty : Bool

abbrev pub queue_path : Text
queue_path = ascii "/queue.bin"

unfoldable pub count : Queue → ℕ
count q = length q.items

unfoldable pub full : Queue → Bool
full q = leb max_queued_transactions (length q.items)

unfoldable pub empty : Queue → Bool
empty q = elim q.items [ [] ↦ true | e ∷ es ↦ false ]

unfoldable pub head : Queue → Option Entry
head q = get_elem? q.items 0

unfoldable pub at : Queue → ℕ → Option Entry
at q index = get_elem? q.items index

unfoldable pub push : Queue → Entry → Queue × Bool
unfolding full
push q e =
    if full q then (q, false) else (record { items = q.items ++ (e ∷ []); dirty = true }, true)

-- The loop moves each entry behind the head one place forward.
unfoldable pub pop : Queue → Queue
pop q = elim q.items [ [] ↦ q | e ∷ es ↦ record { items = es; dirty = true } ]

unfoldable pub is_product_change : Kind → Bool
is_product_change purchase = false
is_product_change void = false
is_product_change archive = true
is_product_change restore = true
is_product_change create = true
is_product_change change_price = true

unfoldable pub any_product_change : List Entry → Bool
any_product_change [] = false
any_product_change (e ∷ es) = is_product_change e.kind || any_product_change es

unfoldable pub has_product_changes : Queue → Bool
unfolding any_product_change is_product_change
has_product_changes q = any_product_change q.items

contains_from : Text → List Entry → Bool
contains_from id [] = false
contains_from id (e ∷ es) = text_eq e.transaction_id id || contains_from id es

unfoldable pub contains : Queue → Text → Bool
unfolding contains_from
contains q id = contains_from id q.items

unfoldable pub is_purchase : Kind → Bool
is_purchase purchase = true
is_purchase _ = false

-- A purchase with this id.
unfoldable pub is_purchase_of : Text → Entry → Bool
unfolding is_purchase
is_purchase_of id e = is_purchase e.kind && text_eq e.transaction_id id

-- The first such purchase taken out, and those behind it moved forward; `none` if there is none.
unfoldable pub remove_from : Text → List Entry → Option (List Entry)
remove_from id [] = none
remove_from id (e ∷ es) =
    let rest = remove_from id es in
    if is_purchase_of id e then some es else elim rest [ none ↦ none | some es' ↦ some (e ∷ es') ]

unfoldable pub remove_purchase : Queue → Text → Queue × Bool
unfolding remove_from
remove_purchase q id = elim (remove_from id q.items) [
  | none ↦ (q, false)
  | some es ↦ (record { items = es; dirty = true }, true)
]

module _ {fs : LittleFs} where
  -- A stored queue that cannot be read leaves the queue empty and marked for writing.
  unfoldable pub begin : Storage fs → Queue
  begin s = elim (Storage.read s queue_path max_queue_bytes) [
    | none ↦ record { items = []; dirty = false }
    | some blob ↦ elim (decode_queue blob max_queued_transactions) [
      | none ↦ record { items = []; dirty = true }
      | some es ↦ record { items = es; dirty = false }
    ]
  ]

  unfoldable pub flush : Storage fs → Queue → Storage fs × Queue
  flush s q = if not q.dirty then (s, q) else elim (encode_queue q.items max_queue_bytes) [
    | none ↦ (s, q)
    | some blob ↦
        let (s', ok) = Storage.write s queue_path blob in
        if ok then (s', record q { dirty = false }) else (s', q)
  ]
