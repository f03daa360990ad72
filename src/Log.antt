-- ===== src/Log.antt =====
-- firmware/beer_terminal/purchase_log.cpp. The summary is the backend's figures, the baseline, plus
-- the purchases that still wait in the queue. A sum of `int32_t`s wraps around, as the compiler's
-- instruction does; C++ leaves the overflow undefined.
pub mod Durable
use beer_tab.Common.{
  ℕ, suc, ◌+◌, List, [], ◌∷◌, ◌++◌, Option, none, some, Bool, true, false, not, Text, ascii,
  is_empty, text_eq, print_text, ℤ, pos, ◌+ℤ◌, to_u32, to_i32, length, get_elem?, take, u16, ltb,
  leb, if◌then◌else◌,
}
use beer_tab.Settings.{max_residents}
use beer_tab.Records.{Tally, Entry}
use beer_tab.Codec.Format.{encode_summary, decode_summary, max_summary_bytes}
use beer_tab.Storage
use beer_tab.Storage.{LittleFs, Storage}
use beer_tab.Queue.{Queue, is_purchase}

-- `g_baseline` and `g_view` with their counts.
pub record PurchaseLog : Type 0 where
  pub baseline : List Tally
  pub has_baseline : Bool
  pub view : List Tally
  pub dirty : Bool

abbrev pub summary_path : Text
summary_path = ascii "/summary.bin"

-- `a + b` of two `int32_t`s.
abbrev add_i32 : ℤ → ℤ → ℤ
add_i32 a b = to_i32 (to_u32 (a +ℤ b))

-- One purchase on the resident's tally.
abbrev pub charge : Entry → Tally → Tally
charge e t = record t {
  drinks = u16 (t.drinks + 1);
  total_rappen = if e.free_item then t.total_rappen else add_i32 t.total_rappen e.price_rappen;
}

abbrev pub new_tally : Entry → Tally
new_tally e = record {
  resident_id = print_text 12 e.resident_id;
  resident_name = print_text 24 e.resident_name;
  drinks = 0;
  total_rappen = pos 0;
}

-- `find_or_add` and the update of what it found; `before` is how many tallies stand in front.
charge_in : Entry → ℕ → List Tally → List Tally
charge_in e before [] = if leb max_residents before then [] else charge e (new_tally e) ∷ []
charge_in e before (t ∷ ts) =
    let rest = charge_in e (suc before) ts in
    if text_eq t.resident_id e.resident_id then charge e t ∷ ts else t ∷ rest

-- The entries that count: purchases with a resident.
abbrev pub counts_for : Entry → Bool
counts_for e = if is_purchase e.kind then not (is_empty e.resident_id) else false

add_queued : List Tally → List Entry → List Tally
unfolding is_purchase charge_in
add_queued view [] = view
add_queued view (e ∷ es) = add_queued (if counts_for e then charge_in e 0 view else view) es

unfoldable pub rebuild : List Tally → List Entry → List Tally
unfolding add_queued
rebuild baseline queued = add_queued (take max_residents baseline) queued

unfoldable pub set_baseline : PurchaseLog → Queue → List Tally → PurchaseLog
unfolding rebuild
set_baseline l q entries = if ltb max_residents (length entries) then l else record {
  baseline = entries;
  has_baseline = true;
  view = rebuild entries q.items;
  dirty = true;
}

abbrev pub refresh : PurchaseLog → Queue → PurchaseLog
refresh l q = record l { view = rebuild l.baseline q.items }

unfoldable pub count : PurchaseLog → Queue → PurchaseLog × ℕ
unfolding rebuild
count l q = (refresh l q, length (refresh l q).view)

unfoldable pub at : PurchaseLog → ℕ → Option Tally
at l index = get_elem? l.view index

unfoldable pub sum_drinks : List Tally → ℕ → ℕ
sum_drinks [] n = n
sum_drinks (t ∷ ts) n = sum_drinks ts (u16 (n + t.drinks))

unfoldable pub total_drinks : PurchaseLog → Queue → PurchaseLog × ℕ
unfolding rebuild sum_drinks
total_drinks l q = (refresh l q, sum_drinks (refresh l q).view 0)

unfoldable pub sum_rappen : List Tally → ℤ → ℤ
sum_rappen [] n = n
sum_rappen (t ∷ ts) n = sum_rappen ts (add_i32 n t.total_rappen)

unfoldable pub total_rappen : PurchaseLog → Queue → PurchaseLog × ℤ
unfolding rebuild sum_rappen
total_rappen l q = (refresh l q, sum_rappen (refresh l q).view (pos 0))

module _ {fs : LittleFs} where
  unfoldable pub begin : Storage fs → Queue → PurchaseLog
  unfolding rebuild
  begin s q = elim (Storage.read s summary_path max_summary_bytes) [
    | none ↦ record {
      baseline = [];
      has_baseline = false;
      view = rebuild [] q.items;
      dirty = false;
    }
    | some blob ↦ elim (decode_summary blob max_residents) [
      | none ↦ record {
        baseline = [];
        has_baseline = false;
        view = rebuild [] q.items;
        dirty = false;
      }
      | some ts ↦ record {
        baseline = ts;
        has_baseline = true;
        view = rebuild ts q.items;
        dirty = false;
      }
    ]
  ]

  unfoldable pub flush : Storage fs → PurchaseLog → Storage fs × PurchaseLog
  flush s l = if not l.dirty then (s, l) else elim (encode_summary l.baseline max_summary_bytes) [
    | none ↦ (s, l)
    | some blob ↦
        let (s', ok) = Storage.write s summary_path blob in
        if ok then (s', record l { dirty = false }) else (s', l)
  ]
