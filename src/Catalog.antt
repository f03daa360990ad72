-- ===== src/Catalog.antt =====
-- firmware/beer_terminal/product_catalog.cpp. The first `g_count` elements of `g_items` are the list
-- `items`. An index that is -1 where there is none is an integer.
pub mod Selection
pub mod Changes
pub mod Sync
pub mod Price
use beer_tab.Common.{
  ℕ, zero, suc, ◌+◌, ◌-◌, ◌/◌, ◌%◌, List, [], ◌∷◌, ◌++◌, Option, none, some, Bool, true, false, not,
  ◌&&◌, ◌||◌, Text, ascii, is_empty, text_eq, print_text, ℤ, pos, negsuc, ltb_ℤ, eq_ℤ, length,
  get_elem?, set, ltb, leb, ◌==◌, if◌then◌else◌,
}
use beer_tab.Settings.{max_products, max_active_products}
use beer_tab.Records.{Product}
use beer_tab.Codec.Format.{encode_catalog, decode_catalog, max_catalog_bytes}
use beer_tab.Storage
use beer_tab.Storage.{LittleFs, Storage}

pub record Catalog : Type 0 where
  pub items : List Product
  pub revision : ℕ
  pub dirty : Bool

abbrev pub catalog_path : Text
catalog_path = ascii "/catalog.bin"

abbrev pub seed_generation : ℕ
seed_generation = 2

-- `add`: nothing is added to a full array.
unfoldable pub add : List Product → Text → Text → ℤ → Bool → Text → Bool → List Product
add items barcode name rappen free_item image_url active =
    if leb max_products (length items)
    then items
    else items
      ++ (record {
        barcode = print_text 14 barcode;
        name = print_text 40 name;
        price_rappen = rappen;
        free_item = free_item;
        image_url = print_text 160 image_url;
        active = active;
      }
          ∷ [])

-- The literals are UTF-8: an umlaut is two bytes.
unfoldable pub seed : List Product
unfolding add
seed =
    let s0 =
      add [] (ascii "7610807000016") (ascii "Feldschl" ++ (0xC3 ∷ 0xB6 ∷ ascii "sschen Original"))
        (pos 180) false [] true in
    let s1 =
      add s0 (ascii "7610827000027") (ascii "Appenzeller Qu" ++ (0xC3 ∷ 0xB6 ∷ ascii "llfrisch"))
        (pos 220) false [] true in
    let s2 =
      add s1 (ascii "7610900000036") (ascii "Calanda Br" ++ (0xC3 ∷ 0xA4 ∷ ascii "u")) (pos 190)
        false [] false in
    let s3 = add s2 (ascii "7613100000042") (ascii "Chopfab Draft") (pos 260) false [] false in
    let s4 =
      add s3 (ascii "7610827000058") (ascii "Appenzeller Naturperle") (pos 240) false [] false in
    let s5 = add s4 (ascii "7610013000060") (ascii "Boxer Old") (pos 170) false [] false in
    let s6 =
      add s5 (ascii "7610700000076") (ascii "Valaisanne Pale Ale") (pos 280) false [] false in
    add s6 (ascii "7613300000088") (ascii "Turbinenbr" ++ (0xC3 ∷ 0xA4 ∷ ascii "u Gassenhauer"))
      (pos 0) true [] false

-- `active == want_active`.
abbrev pub same : Bool → Bool → Bool
same true b = b
same false b = not b

-- The loop of `nth_matching` from storage index `i` on, with `seen` matches behind it.
nth_matching_from : List Product → ℕ → Bool → ℕ → ℕ → ℤ
nth_matching_from [] index want_active i seen = negsuc 0
nth_matching_from (p ∷ ps) index want_active i seen =
    let later = nth_matching_from ps index want_active (suc i) seen in
    let after_match = nth_matching_from ps index want_active (suc i) (suc seen) in
    if not (same p.active want_active) then later else if seen == index then pos i else after_match

unfoldable pub nth_matching : Catalog → ℕ → Bool → ℤ
unfolding nth_matching_from
nth_matching c index want_active = nth_matching_from c.items index want_active 0 0

unfoldable pub count_active : List Product → ℕ
count_active [] = 0
count_active (p ∷ ps) = let n = count_active ps in if p.active then suc n else n

unfoldable pub active_count : Catalog → ℕ
unfolding count_active
active_count c = count_active c.items

count_archived : List Product → ℕ
count_archived [] = 0
count_archived (p ∷ ps) = let n = count_archived ps in if p.active then n else suc n

unfoldable pub archived_count : Catalog → ℕ
unfolding count_archived
archived_count c = count_archived c.items

-- The element at a storage index, if the index is not negative and below the count.
unfoldable pub at_storage : Catalog → ℤ → Option Product
at_storage c (pos i) = get_elem? c.items i
at_storage c (negsuc n) = none

unfoldable pub storage_index_of_active : Catalog → ℕ → ℤ
storage_index_of_active c index = nth_matching c index true

unfoldable pub storage_index_of_archived : Catalog → ℕ → ℤ
storage_index_of_archived c index = nth_matching c index false

unfoldable pub active_at : Catalog → ℕ → Option Product
unfolding at_storage
active_at c index = at_storage c (nth_matching c index true)

unfoldable pub archived_at : Catalog → ℕ → Option Product
unfolding at_storage
archived_at c index = at_storage c (nth_matching c index false)

unfoldable pub can_restore : Catalog → Bool
can_restore c = ltb (active_count c) max_active_products

-- A write to the product at a storage index that is in range.
abbrev pub put_at : Catalog → ℕ → Product → Catalog × Bool
put_at c i p = (record c { items = set c.items i p; dirty = true }, true)

set_price_at : Catalog → ℕ → Product → ℤ → Bool → Catalog × Bool
set_price_at c i p price_rappen free_item =
    if ltb_ℤ price_rappen (pos 0) || ltb_ℤ (pos 9999) price_rappen
    then (c, false)
    else if not free_item && eq_ℤ price_rappen (pos 0)
    then (c, false)
    else put_at c i (record p {
      price_rappen = if free_item then pos 0 else price_rappen;
      free_item = free_item;
    })

archive_at : Catalog → ℕ → Product → Catalog × Bool
archive_at c i p = if not p.active then (c, false) else put_at c i (record p { active = false })

restore_at : Catalog → ℕ → Product → Catalog × Bool
restore_at c i p =
    if p.active || not (can_restore c) then (c, false) else put_at c i (record p { active = true })

-- The guard on the storage index that the three changes share: a change of the product there, or
-- false.
abbrev at_index : Catalog → ℤ → (ℕ → Product → Catalog × Bool) → Catalog × Bool
at_index c (pos i) change = elim (get_elem? c.items i) [ none ↦ (c, false) | some p ↦ change i p ]
at_index c (negsuc n) change = (c, false)

unfoldable pub set_price : Catalog → ℤ → ℤ → Bool → Catalog × Bool
unfolding set_price_at
set_price c storage_index price_rappen free_item =
    at_index c storage_index (λ i p. set_price_at c i p price_rappen free_item)

unfoldable pub archive : Catalog → ℤ → Catalog × Bool
unfolding archive_at
archive c storage_index = at_index c storage_index (archive_at c)

unfoldable pub restore : Catalog → ℤ → Catalog × Bool
unfolding restore_at
restore c storage_index = at_index c storage_index (restore_at c)

-- The new product's storage index, or -1.
unfoldable pub add_product : Catalog → Text → ℤ → Bool → Catalog × ℤ
unfolding add
add_product c name price_rappen free_item =
    let items = add c.items [] name price_rappen free_item [] true in
    if is_empty name
    then (c, negsuc 0)
    else if not (can_restore c) || leb max_products (length c.items)
    then (c, negsuc 0)
    else (record c { items = items; dirty = true }, pos (length items - 1))

-- The products with no barcode, which exist on this device only.
unfoldable pub local_products : List Product → List Product
local_products [] = []
local_products (p ∷ ps) =
    let rest = local_products ps in if is_empty p.barcode then p ∷ rest else rest

unfoldable pub superseded : List Product → Product → Bool
superseded [] p = false
superseded (s ∷ ss) p = text_eq s.name p.name || superseded ss p

-- The second loop of `replace_all`: the local products that are not superseded, while there is room.
unfoldable pub append_local : List Product → List Product → List Product → List Product
append_local synced acc [] = acc
append_local synced acc (p ∷ ps) =
    append_local synced
      (if leb max_products (length acc)
        then acc
        else if superseded synced p
        then acc
        else acc ++ (p ∷ []))
      ps

unfoldable pub replace_all : Catalog → List Product → ℕ → Catalog × Bool
unfolding local_products append_local
replace_all c synced revision = if ltb max_products (length synced) then (c, false) else (
  record {
    items = append_local synced synced (local_products c.items);
    revision = revision;
    dirty = true;
  },
  true,
)

find_from : List Product → ℕ → Text → ℤ
find_from [] i barcode = negsuc 0
find_from (p ∷ ps) i barcode =
    let later = find_from ps (suc i) barcode in if text_eq p.barcode barcode then pos i else later

unfoldable pub find : Catalog → Text → ℤ
unfolding find_from
find c barcode = if is_empty barcode then negsuc 0 else find_from c.items 0 barcode

unfoldable pub set_revision : Catalog → ℕ → Catalog
set_revision c r = if r == c.revision then c else record c { revision = r; dirty = true }

module _ {fs : LittleFs} where
  unfoldable pub flush : Storage fs → Catalog → Storage fs × Catalog
  flush s c =
      if not c.dirty
      then (s, c)
      else elim (encode_catalog c.items c.revision seed_generation max_catalog_bytes) [
        | none ↦ (s, c)
        | some blob ↦
            let (s', ok) = Storage.write s catalog_path blob in
            if ok then (s', record c { dirty = false }) else (s', c)
      ]

  -- A fresh seed, which is written at once.
  unfoldable pub reseed : Storage fs → Storage fs × Catalog
  unfolding seed
  reseed s = flush s (record { items = seed; revision = 0; dirty = true })

  unfoldable pub begin : Storage fs → Storage fs × Catalog
  begin s = elim (Storage.read s catalog_path max_catalog_bytes) [
    | none ↦ reseed s
    | some blob ↦ elim (decode_catalog blob max_products) [
      | none ↦ reseed s
      | some (items, revision, generation) ↦
          if revision == 0 && not (generation == seed_generation)
          then reseed s
          else (s, record { items = items; revision = revision; dirty = false })
    ]
  ]
