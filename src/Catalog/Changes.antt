-- ===== src/Catalog/Changes.antt =====
-- product_catalog.cpp: the four changes that the terminal makes.
use beer_tab.Common.{
  ℕ, zero, suc, ◌+◌, ◌≤◌, ◌<◌, ◌≡◌, refl, ap, List, [], ◌∷◌, ◌++◌, some, Bool, true, false, Text,
  print_text, ℤ, pos, negsuc, length, length-append, length-set, get_elem?, get_elem?-set_self, set,
  if◌then◌else◌, Bool-cases, Option-cases, inl, inr, arith,
}
use beer_tab.Settings.{max_products, max_active_products}
use beer_tab.Records.{Product}
use beer_tab.Catalog.{
  Catalog, active_count, count_active, can_restore, set_price, archive, restore, add_product,
}

-- No more products than the array holds, and no more active ones than the grid.
pub record IsBounded (c : Catalog) : Type 0 where
  pub stored : length c.items ≤ max_products
  pub shown : active_count c ≤ max_active_products

abbrev one_if : Bool → ℕ
one_if true = 1
one_if false = 0

count_active-set :
    (ps : List Product) (i : ℕ) (old new : Product)
    → get_elem? ps i ≡ some old
    → count_active (set ps i new) + one_if old.active ≡ count_active ps + one_if new.active
unfolding count_active
count_active-set [] i old new h = cc
count_active-set (p ∷ ps) zero old new h = ground (arith, h)
count_active-set (p ∷ ps) (suc i) old new h = ground (arith, count_active-set ps i old new h)

get_elem?_lt : (ps : List Product) (i : ℕ) {p : Product} → get_elem? ps i ≡ some p → i < length ps
get_elem?_lt [] i h = cc
get_elem?_lt (x ∷ ps) zero h = omega arith
get_elem?_lt (x ∷ ps) (suc i) h = omega (arith, get_elem?_lt ps i h)

count_active-append :
    (ps : List Product) (p : Product)
    → count_active (ps ++ (p ∷ [])) ≡ count_active ps + one_if p.active
unfolding count_active
count_active-append [] p = ground arith
count_active-append (q ∷ ps) p = ground (arith, count_active-append ps p)

set_price-IsBounded :
    (c : Catalog) (storage_index price_rappen : ℤ) (free_item : Bool)
    → IsBounded c
    → IsBounded (set_price c storage_index price_rappen free_item).0
unfolding set_price active_count
set_price-IsBounded c (negsuc n) price f v = v
set_price-IsBounded c (pos i) price f v = elim (Option-cases (get_elem? c.items i)) [
  | inl e ↦ ground (arith, e)
  | inr (p, e) ↦
      let p' = record p { price_rappen = if f then pos 0 else price; free_item = f } in
      ground (arith, e, length-set c.items i p', count_active-set c.items i p p' e)
]

archive-IsBounded :
    (c : Catalog) (storage_index : ℤ) → IsBounded c → IsBounded (archive c storage_index).0
unfolding archive active_count
archive-IsBounded c (negsuc n) v = v
archive-IsBounded c (pos i) v = elim (Option-cases (get_elem? c.items i)) [
  | inl e ↦ ground (arith, e)
  | inr (p, e) ↦
      let p' = record p { active = false } in
      ground (arith, e, length-set c.items i p', count_active-set c.items i p p' e)
]

restore-IsBounded :
    (c : Catalog) (storage_index : ℤ) → IsBounded c → IsBounded (restore c storage_index).0
unfolding restore active_count can_restore
restore-IsBounded c (negsuc n) v = v
restore-IsBounded c (pos i) v = elim (Option-cases (get_elem? c.items i)) [
  | inl e ↦ ground (arith, e)
  | inr (p, e) ↦
      let p' = record p { active = true } in
      ground (arith, e, length-set c.items i p', count_active-set c.items i p p' e)
]

add_product-IsBounded :
    (c : Catalog) (name : Text) (price_rappen : ℤ) (free_item : Bool)
    → IsBounded c
    → IsBounded (add_product c name price_rappen free_item).0
unfolding add_product active_count can_restore
add_product-IsBounded c name price f v =
    let p' : Product = record {
      barcode = [];
      name = print_text 40 name;
      price_rappen = price;
      free_item = f;
      image_url = [];
      active = true;
    } in
    ground (arith, length-append c.items (p' ∷ []), count_active-append c.items p')

-- The four changes that the screens make (a price, an archive, a restore and a new product) never
-- put more than 32 products in the catalog, nor more than eight on the grid.
pub changes-IsBounded :
    (c : Catalog) (storage_index price_rappen : ℤ) (free_item : Bool) (name : Text)
    → IsBounded c
    → IsBounded (set_price c storage_index price_rappen free_item).0
      × IsBounded (archive c storage_index).0
      × IsBounded (restore c storage_index).0
      × IsBounded (add_product c name price_rappen free_item).0
changes-IsBounded c i price f name v = (
  set_price-IsBounded c i price f v,
  archive-IsBounded c i v,
  restore-IsBounded c i v,
  add_product-IsBounded c name price f v,
)

set-set_self :
    (ps : List Product) (i : ℕ) (p q : Product)
    → get_elem? ps i ≡ some p
    → set (set ps i q) i p ≡ ps
set-set_self [] i p q h = refl
set-set_self (x ∷ ps) zero p q h = ground (arith, h)
set-set_self (x ∷ ps) (suc i) p q h = ap (λ t. x ∷ t) (set-set_self ps i p q h)

-- An archived beer can be put back: where an archive succeeds on a bounded catalog, a restore of the
-- same index succeeds next, and the products are those from before.
pub restore-archive :
    (c : Catalog) (storage_index : ℤ)
    → IsBounded c
    → (archive c storage_index).1 ≡ true
    → ((restore (archive c storage_index).0 storage_index).1 ≡ true)
      × ((restore (archive c storage_index).0 storage_index).0.items ≡ c.items)
unfolding archive restore active_count can_restore
restore-archive c (negsuc n) v h = cc
restore-archive c (pos i) v h = elim (Option-cases (get_elem? c.items i)) [
  | inl e ↦ ground (arith, e, h)
  | inr (p, e) ↦ elim (Bool-cases p.active) [
    | inr b ↦ ground (arith, e, b, h)
    | inl b ↦
        let p' = record p { active = false } in
        let p'' = record p { active = true } in
        ground (
          arith,
          e,
          b,
          h,
          count_active-set c.items i p p' e,
          get_elem?-set_self c.items i p',
          get_elem?_lt c.items i e,
          set-set_self c.items i p'' p',
        )
  ]
]
