-- ===== src/Records.antt =====
-- The structs that the components share: `product_catalog::Product`, `resident_directory::Entry`,
-- `purchase_log::Tally` and `transaction_queue::Entry` with its `Kind`
-- (firmware/beer_terminal/*.h). A `char` array is a `Text`, an `int32_t` an integer.
use beer_tab.Common.{ℕ, ◌^◌, ◌<◌, Bool, Text, IsText, ℤ, IsI32}

pub record Product : Type 0 where
  pub barcode : Text
  pub name : Text
  pub price_rappen : ℤ
  pub free_item : Bool
  pub image_url : Text
  pub active : Bool

pub record Resident : Type 0 where
  pub id : Text
  pub name : Text

pub record Tally : Type 0 where
  pub resident_id : Text
  pub resident_name : Text
  pub drinks : ℕ
  pub total_rappen : ℤ

pub data Kind : Type 0 where
  purchase void archive restore create change_price : Kind

pub record Entry : Type 0 where
  pub transaction_id : Text
  pub barcode : Text
  pub product_name : Text
  pub resident_id : Text
  pub resident_name : Text
  pub price_rappen : ℤ
  pub free_item : Bool
  pub kind : Kind

-- What the C types hold: each string fits its array, each integer its width.
pub record IsProduct (p : Product) : Type 0 where
  pub barcode_text : IsText 14 p.barcode
  pub name_text : IsText 40 p.name
  pub price_range : IsI32 p.price_rappen
  pub image_url_text : IsText 160 p.image_url

pub record IsResident (r : Resident) : Type 0 where
  pub id_text : IsText 12 r.id
  pub name_text : IsText 24 r.name

pub record IsTally (t : Tally) : Type 0 where
  pub resident_id_text : IsText 12 t.resident_id
  pub resident_name_text : IsText 24 t.resident_name
  pub drinks_range : t.drinks < 2 ^ 16
  pub total_range : IsI32 t.total_rappen

pub record IsEntry (e : Entry) : Type 0 where
  pub transaction_id_text : IsText 24 e.transaction_id
  pub barcode_text : IsText 14 e.barcode
  pub product_name_text : IsText 40 e.product_name
  pub resident_id_text : IsText 12 e.resident_id
  pub resident_name_text : IsText 24 e.resident_name
  pub price_range : IsI32 e.price_rappen
