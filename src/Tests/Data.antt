-- ===== src/Tests/Data.antt =====
-- Products, residents, lines and entries to run the development on.
use beer_tab.Common.{
  ℕ, ◌≡◌, refl, [], ◌∷◌, Bool, true, false, Text, ascii, pos, length, ltb, ◌&&◌, AllBytes, arith,
  IsText,
}
use beer_tab.Records.{
  Product, Resident, Tally, Entry, purchase, IsProduct, IsResident, IsTally, IsEntry,
}

abbrev pub lager : Product
lager = record {
  barcode = ascii "7610000000001";
  name = ascii "Lager";
  price_rappen = pos 250;
  free_item = false;
  image_url = [];
  active = true;
}

abbrev pub radler : Product
radler = record lager { barcode = []; name = ascii "Radler"; active = false }

abbrev pub anna : Resident
anna = record { id = ascii "r1"; name = ascii "Anna" }

abbrev pub anna_line : Tally
anna_line = record {
  resident_id = ascii "r1";
  resident_name = ascii "Anna";
  drinks = 3;
  total_rappen = pos 750;
}

abbrev pub first_beer : Entry
first_beer = record {
  transaction_id = ascii "t0000000a-00000001";
  barcode = [];
  product_name = ascii "Lager";
  resident_id = ascii "r1";
  resident_name = ascii "Anna";
  price_rappen = pos 250;
  free_item = false;
  kind = purchase;
}

abbrev pub second_beer : Entry
second_beer = record first_beer { transaction_id = ascii "t0000000b-00000002" }

-- A text that fits, as a test.
is_byte : ℕ → Bool
is_byte c = ltb 0 c && ltb c 256

all_bytes : Text → Bool
unfolding is_byte
all_bytes [] = true
all_bytes (c ∷ s) = is_byte c && all_bytes s

all_bytes_lem : (s : Text) → all_bytes s ≡ true → AllBytes s
unfolding all_bytes is_byte
all_bytes_lem [] h = tt
all_bytes_lem (c ∷ s) h =
    (ground (arith, h), ground (arith, h), all_bytes_lem s (ground (arith, h)))

is_text : ℕ → Text → Bool
is_text cap s = ltb (length s) cap && all_bytes s

is_text_lem : (cap : ℕ) (s : Text) → is_text cap s ≡ true → IsText cap s
unfolding is_text
is_text_lem cap s h = record {
  fits = ground (arith, h);
  bytes = all_bytes_lem s (ground (arith, h));
}

pub lager-IsProduct : IsProduct lager
unfolding is_text all_bytes is_byte
lager-IsProduct = record {
  barcode_text = is_text_lem 14 (ascii "7610000000001") refl;
  name_text = is_text_lem 40 (ascii "Lager") refl;
  price_range = (omega arith, omega arith);
  image_url_text = is_text_lem 160 [] refl;
}

pub radler-IsProduct : IsProduct radler
unfolding is_text all_bytes is_byte
radler-IsProduct = record {
  barcode_text = is_text_lem 14 [] refl;
  name_text = is_text_lem 40 (ascii "Radler") refl;
  price_range = (omega arith, omega arith);
  image_url_text = is_text_lem 160 [] refl;
}

pub anna-IsResident : IsResident anna
unfolding is_text all_bytes is_byte
anna-IsResident = record {
  id_text = is_text_lem 12 (ascii "r1") refl;
  name_text = is_text_lem 24 (ascii "Anna") refl;
}

pub anna_line-IsTally : IsTally anna_line
unfolding is_text all_bytes is_byte
anna_line-IsTally = record {
  resident_id_text = is_text_lem 12 (ascii "r1") refl;
  resident_name_text = is_text_lem 24 (ascii "Anna") refl;
  drinks_range = omega arith;
  total_range = (omega arith, omega arith);
}

-- A purchase by Anna of a Lager, whatever its id.
beer-IsEntry : (id : Text) → IsText 24 id → IsEntry (record first_beer { transaction_id = id })
unfolding is_text all_bytes is_byte
beer-IsEntry id h = record {
  transaction_id_text = h;
  barcode_text = is_text_lem 14 [] refl;
  product_name_text = is_text_lem 40 (ascii "Lager") refl;
  resident_id_text = is_text_lem 12 (ascii "r1") refl;
  resident_name_text = is_text_lem 24 (ascii "Anna") refl;
  price_range = (omega arith, omega arith);
}

pub first_beer-IsEntry : IsEntry first_beer
unfolding is_text all_bytes is_byte
first_beer-IsEntry =
    beer-IsEntry (ascii "t0000000a-00000001") (is_text_lem 24 (ascii "t0000000a-00000001") refl)

pub second_beer-IsEntry : IsEntry second_beer
unfolding is_text all_bytes is_byte
second_beer-IsEntry =
    beer-IsEntry (ascii "t0000000b-00000002") (is_text_lem 24 (ascii "t0000000b-00000002") refl)
