-- ===== src/Codec/RoundTrip/Catalog.antt =====
-- catalog_codec.cpp: the product record. A section follows the decoder's pointer from field to field.
use Prim.Native.Nat.{bit_and}
use beer_tab.Common.{
  ℕ, ◌≡◌, refl, ap, ◌∙◌, List, [], ◌∷◌, ◌++◌, append_assoc, Bool, true, false, not, to_u32, to_i32,
  length, length-append, get_or, drop, ◌==◌, arith,
}
use beer_tab.Records.{Product, IsProduct}
use beer_tab.Codec.Bytes.{put_u32, get_u32, put_text, get_text}
use beer_tab.Codec.Fields.{length-put_text, get_text-put_text}
use beer_tab.Codec.Loops.{Layout, drop_next}
use beer_tab.Codec.Format.{catalog_record, put_product, get_product, catalog_flags}
use beer_tab.Codec.RoundTrip.Ints.{length-put_u32, price-put_u32}

flag_free : (f a : Bool) → not (bit_and (catalog_flags f a) 0x01 == 0) ≡ f
unfolding catalog_flags
flag_free true true = refl
flag_free true false = refl
flag_free false true = refl
flag_free false false = refl

flag_active : (f a : Bool) → not (bit_and (catalog_flags f a) 0x02 == 0) ≡ a
unfolding catalog_flags
flag_active true true = refl
flag_active true false = refl
flag_active false true = refl
flag_active false false = refl

module _ (s : Product) (rest : List ℕ) (h : IsProduct s) where
  abbrev product_from_4 : List ℕ
  product_from_4 = put_text 160 s.image_url ++ rest

  abbrev product_from_3 : List ℕ
  product_from_3 = (catalog_flags s.free_item s.active ∷ []) ++ product_from_4

  abbrev product_from_2 : List ℕ
  product_from_2 = put_u32 (to_u32 s.price_rappen) ++ product_from_3

  abbrev product_from_1 : List ℕ
  product_from_1 = put_text 40 s.name ++ product_from_2

  abbrev product_from_0 : List ℕ
  product_from_0 = put_text 14 s.barcode ++ product_from_1

  product_at_1 : drop 14 product_from_0 ≡ product_from_1
  product_at_1 =
      drop_next 0 14 product_from_0 (put_text 14 s.barcode) product_from_1 refl
        (length-put_text 14 s.barcode h.barcode_text)

  product_at_2 : drop 54 product_from_0 ≡ product_from_2
  product_at_2 =
      drop_next 14 40 product_from_0 (put_text 40 s.name) product_from_2 product_at_1
        (length-put_text 40 s.name h.name_text)

  product_at_3 : drop 58 product_from_0 ≡ product_from_3
  product_at_3 =
      drop_next 54 4 product_from_0 (put_u32 (to_u32 s.price_rappen)) product_from_3 product_at_2
        (length-put_u32 (to_u32 s.price_rappen))

  product_at_4 : drop 59 product_from_0 ≡ product_from_4
  product_at_4 =
      drop_next 58 1 product_from_0 ((catalog_flags s.free_item s.active ∷ [])) product_from_4
        product_at_3 refl

  get_product-from_0 : get_product product_from_0 ≡ s
  unfolding get_product catalog_flags
  get_product-from_0 = λ i. record {
    barcode = (get_text-put_text 14 s.barcode product_from_1 h.barcode_text) i;
    name =
        (ap (λ p. get_text 40 p 40) product_at_1
            ∙ get_text-put_text 40 s.name product_from_2 h.name_text)
          i;
    price_rappen =
        (ap (λ p. to_i32 (get_u32 p)) product_at_2
            ∙ price-put_u32 s.price_rappen product_from_3 h.price_range)
          i;
    free_item =
        (ap (λ p. not (bit_and (get_or p 0 0) 0x01 == 0)) product_at_3
            ∙ flag_free s.free_item s.active)
          i;
    active =
        (ap (λ p. not (bit_and (get_or p 0 0) 0x02 == 0)) product_at_3
            ∙ flag_active s.free_item s.active)
          i;
    image_url =
        (ap (λ p. get_text 160 p 160) product_at_4
            ∙ get_text-put_text 160 s.image_url rest h.image_url_text)
          i;
  }

pub length-put_product : (s : Product) → IsProduct s → length (put_product s) ≡ catalog_record
unfolding put_product
length-put_product s h = omega (
  arith,
  length-append (put_text 14 s.barcode) (
      put_text 40 s.name
      ++ (put_u32 (to_u32 s.price_rappen)
          ++ (catalog_flags s.free_item s.active ∷ put_text 160 s.image_url))),
  length-append (put_text 40 s.name) (
      put_u32 (to_u32 s.price_rappen)
      ++ (catalog_flags s.free_item s.active ∷ put_text 160 s.image_url)),
  length-append (put_u32 (to_u32 s.price_rappen))
      (catalog_flags s.free_item s.active ∷ put_text 160 s.image_url),
  length-put_text 14 s.barcode h.barcode_text,
  length-put_text 40 s.name h.name_text,
  length-put_u32 (to_u32 s.price_rappen),
  length-put_text 160 s.image_url h.image_url_text,
)

pub get_product-put_product :
    (s : Product) (rest : List ℕ) → IsProduct s → get_product (put_product s ++ rest) ≡ s
unfolding put_product
get_product-put_product s rest h = simp append_assoc (get_product-from_0 s rest h)

abbrev pub product_layout : Layout Product
product_layout = record {
  size = catalog_record;
  put = put_product;
  get = get_product;
  Fits = IsProduct;
  length-put = length-put_product;
  get-put = get_product-put_product;
}
