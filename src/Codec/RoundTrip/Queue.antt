-- ===== src/Codec/RoundTrip/Queue.antt =====
-- catalog_codec.cpp: the entry record. A section follows the decoder's pointer from field to field.
use beer_tab.Common.{
  ℕ, ◌≡◌, refl, ap, ◌∙◌, List, [], ◌∷◌, ◌++◌, append_assoc, Bool, true, false, not, to_u32, to_i32,
  length, length-append, get_or, drop, ◌==◌, if◌then◌else◌, arith,
}
use beer_tab.Records.{Entry, Kind, purchase, IsEntry}
use beer_tab.Codec.Bytes.{put_u32, get_u32, put_text, get_text}
use beer_tab.Codec.Fields.{length-put_text, get_text-put_text}
use beer_tab.Codec.Loops.{Layout, drop_next}
use beer_tab.Codec.Format.{queue_record, put_entry, get_entry, kind_byte, kind_of_byte}
use beer_tab.Codec.RoundTrip.Ints.{length-put_u32, price-put_u32}

kind_of_byte-kind_byte : (k : Kind) → kind_of_byte (kind_byte k) ≡ k
unfolding kind_of_byte kind_byte
kind_of_byte-kind_byte purchase = refl
kind_of_byte-kind_byte _ = refl

free_byte : (b : Bool) → not ((if b then 1 else 0) == 0) ≡ b
free_byte true = refl
free_byte false = refl

module _ (e : Entry) (rest : List ℕ) (h : IsEntry e) where
  abbrev entry_from_7 : List ℕ
  entry_from_7 = (kind_byte e.kind ∷ []) ++ rest

  abbrev entry_from_6 : List ℕ
  entry_from_6 = ((if e.free_item then 1 else 0) ∷ []) ++ entry_from_7

  abbrev entry_from_5 : List ℕ
  entry_from_5 = put_u32 (to_u32 e.price_rappen) ++ entry_from_6

  abbrev entry_from_4 : List ℕ
  entry_from_4 = put_text 24 e.resident_name ++ entry_from_5

  abbrev entry_from_3 : List ℕ
  entry_from_3 = put_text 12 e.resident_id ++ entry_from_4

  abbrev entry_from_2 : List ℕ
  entry_from_2 = put_text 40 e.product_name ++ entry_from_3

  abbrev entry_from_1 : List ℕ
  entry_from_1 = put_text 14 e.barcode ++ entry_from_2

  abbrev entry_from_0 : List ℕ
  entry_from_0 = put_text 24 e.transaction_id ++ entry_from_1

  entry_at_1 : drop 24 entry_from_0 ≡ entry_from_1
  entry_at_1 =
      drop_next 0 24 entry_from_0 (put_text 24 e.transaction_id) entry_from_1 refl
        (length-put_text 24 e.transaction_id h.transaction_id_text)

  entry_at_2 : drop 38 entry_from_0 ≡ entry_from_2
  entry_at_2 =
      drop_next 24 14 entry_from_0 (put_text 14 e.barcode) entry_from_2 entry_at_1
        (length-put_text 14 e.barcode h.barcode_text)

  entry_at_3 : drop 78 entry_from_0 ≡ entry_from_3
  entry_at_3 =
      drop_next 38 40 entry_from_0 (put_text 40 e.product_name) entry_from_3 entry_at_2
        (length-put_text 40 e.product_name h.product_name_text)

  entry_at_4 : drop 90 entry_from_0 ≡ entry_from_4
  entry_at_4 =
      drop_next 78 12 entry_from_0 (put_text 12 e.resident_id) entry_from_4 entry_at_3
        (length-put_text 12 e.resident_id h.resident_id_text)

  entry_at_5 : drop 114 entry_from_0 ≡ entry_from_5
  entry_at_5 =
      drop_next 90 24 entry_from_0 (put_text 24 e.resident_name) entry_from_5 entry_at_4
        (length-put_text 24 e.resident_name h.resident_name_text)

  entry_at_6 : drop 118 entry_from_0 ≡ entry_from_6
  entry_at_6 =
      drop_next 114 4 entry_from_0 (put_u32 (to_u32 e.price_rappen)) entry_from_6 entry_at_5
        (length-put_u32 (to_u32 e.price_rappen))

  entry_at_7 : drop 119 entry_from_0 ≡ entry_from_7
  entry_at_7 =
      drop_next 118 1 entry_from_0 (((if e.free_item then 1 else 0) ∷ [])) entry_from_7 entry_at_6
        refl

  get_entry-from_0 : get_entry entry_from_0 ≡ e
  unfolding get_entry
  get_entry-from_0 = λ i. record {
    transaction_id = (get_text-put_text 24 e.transaction_id entry_from_1 h.transaction_id_text) i;
    barcode =
        (ap (λ p. get_text 14 p 14) entry_at_1
            ∙ get_text-put_text 14 e.barcode entry_from_2 h.barcode_text)
          i;
    product_name =
        (ap (λ p. get_text 40 p 40) entry_at_2
            ∙ get_text-put_text 40 e.product_name entry_from_3 h.product_name_text)
          i;
    resident_id =
        (ap (λ p. get_text 12 p 12) entry_at_3
            ∙ get_text-put_text 12 e.resident_id entry_from_4 h.resident_id_text)
          i;
    resident_name =
        (ap (λ p. get_text 24 p 24) entry_at_4
            ∙ get_text-put_text 24 e.resident_name entry_from_5 h.resident_name_text)
          i;
    price_rappen =
        (ap (λ p. to_i32 (get_u32 p)) entry_at_5
            ∙ price-put_u32 e.price_rappen entry_from_6 h.price_range)
          i;
    free_item = (ap (λ p. not (get_or p 0 0 == 0)) entry_at_6 ∙ free_byte e.free_item) i;
    kind = (ap (λ p. kind_of_byte (get_or p 0 0)) entry_at_7 ∙ kind_of_byte-kind_byte e.kind) i;
  }

pub length-put_entry : (e : Entry) → IsEntry e → length (put_entry e) ≡ queue_record
unfolding put_entry
length-put_entry e h = omega (
  arith,
  length-append (put_text 24 e.transaction_id) (
      put_text 14 e.barcode
      ++ (put_text 40 e.product_name
          ++ (put_text 12 e.resident_id
              ++ (put_text 24 e.resident_name
                  ++ (put_u32 (to_u32 e.price_rappen)
                      ++ ((if e.free_item then 1 else 0) ∷ kind_byte e.kind ∷ [])))))),
  length-append (put_text 14 e.barcode) (
      put_text 40 e.product_name
      ++ (put_text 12 e.resident_id
          ++ (put_text 24 e.resident_name
              ++ (put_u32 (to_u32 e.price_rappen)
                  ++ ((if e.free_item then 1 else 0) ∷ kind_byte e.kind ∷ []))))),
  length-append (put_text 40 e.product_name) (
      put_text 12 e.resident_id
      ++ (put_text 24 e.resident_name
          ++ (put_u32 (to_u32 e.price_rappen)
              ++ ((if e.free_item then 1 else 0) ∷ kind_byte e.kind ∷ [])))),
  length-append (put_text 12 e.resident_id) (
      put_text 24 e.resident_name
      ++ (put_u32 (to_u32 e.price_rappen)
          ++ ((if e.free_item then 1 else 0) ∷ kind_byte e.kind ∷ []))),
  length-append (put_text 24 e.resident_name)
      (put_u32 (to_u32 e.price_rappen) ++ ((if e.free_item then 1 else 0) ∷ kind_byte e.kind ∷ [])),
  length-append (put_u32 (to_u32 e.price_rappen))
      ((if e.free_item then 1 else 0) ∷ kind_byte e.kind ∷ []),
  length-put_text 24 e.transaction_id h.transaction_id_text,
  length-put_text 14 e.barcode h.barcode_text,
  length-put_text 40 e.product_name h.product_name_text,
  length-put_text 12 e.resident_id h.resident_id_text,
  length-put_text 24 e.resident_name h.resident_name_text,
  length-put_u32 (to_u32 e.price_rappen),
)

pub get_entry-put_entry :
    (e : Entry) (rest : List ℕ) → IsEntry e → get_entry (put_entry e ++ rest) ≡ e
unfolding put_entry
get_entry-put_entry e rest h = simp append_assoc (get_entry-from_0 e rest h)

abbrev pub entry_layout : Layout Entry
entry_layout = record {
  size = queue_record;
  put = put_entry;
  get = get_entry;
  Fits = IsEntry;
  length-put = length-put_entry;
  get-put = get_entry-put_entry;
}
