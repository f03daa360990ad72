-- ===== src/Codec/Format.antt =====
-- catalog_codec.cpp: the four record layouts, their encoders and their decoders. An encoder gives
-- the bytes that it wrote, or `none` where the source returns 0; a decoder gives what it wrote
-- through its out-parameters, or `none` where the source returns false. The null checks of the
-- source have no counterpart: an array is a list.
use Prim.Native.Nat.{bit_and, bit_or}
use beer_tab.Common.{
  ℕ, ◌+◌, ◌*◌, List, [], ◌∷◌, ◌++◌, Option, none, some, Bool, not, to_u32, to_i32, length, get_or,
  drop, ltb, ◌==◌, if◌then◌else◌,
}
use beer_tab.Settings.{max_products, max_residents, max_queued_transactions}
use beer_tab.Records.{
  Product, Resident, Tally, Entry, Kind, purchase, void, archive, restore, create, change_price,
}
use beer_tab.Codec.Bytes.{put_u16, put_u32, get_u16, get_u32, put_text, get_text}
use beer_tab.Codec.Blob.{header_bytes, put_header, finalise, check}
use beer_tab.Codec.Loops.{put_records, get_records}

abbrev pub magic_catalog : ℕ
magic_catalog = 0x31545242

abbrev pub magic_residents : ℕ
magic_residents = 0x31545252

abbrev pub magic_queue : ℕ
magic_queue = 0x31545451

abbrev pub magic_summary : ℕ
magic_summary = 0x31545553

-- The fields are 14, 40, 4, 1 and 160 bytes wide.
abbrev pub catalog_record : ℕ
catalog_record = 14 + 40 + 4 + 1 + 160

abbrev pub resident_record : ℕ
resident_record = 12 + 24

abbrev pub summary_record : ℕ
summary_record = 12 + 24 + 2 + 4

abbrev pub queue_record : ℕ
queue_record = 24 + 14 + 40 + 12 + 24 + 4 + 1 + 1

unfoldable pub max_catalog_bytes : ℕ
max_catalog_bytes = header_bytes + max_products * catalog_record

unfoldable pub max_residents_bytes : ℕ
max_residents_bytes = header_bytes + max_residents * resident_record

unfoldable pub max_queue_bytes : ℕ
max_queue_bytes = header_bytes + max_queued_transactions * queue_record

-- `kMaxSummaryBytes` of catalog_codec.h.
unfoldable pub max_summary_bytes : ℕ
max_summary_bytes = header_bytes + max_residents * summary_record

unfoldable pub put_tally : Tally → List ℕ
put_tally t =
    put_text 12 t.resident_id
    ++ (put_text 24 t.resident_name ++ (put_u16 t.drinks ++ put_u32 (to_u32 t.total_rappen)))

unfoldable pub get_tally : List ℕ → Tally
get_tally p = record {
  resident_id = get_text 12 p 12;
  resident_name = get_text 24 (drop 12 p) 24;
  drinks = get_u16 (drop (12 + 24) p);
  total_rappen = to_i32 (get_u32 (drop (12 + 24 + 2) p));
}

unfoldable pub encode_summary : List Tally → ℕ → Option (List ℕ)
encode_summary entries capacity =
    let len = header_bytes + length entries * summary_record in
    if ltb capacity len
    then none
    else some (
        finalise (
          put_header magic_summary summary_record 0 (length entries) 0
          ++ put_records put_tally entries))

unfoldable pub decode_summary : List ℕ → ℕ → Option (List Tally)
decode_summary blob capacity_items = elim (check blob magic_summary summary_record capacity_items) [
  | none ↦ none
  | some h ↦ some (get_records summary_record get_tally h.count (drop header_bytes blob))
]

unfoldable pub kind_byte : Kind → ℕ
kind_byte purchase = 0
kind_byte void = 1
kind_byte archive = 2
kind_byte restore = 3
kind_byte create = 4
kind_byte change_price = 5

-- Anything but a known marker decodes as a purchase.
unfoldable pub kind_of_byte : ℕ → Kind
kind_of_byte b =
    if b == 1
    then void
    else if b == 2
    then archive
    else if b == 3
    then restore
    else if b == 4
    then create
    else if b == 5
    then change_price
    else purchase

unfoldable pub put_entry : Entry → List ℕ
put_entry e =
    put_text 24 e.transaction_id
    ++ (put_text 14 e.barcode
        ++ (put_text 40 e.product_name
            ++ (put_text 12 e.resident_id
                ++ (put_text 24 e.resident_name
                    ++ (put_u32 (to_u32 e.price_rappen)
                        ++ ((if e.free_item then 1 else 0) ∷ kind_byte e.kind ∷ []))))))

unfoldable pub get_entry : List ℕ → Entry
get_entry p = record {
  transaction_id = get_text 24 p 24;
  barcode = get_text 14 (drop 24 p) 14;
  product_name = get_text 40 (drop (24 + 14) p) 40;
  resident_id = get_text 12 (drop (24 + 14 + 40) p) 12;
  resident_name = get_text 24 (drop (24 + 14 + 40 + 12) p) 24;
  price_rappen = to_i32 (get_u32 (drop (24 + 14 + 40 + 12 + 24) p));
  free_item = not (get_or (drop (24 + 14 + 40 + 12 + 24 + 4) p) 0 0 == 0);
  kind = kind_of_byte (get_or (drop (24 + 14 + 40 + 12 + 24 + 5) p) 0 0);
}

unfoldable pub encode_queue : List Entry → ℕ → Option (List ℕ)
encode_queue entries capacity =
    let len = header_bytes + length entries * queue_record in
    if ltb capacity len
    then none
    else some (
        finalise (
          put_header magic_queue queue_record 0 (length entries) 0
          ++ put_records put_entry entries))

unfoldable pub decode_queue : List ℕ → ℕ → Option (List Entry)
decode_queue blob capacity_items = elim (check blob magic_queue queue_record capacity_items) [
  | none ↦ none
  | some h ↦ some (get_records queue_record get_entry h.count (drop header_bytes blob))
]

unfoldable pub catalog_flags : Bool → Bool → ℕ
catalog_flags free_item active = bit_or (if free_item then 0x01 else 0) (if active then 0x02 else 0)

unfoldable pub put_product : Product → List ℕ
put_product s =
    put_text 14 s.barcode
    ++ (put_text 40 s.name
        ++ (put_u32 (to_u32 s.price_rappen)
            ++ (catalog_flags s.free_item s.active ∷ put_text 160 s.image_url)))

unfoldable pub get_product : List ℕ → Product
get_product p =
    let flags = get_or (drop (14 + 40 + 4) p) 0 0 in
    record {
      barcode = get_text 14 p 14;
      name = get_text 40 (drop 14 p) 40;
      price_rappen = to_i32 (get_u32 (drop (14 + 40) p));
      free_item = not (bit_and flags 0x01 == 0);
      image_url = get_text 160 (drop (14 + 40 + 5) p) 160;
      active = not (bit_and flags 0x02 == 0);
    }

unfoldable pub encode_catalog : List Product → ℕ → ℕ → ℕ → Option (List ℕ)
encode_catalog items revision seed_generation capacity =
    let len = header_bytes + length items * catalog_record in
    if ltb capacity len
    then none
    else some (
        finalise (
          put_header magic_catalog catalog_record revision (length items) seed_generation
          ++ put_records put_product items))

-- The products, the revision and the seed generation.
unfoldable pub decode_catalog : List ℕ → ℕ → Option (List Product × ℕ × ℕ)
decode_catalog blob capacity_items = elim (check blob magic_catalog catalog_record capacity_items) [
  | none ↦ none
  | some h ↦ some (
    get_records catalog_record get_product h.count (drop header_bytes blob),
    h.revision,
    h.seed_generation,
  )
]

unfoldable pub put_resident : Resident → List ℕ
put_resident r = put_text 12 r.id ++ put_text 24 r.name

unfoldable pub get_resident : List ℕ → Resident
get_resident p = record { id = get_text 12 p 12; name = get_text 24 (drop 12 p) 24 }

unfoldable pub encode_residents : List Resident → ℕ → Option (List ℕ)
encode_residents entries capacity =
    let len = header_bytes + length entries * resident_record in
    if ltb capacity len
    then none
    else some (
        finalise (
          put_header magic_residents resident_record 0 (length entries) 0
          ++ put_records put_resident entries))

unfoldable pub decode_residents : List ℕ → ℕ → Option (List Resident)
decode_residents blob capacity_items =
    elim (check blob magic_residents resident_record capacity_items) [
      | none ↦ none
      | some h ↦ some (get_records resident_record get_resident h.count (drop header_bytes blob))
    ]
