-- ===== src/Codec/RoundTrip/Files.antt =====
-- catalog_codec.cpp: the four whole files.
use beer_tab.Common.{
  ℕ, ◌+◌, ◌*◌, ◌^◌, ◌≤◌, ◌<◌, ◌≡◌, ap, ◌∙◌, List, [], ◌++◌, append-nil, some, length, drop, arith,
}
use beer_tab.Records.{Product, Resident, Tally, Entry, IsProduct, IsResident, IsTally, IsEntry}
use beer_tab.Codec.Blob.{header_bytes, put_header, finalise, check}
use beer_tab.Codec.Check.{check-finalise, drop-finalise, length-finalise}
use beer_tab.Codec.Loops.{
  Layout, All, put_records, get_records, length-put_records, get_records-put_records,
}
use beer_tab.Codec.Format.{
  magic_catalog, magic_residents, magic_queue, magic_summary, catalog_record, resident_record,
  queue_record, summary_record, encode_catalog, decode_catalog, encode_residents, decode_residents,
  encode_queue, decode_queue, encode_summary, decode_summary,
}
use beer_tab.Codec.RoundTrip.Summary.{tally_layout}
use beer_tab.Codec.RoundTrip.Queue.{entry_layout}
use beer_tab.Codec.RoundTrip.Catalog.{product_layout}
use beer_tab.Codec.RoundTrip.Residents.{resident_layout}

-- The file that an encoder makes of the records `xs`.
module _ {ℓ} {A : Type ℓ} (l : Layout A) (magic revision seed_generation : ℕ) (xs : List A)
    (fit : All l.Fits xs) where
  abbrev file : List ℕ
  file =
      finalise
        (put_header magic l.size revision (length xs) seed_generation ++ put_records l.put xs)

  check-file :
      (capacity_items : ℕ)
      → magic < 2 ^ 32
      → l.size < 2 ^ 16
      → revision < 2 ^ 32
      → length xs < 2 ^ 8
      → seed_generation < 2 ^ 16
      → length xs ≤ capacity_items
      → check file magic l.size capacity_items
        ≡ some
            (record { count = length xs; revision = revision; seed_generation = seed_generation })
  check-file capacity_items hm hs hr hc hg room =
      check-finalise magic l.size revision (length xs) seed_generation (put_records l.put xs)
        capacity_items hm hs hr (omega arith) hg room (length-put_records l xs fit)

  length-file : length file ≡ header_bytes + length xs * l.size
  length-file =
      length-finalise magic l.size revision (length xs) seed_generation (put_records l.put xs)
      ∙ ap (λ (k : ℕ). header_bytes + k) (length-put_records l xs fit)

  get_records-file : get_records l.size l.get (length xs) (drop header_bytes file) ≡ xs
  get_records-file =
      ap (get_records l.size l.get (length xs)) payload ∙ get_records-put_records l xs [] fit
    where
      payload : drop header_bytes file ≡ put_records l.put xs ++ []
      payload =
          rw append-nil
            (drop-finalise magic l.size revision (length xs) seed_generation (put_records l.put xs))

-- A queue of entries that fit their arrays, no longer than the decoder's array and written to a
-- buffer that is large enough, is encoded in as many bytes as its header says, and decodes to itself.
pub decode_queue-encode_queue :
    (entries : List Entry) (capacity capacity_items : ℕ)
    → All IsEntry entries
    → length entries < 2 ^ 8
    → length entries ≤ capacity_items
    → header_bytes + length entries * queue_record ≤ capacity
    → (blob : List ℕ) × (encode_queue entries capacity ≡ some blob)
      × (length blob ≡ header_bytes + length entries * queue_record)
      × (decode_queue blob capacity_items ≡ some entries)
unfolding encode_queue decode_queue
decode_queue-encode_queue entries capacity capacity_items fit byte room large = (
  file entry_layout magic_queue 0 0 entries fit,
  ground arith,
  length-file entry_layout magic_queue 0 0 entries fit,
  rw
      (
        check-file entry_layout magic_queue 0 0 entries fit capacity_items (omega arith)
            (omega arith) (omega arith) byte (omega arith) room,
        decode_queue,
      )
      (ap some (get_records-file entry_layout magic_queue 0 0 entries fit)),
)

-- A list of tallies that fit their fields, no longer than the decoder's array and written to a
-- buffer that is large enough, is encoded in as many bytes as its header says, and decodes to itself.
pub decode_summary-encode_summary :
    (entries : List Tally) (capacity capacity_items : ℕ)
    → All IsTally entries
    → length entries < 2 ^ 8
    → length entries ≤ capacity_items
    → header_bytes + length entries * summary_record ≤ capacity
    → (blob : List ℕ) × (encode_summary entries capacity ≡ some blob)
      × (length blob ≡ header_bytes + length entries * summary_record)
      × (decode_summary blob capacity_items ≡ some entries)
unfolding encode_summary decode_summary
decode_summary-encode_summary entries capacity capacity_items fit byte room large = (
  file tally_layout magic_summary 0 0 entries fit,
  ground arith,
  length-file tally_layout magic_summary 0 0 entries fit,
  rw
      (
        check-file tally_layout magic_summary 0 0 entries fit capacity_items (omega arith)
            (omega arith) (omega arith) byte (omega arith) room,
        decode_summary,
      )
      (ap some (get_records-file tally_layout magic_summary 0 0 entries fit)),
)

-- A list of residents that fit their arrays, no longer than the decoder's array and written to a
-- buffer that is large enough, is encoded in as many bytes as its header says, and decodes to itself.
pub decode_residents-encode_residents :
    (entries : List Resident) (capacity capacity_items : ℕ)
    → All IsResident entries
    → length entries < 2 ^ 8
    → length entries ≤ capacity_items
    → header_bytes + length entries * resident_record ≤ capacity
    → (blob : List ℕ) × (encode_residents entries capacity ≡ some blob)
      × (length blob ≡ header_bytes + length entries * resident_record)
      × (decode_residents blob capacity_items ≡ some entries)
unfolding encode_residents decode_residents
decode_residents-encode_residents entries capacity capacity_items fit byte room large = (
  file resident_layout magic_residents 0 0 entries fit,
  ground arith,
  length-file resident_layout magic_residents 0 0 entries fit,
  rw
      (
        check-file resident_layout magic_residents 0 0 entries fit capacity_items (omega arith)
            (omega arith) (omega arith) byte (omega arith) room,
        decode_residents,
      )
      (ap some (get_records-file resident_layout magic_residents 0 0 entries fit)),
)

-- A catalog of products that fit their fields, no longer than the decoder's array and written to a
-- buffer that is large enough, is encoded in as many bytes as its header says, and decodes to itself with its revision and seed
-- generation.
pub decode_catalog-encode_catalog :
    (items : List Product) (revision seed_generation capacity capacity_items : ℕ)
    → All IsProduct items
    → revision < 2 ^ 32
    → seed_generation < 2 ^ 16
    → length items < 2 ^ 8
    → length items ≤ capacity_items
    → header_bytes + length items * catalog_record ≤ capacity
    → (blob : List ℕ) × (encode_catalog items revision seed_generation capacity ≡ some blob)
      × (length blob ≡ header_bytes + length items * catalog_record)
      × (decode_catalog blob capacity_items ≡ some (items, revision, seed_generation))
unfolding encode_catalog decode_catalog
decode_catalog-encode_catalog items revision generation capacity capacity_items fit hv hg byte room
      large =
    (
      file product_layout magic_catalog revision generation items fit,
      ground arith,
      length-file product_layout magic_catalog revision generation items fit,
      rw
          (
            check-file product_layout magic_catalog revision generation items fit capacity_items
                (omega arith) (omega arith) hv byte hg room,
            decode_catalog,
          )
          (ap (λ (ps : List Product). some (ps, revision, generation))
            (get_records-file product_layout magic_catalog revision generation items fit)),
    )
