-- ===== src/Tests/Files.antt =====
-- Files, their codec and the volume.
use beer_tab.Common.{
  ℕ, ◌+◌, ◌*◌, ◌<◌, ◌≡◌, ◌≢◌, refl, List, [], ◌∷◌, ◌++◌, none, some, Text, ascii, text_eq,
  text_eq_iff, length, take, arith,
}
use beer_tab.Settings.{max_queued_transactions, max_residents, max_products}
use beer_tab.Codec.Blob.{
  header_bytes, check, finalise, put_header, crc32, crc_feed, crc_byte, crc_begin, crc_end,
}
use beer_tab.Codec.Loops.{All}
use beer_tab.Codec.Format.{
  encode_queue, decode_queue, encode_summary, decode_summary, encode_residents, decode_residents,
  encode_catalog, decode_catalog, queue_record, summary_record, resident_record, catalog_record,
  max_queue_bytes, max_summary_bytes, max_residents_bytes, max_catalog_bytes,
}
use beer_tab.Codec.Check.{check-finalise, length-finalise}
use beer_tab.Codec.RoundTrip.Files.{
  decode_queue-encode_queue, decode_summary-encode_summary, decode_residents-encode_residents,
  decode_catalog-encode_catalog,
}
use beer_tab.Codec.RoundTrip.Truncation.{check-take}
use beer_tab.Storage.{temp_path, read, write, replace_file}
use beer_tab.Storage.Laws.{read-write}
use beer_tab.Storage.Crash.{write_disks, IsWhole, write_disks-IsWhole}
use beer_tab.Tests.Volume.{ram_laws, blank}
use beer_tab.Tests.Data.{
  first_beer, second_beer, anna, anna_line, lager, radler, first_beer-IsEntry, second_beer-IsEntry,
  anna-IsResident, anna_line-IsTally, lager-IsProduct, radler-IsProduct,
}

-- The checksum of zlib and of the TypeScript gateway.
crc32_check : crc32 (ascii "123456789") ≡ 0xCBF43926
unfolding crc32 crc_feed crc_byte crc_begin crc_end
crc32_check = refl

decode_queue-encode_queue_example :
    (blob : List ℕ) × (encode_queue (first_beer ∷ second_beer ∷ []) max_queue_bytes ≡ some blob)
    × (length blob ≡ header_bytes + 2 * queue_record)
    × (decode_queue blob max_queued_transactions ≡ some (first_beer ∷ second_beer ∷ []))
unfolding max_queue_bytes
decode_queue-encode_queue_example =
    decode_queue-encode_queue (first_beer ∷ second_beer ∷ []) max_queue_bytes
      max_queued_transactions (first_beer-IsEntry, (second_beer-IsEntry, tt)) (omega arith)
      (omega arith) (omega arith)

decode_summary-encode_summary_example :
    (blob : List ℕ) × (encode_summary (anna_line ∷ []) max_summary_bytes ≡ some blob)
    × (length blob ≡ header_bytes + 1 * summary_record)
    × (decode_summary blob max_residents ≡ some (anna_line ∷ []))
unfolding max_summary_bytes
decode_summary-encode_summary_example =
    decode_summary-encode_summary (anna_line ∷ []) max_summary_bytes max_residents
      (anna_line-IsTally, tt) (omega arith) (omega arith) (omega arith)

decode_residents-encode_residents_example :
    (blob : List ℕ) × (encode_residents (anna ∷ []) max_residents_bytes ≡ some blob)
    × (length blob ≡ header_bytes + 1 * resident_record)
    × (decode_residents blob max_residents ≡ some (anna ∷ []))
unfolding max_residents_bytes
decode_residents-encode_residents_example =
    decode_residents-encode_residents (anna ∷ []) max_residents_bytes max_residents
      (anna-IsResident, tt) (omega arith) (omega arith) (omega arith)

decode_catalog-encode_catalog_example :
    (blob : List ℕ) × (encode_catalog (lager ∷ radler ∷ []) 7 2 max_catalog_bytes ≡ some blob)
    × (length blob ≡ header_bytes + 2 * catalog_record)
    × (decode_catalog blob max_products ≡ some (lager ∷ radler ∷ [], 7, 2))
unfolding max_catalog_bytes
decode_catalog-encode_catalog_example =
    decode_catalog-encode_catalog (lager ∷ radler ∷ []) 7 2 max_catalog_bytes max_products
      (lager-IsProduct, (radler-IsProduct, tt)) (omega arith) (omega arith) (omega arith)
      (omega arith) (omega arith)

-- Two records of three bytes.
abbrev small_blob : List ℕ
small_blob = finalise (put_header 66 3 5 2 1 ++ (1 ∷ 2 ∷ 3 ∷ 4 ∷ 5 ∷ 6 ∷ []))

small_blob_accepted :
    check small_blob 66 3 4 ≡ some (record { count = 2; revision = 5; seed_generation = 1 })
small_blob_accepted =
    check-finalise 66 3 5 2 1 (1 ∷ 2 ∷ 3 ∷ 4 ∷ 5 ∷ 6 ∷ []) 4 (omega arith) (omega arith)
      (omega arith) (omega arith) (omega arith) (omega arith) (omega arith)

small_blob_long : 21 < length small_blob
small_blob_long = omega (arith, length-finalise 66 3 5 2 1 (1 ∷ 2 ∷ 3 ∷ 4 ∷ 5 ∷ 6 ∷ []))

check-take_example : check (take 21 small_blob) 66 3 4 ≡ none
check-take_example = check-take small_blob 66 3 4 21 small_blob_accepted small_blob_long

abbrev a_path : Text
a_path = ascii "/a.bin"

a_path-ne-temp : a_path ≢ temp_path a_path
unfolding text_eq
a_path-ne-temp e = cc ((text_eq_iff a_path (temp_path a_path)).1 e)

read-write_example : read (write blank a_path (1 ∷ 2 ∷ [])).0 a_path 4 ≡ some (1 ∷ 2 ∷ [])
unfolding write replace_file text_eq
read-write_example =
    read-write ram_laws blank a_path (1 ∷ 2 ∷ []) 4 a_path-ne-temp (omega arith) refl

write_disks-IsWhole_example :
    All (IsWhole ram_laws blank a_path (1 ∷ 2 ∷ [])) (write_disks blank a_path (1 ∷ 2 ∷ []))
write_disks-IsWhole_example = write_disks-IsWhole ram_laws blank a_path (1 ∷ 2 ∷ []) a_path-ne-temp
