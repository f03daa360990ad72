-- ===== src/Codec/Check.antt =====
-- catalog_codec.cpp: `check` on a blob that `finalise` made.
use beer_tab.Common.{
  ℕ, ◌+◌, ◌*◌, ◌^◌, ◌≤◌, ◌<◌, ◌≡◌, refl, ap, sym, List, [], ◌∷◌, ◌++◌, some, length, drop, arith,
}
use beer_tab.Codec.Bytes.{put_u16, put_u32, get_u16, get_u32}
use beer_tab.Codec.Fields.{get_u16-put_u16, get_u32-put_u32}
use beer_tab.Codec.Blob.{
  header_bytes, format_version, put_header, finalise, check, crc_of_blob, crc32, crc_feed, crc_byte,
  crc_begin, crc_end,
}

crc_feed-append : (c : ℕ) (xs ys : List ℕ) → crc_feed c (xs ++ ys) ≡ crc_feed (crc_feed c xs) ys
unfolding crc_feed
crc_feed-append c [] ys = refl
crc_feed-append c (x ∷ xs) ys = crc_feed-append (crc_byte c x) xs ys

pub crc_end_lt : (c : ℕ) → crc_end c < 2 ^ 32
unfolding crc_end
crc_end_lt c = omega arith

module _ (magic record_size revision count seed_generation : ℕ) (payload : List ℕ) where
  abbrev zeroed : List ℕ
  zeroed = put_header magic record_size revision count seed_generation ++ payload

  -- The sixteen bytes before the checksum.
  abbrev front : List ℕ
  front =
      put_u32 magic
      ++ (put_u16 format_version
          ++ (put_u16 record_size
              ++ (put_u32 revision ++ (put_u16 count ++ put_u16 seed_generation))))

  pub finalise-put_header : finalise zeroed ≡ front ++ (put_u32 (crc32 zeroed) ++ payload)
  unfolding finalise put_header put_u16 put_u32
  finalise-put_header = refl

  pub length-finalise : length (finalise zeroed) ≡ header_bytes + length payload
  unfolding finalise put_header put_u16 put_u32
  length-finalise = omega arith

  pub drop-finalise : drop header_bytes (finalise zeroed) ≡ payload
  unfolding finalise put_header put_u16 put_u32
  drop-finalise = refl

  crc_of_blob-finalise : crc_of_blob (finalise zeroed) ≡ crc32 zeroed
  unfolding finalise put_header put_u16 put_u32 crc_of_blob crc32
  crc_of_blob-finalise = ap crc_end (
      sym (
        crc_feed-append crc_begin (put_header magic record_size revision count seed_generation)
          payload))

  crc32_lt : crc32 zeroed < 2 ^ 32
  unfolding crc32
  crc32_lt = crc_end_lt (crc_feed crc_begin zeroed)

  stored-finalise : get_u32 (drop 16 (finalise zeroed)) ≡ crc32 zeroed
  unfolding finalise put_header put_u16 put_u32
  stored-finalise = get_u32-put_u32 (crc32 zeroed) payload crc32_lt

  magic-finalise : magic < 2 ^ 32 → get_u32 (finalise zeroed) ≡ magic
  unfolding finalise put_header put_u16 put_u32
  magic-finalise h = get_u32-put_u32 magic _ h

  version-finalise : get_u16 (drop 4 (finalise zeroed)) ≡ format_version
  unfolding finalise put_header put_u16 put_u32
  version-finalise = get_u16-put_u16 format_version _ (omega arith)

  record_size-finalise : record_size < 2 ^ 16 → get_u16 (drop 6 (finalise zeroed)) ≡ record_size
  unfolding finalise put_header put_u16 put_u32
  record_size-finalise h = get_u16-put_u16 record_size _ h

  revision-finalise : revision < 2 ^ 32 → get_u32 (drop 8 (finalise zeroed)) ≡ revision
  unfolding finalise put_header put_u16 put_u32
  revision-finalise h = get_u32-put_u32 revision _ h

  count-finalise : count < 2 ^ 16 → get_u16 (drop 12 (finalise zeroed)) ≡ count
  unfolding finalise put_header put_u16 put_u32
  count-finalise h = get_u16-put_u16 count _ h

  seed_generation-finalise :
      seed_generation < 2 ^ 16 → get_u16 (drop 14 (finalise zeroed)) ≡ seed_generation
  unfolding finalise put_header put_u16 put_u32
  seed_generation-finalise h = get_u16-put_u16 seed_generation _ h

  pub check-finalise :
      (capacity_items : ℕ)
      → magic < 2 ^ 32
      → record_size < 2 ^ 16
      → revision < 2 ^ 32
      → count < 2 ^ 16
      → seed_generation < 2 ^ 16
      → count ≤ capacity_items
      → length payload ≡ count * record_size
      → check (finalise zeroed) magic record_size capacity_items
        ≡ some (record { count = count; revision = revision; seed_generation = seed_generation })
  unfolding check
  check-finalise capacity_items hm hr hv hc hg room size = ground (
    arith,
    length-finalise,
    magic-finalise hm,
    version-finalise,
    record_size-finalise hr,
    revision-finalise hv,
    count-finalise hc,
    seed_generation-finalise hg,
    crc_of_blob-finalise,
    stored-finalise,
  )
