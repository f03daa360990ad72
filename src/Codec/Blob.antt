-- ===== src/Codec/Blob.antt =====
-- catalog_codec.cpp: the CRC, `finalise` and `check`. A blob is the list of its bytes, so `len` is
-- the length of the list.
use Prim.Native.Nat.{bit_and, bit_xor}
use beer_tab.Common.{
  ℕ, zero, suc, ◌+◌, ◌-◌, ◌*◌, ◌/◌, ◌%◌, ◌^◌, List, [], ◌∷◌, ◌++◌, Option, none, some, not, length,
  take, drop, ltb, ◌==◌, if◌then◌else◌,
}
use beer_tab.Codec.Bytes.{put_u16, put_u32, get_u16, get_u32}

abbrev pub format_version : ℕ
format_version = 1

abbrev pub header_bytes : ℕ
header_bytes = 20

abbrev pub crc_offset : ℕ
crc_offset = 16

unfoldable pub crc_begin : ℕ
crc_begin = 0xFFFFFFFF

-- `~(c & 1) + 1` is computed in 32 bits.
crc_bit : ℕ → ℕ
crc_bit c = bit_xor (c / 2) (bit_and 0xEDB88320 ((2 ^ 32 - 1 - bit_and c 1 + 1) % 2 ^ 32))

crc_bits : ℕ → ℕ → ℕ
unfolding crc_bit
crc_bits zero c = c
crc_bits (suc b) c = crc_bits b (crc_bit c)

unfoldable pub crc_byte : ℕ → ℕ → ℕ
unfolding crc_bits
crc_byte c x = crc_bits 8 (bit_xor c x)

unfoldable pub crc_feed : ℕ → List ℕ → ℕ
crc_feed c [] = c
crc_feed c (x ∷ xs) = crc_feed (crc_byte c x) xs

unfoldable pub crc_end : ℕ → ℕ
crc_end c = 2 ^ 32 - 1 - c

unfoldable pub crc32 : List ℕ → ℕ
unfolding crc_feed crc_begin crc_end
crc32 xs = crc_end (crc_feed crc_begin xs)

-- The bytes `xs` written at `offset` over what stood there.
abbrev pub splice : List ℕ → ℕ → List ℕ → List ℕ
splice out offset xs = take offset out ++ (xs ++ drop (offset + length xs) out)

unfoldable pub finalise : List ℕ → List ℕ
unfolding put_u32
finalise out = let z = splice out crc_offset (put_u32 0) in splice z crc_offset (put_u32 (crc32 z))

-- The fields that `check` hands back.
pub record Header : Type 0 where
  pub count : ℕ
  pub revision : ℕ
  pub seed_generation : ℕ

-- The CRC over the blob with its own field zeroed: the header's copy, then the payload.
unfoldable pub crc_of_blob : List ℕ → ℕ
unfolding put_u32
crc_of_blob blob =
    let head = splice (take header_bytes blob) crc_offset (put_u32 0) in
    crc_end (crc_feed (crc_feed crc_begin head) (drop header_bytes blob))

unfoldable pub check : List ℕ → ℕ → ℕ → ℕ → Option Header
check blob magic record_size capacity_items =
    let count = get_u16 (drop 12 blob) in
    if ltb (length blob) header_bytes
    then none
    else if not (get_u32 blob == magic)
    then none
    else if not (get_u16 (drop 4 blob) == format_version)
    then none
    else if not (get_u16 (drop 6 blob) == record_size)
    then none
    else if ltb capacity_items count
    then none
    else if not (length blob == header_bytes + count * record_size)
    then none
    else if not (crc_of_blob blob == get_u32 (drop crc_offset blob))
    then none
    else some (record {
      count = count;
      revision = get_u32 (drop 8 blob);
      seed_generation = get_u16 (drop 14 blob);
    })

-- The first twenty bytes as the encoders write them. The four bytes of the CRC are not written
-- before `finalise`, which overwrites them first.
unfoldable pub put_header : ℕ → ℕ → ℕ → ℕ → ℕ → List ℕ
unfolding put_u16 put_u32
put_header magic record_size revision count seed_generation =
    put_u32 magic
    ++ (put_u16 format_version
        ++ (put_u16 record_size
            ++ (put_u32 revision ++ (put_u16 count ++ (put_u16 seed_generation ++ put_u32 0)))))
