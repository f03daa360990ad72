-- ===== src/Codec/RoundTrip/Ints.antt =====
-- catalog_codec.cpp: the integer fields of a record.
use beer_tab.Common.{
  ℕ, ◌≡◌, refl, ap, ◌∙◌, List, ◌++◌, ℤ, IsI32, to_u32, to_i32, to_u32_lt, to_i32-to_u32, length,
}
use beer_tab.Codec.Bytes.{put_u16, put_u32, get_u32}
use beer_tab.Codec.Fields.{get_u32-put_u32}

pub length-put_u16 : (v : ℕ) → length (put_u16 v) ≡ 2
unfolding put_u16
length-put_u16 v = refl

pub length-put_u32 : (v : ℕ) → length (put_u32 v) ≡ 4
unfolding put_u32
length-put_u32 v = refl

-- An `int32_t` goes through its unsigned form and back.
pub price-put_u32 :
    (z : ℤ) (rest : List ℕ) → IsI32 z → to_i32 (get_u32 (put_u32 (to_u32 z) ++ rest)) ≡ z
price-put_u32 z rest h =
    ap to_i32 (get_u32-put_u32 (to_u32 z) rest (to_u32_lt z)) ∙ to_i32-to_u32 z h
