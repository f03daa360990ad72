-- ===== src/Codec/Bytes.antt =====
-- catalog_codec.cpp: `put_u16` to `get_text`. A pointer into a buffer is the list of the bytes from
-- there on, and what a `put` function writes is the list of the bytes written.
use Prim.Native.Nat.{bit_or}
use beer_tab.Common.{
  ℕ, zero, suc, ◌-◌, ◌*◌, ◌/◌, ◌%◌, ◌^◌, List, [], ◌∷◌, ◌++◌, Text, min, length, get_or, take,
  replicate, ltb, ◌==◌, if◌then◌else◌,
}

unfoldable pub put_u16 : ℕ → List ℕ
put_u16 v = v % 256 ∷ v / 256 % 256 ∷ []

unfoldable pub put_u32 : ℕ → List ℕ
put_u32 v = v % 256 ∷ v / 256 % 256 ∷ v / 65536 % 256 ∷ v / 16777216 % 256 ∷ []

unfoldable pub get_u16 : List ℕ → ℕ
get_u16 p = bit_or (get_or p 0 0) (get_or p 1 0 * 2 ^ 8) % 65536

unfoldable pub get_u32 : List ℕ → ℕ
get_u32 p =
    bit_or (bit_or (bit_or (get_or p 0 0) (get_or p 1 0 * 2 ^ 8)) (get_or p 2 0 * 2 ^ 16))
      (get_or p 3 0 * 2 ^ 24)

-- `strnlen` of bytes that need not be terminated.
unfoldable pub strnlen : List ℕ → ℕ → ℕ
strnlen s zero = 0
strnlen [] (suc n) = 0
strnlen (c ∷ s) (suc n) = if c == 0 then 0 else suc (strnlen s n)

-- `strnlen` of a C string is the shorter of its length and the limit.
unfoldable pub put_text : ℕ → Text → List ℕ
put_text field src = let n = min (length src) (field - 1) in take n src ++ replicate (field - n) 0

unfoldable pub get_text : ℕ → List ℕ → ℕ → Text
get_text dst_cap src field =
    let n = strnlen src field in take (if ltb n (dst_cap - 1) then n else dst_cap - 1) src
