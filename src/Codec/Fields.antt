-- ===== src/Codec/Fields.antt =====
-- catalog_codec.cpp: the byte accessors.
use beer_tab.Common.{
  ℕ, zero, suc, ◌+◌, ◌-◌, ◌*◌, ◌/◌, ◌%◌, ◌^◌, ◌<◌, ◌≡◌, refl, ap, ◌∙◌, List, [], ◌∷◌, ◌++◌,
  append_assoc, Text, IsText, AllBytes, min, length, length-append, length-replicate, take,
  take_all, replicate, ltb, if◌then◌else◌, bit_or-shift, arith,
}
use beer_tab.Codec.Bytes.{put_u16, put_u32, get_u16, get_u32, strnlen, put_text, get_text}

pub get_u16-put_u16 : (v : ℕ) (rest : List ℕ) → v < 2 ^ 16 → get_u16 (put_u16 v ++ rest) ≡ v
unfolding get_u16 put_u16
get_u16-put_u16 v rest h = omega (arith, bit_or-shift 8 (v % 256) (v / 256 % 256) (omega arith))

pub get_u32-put_u32 : (v : ℕ) (rest : List ℕ) → v < 2 ^ 32 → get_u32 (put_u32 v ++ rest) ≡ v
unfolding get_u32 put_u32
get_u32-put_u32 v rest h =
    rw
      (
        bit_or-shift 8 (v % 256) (v / 256 % 256) (omega arith),
        bit_or-shift 16 (v % 256 + v / 256 % 256 * 2 ^ 8) (v / 65536 % 256) (omega arith),
        bit_or-shift 24 (v % 256 + v / 256 % 256 * 2 ^ 8 + v / 65536 % 256 * 2 ^ 16)
            (v / 16777216 % 256) (omega arith),
      )
      (omega arith)

-- The bytes of a field end in a zero, or in the end of the field.
strnlen-pad :
    (s : Text) (pad limit : ℕ) (rest : List ℕ)
    → AllBytes s
    → length s + pad ≡ limit
    → 0 < pad
    → strnlen (s ++ (replicate pad 0 ++ rest)) limit ≡ length s
unfolding strnlen
strnlen-pad [] zero limit rest b e h = absurd (omega arith)
strnlen-pad [] (suc pad) zero rest b e h = absurd (omega arith)
strnlen-pad [] (suc pad) (suc limit) rest b e h = refl
strnlen-pad (c ∷ s) pad zero rest b e h = absurd (omega arith)
strnlen-pad (c ∷ s) pad (suc limit) rest b e h =
    ground (arith, strnlen-pad s pad limit rest b.2 (omega arith) h)

take-append {ℓ} : {A : Type ℓ} (xs ys : List A) → take (length xs) (xs ++ ys) ≡ xs
take-append [] ys = refl
take-append (x ∷ xs) ys = ap (λ t. x ∷ t) (take-append xs ys)

-- A string that fits its array is written with its zeros, and read back, in as many bytes.
put_text_fits :
    (field : ℕ) (s : Text) → IsText field s → put_text field s ≡ s ++ replicate (field - length s) 0
unfolding put_text
put_text_fits field s h = rw (shorter, take_all (length s) s (omega arith))
  where
    shorter : min (length s) (field - 1) ≡ length s
    shorter = omega (arith, h.fits)

pub length-put_text : (field : ℕ) (s : Text) → IsText field s → length (put_text field s) ≡ field
length-put_text field s h = rw (put_text_fits field s h) (
    omega (
      arith,
      h.fits,
      length-append s (replicate (field - length s) 0),
      length-replicate (field - length s) (let z : ℕ = 0 in z),
    ))

pub get_text-put_text :
    (field : ℕ) (s : Text) (rest : List ℕ)
    → IsText field s
    → get_text field (put_text field s ++ rest) field ≡ s
unfolding get_text
get_text-put_text field s rest h =
    rw
      (
        put_text_fits field s h,
        append_assoc s (replicate (field - length s) 0) rest,
        strnlen-pad s (field - length s) field rest h.bytes (omega (arith, h.fits))
            (omega (arith, h.fits)),
      )
      (ap (λ k. take k (s ++ (replicate (field - length s) 0 ++ rest))) chosen
        ∙ take-append s (replicate (field - length s) 0 ++ rest))
  where
    chosen : (if ltb (length s) (field - 1) then length s else field - 1) ≡ length s
    chosen = ground (arith, h.fits)
