-- ===== src/Catalog/Price.antt =====
-- product_catalog.cpp: how a price is shown, and the colour of a product with no picture.
use Prim.Native.Nat.{bit_and, bit_xor}
use beer_tab.Common.{
  ℕ, ◌+◌, ◌*◌, ◌/◌, ◌%◌, ◌^◌, [], ◌∷◌, ◌++◌, Bool, true, false, Text, ascii, is_empty, decimal, ℤ,
  pos, negsuc, ◌==◌, if◌then◌else◌,
}
use beer_tab.Records.{Product}

-- `%02ld` of a number below 100.
abbrev two_digits : ℕ → Text
two_digits n = (48 + n / 10) ∷ (48 + n % 10) ∷ []

-- `%02ld` of a remainder that is not positive: the sign counts as one of the two places.
abbrev negative_digits : ℕ → Text
negative_digits n = if n == 0 then ascii "00" else 45 ∷ decimal n

abbrev negative : ℕ → Text
negative n = if n == 0 then ascii "0" else 45 ∷ decimal n

-- C divides towards 0, so the quotient and the remainder of a negative amount are not positive. The
-- text is at most 18 bytes long, and every caller has 32.
unfoldable pub format_rappen : ℤ → Bool → Text
format_rappen rappen true = ascii "Gratis"
format_rappen (pos n) false =
    ascii "CHF " ++ (decimal (n / 100) ++ (ascii "." ++ two_digits (n % 100)))
format_rappen (negsuc n) false =
    ascii "CHF " ++ (negative ((n + 1) / 100) ++ (ascii "." ++ negative_digits ((n + 1) % 100)))

unfoldable pub format_price : Product → Text
unfolding format_rappen
format_price p = format_rappen p.price_rappen p.free_item

-- FNV-1a.
unfoldable pub hash_text : ℕ → Text → ℕ
hash_text h [] = h
hash_text h (c ∷ cs) = hash_text (bit_xor h c * 16777619 % 2 ^ 32) cs

-- The three bytes do not overlap, so that their disjunction is a sum.
unfoldable pub fallback_colour : Product → ℕ
unfolding hash_text
fallback_colour p =
    let h = hash_text 2166136261 (if is_empty p.barcode then p.name else p.barcode) in
    let r = 0x50 + bit_and h 0x3F in
    let g = 0x38 + bit_and (h / 2 ^ 8) 0x2F in
    let b = 0x1C + bit_and (h / 2 ^ 16) 0x1F in r * 2 ^ 16 + g * 2 ^ 8 + b
