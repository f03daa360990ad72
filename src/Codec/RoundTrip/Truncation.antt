-- ===== src/Codec/RoundTrip/Truncation.antt =====
-- catalog_codec.cpp: `check` on a part of a blob.
use beer_tab.Common.{
  ℕ, zero, suc, ◌+◌, ◌*◌, ◌≤◌, ◌<◌, ◌≡◌, ◌≢◌, refl, ap, List, [], ◌∷◌, none, some, length,
  length-take, get_or, take, drop, arith,
}
use native.Mathlib.Decide.{dec_lt}
use beer_tab.Codec.Bytes.{get_u16}
use beer_tab.Codec.Blob.{Header, header_bytes, check}

-- The record count that the header claims.
abbrev claimed_count : List ℕ → ℕ
claimed_count blob = get_u16 (drop 12 blob)

-- An accepted blob is as long as its header says.
check-length :
    (blob : List ℕ) (magic size capacity : ℕ) {h : Header}
    → check blob magic size capacity ≡ some h
    → length blob ≡ header_bytes + claimed_count blob * size
unfolding check
check-length blob magic size capacity e = ground arith

check_short :
    (blob : List ℕ) (magic size capacity : ℕ)
    → length blob < header_bytes
    → check blob magic size capacity ≡ none
unfolding check
check_short blob magic size capacity h = ground arith

check_wrong_length :
    (blob : List ℕ) (magic size capacity : ℕ)
    → length blob ≢ header_bytes + claimed_count blob * size
    → check blob magic size capacity ≡ none
unfolding check
check_wrong_length blob magic size capacity h = ground arith

get_or-drop-take :
    (k i n : ℕ) (xs : List ℕ) → k + i < n → get_or (drop k (take n xs)) i 0 ≡ get_or (drop k xs) i 0
get_or-drop-take k i zero xs h = absurd (omega arith)
get_or-drop-take zero i (suc n) [] h = refl
get_or-drop-take (suc k) i (suc n) [] h = refl
get_or-drop-take zero zero (suc n) (x ∷ xs) h = refl
get_or-drop-take zero (suc i) (suc n) (x ∷ xs) h = get_or-drop-take zero i n xs (omega arith)
get_or-drop-take (suc k) i (suc n) (x ∷ xs) h = get_or-drop-take k i n xs (omega arith)

claimed_count-take :
    (n : ℕ) (blob : List ℕ) → header_bytes ≤ n → claimed_count (take n blob) ≡ claimed_count blob
unfolding get_u16
claimed_count-take n blob h =
    rw (get_or-drop-take 12 0 n blob (omega arith), get_or-drop-take 12 1 n blob (omega arith))

-- Any proper prefix of a blob that `check` accepts is refused by `check`.
pub check-take :
    (blob : List ℕ) (magic size capacity n : ℕ) {h : Header}
    → check blob magic size capacity ≡ some h
    → n < length blob
    → check (take n blob) magic size capacity ≡ none
check-take blob magic size capacity n e short = elim (dec_lt n header_bytes) [
  | yes p ↦ check_short (take n blob) magic size capacity (omega (arith, length-take n blob))
  | no p ↦ check_wrong_length (take n blob) magic size capacity (
      omega (
        arith,
        length-take n blob,
        ap (λ (c : ℕ). c * size) (claimed_count-take n blob (omega arith)),
        check-length blob magic size capacity e,
      ))
]
