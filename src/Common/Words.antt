-- ===== src/Common/Words.antt =====
-- Unsigned machine words as native numbers, and the deadline test that the firmware uses with its
-- millisecond clock.
use Prim.Native.Nat.{
  ℕ, zero, suc, ◌+◌, ◌-◌, ◌*◌, ◌/◌, ◌%◌, ◌^◌, ◌≤◌, ◌<◌, max, bit_or, bit_or-bitwise, digits,
}
use mathlib.Core.Path.{◌≡◌, refl, ap}
use mathlib.Core.Bool.{Bool}
use native.Mathlib.Nat.{le_refl, pow-suc}
use native.Mathlib.Omega.{arith}
use beer_tab.Common.Tests.{leb}

abbrev pub u8 : ℕ → ℕ
u8 n = n % 256

abbrev pub u16 : ℕ → ℕ
u16 n = n % 65536

abbrev pub u32 : ℕ → ℕ
u32 n = n % 4294967296

-- `uint32_t` subtraction wraps.
abbrev pub sub32 : ℕ → ℕ → ℕ
sub32 a b = (a + 4294967296 - b) % 4294967296

-- `static_cast<int32_t>(now - deadline) < 0`.
abbrev pub is_before : ℕ → ℕ → Bool
is_before now deadline = leb 2147483648 (sub32 now deadline)

digits_or_fuel :
    (n m a b : ℕ) → a ≤ n → a ≤ m → digits (λ y. y) max n a b ≡ digits (λ y. y) max m a b
digits_or_fuel zero zero a b p q = refl
digits_or_fuel zero (suc m) zero b p q = refl
digits_or_fuel zero (suc m) (suc a) b p q = absurd (omega arith)
digits_or_fuel (suc n) zero zero b p q = refl
digits_or_fuel (suc n) zero (suc a) b p q = absurd (omega arith)
digits_or_fuel (suc n) (suc m) zero b p q = refl
digits_or_fuel (suc n) (suc m) (suc a) b p q =
    rw (digits_or_fuel n m (suc a / 2) (b / 2) (omega arith) (omega arith))

-- The lowest digit of `a | b`.
bit_or-lowest : (a b : ℕ) → bit_or a b ≡ bit_or (a / 2) (b / 2) * 2 + max (a % 2) (b % 2)
bit_or-lowest zero b = simp bit_or-bitwise (omega arith)
bit_or-lowest (suc a) b =
    simp bit_or-bitwise
      (omega (arith, digits_or_fuel a (suc a / 2) (suc a / 2) (b / 2) (omega arith) (le_refl _)))

-- `a | (b << k)` is a sum where `a` has at most `k` bits.
pub bit_or-shift : (k a b : ℕ) → a < 2 ^ k → bit_or a (b * 2 ^ k) ≡ a + b * 2 ^ k
bit_or-shift zero zero b h = simp bit_or-bitwise (omega arith)
bit_or-shift zero (suc a) b h = absurd (omega arith)
bit_or-shift (suc k) a b h = rw (doubled) (
    omega (
      arith,
      bit_or-lowest a (b * 2 ^ k * 2),
      half,
      bit_or-shift k (a / 2) b (omega (arith, pow-suc 2 k)),
    ))
  where
    doubled : b * 2 ^ suc k ≡ b * 2 ^ k * 2
    doubled = omega (arith, ap (λ (t : ℕ). b * t) (pow-suc 2 k))

    half : bit_or (a / 2) (b * 2 ^ k * 2 / 2) ≡ bit_or (a / 2) (b * 2 ^ k)
    half = ap (bit_or (a / 2)) (omega arith)
