-- ===== src/Layout/Grid.antt =====
-- catalog_layout.cpp: `isqrt`.
use beer_tab.Common.{
  ℕ, zero, suc, ◌+◌, ◌*◌, ◌≤◌, ◌<◌, ◌≡◌, refl, inl, inr, Bool-cases, leb, false, arith,
}
use beer_tab.Layout.{isqrt, isqrt_loop}

isqrt_loop_bounds :
    (fuel n r : ℕ)
    → r * r ≤ n
    → n < fuel + r
    → (isqrt_loop fuel n r * isqrt_loop fuel n r ≤ n)
      × (n < (isqrt_loop fuel n r + 1) * (isqrt_loop fuel n r + 1))
unfolding isqrt_loop
isqrt_loop_bounds zero n r h k = (h, omega arith)
isqrt_loop_bounds (suc fuel) n r h k = elim (Bool-cases (leb ((r + 1) * (r + 1)) n)) [
  | inl b ↦ rw b (isqrt_loop_bounds fuel n (r + 1) (ground (arith, b)) (omega arith))
  | inr b ↦ rw b (h, ground (arith, b))
]

-- `isqrt` is the integer square root of every number but 0, of which the source never asks it.
pub isqrt_bounds : (n : ℕ) → 0 < n → (isqrt n * isqrt n ≤ n) × (n < (isqrt n + 1) * (isqrt n + 1))
unfolding isqrt
isqrt_bounds n h = isqrt_loop_bounds n n 1 (omega arith) (omega arith)

square_above : (n r : ℕ) → n < r → leb ((r + 1) * (r + 1)) n ≡ false
square_above n r h = elim (Bool-cases (leb ((r + 1) * (r + 1)) n)) [
  | inl b ↦ absurd (ground (arith, b, h))
  | inr b ↦ b
]

isqrt_loop_enough :
    (fuel fuel' n r : ℕ) → n < fuel + r → n < fuel' + r → isqrt_loop fuel n r ≡ isqrt_loop fuel' n r
unfolding isqrt_loop
isqrt_loop_enough zero zero n r h k = refl
isqrt_loop_enough zero (suc fuel') n r h k = rw (square_above n r (omega (arith, h))) refl
isqrt_loop_enough (suc fuel) zero n r h k = rw (square_above n r (omega (arith, k))) refl
isqrt_loop_enough (suc fuel) (suc fuel') n r h k =
    rw (isqrt_loop_enough fuel fuel' n (r + 1) (omega (arith, h)) (omega (arith, k))) refl

-- For a positive argument the loop of `isqrt` ends by itself: with the argument as fuel, or any more, it gives the same
-- number, whose square is at most the argument while the next square is above it.
pub isqrt_terminates :
    (n extra : ℕ)
    → 0 < n
    → (isqrt_loop (n + extra) n 1 ≡ isqrt n)
      × (isqrt n * isqrt n ≤ n)
      × (n < (isqrt n + 1) * (isqrt n + 1))
unfolding isqrt
isqrt_terminates n extra h =
    let b = isqrt_bounds n h in
    (isqrt_loop_enough (n + extra) n n 1 (omega arith) (omega arith), b.0, b.1)
