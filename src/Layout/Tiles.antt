-- ===== src/Layout/Tiles.antt =====
-- catalog_layout.cpp: where the tiles stand.
use native.Mathlib.Nat.{div-add-mod, mod-lt}
use native.Mathlib.Decide.{dec_lt}
use beer_tab.Common.{
  ℕ, zero, suc, ◌+◌, ◌-◌, ◌*◌, ◌/◌, ◌%◌, ◌≤◌, ◌<◌, ◌≡◌, ◌≢◌, ap, ◌⊎◌, inl, inr, arith,
}
use beer_tab.Settings.{grid_gap}
use beer_tab.Layout.{Bounds, GridGeometry, isqrt, grid_geometry, in_row, tile_position}
use beer_tab.Layout.Grid.{isqrt_bounds}

mul-le : (a b m : ℕ) → a ≤ b → a * m ≤ b * m
mul-le a b m h = grind arith

-- A number of tiles with their gaps, up to a whole row.
row_fits :
    (k cols tile gap w : ℕ)
    → k ≤ cols
    → cols * tile + (cols - 1) * gap ≤ w
    → k * tile + (k - 1) * gap ≤ w
row_fits k cols tile gap w h f =
    omega (arith, mul-le k cols tile h, mul-le (k - 1) (cols - 1) gap (omega arith))

-- Equal parts of what the gaps leave.
tiles_fit :
    (cols gap w : ℕ)
    → 0 < cols
    → (cols - 1) * gap ≤ w
    → cols * ((w - (cols - 1) * gap) / cols) + (cols - 1) * gap ≤ w
tiles_fit cols gap w h f = omega (arith, div-add-mod (w - (cols - 1) * gap) cols)

-- A tile of a row ends where the row does, or before.
tile_in_row : (c k tile gap : ℕ) → c < k → c * (tile + gap) + tile ≤ k * tile + (k - 1) * gap
tile_in_row c zero tile gap h = absurd (omega arith)
tile_in_row c (suc j) tile gap h =
    omega (arith, mul-le c j (tile + gap) (omega arith), ap (λ (m : ℕ). m * gap) (less_one j))
  where
    less_one : (j : ℕ) → suc j - 1 ≡ j
    less_one j = omega arith

ceil_covers : (n r : ℕ) → 0 < r → n ≤ r * ((n + r - 1) / r)
ceil_covers n r h = omega (arith, div-add-mod (n + r - 1) r, mod-lt (n + r - 1) h)

div_lt : (i r c : ℕ) → 0 < c → i < r * c → i / c < r
div_lt i r c pos_c h = elim (dec_lt (i / c) r) [
  | yes p ↦ p
  | no p ↦ absurd (omega (arith, mul-le r (i / c) c (omega arith), div-add-mod i c))
]

-- Two tiles of `n` are at least a gap apart, in one direction or the other.
abbrev pub Apart : ℕ → Bounds → ℕ → ℕ → Type 0
Apart n b i j =
    let g = grid_geometry n b in
    let (x, y) = tile_position g b n i in
    let (x', y') = tile_position g b n j in
    (x + g.tile_w + grid_gap ≤ x')
    ⊎ ((x' + g.tile_w + grid_gap ≤ x)
        ⊎ ((y + g.tile_h + grid_gap ≤ y') ⊎ (y' + g.tile_h + grid_gap ≤ y)))

-- The grid that `grid_geometry` lays out for `n` tiles in the bounds `b`, whose gaps leave room.
module _ (n : ℕ) (b : Bounds) (some_tile : 0 < n) (wide : (grid_geometry n b).cols * grid_gap ≤ b.w)
    (high : (grid_geometry n b).rows * grid_gap ≤ b.h) where
  abbrev g : GridGeometry
  g = grid_geometry n b

  rows_pos : 0 < g.rows
  unfolding grid_geometry
  rows_pos = ground (arith, isqrt_bounds n some_tile)

  -- The cells are enough for the tiles.
  cells : n ≤ g.rows * g.cols
  unfolding grid_geometry
  cells = ground (arith, ceil_covers n (isqrt n), isqrt_bounds n some_tile)

  cols_pos : 0 < g.cols
  cols_pos = grind (arith, cells, some_tile)

  tile_w_fits : g.cols * g.tile_w + (g.cols - 1) * grid_gap ≤ b.w
  unfolding grid_geometry
  tile_w_fits =
      tiles_fit g.cols grid_gap b.w cols_pos
        (omega (arith, mul-le (g.cols - 1) g.cols grid_gap (omega arith), wide))

  tile_h_fits : g.rows * g.tile_h + (g.rows - 1) * grid_gap ≤ b.h
  unfolding grid_geometry
  tile_h_fits =
      tiles_fit g.rows grid_gap b.h rows_pos
        (omega (arith, mul-le (g.rows - 1) g.rows grid_gap (omega arith), high))

  module _ (i : ℕ) (before : i < n) where
    row_lt : i / g.cols < g.rows
    row_lt = div_lt i g.rows g.cols cols_pos (omega (arith, cells))

    -- The tile stands among those of its row.
    col_lt : i % g.cols < in_row g n i
    unfolding in_row
    col_lt = ground (arith, div-add-mod i g.cols, mod-lt i cols_pos)

    in_row_le : in_row g n i ≤ g.cols
    unfolding in_row
    in_row_le = ground arith

    -- Every tile lies inside the bounds, on each of its four sides.
    pub tile_inside :
        let (x, y) = tile_position g b n i in
        (b.x ≤ x) × (x + g.tile_w ≤ b.x + b.w) × (b.y ≤ y) × (y + g.tile_h ≤ b.y + b.h)
    unfolding tile_position
    tile_inside =
        let row = row_fits (in_row g n i) g.cols g.tile_w grid_gap b.w in_row_le tile_w_fits in
        let across = tile_in_row (i % g.cols) (in_row g n i) g.tile_w grid_gap col_lt in
        let down = tile_in_row (i / g.cols) g.rows g.tile_h grid_gap row_lt in
        (omega arith, omega (arith, row, across), omega arith, omega (arith, down, tile_h_fits))

  lower_row : (i j : ℕ) → i / g.cols < j / g.cols → Apart n b i j
  unfolding tile_position
  lower_row i j h =
      inr
        (inr (inl (omega (arith, mul-le (suc (i / g.cols)) (j / g.cols) (g.tile_h + grid_gap) h))))

  same_row : (i j : ℕ) → i / g.cols ≡ j / g.cols → i % g.cols < j % g.cols → Apart n b i j
  unfolding tile_position in_row
  same_row i j e h =
      inl (rw e (omega (arith, mul-le (suc (i % g.cols)) (j % g.cols) (g.tile_w + grid_gap) h)))

  flip : (i j : ℕ) → Apart n b i j → Apart n b j i
  flip i j (inl h) = inr (inl h)
  flip i j (inr (inl h)) = inl h
  flip i j (inr (inr (inl h))) = inr (inr (inr h))
  flip i j (inr (inr (inr h))) = inr (inr (inl h))

  -- No two tiles overlap: two different ones are a gap or more apart, across or down.
  pub tiles-Apart : (i j : ℕ) → i ≢ j → Apart n b i j
  tiles-Apart i j ne = elim (dec_lt (i / g.cols) (j / g.cols)) [
    | yes p ↦ lower_row i j p
    | no p ↦ elim (dec_lt (j / g.cols) (i / g.cols)) [
      | yes q ↦ flip j i (lower_row j i q)
      | no q ↦ elim (dec_lt (i % g.cols) (j % g.cols)) [
        | yes r ↦ same_row i j (omega arith) r
        | no r ↦ flip j i (
            same_row j i (omega arith) (
              omega (
                arith,
                div-add-mod i g.cols,
                div-add-mod j g.cols,
                ap (λ (q : ℕ). g.cols * q) (let e : i / g.cols ≡ j / g.cols = omega arith in e),
              )))
      ]
    ]
  ]
