-- ===== src/Layout.antt =====
-- firmware/beer_terminal/catalog_layout.cpp. Every quantity is a natural number: the differences of
-- the source are of a larger and a smaller one wherever the gaps fit the bounds, which is the
-- hypothesis of the theorems and holds for the screen. `int16_t` and `uint8_t` hold all values then.
pub mod Grid
pub mod Tiles
use beer_tab.Common.{ℕ, zero, suc, ◌+◌, ◌-◌, ◌*◌, ◌/◌, ◌%◌, Bool, ltb, leb, ◌==◌, if◌then◌else◌}
use beer_tab.Settings.{
  screen_w, screen_h, header_h, footer_h, grid_margin, grid_gap, prompt_h,
  tile_horizontal_ratio_x100,
}

pub record Bounds : Type 0 where
  pub x : ℕ
  pub y : ℕ
  pub w : ℕ
  pub h : ℕ

pub record GridGeometry : Type 0 where
  pub rows : ℕ
  pub cols : ℕ
  pub tile_w : ℕ
  pub tile_h : ℕ
  pub horizontal_card : Bool

-- The `while` loop of `isqrt` on fuel.
unfoldable pub isqrt_loop : ℕ → ℕ → ℕ → ℕ
isqrt_loop zero n r = r
isqrt_loop (suc fuel) n r =
    let next = isqrt_loop fuel n (r + 1) in if leb ((r + 1) * (r + 1)) n then next else r

-- The root grows by one a round and stays at most `n`, so `n` rounds are enough.
unfoldable pub isqrt : ℕ → ℕ
unfolding isqrt_loop
isqrt n = isqrt_loop n n 1

unfoldable pub catalog_bounds : Bounds
catalog_bounds = record {
  x = grid_margin;
  y = header_h + grid_margin;
  w = screen_w - 2 * grid_margin;
  h = screen_h - header_h - footer_h - 2 * grid_margin;
}

unfoldable pub resident_bounds : Bounds
unfolding catalog_bounds
resident_bounds = record catalog_bounds {
  y = catalog_bounds.y + prompt_h;
  h = catalog_bounds.h - prompt_h;
}

abbrev at_least_one : ℕ → ℕ
at_least_one n = if n == 0 then 1 else n

unfoldable pub grid_geometry : ℕ → Bounds → GridGeometry
grid_geometry n b =
    let n' = at_least_one n in
    let rows = isqrt n' in
    let cols = (n' + rows - 1) / rows in
    let tile_w = (b.w - (cols - 1) * grid_gap) / cols in
    let tile_h = (b.h - (rows - 1) * grid_gap) / rows in
    record {
      rows = rows;
      cols = cols;
      tile_w = tile_w;
      tile_h = tile_h;
      horizontal_card = ltb (tile_h * tile_horizontal_ratio_x100) (tile_w * 100);
    }

-- How many tiles stand in the row of `index`.
unfoldable pub in_row : GridGeometry → ℕ → ℕ → ℕ
in_row g n index =
    let remaining = n - index / g.cols * g.cols in
    if ltb remaining g.cols then remaining else g.cols

unfoldable pub tile_position : GridGeometry → Bounds → ℕ → ℕ → ℕ × ℕ
unfolding in_row
tile_position g b n index =
    let r = index / g.cols in
    let c = index % g.cols in
    let k = in_row g n index in
    let row_w = k * g.tile_w + (k - 1) * grid_gap in
    (b.x + (b.w - row_w) / 2 + c * (g.tile_w + grid_gap), b.y + r * (g.tile_h + grid_gap))
