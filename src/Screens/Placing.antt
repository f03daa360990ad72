-- ===== src/Screens/Placing.antt =====
-- ui_screens.cpp with catalog_layout.cpp: where the tiles and rows of the screens stand.
use beer_tab.Common.{
  ℕ, zero, suc, ◌+◌, ◌-◌, ◌*◌, ◌/◌, ◌%◌, ◌^◌, ◌≤◌, ◌<◌, ◌≡◌, refl, List, [], ◌∷◌, ◌++◌, Option,
  none, some, ◌⊎◌, inl, Bool, true, false, not, Text, ltb, ◌==◌, if◌then◌else◌, arith, ascii,
  decimal, ◌*◌,
}
use beer_tab.Codec.Loops.{All}
use beer_tab.Settings.{
  screen_w, screen_h, header_h, footer_h, grid_margin, max_products, max_residents,
}
use beer_tab.Records.{Product, Resident}
use beer_tab.Catalog
use beer_tab.Residents
use beer_tab.Layout.{Bounds, isqrt, grid_geometry, tile_position, catalog_bounds, resident_bounds}
use beer_tab.Layout.Grid.{isqrt_bounds}
use beer_tab.Layout.Tiles.{tile_inside}
use beer_tab.Screens.{Touch, tile, archived_tile, resident, event_button}
use beer_tab.App.{manage_requested}
use beer_tab.Protocol.Responses.{Row}
use beer_tab.Catalog.Price.{format_rappen}
use beer_tab.Screens.Widgets.{
  calls, Widget, label, button, product_tile, summary_row, name_field, key_pad, switch_box, box,
}
use beer_tab.Screens.Parts.{
  build_each, catalog_body, tile_of, catalog_tile, archived_one, resident_button, summary_rows,
}
use beer_tab.Screens.Presses.{All-build_each}
use native.Mathlib.Nat.{div-add-mod}
use native.Mathlib.Decide.{dec_lt}

-- Across the screen, below the header, and wholly above the bottom strip or wholly in it.
abbrev pub Placed : Bounds → Type 0
Placed b =
    (b.x + b.w ≤ screen_w)
    × (header_h ≤ b.y)
    × ((b.y + b.h ≤ screen_h - footer_h) ⊎ ((screen_h - footer_h ≤ b.y) × (b.y + b.h ≤ screen_h)))

abbrev pub IsPlaced : Widget → Type 0
IsPlaced (button text b c) = Placed b
IsPlaced (product_tile name price b c dim) = Placed b
IsPlaced (summary_row b name drinks total) = Placed b
IsPlaced (name_field b) = Placed b
IsPlaced (key_pad b) = Placed b
IsPlaced (switch_box b on) = Placed b
IsPlaced _ = Unit {0}

at_most_square : (r n : ℕ) → r * r ≤ n → r ≤ n
at_most_square zero n h = omega arith
at_most_square (suc r) n h = grind arith

grows : (a b m : ℕ) → a ≤ b → a * m ≤ b * m
grows a b m h = grind arith

quotient_at_most : (n r q : ℕ) → 0 < r → 0 < n → q * r ≤ n + r - 1 → q ≤ n
quotient_at_most n r q r_pos n_pos h = elim (dec_lt n q) [
  | no p ↦ omega arith
  | yes p ↦ absurd (omega (arith, h, grows (suc n) q r (omega arith), grows 1 r n r_pos))
]

ceiling_at_most : (n r : ℕ) → 0 < r → 0 < n → (n + r - 1) / r ≤ n
ceiling_at_most n r r_pos n_pos =
    quotient_at_most n r ((n + r - 1) / r) r_pos n_pos (omega (arith, div-add-mod (n + r - 1) r))

cols_at_most : (n : ℕ) (b : Bounds) → 0 < n → (grid_geometry n b).cols ≤ n
unfolding grid_geometry
cols_at_most n b h = ground (arith, isqrt_bounds n h, ceiling_at_most n (isqrt n))

rows_at_most : (n : ℕ) (b : Bounds) → 0 < n → (grid_geometry n b).rows ≤ n
unfolding grid_geometry
rows_at_most n b h = ground (arith, at_most_square (isqrt n) n (isqrt_bounds n h).0)

-- A part of the screen that is wide and high enough for 32 tiles with their gaps.
record IsRoomy (b : Bounds) : Type 0 where
  wide : 512 ≤ b.w
  high : 512 ≤ b.h
  right : b.x + b.w ≤ screen_w
  top : header_h ≤ b.y
  bottom : b.y + b.h ≤ screen_h - footer_h

catalog_bounds-IsRoomy : IsRoomy catalog_bounds
unfolding catalog_bounds
catalog_bounds-IsRoomy = record {
  wide = omega arith;
  high = omega arith;
  right = omega arith;
  top = omega arith;
  bottom = omega arith;
}

resident_bounds-IsRoomy : IsRoomy resident_bounds
unfolding resident_bounds catalog_bounds
resident_bounds-IsRoomy = record {
  wide = omega arith;
  high = omega arith;
  right = omega arith;
  top = omega arith;
  bottom = omega arith;
}

place : ℕ → Bounds → ℕ → Bounds
place n b i =
    let g = grid_geometry n b in let (x, y) = tile_position g b n i in box x y g.tile_w g.tile_h

tile-Placed :
    (n : ℕ) (b : Bounds) (i : ℕ) → IsRoomy b → n ≤ max_products → i < n → Placed (place n b i)
unfolding place
tile-Placed n b i v few before =
    let some_tile : 0 < n = omega (arith, before) in
    let (left, right, above, below) =
      tile_inside n b some_tile (omega (arith, cols_at_most n b some_tile, few, v.wide))
        (omega (arith, rows_at_most n b some_tile, few, v.high)) i before in
    (
      omega (arith, right, v.right),
      omega (arith, above, v.top),
      inl (omega (arith, below, v.bottom)),
    )

tile_of-Placed :
    (o : Option Product) (n : ℕ) (b : Bounds) (i : ℕ) (cb : Option Touch) (dim : Bool)
    → Placed (place n b i)
    → All IsPlaced (tile_of o (grid_geometry n b) (tile_position (grid_geometry n b) b n i) cb dim)
unfolding place
tile_of-Placed none n b i cb dim h = tt
tile_of-Placed (some p) n b i cb dim h = (h, tt)

pub catalog_body-Placed :
    (c : Catalog.Catalog) → Catalog.active_count c ≤ max_products → All IsPlaced (catalog_body c)
unfolding catalog_body catalog_tile
catalog_body-Placed c few = go (Catalog.active_count c == 0)
  where
    n : ℕ
    n = Catalog.active_count c

    go :
        (b : Bool)
        → All IsPlaced (
            if b
            then label (ascii "Kein Bier im K" ++ (195 ∷ 188 ∷ ascii "hlschrank")) ∷ []
            else build_each (catalog_tile c) n 0)
    go true = (tt, tt)
    go false = All-build_each IsPlaced (catalog_tile c) n 0 (λ i l.
        tile_of-Placed (Catalog.active_at c i) n catalog_bounds i (some (tile i)) false
          (tile-Placed n catalog_bounds i catalog_bounds-IsRoomy few (omega (arith, l))))

pub archived-Placed :
    (c : Catalog.Catalog)
    → Catalog.archived_count c ≤ max_products
    → All IsPlaced (build_each (archived_one c) (Catalog.archived_count c) 0)
unfolding archived_one
archived-Placed c few =
    let n = Catalog.archived_count c in
    let room = Catalog.can_restore c in
    All-build_each IsPlaced (archived_one c) n 0 (λ i l.
      tile_of-Placed (Catalog.archived_at c i) n resident_bounds i
        (if room then some (archived_tile i) else none) (not room)
        (tile-Placed n resident_bounds i resident_bounds-IsRoomy few (omega (arith, l))))

person-Placed :
    (o : Option Resident) (i : ℕ) (b : Bounds)
    → Placed b
    → All IsPlaced (elim o [ none ↦ [] | some r ↦ button r.name b (calls (resident i)) ∷ [] ])
person-Placed none i b h = tt
person-Placed (some r) i b h = (h, tt)

pub if-Placed :
    (b : Bool) (xs ys : List Widget)
    → All IsPlaced xs
    → All IsPlaced ys
    → All IsPlaced (if b then xs else ys)
if-Placed true xs ys h k = h
if-Placed false xs ys h k = k

pub residents-Placed :
    (d : Residents.Directory)
    → Residents.count d ≤ max_residents
    → All IsPlaced (build_each (resident_button d) ((Residents.count d + 1) % 2 ^ 8) 0)
unfolding resident_button place
residents-Placed d few =
    let n = (Residents.count d + 1) % 2 ^ 8 in
    All-build_each IsPlaced (resident_button d) n 0 (λ i l.
      let h =
        tile-Placed n resident_bounds i resident_bounds-IsRoomy (omega (arith, few))
          (omega (arith, l)) in
      if-Placed (ltb i (Residents.count d))
        (elim (Residents.at d i) [
          | none ↦ []
          | some r ↦ button r.name (place n resident_bounds i) (calls (resident i)) ∷ []
        ])
        (button (ascii "Bier verwalten") (place n resident_bounds i)
            (calls (event_button manage_requested))
          ∷ [])
        (person-Placed (Residents.at d i) i (place n resident_bounds i) h) (h, tt))

row-Placed :
    (i : ℕ) (b : Bool) (name drinks total : Text) (later : List Widget)
    → ltb (screen_h - footer_h - 30) (header_h + 12 + 32 + i * 52 + 52) ≡ b
    → All IsPlaced later
    → All IsPlaced (
        if b
        then []
        else summary_row
            (box grid_margin (header_h + 12 + 32 + i * 52) (screen_w - 2 * grid_margin) (52 - 8))
            name
            drinks
            total
          ∷ later)
row-Placed i true name drinks total later e h = tt
row-Placed i false name drinks total later e h =
    ((omega arith, omega arith, inl (ground (arith, e))), h)

-- The rows end above the bottom strip.
pub rows-Placed : (rs : List Row) (i : ℕ) → All IsPlaced (summary_rows rs i)
unfolding summary_rows
rows-Placed [] i = tt
rows-Placed (r ∷ rs) i =
    row-Placed i (ltb (screen_h - footer_h - 30) (header_h + 12 + 32 + i * 52 + 52)) r.name
      (decimal r.drinks) (format_rappen r.total_rappen false) (summary_rows rs (i + 1)) refl
      (rows-Placed rs (i + 1))
