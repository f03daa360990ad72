-- ===== src/Screens/Widgets.antt =====
-- ui_screens.cpp: what a screen is made of. Colours, fonts, paddings and the places of labels are left
-- out, and so are the parts inside a tile, a row or the header.
use beer_tab.Common.{
  ℕ, ◌+◌, ◌-◌, ◌*◌, ◌/◌, List, [], ◌∷◌, Option, none, some, Bool, true, Text, ◌==◌, if◌then◌else◌,
}
use beer_tab.Settings.{screen_w, screen_h, header_h, footer_h, grid_margin}
use beer_tab.Records.{Product}
use beer_tab.Catalog.Price.{format_price}
use beer_tab.Layout.{Bounds, GridGeometry}
use beer_tab.App.{Event}
use beer_tab.Screens.{Touch, event_button, header_long_press}

-- The callback of a button: one with what was registered for it, or the one that reads the name field.
pub data Control : Type 0 where
  calls : Touch → Control
  confirms_name : Control

pub data Widget : Type 0 where
  header : Text → Bool → Widget
  label : Text → Widget
  button : Text → Bounds → Control → Widget
  product_tile : Text → Text → Bounds → Option Touch → Bool → Widget
  summary_row : Bounds → Text → Text → Text → Widget
  name_field : Bounds → Widget
  key_pad : Bounds → Widget
  switch_box : Bounds → Bool → Widget
  spinner : Widget
  dwell_bar : ℕ → Widget

-- What a press of a widget calls, where that does not depend on what is typed or switched.
abbrev pub touch_of : Widget → Option Touch
touch_of (header title true) = some header_long_press
touch_of (button text b (calls x)) = some x
touch_of (product_tile name price b cb dim) = cb
touch_of _ = none

abbrev pub box : ℕ → ℕ → ℕ → ℕ → Bounds
box x y w h = record { x = x; y = y; w = w; h = h }

abbrev footer_y : ℕ
footer_y = screen_h - footer_h + 14

abbrev footer_w : ℕ
footer_w = (screen_w - 3 * grid_margin) / 2

-- The two buttons across the bottom strip.
abbrev pub build_footer_pair : Text → Control → Text → Control → List Widget
build_footer_pair left on_left right on_right =
    button left (box grid_margin footer_y footer_w 44) on_left
    ∷ button right (box (2 * grid_margin + footer_w) footer_y footer_w 44) on_right
    ∷ []

abbrev pub build_footer_single : Text → Event → List Widget
build_footer_single text ev =
    button text (box grid_margin footer_y (screen_w - 2 * grid_margin) 44) (calls (event_button ev))
    ∷ []

abbrev pub build_product_tile : Product → GridGeometry → ℕ × ℕ → Option Touch → Bool → Widget
build_product_tile p g (x, y) cb dim =
    product_tile p.name (format_price p) (box x y g.tile_w g.tile_h) cb dim

abbrev pub build_price_keypad : Widget
build_price_keypad = key_pad (box 680 (header_h + 8) 584 400)

abbrev pub add_dwell_bar : ℕ → List Widget
add_dwell_bar duration_ms = if duration_ms == 0 then [] else dwell_bar duration_ms ∷ []
