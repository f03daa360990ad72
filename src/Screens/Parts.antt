-- ===== src/Screens/Parts.antt =====
-- ui_screens.cpp: what the screens are put together from.
use beer_tab.Common.{
  ℕ, zero, suc, ◌+◌, ◌-◌, ◌*◌, ◌%◌, ◌^◌, List, [], ◌∷◌, ◌++◌, Option, none, some, Bool, false, not,
  ◌&&◌, Text, ascii, is_empty, decimal, print_text, text_eq, length, ltb, ◌==◌, if◌then◌else◌,
}
use beer_tab.Settings.{screen_w, screen_h, header_h, footer_h, grid_margin}
use beer_tab.Records.{Product, Resident, Entry}
use beer_tab.Catalog
use beer_tab.Catalog.Price.{format_rappen, format_price}
use beer_tab.Residents
use beer_tab.Queue.{is_purchase}
use beer_tab.Layout.{GridGeometry, catalog_bounds, resident_bounds, grid_geometry, tile_position}
use beer_tab.Protocol.Responses.{Row, MySummary}
use beer_tab.Backend.{my_ready, MySummaryState}
use beer_tab.App.{manage_requested}
use beer_tab.Screens.{Touch, tile, resident, event_button, archived_tile}
use beer_tab.Screens.Widgets.{calls, Widget, label, button, summary_row, box, build_product_tile}

-- The bytes of the letters that ASCII does not have.
abbrev pub ue : Text
ue = 195 ∷ 188 ∷ []

abbrev pub ae : Text
ae = 195 ∷ 164 ∷ []

abbrev pub back : Text
back = ascii "Zur" ++ (ue ++ ascii "ck")

-- The loops of the source: what is built for each number from `i` on.
unfoldable pub build_each : (ℕ → List Widget) → ℕ → ℕ → List Widget
build_each build zero i = []
build_each build (suc k) i = build i ++ build_each build k (i + 1)

-- A product of the view. The source takes the pointer for one that is not null.
abbrev pub tile_of : Option Product → GridGeometry → ℕ × ℕ → Option Touch → Bool → List Widget
tile_of none g at cb dim = []
tile_of (some p) g at cb dim = build_product_tile p g at cb dim ∷ []

unfoldable pub catalog_tile : Catalog.Catalog → ℕ → List Widget
catalog_tile c i =
    let n = Catalog.active_count c in
    let g = grid_geometry n catalog_bounds in
    tile_of (Catalog.active_at c i) g (tile_position g catalog_bounds n i) (some (tile i)) false

unfoldable pub catalog_body : Catalog.Catalog → List Widget
unfolding catalog_tile build_each
catalog_body c =
    let n = Catalog.active_count c in
    if n == 0
    then label (ascii "Kein Bier im K" ++ (ue ++ ascii "hlschrank")) ∷ []
    else build_each (catalog_tile c) n 0

unfoldable pub archived_one : Catalog.Catalog → ℕ → List Widget
archived_one c i =
    let n = Catalog.archived_count c in
    let g = grid_geometry n resident_bounds in
    let room = Catalog.can_restore c in
    tile_of (Catalog.archived_at c i) g (tile_position g resident_bounds n i)
      (if room then some (archived_tile i) else none) (not room)

-- The residents, and behind them the button that leads to the product.
unfoldable pub resident_button : Residents.Directory → ℕ → List Widget
resident_button d i =
    let people = Residents.count d in
    let n = (people + 1) % 2 ^ 8 in
    let g = grid_geometry n resident_bounds in
    let (x, y) = tile_position g resident_bounds n i in
    if ltb i people
    then elim (Residents.at d i) [
      | none ↦ []
      | some r ↦ button r.name (box x y g.tile_w g.tile_h) (calls (resident i)) ∷ []
    ]
    else button (ascii "Bier verwalten") (box x y g.tile_w g.tile_h)
        (calls (event_button manage_requested))
      ∷ []

-- A name, two spaces and a dash, and a price.
abbrev pub titled : Text → Text → Text
titled name price = print_text 96 (name ++ (ascii "  -  " ++ price))

abbrev pub name_or : Text → Option Product → Text
name_or other none = other
name_or other (some p) = p.name

abbrev pub price_or_unknown : Option Product → Text
price_or_unknown none = ascii "?"
price_or_unknown (some p) = format_price p

abbrev pub person_or : Text → Option Resident → Text
person_or other none = other
person_or other (some r) = r.name

unfoldable pub summary_rows : List Row → ℕ → List Widget
summary_rows [] i = []
summary_rows (r ∷ rs) i =
    let rest = summary_rows rs (i + 1) in
    let y = header_h + 12 + 32 + i * 52 in
    if ltb (screen_h - footer_h - 30) (y + 52)
    then []
    else summary_row (box grid_margin y (screen_w - 2 * grid_margin) (52 - 8)) r.name
        (decimal r.drinks) (format_rappen r.total_rappen false)
      ∷ rest

-- The purchases of a person that still wait.
unfoldable pub queued_for : Option Resident → List Entry → ℕ
queued_for none es = 0
queued_for (some r) [] = 0
queued_for (some r) (e ∷ es) =
    let rest = queued_for (some r) es in
    if is_purchase e.kind && text_eq e.resident_id r.id then rest + 1 else rest

abbrev pub offline_line : ℕ → Text
offline_line queued = print_text 96 (
    if ltb 0 queued
    then ascii "Offline - "
      ++ (decimal queued ++ (ascii " Bier noch nicht " ++ (ue ++ ascii "bertragen")))
    else (195 ∷ 156 ∷ ascii "bersicht gerade nicht abrufbar"))

abbrev pub total_line : MySummary → Text
total_line s = print_text 64 (
    decimal s.drinks
    ++ (ascii " Getr" ++ (ae ++ (ascii "nke, " ++ format_rappen s.total_rappen false))))

unfoldable pub summary_body : MySummary → List Widget
unfolding summary_rows
summary_body s =
    if length s.products == 0
    then label (ascii "Noch nichts getrunken") ∷ []
    else (label (ascii "Bier") ∷ label (ascii "Anzahl") ∷ label (ascii "Total") ∷ [])
      ++ (summary_rows s.products 0 ++ (label (total_line s) ∷ []))

abbrev pub reported_name : MySummaryState → Text → Option Text
reported_name my_ready name = if is_empty name then none else some name
reported_name _ name = none

abbrev pub text_or : Text → Option Text → Text
text_or other none = other
text_or other (some s) = s
