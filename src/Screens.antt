-- ===== src/Screens.antt =====
-- firmware/beer_terminal/ui_screens.cpp: what a press of each of the controls does. A callback takes
-- what LVGL hands it: the number that was registered with the control, the text of a key, the text of
-- the name field.
pub mod Soundness
pub mod Moves
pub mod Widgets
pub mod Parts
pub mod Build
pub mod Presses
pub mod Grids
pub mod Live
pub mod Placing
pub mod Inside
use beer_tab.Common.{
  ℕ, ◌+◌, ◌-◌, ◌%◌, ◌^◌, [], Option, none, some, Bool, true, false, not, ◌&&◌, Text, ascii,
  is_empty, print_text, ℤ, pos, negsuc, ltb, if◌then◌else◌,
}
use beer_tab.Storage.{LittleFs}
use beer_tab.Catalog
use beer_tab.Keypad.{PriceEntry, press_key, press_free, is_entered}
use beer_tab.Protocol.Json.{ArduinoJson}
use beer_tab.Client.{Config}
use beer_tab.Backend.{Device}
use beer_tab.App.{
  State, Event, product_selected, product_restored, new_product_ready, resident_selected,
  admin_requested, App, Context, Terminal,
}
use beer_tab.App.Machine.{with_app, with_ctx, queue_product_change}
use beer_tab.App.Machine.Events.{
  dispatch, change_price_of, queue_product_create, select_product, set_ad_hoc_product,
}

-- A control that was pressed.
pub data Touch : Type 0 where
  tile : ℕ → Touch
  resident : ℕ → Touch
  event_button : Event → Touch
  archived_tile : ℕ → Touch
  header_long_press : Touch
  keypad : Option Text → Touch
  free_button : Touch
  price_confirm : Touch
  new_product_confirm : Option Text → Touch
  failure_switch : Bool → Touch

-- `static_cast<int8_t>`.
abbrev pub to_i8 : ℕ → ℤ
to_i8 n = let b = n % 2 ^ 8 in if ltb b 128 then pos b else negsuc (255 - b)

abbrev pub with_catalog : {fs : LittleFs} → Terminal fs → Catalog.Catalog → Terminal fs
with_catalog t c = record t { device = record (Terminal.device t) { catalog = c } }

abbrev with_price : {fs : LittleFs} → Terminal fs → PriceEntry → Terminal fs
with_price t e = record t { price_entry = e }

-- The name that was typed, or the placeholder.
abbrev pub name_or_unknown : Option Text → Text
name_or_unknown none = ascii "Unbekanntes Bier"
name_or_unknown (some typed) = if is_empty typed then ascii "Unbekanntes Bier" else typed

unfoldable pub simulate_next_failure : {fs : LittleFs} → Bool → Terminal fs → Terminal fs
simulate_next_failure on t = with_app t (record (Terminal.app t) { fail_next_submit = on })

module _ {fs : LittleFs} (json : ArduinoJson) (config : Config) (clock random : ℕ) where
  on_tile : ℕ → Terminal fs → Terminal fs
  unfolding dispatch select_product
  on_tile index t =
      dispatch json config clock random product_selected (select_product (index % 2 ^ 8) t)

  on_resident : ℕ → Terminal fs → Terminal fs
  unfolding dispatch
  on_resident index t =
      dispatch json config clock random resident_selected
        (with_ctx t (record (App.ctx (Terminal.app t)) { resident_index = to_i8 index }))

  -- The server learns of it before the screen shows it.
  on_restore : ℕ → Terminal fs → Terminal fs
  unfolding dispatch queue_product_change
  on_restore index t =
      let storage = Catalog.storage_index_of_archived t.device.catalog (index % 2 ^ 8) in
      let (c, ok) = Catalog.restore t.device.catalog storage in
      let queued = queue_product_change json config clock random storage true (with_catalog t c) in
      if ok then dispatch json config clock random product_restored queued else t

  on_price_confirm : Terminal fs → Terminal fs
  unfolding change_price_of
  on_price_confirm t =
      if not (is_entered t.price_entry)
      then t
      else change_price_of json config clock random t.app.ctx.archive_storage_index
          t.price_entry.rappen t.price_entry.free_item t

  -- A new product that the catalog took is announced to the server before the purchase.
  unfoldable pub announced : ℤ → Terminal fs → Terminal fs
  unfolding queue_product_create
  announced (negsuc n) t = t
  announced (pos i) t =
      queue_product_create json config clock random (pos i)
        (with_ctx t (record (App.ctx (Terminal.app t)) { product_index = pos i }))

  on_new_product_confirm : Option Text → Terminal fs → Terminal fs
  unfolding dispatch announced set_ad_hoc_product
  on_new_product_confirm typed t =
      let name = print_text 40 (name_or_unknown typed) in
      let e = t.price_entry in
      let (c, storage) = Catalog.add_product t.device.catalog name e.rappen e.free_item in
      let added = set_ad_hoc_product name e.rappen e.free_item (with_catalog t c) in
      if not (is_entered e)
      then t
      else dispatch json config clock random new_product_ready (announced storage added)

  unfoldable pub touched : Touch → Terminal fs → Terminal fs
  unfolding on_tile on_resident on_restore on_price_confirm on_new_product_confirm dispatch
      press_key press_free simulate_next_failure
  touched (tile index) t = on_tile index t
  touched (resident index) t = on_resident index t
  touched (event_button e) t = dispatch json config clock random e t
  touched (archived_tile index) t = on_restore index t
  touched header_long_press t = dispatch json config clock random admin_requested t
  touched (keypad text) t = with_price t (press_key text t.price_entry)
  touched free_button t = with_price t (press_free t.price_entry)
  touched price_confirm t = on_price_confirm t
  touched (new_product_confirm typed) t = on_new_product_confirm typed t
  touched (failure_switch on) t = simulate_next_failure on t
