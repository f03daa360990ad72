-- ===== src/App/Machine.antt =====
-- app_state.cpp: `enter`, `dispatch`, `update` and what the screens call, with `on_state_change` of
-- beer_terminal.ino, the handler that it is given, and power_manager.cpp. Drawing is left out.
pub mod Events
pub mod Paths
pub mod Handler
pub mod Diagram
pub mod Walks
pub mod Feeding
pub mod Shifts
pub mod Room
pub mod Soundness
pub mod Sound
pub mod Moves
pub mod Updates
use beer_tab.Common.{
  ℕ, zero, suc, ◌+◌, ◌*◌, ◌%◌, ◌^◌, List, [], ◌∷◌, ◌++◌, Option, none, some, Bool, true, false, not,
  ◌&&◌, ◌||◌, Text, ascii, is_empty, print_text, ℤ, pos, negsuc, u32, is_before, ltb, ◌==◌,
  if◌then◌else◌,
}
use beer_tab.Settings.{
  mock_submit_ms, success_dwell_ms, undo_dwell_ms, summary_dwell_ms, display_off_ms,
}
use beer_tab.Records.{Product, Kind, archive, restore, create, change_price}
use beer_tab.Storage.{LittleFs}
use beer_tab.Catalog
use beer_tab.Catalog.{Catalog}
use beer_tab.Keypad.{PriceEntry, no_price, price_of}
use beer_tab.Protocol.Json.{ArduinoJson}
use beer_tab.Client.{Config}
use beer_tab.Backend
use beer_tab.Backend.{
  Device, Result, result_idle, result_pending, result_success, result_unreachable, result_rejected,
  reached, set_active, request_my_summary,
}
use beer_tab.App.{
  State, sleeping, waking, selecting_product, looking_up, product_found, new_product,
  selecting_user, selecting_archived, manage_product, confirm_archive, submitting, undoing, success,
  summary, error_state, admin, Event, wake, product_selected, not_listed, create_new_product,
  product_restored, new_product_ready, resident_selected, manage_requested, archive_requested,
  price_changed, archive_confirmed, show_summary, submit_succeeded, submit_failed, undo,
  undo_succeeded, undo_failed, retry, cancel, dwell, admin_requested, admin_done, sleep, Context,
  App, Terminal, Enqueued, watching, deferred, refused, no_backend, chosen_resident,
  make_transaction_id, with_message, reset_context, enqueue_purchase, enqueue_undo,
  queue_product_entry,
}

-- The value of the enumerator.
abbrev pub ordinal : State → ℕ
ordinal sleeping = 0
ordinal waking = 1
ordinal selecting_product = 2
ordinal looking_up = 3
ordinal product_found = 4
ordinal new_product = 5
ordinal selecting_user = 6
ordinal selecting_archived = 7
ordinal manage_product = 8
ordinal confirm_archive = 9
ordinal submitting = 10
ordinal undoing = 11
ordinal success = 12
ordinal summary = 13
ordinal error_state = 14
ordinal admin = 15

abbrev pub is_sleeping : State → Bool
is_sleeping sleeping = true
is_sleeping _ = false

-- `display_ui::set_awake`: the press that wakes the screen is ignored until it ends.
unfoldable pub set_awake : {fs : LittleFs} → Bool → Terminal fs → Terminal fs
set_awake on t =
    if Catalog.same on t.awake
    then t
    else record t { awake = on; ignore_touch = if on then true else t.ignore_touch }

-- The price that a screen starts from when it is built.
shown_price : State → Catalog → Context → PriceEntry → PriceEntry
unfolding price_of
shown_price manage_product c ctx e = price_of (Catalog.at_storage c ctx.archive_storage_index)
shown_price new_product c ctx e = no_price
shown_price _ c ctx e = e

-- `ui_screens::show`, but for the drawing.
unfoldable pub show : {fs : LittleFs} → State → Terminal fs → Terminal fs
unfolding shown_price
show current t = record t {
  price_entry = shown_price current t.device.catalog t.app.ctx t.price_entry;
}

abbrev is_watching : Enqueued → Bool
is_watching watching = true
is_watching _ = false

abbrev is_deferred : Enqueued → Bool
is_deferred deferred = true
is_deferred _ = false

abbrev is_refused : Enqueued → Bool
is_refused refused = true
is_refused _ = false

abbrev pub with_app : {fs : LittleFs} → Terminal fs → App → Terminal fs
with_app t a = record t { app = a }

abbrev pub with_ctx : {fs : LittleFs} → Terminal fs → Context → Terminal fs
with_ctx t c = record t { app = record (Terminal.app t) { ctx = c } }

unfoldable pub apply_enqueued : {fs : LittleFs} → Terminal fs × Enqueued → Terminal fs
apply_enqueued (t, e) = with_app t (record (Terminal.app t) {
  simulated = not (is_watching e);
  ctx = record (App.ctx (Terminal.app t)) { deferred = is_deferred e };
  fail_next_submit = is_refused e || t.app.fail_next_submit;
  dwell_total = if is_watching e then 0 else mock_submit_ms;
})

abbrev pub reverse_locally : {fs : LittleFs} → Terminal fs → Terminal fs
reverse_locally t =
    with_ctx t (record (App.ctx (Terminal.app t)) { undo_in_flight = false; undone = true })

abbrev with_dwell : {fs : LittleFs} → Terminal fs → ℕ → Terminal fs
with_dwell t n = with_app t (record (Terminal.app t) { dwell_total = n })

abbrev pub is_pending : Result → Bool
is_pending result_pending = true
is_pending _ = false

abbrev pub is_success : Result → Bool
is_success result_success = true
is_success _ = false

abbrev pub is_unreachable : Result → Bool
is_unreachable result_unreachable = true
is_unreachable _ = false

abbrev pub in_flight : State → Bool
in_flight submitting = true
in_flight undoing = true
in_flight _ = false

module _ {fs : LittleFs} (json : ArduinoJson) (config : Config) (clock random : ℕ) where
  -- The radio and the backlight follow the state; a screen that wakes is built before it is lit.
  unfoldable pub on_state_change : State → Terminal fs → Terminal fs
  unfolding show set_awake
  on_state_change current t =
      let t' = record t {
        device = set_active json config t.device (not (is_sleeping current)) clock;
      } in
      let shown = show current t' in
      if is_sleeping current
      then show current (set_awake false t')
      else if shown.awake
      then shown
      else set_awake true shown

  -- The `switch` of `enter`.
  unfoldable pub on_enter : State → Terminal fs → Terminal fs
  unfolding apply_enqueued enqueue_purchase enqueue_undo chosen_resident
  on_enter submitting t = apply_enqueued (enqueue_purchase json config clock t)
  on_enter undoing t = apply_enqueued (enqueue_undo json config clock t)
  on_enter success t = with_dwell t (if t.app.ctx.undone then undo_dwell_ms else success_dwell_ms)
  on_enter summary t = record (with_dwell t summary_dwell_ms) {
    device =
        (request_my_summary json config t.device (chosen_resident t.device.residents t.app.ctx).id
          clock).0;
  }
  on_enter _ t = t

  abbrev pub arm : Terminal fs → Terminal fs
  arm t =
      if ltb 0 t.app.dwell_total
      then with_app t (record (Terminal.app t) { deadline = u32 (clock + t.app.dwell_total) })
      else t

  unfoldable pub enter : State → Terminal fs → Terminal fs
  unfolding on_enter on_state_change
  enter next t =
      let t' =
        with_app t (record (Terminal.app t) { state = next; deadline = 0; dwell_total = 0 }) in
      if ordinal next == ordinal t.app.state
      then t
      else on_state_change next (arm (on_enter next t'))

  abbrev pub home : Terminal fs → Terminal fs
  home t = enter selecting_product (reset_context t)

  abbrev pub begin_purchase : Terminal fs → Terminal fs
  begin_purchase t =
      let t' = with_ctx t (record (App.ctx (Terminal.app t)) {
        transaction_id = make_transaction_id clock random;
        message = [];
      }) in
      enter submitting (record t' { device = Backend.clear (Terminal.device t') })

  unfoldable pub queue_product_change : ℤ → Bool → Terminal fs → Terminal fs
  unfolding queue_product_entry
  queue_product_change storage_index active t =
      elim (Catalog.at_storage t.device.catalog storage_index) [
        | none ↦ t
        | some p ↦ queue_product_entry json config clock t p (if active then restore else archive)
      ]

  unfoldable pub confirm : Terminal fs → Terminal fs
  unfolding queue_product_change
  confirm t =
      let index = t.app.ctx.archive_storage_index in
      let t' = queue_product_change index false t in
      let c = (Catalog.archive t'.device.catalog index).0 in
      home (record t' { device = record (Terminal.device t') { catalog = c } })
