-- ===== src/App/Machine/Events.antt =====
-- app_state.cpp: `dispatch`, a clause for each case of its `switch`, then `begin`, `update` and the
-- calls of the screens. Of power_manager.cpp, what it dispatches.
use beer_tab.Common.{
  ℕ, ◌+◌, [], none, some, Bool, true, false, not, ◌&&◌, ◌||◌, Text, ascii, is_empty, print_text, ℤ,
  negsuc, u32, ltb, ◌==◌, if◌then◌else◌,
}
use beer_tab.Settings.{display_off_ms}
use beer_tab.Records.{create, change_price}
use beer_tab.Storage.{LittleFs}
use beer_tab.Catalog
use beer_tab.Protocol.Json.{ArduinoJson}
use beer_tab.Client.{Config}
use beer_tab.Backend
use beer_tab.Backend.{
  Device, Result, result_idle, result_pending, result_success, result_unreachable, result_rejected,
  reached, set_active, request_my_summary, MySummaryState, my_idle, my_loading, my_ready,
  my_unavailable,
}
use beer_tab.App.{
  State, sleeping, waking, selecting_product, looking_up, product_found, new_product,
  selecting_user, selecting_archived, manage_product, confirm_archive, submitting, undoing, success,
  summary, error_state, admin, Event, wake, product_selected, not_listed, create_new_product,
  product_restored, new_product_ready, resident_selected, manage_requested, archive_requested,
  price_changed, archive_confirmed, show_summary, submit_succeeded, submit_failed, undo,
  undo_succeeded, undo_failed, retry, cancel, dwell, admin_requested, admin_done, sleep, App,
  Terminal, with_message, reset_context, queue_product_entry,
}
use beer_tab.App.Machine.{
  ordinal, with_app, with_ctx, reverse_locally, is_pending, is_success, is_unreachable, in_flight,
  enter, home, begin_purchase, confirm, on_state_change,
}

abbrev pub is_summary : State → Bool
is_summary summary = true
is_summary _ = false

unfoldable pub same_summary : MySummaryState → MySummaryState → Bool
same_summary my_idle my_idle = true
same_summary my_loading my_loading = true
same_summary my_ready my_ready = true
same_summary my_unavailable my_unavailable = true
same_summary _ _ = false

abbrev pub rejection : Device → Text
rejection d = if is_empty d.backend.error then ascii "Vom Server abgelehnt" else d.backend.error

module _ {fs : LittleFs} (json : ArduinoJson) (config : Config) (clock random : ℕ) where
  abbrev pub go : State → Terminal fs → Terminal fs
  go next t = enter json config clock random next t

  abbrev pub cancelled : Terminal fs → Terminal fs
  cancelled t = home json config clock random t

  unfoldable pub on_event : State → Event → Terminal fs → Terminal fs
  unfolding enter confirm
  on_event sleeping wake t = go selecting_product (go waking t)
  on_event waking e t = go selecting_product t
  on_event selecting_product product_selected t = go selecting_user t
  on_event selecting_product not_listed t =
      go
        (if ltb 0 (Catalog.archived_count t.device.catalog)
          then selecting_archived
          else new_product)
        t
  on_event selecting_product admin_requested t = go admin t
  on_event selecting_product sleep t = go sleeping t
  on_event looking_up product_selected t = go product_found t
  on_event looking_up submit_failed t = go error_state t
  on_event looking_up cancel t = go selecting_product t
  on_event product_found product_selected t = go selecting_user t
  on_event product_found cancel t = go selecting_product t
  on_event selecting_archived product_restored t = go selecting_product t
  on_event selecting_archived create_new_product t = go new_product t
  on_event selecting_archived cancel t = cancelled t
  on_event new_product new_product_ready t = go selecting_user t
  on_event new_product cancel t = cancelled t
  on_event selecting_user resident_selected t = begin_purchase json config clock random t
  on_event selecting_user manage_requested t = go manage_product (
      with_ctx t
        (record (App.ctx (Terminal.app t)) { archive_storage_index = t.app.ctx.product_index }))
  on_event selecting_user cancel t = cancelled t
  on_event manage_product archive_requested t = go confirm_archive t
  on_event manage_product price_changed t = cancelled t
  on_event manage_product cancel t = go selecting_user t
  on_event confirm_archive archive_confirmed t = confirm json config clock random t
  on_event confirm_archive cancel t = go manage_product t
  on_event submitting submit_succeeded t = go success t
  on_event submitting submit_failed t = go error_state t
  on_event undoing undo_succeeded t = go success t
  on_event undoing undo_failed t = go error_state t
  on_event success undo t =
      if t.app.ctx.undone
      then t
      else go undoing (with_ctx t (record (App.ctx (Terminal.app t)) { undo_in_flight = true }))
  on_event success show_summary t = go summary t
  on_event success dwell t = cancelled t
  on_event success cancel t = cancelled t
  on_event summary dwell t = cancelled t
  on_event summary cancel t = cancelled t
  on_event error_state retry t = go (if t.app.ctx.undo_in_flight then undoing else submitting) t
  on_event error_state cancel t = cancelled t
  on_event admin admin_done t = go selecting_product t
  on_event admin cancel t = go selecting_product t
  on_event s e t = t

  unfoldable pub dispatch : Event → Terminal fs → Terminal fs
  unfolding on_event
  dispatch e t = on_event t.app.state e t

  unfoldable pub begin : Terminal fs → Terminal fs
  unfolding enter
  begin t =
      let t' = reset_context (with_app t (record (Terminal.app t) { state = sleeping })) in
      go selecting_product (go waking t')

  -- The event that the result of a watched request means, by the state.
  unfoldable pub judged : State → Terminal fs → Terminal fs
  unfolding dispatch
  judged s t =
      let r = t.device.backend.result in
      let t' = with_ctx t (record (App.ctx (Terminal.app t)) { deferred = is_unreachable r }) in
      let is_submit = ordinal s == ordinal submitting in
      if is_success r || is_unreachable r
      then if is_submit
        then dispatch submit_succeeded t'
        else dispatch undo_succeeded (reverse_locally t')
      else dispatch (if is_submit then submit_failed else undo_failed)
          (with_message t' (rejection t.device))

  unfoldable pub watched : State → Terminal fs → Terminal fs
  unfolding judged
  watched s t =
      let after = judged s t in record after { device = Backend.clear (Terminal.device after) }

  -- The `switch` on a timed state that is over.
  unfoldable pub timed_out : State → Terminal fs → Terminal fs
  unfolding dispatch
  timed_out submitting t =
      if t.app.fail_next_submit
      then dispatch submit_failed (
          with_message (with_app t (record (Terminal.app t) { fail_next_submit = false }))
            (ascii "Keine Verbindung zum Server"))
      else dispatch submit_succeeded t
  timed_out undoing t = dispatch undo_succeeded (reverse_locally t)
  timed_out success t = dispatch dwell t
  timed_out summary t = dispatch dwell t
  timed_out _ t = t

  -- `redraw`: the handler is told of the state that it is in.
  unfoldable pub redraw : Terminal fs → Terminal fs
  unfolding on_state_change
  redraw t = on_state_change json config clock random t.app.state t

  -- The overview is drawn again when its figures have come.
  unfoldable pub redraw_summary : Terminal fs → Terminal fs
  unfolding redraw same_summary
  redraw_summary t =
      let now = t.device.backend.my_state in
      let t' = with_app t (record (Terminal.app t) { last_summary = now }) in
      if not (is_summary t.app.state) || same_summary now t.app.last_summary
      then t
      else if same_summary now my_loading
      then t'
      else redraw t'

  -- The rest of `update`: a request that is watched, and the timer.
  unfoldable pub update_timed : ℕ → Terminal fs → Terminal fs
  unfolding watched timed_out
  update_timed now t =
      if not t.app.simulated && in_flight t.app.state
      then if is_pending t.device.backend.result then t else watched t.app.state t
      else if t.app.deadline == 0 || not (reached now t.app.deadline)
      then t
      else timed_out t.app.state (with_app t (record (Terminal.app t) { deadline = 0 }))

  unfoldable pub update : ℕ → Terminal fs → Terminal fs
  unfolding redraw_summary update_timed
  update now t = update_timed now (redraw_summary t)

  unfoldable pub change_price_of : ℤ → ℤ → Bool → Terminal fs → Terminal fs
  unfolding dispatch queue_product_entry
  change_price_of storage_index price_rappen free_item t =
      let (c, changed) = Catalog.set_price t.device.catalog storage_index price_rappen free_item in
      let t' = record t { device = record (Terminal.device t) { catalog = c } } in
      if not changed
      then t
      else dispatch price_changed (elim (Catalog.at_storage c storage_index) [
        | none ↦ t'
        | some p ↦ queue_product_entry json config clock t' p change_price
      ])

  unfoldable pub queue_product_create : ℤ → Terminal fs → Terminal fs
  unfolding queue_product_entry
  queue_product_create storage_index t = elim (Catalog.at_storage t.device.catalog storage_index) [
    | none ↦ t
    | some p ↦ queue_product_entry json config clock t p create
  ]

  -- `power_manager::note_activity` and `power_manager::update`.
  unfoldable pub note_activity : Terminal fs → Terminal fs
  unfolding dispatch
  note_activity t = if t.awake then t else dispatch wake t

  unfoldable pub power_update : ℕ → ℕ → Terminal fs → Terminal fs
  unfolding dispatch
  power_update last_activity now t =
      if not t.awake
      then t
      else if not (reached now (u32 (last_activity + display_off_ms)))
      then t
      else dispatch sleep t

-- What the screens put in the context.
unfoldable pub select_product : {fs : LittleFs} → ℕ → Terminal fs → Terminal fs
select_product active_index t = elim (Catalog.active_at t.device.catalog active_index) [
  | none ↦ t
  | some p ↦ with_ctx t (record (App.ctx (Terminal.app t)) {
    product_index = Catalog.storage_index_of_active t.device.catalog active_index;
    product_name = print_text 40 p.name;
    barcode = print_text 14 p.barcode;
    price_rappen = p.price_rappen;
    free_item = p.free_item;
  })
]

unfoldable pub set_ad_hoc_product : {fs : LittleFs} → Text → ℤ → Bool → Terminal fs → Terminal fs
set_ad_hoc_product name price_rappen free_item t = with_ctx t (record (App.ctx (Terminal.app t)) {
  product_index = negsuc 0;
  product_name = print_text 40 name;
  barcode = [];
  price_rappen = price_rappen;
  free_item = free_item;
})
