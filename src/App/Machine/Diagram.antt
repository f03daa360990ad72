-- ===== src/App/Machine/Diagram.antt =====
-- app_state.cpp: which state each case of the `switch` of `dispatch` leads to, written as a relation.
use beer_tab.Common.{◌≡◌, refl, ◌⊎◌, inl, inr, ℕ, Bool, true, false, ltb, if◌then◌else◌}
use beer_tab.Storage.{LittleFs}
use beer_tab.Catalog
use beer_tab.Protocol.Json.{ArduinoJson}
use beer_tab.Client.{Config}
use beer_tab.App.{
  State, sleeping, waking, selecting_product, looking_up, product_found, new_product,
  selecting_user, selecting_archived, manage_product, confirm_archive, submitting, undoing, success,
  summary, error_state, admin, Event, wake, product_selected, not_listed, create_new_product,
  product_restored, new_product_ready, resident_selected, manage_requested, archive_requested,
  price_changed, archive_confirmed, show_summary, submit_succeeded, submit_failed, undo,
  undo_succeeded, undo_failed, retry, cancel, dwell, admin_requested, admin_done, sleep, App,
  Context, Terminal, empty_context,
}
use beer_tab.App.Machine.{with_ctx, in_flight, home, begin_purchase, confirm}
use beer_tab.App.Machine.Events.{go, on_event}

-- The cases of the `switch`: from a state, on an event, to a state.
pub data Edge : State → Event → State → Type 0 where
  wakes : Edge sleeping wake selecting_product
  settles : {e : Event} → Edge waking e selecting_product
  picks : Edge selecting_product product_selected selecting_user
  browses : Edge selecting_product not_listed selecting_archived
  invents : Edge selecting_product not_listed new_product
  administers : Edge selecting_product admin_requested admin
  sleeps : Edge selecting_product sleep sleeping
  finds : Edge looking_up product_selected product_found
  finds_not : Edge looking_up submit_failed error_state
  looks_no_more : Edge looking_up cancel selecting_product
  takes : Edge product_found product_selected selecting_user
  takes_not : Edge product_found cancel selecting_product
  brings_back : Edge selecting_archived product_restored selecting_product
  creates : Edge selecting_archived create_new_product new_product
  browses_no_more : Edge selecting_archived cancel selecting_product
  names : Edge new_product new_product_ready selecting_user
  names_not : Edge new_product cancel selecting_product
  books : Edge selecting_user resident_selected submitting
  manages : Edge selecting_user manage_requested manage_product
  books_not : Edge selecting_user cancel selecting_product
  asks_archive : Edge manage_product archive_requested confirm_archive
  prices : Edge manage_product price_changed selecting_product
  manages_no_more : Edge manage_product cancel selecting_user
  archives : Edge confirm_archive archive_confirmed selecting_product
  archives_not : Edge confirm_archive cancel manage_product
  is_booked : Edge submitting submit_succeeded success
  is_not_booked : Edge submitting submit_failed error_state
  is_undone : Edge undoing undo_succeeded success
  is_not_undone : Edge undoing undo_failed error_state
  undoes : Edge success undo undoing
  overviews : Edge success show_summary summary
  confirms_no_more : Edge success dwell selecting_product
  closes : Edge success cancel selecting_product
  overviews_no_more : Edge summary dwell selecting_product
  closes_overview : Edge summary cancel selecting_product
  submits_again : Edge error_state retry submitting
  undoes_again : Edge error_state retry undoing
  gives_up : Edge error_state cancel selecting_product
  administers_no_more : Edge admin admin_done selecting_product
  closes_admin : Edge admin cancel selecting_product

module _ {fs : LittleFs} (json : ArduinoJson) (config : Config) (clock random : ℕ) where
  -- What an event makes of a terminal in a state: nothing, a walk along an arrow with the context
  -- prepared, or one of the three that do more.
  pub data Effect (s : State) (e : Event) (t x : Terminal fs) : Type 0 where
    stays : x ≡ t → Effect s e t x
    goes :
        (next : State) (c : Context)
        → Edge s e next
        → ((in_flight next ≡ false) ⊎ (c.transaction_id ≡ t.app.ctx.transaction_id))
        → x ≡ go json config clock random next (with_ctx t c)
        → Effect s e t x
    lights_up :
        Edge s e selecting_product
        → x ≡ go json config clock random selecting_product (go json config clock random waking t)
        → Effect s e t x
    buys : Edge s e submitting → x ≡ begin_purchase json config clock random t → Effect s e t x
    shelves : Edge s e selecting_product → x ≡ confirm json config clock random t → Effect s e t x

  -- An arrow that is walked with the context as it is.
  along :
      (s next : State) (e : Event) (t : Terminal fs)
      → Edge s e next
      → Effect s e t (go json config clock random next t)
  along s next e t edge = goes next t.app.ctx edge (inr refl) refl

  -- An arrow home.
  back :
      (s : State) (e : Event) (t : Terminal fs)
      → Edge s e selecting_product
      → Effect s e t (home json config clock random t)
  back s e t edge = goes selecting_product empty_context edge (inl refl) refl

  undo-Effect :
      (t : Terminal fs) (b : Bool)
      → Effect success undo t (
          if b
          then t
          else go json config clock random undoing
              (with_ctx t (record (App.ctx (Terminal.app t)) { undo_in_flight = true })))
  undo-Effect t true = stays refl
  undo-Effect t false =
      goes undoing (record (App.ctx (Terminal.app t)) { undo_in_flight = true }) undoes (inr refl)
        refl

  retry-Effect :
      (t : Terminal fs) (b : Bool)
      → Effect error_state retry t
          (go json config clock random (if b then undoing else submitting) t)
  retry-Effect t true = along error_state undoing retry t undoes_again
  retry-Effect t false = along error_state submitting retry t submits_again

  not_listed-Effect :
      (t : Terminal fs) (b : Bool)
      → Effect selecting_product not_listed t
          (go json config clock random (if b then selecting_archived else new_product) t)
  not_listed-Effect t true = along selecting_product selecting_archived not_listed t browses
  not_listed-Effect t false = along selecting_product new_product not_listed t invents

  pub on_event-Effect :
      (s : State) (e : Event) (t : Terminal fs)
      → Effect s e t (on_event json config clock random s e t)
  unfolding on_event
  on_event-Effect sleeping wake t = lights_up wakes refl
  on_event-Effect waking e t = along waking selecting_product e t settles
  on_event-Effect selecting_product product_selected t = along _ _ _ t picks
  on_event-Effect selecting_product not_listed t =
      not_listed-Effect t (ltb 0 (Catalog.archived_count t.device.catalog))
  on_event-Effect selecting_product admin_requested t = along _ _ _ t administers
  on_event-Effect selecting_product sleep t = along _ _ _ t sleeps
  on_event-Effect looking_up product_selected t = along _ _ _ t finds
  on_event-Effect looking_up submit_failed t = along _ _ _ t finds_not
  on_event-Effect looking_up cancel t = along _ _ _ t looks_no_more
  on_event-Effect product_found product_selected t = along _ _ _ t takes
  on_event-Effect product_found cancel t = along _ _ _ t takes_not
  on_event-Effect selecting_archived product_restored t = along _ _ _ t brings_back
  on_event-Effect selecting_archived create_new_product t = along _ _ _ t creates
  on_event-Effect selecting_archived cancel t = back _ _ t browses_no_more
  on_event-Effect new_product new_product_ready t = along _ _ _ t names
  on_event-Effect new_product cancel t = back _ _ t names_not
  on_event-Effect selecting_user resident_selected t = buys books refl
  on_event-Effect selecting_user manage_requested t =
      goes manage_product
        (record (App.ctx (Terminal.app t)) { archive_storage_index = t.app.ctx.product_index })
        manages (inl refl) refl
  on_event-Effect selecting_user cancel t = back _ _ t books_not
  on_event-Effect manage_product archive_requested t = along _ _ _ t asks_archive
  on_event-Effect manage_product price_changed t = back _ _ t prices
  on_event-Effect manage_product cancel t = along _ _ _ t manages_no_more
  on_event-Effect confirm_archive archive_confirmed t = shelves archives refl
  on_event-Effect confirm_archive cancel t = along _ _ _ t archives_not
  on_event-Effect submitting submit_succeeded t = along _ _ _ t is_booked
  on_event-Effect submitting submit_failed t = along _ _ _ t is_not_booked
  on_event-Effect undoing undo_succeeded t = along _ _ _ t is_undone
  on_event-Effect undoing undo_failed t = along _ _ _ t is_not_undone
  on_event-Effect success undo t = undo-Effect t t.app.ctx.undone
  on_event-Effect success show_summary t = along _ _ _ t overviews
  on_event-Effect success dwell t = back _ _ t confirms_no_more
  on_event-Effect success cancel t = back _ _ t closes
  on_event-Effect summary dwell t = back _ _ t overviews_no_more
  on_event-Effect summary cancel t = back _ _ t closes_overview
  on_event-Effect error_state retry t = retry-Effect t t.app.ctx.undo_in_flight
  on_event-Effect error_state cancel t = back _ _ t gives_up
  on_event-Effect admin admin_done t = along _ _ _ t administers_no_more
  on_event-Effect admin cancel t = along _ _ _ t closes_admin
  on_event-Effect s e t = stays refl
