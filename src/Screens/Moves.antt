-- ===== src/Screens/Moves.antt =====
-- ui_screens.cpp: the queue over a press of a control.
use beer_tab.Common.{
  ◌≡◌, refl, Option-cases, inl, inr, ℕ, ◌%◌, ◌^◌, Bool, true, false, not, [], Option, none, some,
  Text, print_text, ℤ, pos, negsuc,
}
use beer_tab.Records.{create, change_price}
use beer_tab.Storage.{LittleFs}
use beer_tab.Catalog
use beer_tab.Keypad.{is_entered}
use beer_tab.Protocol.Json.{ArduinoJson}
use beer_tab.Client.{Config}
use beer_tab.App.{
  product_selected, product_restored, new_product_ready, resident_selected, admin_requested,
  price_changed, App, Terminal, queue_product_entry,
}
use beer_tab.App.Stored.{items_of}
use beer_tab.App.Machine.{with_ctx, queue_product_change}
use beer_tab.App.Machine.Events.{
  change_price_of, queue_product_create, select_product, set_ad_hoc_product,
}
use beer_tab.App.Machine.Sound.{branch}
use beer_tab.App.Machine.Shifts.{Shift, Shift-same, Shift-any}
use beer_tab.App.Machine.Moves.{
  takes_back, dispatch-Shift, product_entry-Shift, queue_product_change-Shift,
}
use beer_tab.App.Machine.Updates.{
  Appends, Appends-refl, Appends-from, Appends-trans, dispatch-Appends,
}
use beer_tab.Screens.{
  Touch, tile, resident, event_button, archived_tile, header_long_press, keypad, free_button,
  price_confirm, new_product_confirm, failure_switch, with_catalog, to_i8, name_or_unknown,
  simulate_next_failure, on_tile, on_resident, on_restore, on_price_confirm, announced,
  on_new_product_confirm, touched,
}

-- The buttons for an undo and for a retry.
abbrev pub takes_back_touch : Touch → Bool
takes_back_touch (event_button e) = takes_back e
takes_back_touch _ = false

module _ {fs : LittleFs} (json : ArduinoJson) (config : Config) (clock random : ℕ) where
  items-select_product : (i : ℕ) (t : Terminal fs) → items_of (select_product i t) ≡ items_of t
  unfolding select_product
  items-select_product i t = elim (Option-cases (Catalog.active_at t.device.catalog i)) [
    | inl e ↦ rw (select_product, e) refl
    | inr (p, e) ↦ rw (select_product, e) refl
  ]

  on_tile-Appends : (i : ℕ) (t : Terminal fs) → Appends t (on_tile json config clock random i t)
  unfolding on_tile
  on_tile-Appends i t =
      let t' = select_product (i % 2 ^ 8) t in
      Appends-from t t' _ (items-select_product (i % 2 ^ 8) t)
        (dispatch-Appends json config clock random product_selected t' refl)

  on_restore-Appends :
      (i : ℕ) (t : Terminal fs) → Appends t (on_restore json config clock random i t)
  unfolding on_restore
  on_restore-Appends i t =
      let storage = Catalog.storage_index_of_archived t.device.catalog (i % 2 ^ 8) in
      let t' = with_catalog t (Catalog.restore t.device.catalog storage).0 in
      let queued = queue_product_change json config clock random storage true t' in
      branch (λ x. Appends t x) _ _ t
        (Appends-trans t queued _
          (record {
            shift = queue_product_change-Shift json config clock random [] storage true t';
          })
          (dispatch-Appends json config clock random product_restored queued refl))
        (Appends-refl t)

  on_price_confirm-Appends :
      (t : Terminal fs) → Appends t (on_price_confirm json config clock random t)
  unfolding on_price_confirm change_price_of
  on_price_confirm-Appends t =
      let i = t.app.ctx.archive_storage_index in
      let e = t.price_entry in
      let c = (Catalog.set_price t.device.catalog i e.rappen e.free_item).0 in
      let t' = with_catalog t c in
      let queued : Terminal fs = elim (Catalog.at_storage c i) [
        | none ↦ t'
        | some p ↦ queue_product_entry json config clock t' p change_price
      ] in
      branch (λ x. Appends t x) _ t _ (Appends-refl t)
        (branch (λ x. Appends t x) _ t _ (Appends-refl t)
          (Appends-trans t queued _
            (record {
              shift =
                  product_entry-Shift json config clock random [] (Catalog.at_storage c i)
                    change_price t';
            })
            (dispatch-Appends json config clock random price_changed queued refl)))

  announced-Appends : (i : ℤ) (t : Terminal fs) → Appends t (announced json config clock random i t)
  unfolding announced queue_product_create
  announced-Appends (negsuc n) t = Appends-refl t
  announced-Appends (pos i) t =
      let t' = with_ctx t (record (App.ctx (Terminal.app t)) { product_index = pos i }) in
      record {
        shift =
            product_entry-Shift json config clock random []
              (Catalog.at_storage t.device.catalog (pos i)) create t';
      }

  on_new_product_confirm-Appends :
      (typed : Option Text) (t : Terminal fs)
      → Appends t (on_new_product_confirm json config clock random typed t)
  unfolding on_new_product_confirm set_ad_hoc_product
  on_new_product_confirm-Appends typed t =
      let name = print_text 40 (name_or_unknown typed) in
      let e = t.price_entry in
      let (c, storage) = Catalog.add_product t.device.catalog name e.rappen e.free_item in
      let added = set_ad_hoc_product name e.rappen e.free_item (with_catalog t c) in
      let t' = announced json config clock random storage added in
      branch (λ x. Appends t x) (not (is_entered e)) t _ (Appends-refl t)
        (Appends-trans t t' _ (Appends-from t added t' refl (announced-Appends storage added))
          (dispatch-Appends json config clock random new_product_ready t' refl))

  appended :
      (back : Bool) (t x : Terminal fs)
      → Appends t x
      → Shift back t.app.ctx.transaction_id (items_of t) (items_of x)
  appended back t x a = Shift-any back [] _ _ _ a.shift

  -- A press appends to the queue, or, where it is an undo or a retry, takes the purchase of the
  -- context out.
  pub touched-Shift :
      (c : Touch) (t : Terminal fs)
      → Shift
          (takes_back_touch c)
          t.app.ctx.transaction_id
          (items_of t)
          (items_of (touched json config clock random c t))
  unfolding touched on_resident simulate_next_failure
  touched-Shift (tile i) t = appended _ t _ (on_tile-Appends i t)
  touched-Shift (resident i) t = appended _ t _ (
      let t' = with_ctx t (record (App.ctx (Terminal.app t)) { resident_index = to_i8 i }) in
      Appends-from t t' _ refl
        (dispatch-Appends json config clock random resident_selected t' refl))
  touched-Shift (event_button e) t = dispatch-Shift json config clock random e t
  touched-Shift (archived_tile i) t = appended _ t _ (on_restore-Appends i t)
  touched-Shift header_long_press t =
      appended _ t _ (dispatch-Appends json config clock random admin_requested t refl)
  touched-Shift (keypad text) t = Shift-same _ _ _ _ refl
  touched-Shift free_button t = Shift-same _ _ _ _ refl
  touched-Shift price_confirm t = appended _ t _ (on_price_confirm-Appends t)
  touched-Shift (new_product_confirm typed) t =
      appended _ t _ (on_new_product_confirm-Appends typed t)
  touched-Shift (failure_switch on) t = Shift-same _ _ _ _ refl
