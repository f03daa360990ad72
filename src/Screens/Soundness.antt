-- ===== src/Screens/Soundness.antt =====
-- ui_screens.cpp: the invariant of a terminal over a press of a control.
use beer_tab.Common.{
  refl, Option-cases, inl, inr, arith, ℕ, ◌≤◌, Bool, true, length, length-append, length-set, none,
  some, Option, Text, [], ◌∷◌, print_text, ℤ, pos, negsuc, get_elem?, if◌then◌else◌,
}
use beer_tab.Settings.{max_products}
use beer_tab.Storage.{LittleFs}
use beer_tab.Records.{Product, Kind, create, change_price}
use beer_tab.Catalog
use beer_tab.Catalog.{Catalog}
use beer_tab.Protocol.Json.{ArduinoJson}
use beer_tab.Client.{Config}
use beer_tab.App.{
  product_selected, product_restored, new_product_ready, resident_selected, admin_requested,
  price_changed, Terminal, queue_product_entry,
}
use beer_tab.App.Machine.Events.{
  change_price_of, queue_product_create, select_product, set_ad_hoc_product,
}
use beer_tab.App.Machine.Soundness.{
  product_entry-IsSupplied, product_entry-IsShown, queue_product_change-IsSupplied,
  queue_product_change-IsShown, state-product_entry, state-queue_product_change,
}
use beer_tab.App.Machine.Sound.{IsSound, same-IsSound, branch, dispatch-IsSound}
use beer_tab.Screens.{
  Touch, tile, resident, event_button, archived_tile, header_long_press, keypad, free_button,
  price_confirm, new_product_confirm, failure_switch, with_catalog, simulate_next_failure, on_tile,
  on_resident, on_restore, on_price_confirm, announced, on_new_product_confirm, touched,
}

set_price_stored :
    (c : Catalog) (i r : ℤ) (f : Bool)
    → length c.items ≤ max_products
    → length (Catalog.set_price c i r f).0.items ≤ max_products
unfolding Catalog.set_price
set_price_stored c (negsuc n) r f h = h
set_price_stored c (pos i) r f h = elim (Option-cases (get_elem? c.items i)) [
  | inl e ↦ ground (arith, e, h)
  | inr (p, e) ↦
      let p' = record p { price_rappen = if f then pos 0 else r; free_item = f } in
      ground (arith, e, h, length-set c.items i p')
]

restore_stored :
    (c : Catalog) (i : ℤ)
    → length c.items ≤ max_products
    → length (Catalog.restore c i).0.items ≤ max_products
unfolding Catalog.restore
restore_stored c (negsuc n) h = h
restore_stored c (pos i) h = elim (Option-cases (get_elem? c.items i)) [
  | inl e ↦ ground (arith, e, h)
  | inr (p, e) ↦ ground (arith, e, h, length-set c.items i (record p { active = true }))
]

add_product_stored :
    (c : Catalog) (name : Text) (r : ℤ) (f : Bool)
    → length c.items ≤ max_products
    → length (Catalog.add_product c name r f).0.items ≤ max_products
unfolding Catalog.add_product Catalog.add Catalog.can_restore
add_product_stored c name r f h =
    let p : Product = record {
      barcode = [];
      name = print_text 40 name;
      price_rappen = r;
      free_item = f;
      image_url = [];
      active = true;
    } in
    ground (arith, h, length-append c.items (p ∷ []))

module _ {fs : LittleFs} (json : ArduinoJson) (config : Config) (clock random : ℕ) where
  -- A catalog that still fits takes the place of the other.
  with_catalog-IsSound :
      (t : Terminal fs) (c : Catalog)
      → length c.items ≤ max_products
      → IsSound t
      → IsSound (with_catalog t c)
  with_catalog-IsSound t c h v = record {
    supplied = record {
      fits = v.supplied.fits;
      stocked = record { stored = h; some_one = v.supplied.stocked.some_one };
      handed = v.supplied.handed;
    };
    shown = record { lit = v.shown.lit; wanted = v.shown.wanted };
    rests = v.rests;
  }

  product_entry-IsSound :
      (o : Option Product) (k : Kind) (t : Terminal fs)
      → IsSound t
      → IsSound (elim o [ none ↦ t | some p ↦ queue_product_entry json config clock t p k ])
  product_entry-IsSound o k t v = record {
    supplied = product_entry-IsSupplied json config clock random o k t v.supplied;
    shown = product_entry-IsShown json config clock random o k t v.shown;
    rests = rw (state-product_entry json config clock random o k t) v.rests;
  }

  select_product-IsSound : (i : ℕ) (t : Terminal fs) → IsSound t → IsSound (select_product i t)
  unfolding select_product
  select_product-IsSound i t v = elim (Option-cases (Catalog.active_at t.device.catalog i)) [
    | inl e ↦ rw (select_product, e) v
    | inr (p, e) ↦ rw (select_product, e) (same-IsSound t _ refl refl refl v)
  ]

  on_restore-IsSound :
      (i : ℕ) (t : Terminal fs) → IsSound t → IsSound (on_restore json config clock random i t)
  unfolding on_restore
  on_restore-IsSound i t v =
      branch (λ x. IsSound x) _ _ t
        (dispatch-IsSound json config clock random product_restored _ (
          let w =
            with_catalog-IsSound t _ (restore_stored t.device.catalog _ v.supplied.stocked.stored)
              v in
          record {
            supplied = queue_product_change-IsSupplied json config clock random _ true _ w.supplied;
            shown = queue_product_change-IsShown json config clock random _ true _ w.shown;
            rests = rw (state-queue_product_change json config clock random _ true _) w.rests;
          }))
        v

  on_price_confirm-IsSound :
      (t : Terminal fs) → IsSound t → IsSound (on_price_confirm json config clock random t)
  unfolding on_price_confirm change_price_of
  on_price_confirm-IsSound t v =
      let i = t.app.ctx.archive_storage_index in
      let e = t.price_entry in
      let c = (Catalog.set_price t.device.catalog i e.rappen e.free_item).0 in
      branch (λ x. IsSound x) _ t _ v
        (branch (λ x. IsSound x) _ t _ v
          (dispatch-IsSound json config clock random price_changed _ (
            product_entry-IsSound (Catalog.at_storage c i) change_price (with_catalog t c) (
              with_catalog-IsSound t c
                (set_price_stored t.device.catalog i e.rappen e.free_item v.supplied.stocked.stored)
                v))))

  announced-IsSound :
      (i : ℤ) (t : Terminal fs) → IsSound t → IsSound (announced json config clock random i t)
  unfolding announced queue_product_create
  announced-IsSound (negsuc n) t v = v
  announced-IsSound (pos i) t v =
      product_entry-IsSound (Catalog.at_storage t.device.catalog (pos i)) create _
        (same-IsSound t _ refl refl refl v)

  on_new_product_confirm-IsSound :
      (typed : Option Text) (t : Terminal fs)
      → IsSound t
      → IsSound (on_new_product_confirm json config clock random typed t)
  unfolding on_new_product_confirm set_ad_hoc_product
  on_new_product_confirm-IsSound typed t v =
      branch (λ x. IsSound x) _ t _ v
        (dispatch-IsSound json config clock random new_product_ready _ (
          announced-IsSound _ _ (
            same-IsSound (with_catalog t _) _ refl refl refl (
              with_catalog-IsSound t _
                (add_product_stored t.device.catalog _ _ _ v.supplied.stocked.stored) v))))

  -- Any press of any control.
  pub touched-IsSound :
      (c : Touch) (t : Terminal fs) → IsSound t → IsSound (touched json config clock random c t)
  unfolding touched on_tile on_resident simulate_next_failure
  touched-IsSound (tile i) t v =
      dispatch-IsSound json config clock random product_selected _ (select_product-IsSound _ t v)
  touched-IsSound (resident i) t v =
      dispatch-IsSound json config clock random resident_selected _
        (same-IsSound t _ refl refl refl v)
  touched-IsSound (event_button e) t v = dispatch-IsSound json config clock random e t v
  touched-IsSound (archived_tile i) t v = on_restore-IsSound i t v
  touched-IsSound header_long_press t v =
      dispatch-IsSound json config clock random admin_requested t v
  touched-IsSound (keypad text) t v = same-IsSound t _ refl refl refl v
  touched-IsSound free_button t v = same-IsSound t _ refl refl refl v
  touched-IsSound price_confirm t v = on_price_confirm-IsSound t v
  touched-IsSound (new_product_confirm typed) t v = on_new_product_confirm-IsSound typed t v
  touched-IsSound (failure_switch on) t v = same-IsSound t _ refl refl refl v
