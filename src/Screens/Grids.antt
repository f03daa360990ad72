-- ===== src/Screens/Grids.antt =====
-- ui_screens.cpp with app_state.cpp: presses of the tiles of a grid.
use beer_tab.Common.{
  ℕ, ◌+◌, ◌%◌, ◌^◌, ◌≡◌, refl, sym, ap, length, List, [], ◌∷◌, Option, none, some, Bool, true,
  false, if◌then◌else◌, ascii, inl, inr, ◌∙◌, ◌<◌, ◌==◌, ltb, not, ◌≤◌, Option-cases, arith,
}
use beer_tab.Settings.{max_products}
use beer_tab.Codec.Loops.{All-append}
use beer_tab.Storage.{LittleFs}
use beer_tab.Catalog
use beer_tab.Protocol.Json.{ArduinoJson}
use beer_tab.Client.{Config}
use beer_tab.App.{
  selecting_product, selecting_user, selecting_archived, product_restored, resident_selected,
  manage_requested, App, Terminal, reset_context, make_transaction_id,
}
use beer_tab.App.Machine.{with_ctx}
use beer_tab.App.Machine.Events.{on_event, dispatch, select_product}
use beer_tab.App.Machine.Diagram.{
  Edge, picks, administers, sleeps, browses_no_more, creates, books, manages, books_not,
  brings_back,
}
use beer_tab.Screens.{
  tile, resident, event_button, archived_tile, touched, on_tile, on_resident, on_restore, to_i8,
}
use beer_tab.Records.{Product, Resident}
use beer_tab.Residents
use beer_tab.Catalog.Selection.{restore_archived, counts}
use beer_tab.Backend
use beer_tab.Backend.{MySummaryState, my_idle, my_loading, my_ready, my_unavailable}
use beer_tab.App.Machine.Soundness.{state-queue_product_change}
use beer_tab.Layout.{
  Bounds, GridGeometry, grid_geometry, tile_position, catalog_bounds, resident_bounds,
}
use beer_tab.Screens.Widgets.{Widget, calls, button, box, touch_of}
use beer_tab.Screens.Build.{build_catalog, build_resident, build_archived}
use beer_tab.Screens.Parts.{
  build_each, tile_of, catalog_tile, catalog_body, archived_one, resident_button,
}
use beer_tab.Screens.Presses.{All-build_each, IsLive, Alive, either, walks, pressed, unlisted}

module _ {fs : LittleFs} (json : ArduinoJson) (config : Config) (clock random : ℕ) where
  state-select_product : (i : ℕ) (t : Terminal fs) → (select_product i t).app.state ≡ t.app.state
  unfolding select_product
  state-select_product i t = elim (Option-cases (Catalog.active_at t.device.catalog i)) [
    | inl e ↦ rw (select_product, e) refl
    | inr (p, e) ↦ rw (select_product, e) refl
  ]

  pub catalog-Alive :
      (u t : Terminal fs)
      → t.app.state ≡ selecting_product
      → Alive json config clock random selecting_product t (build_catalog u)
  unfolding build_catalog catalog_body catalog_tile touched on_tile on_event
  catalog-Alive u t at = (
    pressed json config clock random _ _ t at (walks json config clock random _ _ _ t administers),
    All-append (λ w. IsLive json config clock random selecting_product t (touch_of w))
        (catalog_body c) _
        (either json config clock random selecting_product t (n == 0) _ _ (λ h. (tt, tt))
          (λ h.
            All-build_each (λ w. IsLive json config clock random selecting_product t (touch_of w))
              (catalog_tile c) n 0
              (λ j l. a_tile j (Catalog.active_at c j) g (tile_position g catalog_bounds n j))))
        (
          pressed json config clock random _ _ t at (
              unlisted json config clock random t
                (ltb 0 (Catalog.archived_count t.device.catalog))),
          (
            pressed json config clock random _ _ t at
                (walks json config clock random _ _ _ t sleeps),
            tt,
          ),
        ),
  )
    where
      c : Catalog.Catalog
      c = u.device.catalog

      n : ℕ
      n = Catalog.active_count c

      g : GridGeometry
      g = grid_geometry n catalog_bounds

      a_tile :
          (j : ℕ) (o : Option Product) (g' : GridGeometry) (place : ℕ × ℕ)
          → Alive json config clock random selecting_product t
              (tile_of o g' place (some (tile j)) false)
      a_tile j none g' place = tt
      a_tile j (some p) g' place = (
        pressed json config clock random _ _ (select_product (j % 2 ^ 8) t)
            (state-select_product (j % 2 ^ 8) t ∙ at)
            (walks json config clock random _ _ _ (select_product (j % 2 ^ 8) t) picks),
        tt,
      )

  bought :
      (x : Terminal fs)
      → x.app.state ≡ selecting_user
      → Edge selecting_user resident_selected
          (dispatch json config clock random resident_selected x).app.state
  unfolding on_event
  bought x at =
      let t' = with_ctx x (record (App.ctx (Terminal.app x)) {
        transaction_id = make_transaction_id clock random;
        message = [];
      }) in
      pressed json config clock random _ _ x at (
        walks json config clock random _ _ _
          (record t' { device = Backend.clear (Terminal.device t') }) books)

  pub resident-Alive :
      (u t : Terminal fs)
      → t.app.state ≡ selecting_user
      → Alive json config clock random selecting_user t (build_resident u)
  unfolding build_resident resident_button touched on_resident on_event
  resident-Alive u t at = (
    tt,
    (
      tt,
      All-append (λ w. IsLive json config clock random selecting_user t (touch_of w))
          (build_each (resident_button d) n 0) _
          (All-build_each (λ w. IsLive json config clock random selecting_user t (touch_of w))
            (resident_button d) n 0
            (λ j l.
              either json config clock random selecting_user t (ltb j (Residents.count d))
                (person j) (manager j) (λ h. a_person j (Residents.at d j) (place j))
                (λ h. (
                  pressed json config clock random _ _ t at (
                      walks json config clock random _ _ _
                        (with_ctx t (record (App.ctx (Terminal.app t)) {
                          archive_storage_index = t.app.ctx.product_index;
                        }))
                        manages),
                  tt,
                ))))
          (
            pressed json config clock random _ _ t at
                (walks json config clock random _ _ _ (reset_context t) books_not),
            tt,
          ),
    ),
  )
    where
      d : Residents.Directory
      d = u.device.residents

      n : ℕ
      n = (Residents.count d + 1) % 2 ^ 8

      place : ℕ → Bounds
      place j =
          let g = grid_geometry n resident_bounds in
          let (x, y) = tile_position g resident_bounds n j in box x y g.tile_w g.tile_h

      person : ℕ → List Widget
      person j = elim (Residents.at d j) [
        | none ↦ []
        | some r ↦ button r.name (place j) (calls (resident j)) ∷ []
      ]

      manager : ℕ → List Widget
      manager j =
          button (ascii "Bier verwalten") (place j) (calls (event_button manage_requested)) ∷ []

      a_person :
          (j : ℕ) (o : Option Resident) (b : Bounds)
          → Alive json config clock random selecting_user t
              (elim o [ none ↦ [] | some r ↦ button r.name b (calls (resident j)) ∷ [] ])
      a_person j none b = tt
      a_person j (some r) b = (
        bought (with_ctx t (record (App.ctx (Terminal.app t)) { resident_index = to_i8 j })) at,
        tt,
      )

  restored :
      (t x : Terminal fs) (ok : Bool)
      → ok ≡ true
      → x.app.state ≡ selecting_archived
      → Edge selecting_archived product_restored
          (if ok then dispatch json config clock random product_restored x else t).app.state
  unfolding on_event
  restored t x true h at =
      pressed json config clock random _ _ x at (walks json config clock random _ _ _ x brings_back)
  restored t x false h at = cc

  pub archived-Alive :
      (u t : Terminal fs)
      → t.app.state ≡ selecting_archived
      → u.device.catalog ≡ t.device.catalog
      → length t.device.catalog.items ≤ max_products
      → Alive json config clock random selecting_archived t (build_archived u)
  unfolding build_archived archived_one touched on_restore on_event
  archived-Alive u t at drawn few = (
    tt,
    (
      tt,
      All-append (λ w. IsLive json config clock random selecting_archived t (touch_of w))
          (build_each (archived_one c) n 0) _
          (All-build_each (λ w. IsLive json config clock random selecting_archived t (touch_of w))
            (archived_one c) n 0
            (λ j l.
              a_tile j (omega (arith, l, fits)) (Catalog.archived_at c j) refl g
                (tile_position g resident_bounds n j) (Catalog.can_restore c) refl))
          (
            pressed json config clock random _ _ t at
                (walks json config clock random _ _ _ (reset_context t) browses_no_more),
            (
              pressed json config clock random _ _ t at
                  (walks json config clock random _ _ _ t creates),
              tt,
            ),
          ),
    ),
  )
    where
      c : Catalog.Catalog
      c = u.device.catalog

      n : ℕ
      n = Catalog.archived_count c

      fits : n ≤ 2 ^ 8
      fits =
          let (shown, hidden, all) = counts c in
          omega (arith, few, ap (λ (x : Catalog.Catalog). length x.items) drawn, all)

      g : GridGeometry
      g = grid_geometry n resident_bounds

      a_tile :
          (j : ℕ)
          → j < 2 ^ 8
          → (o : Option Product) → Catalog.archived_at c j ≡ o
          → (g' : GridGeometry) (place : ℕ × ℕ) (room : Bool) → Catalog.can_restore c ≡ room
          → Alive json config clock random selecting_archived t
              (tile_of o g' place (if room then some (archived_tile j) else none) (not room))
      a_tile j l none e g' place room r = tt
      a_tile j l (some p) e g' place false r = (tt, tt)
      a_tile j l (some p) e g' place true r =
          let same : j % 2 ^ 8 ≡ j = omega (arith, l) in
          (
            restored t _ _
                (rw same (
                  restore_archived t.device.catalog j
                    (ap (λ (x : Catalog.Catalog). Catalog.archived_at x j) (sym drawn) ∙ e)
                    (ap (λ (x : Catalog.Catalog). Catalog.can_restore x) (sym drawn) ∙ r)))
                (state-queue_product_change json config clock random _ true _ ∙ at),
            tt,
          )
