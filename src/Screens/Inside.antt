-- ===== src/Screens/Inside.antt =====
-- ui_screens.cpp with catalog_layout.cpp: where the controls of the screens stand.
use beer_tab.Common.{ℕ, ◌≤◌, [], ◌∷◌, ◌++◌, inl, inr, ◌==◌, arith, ascii, length}
use beer_tab.Codec.Loops.{All, All-append}
use beer_tab.Settings.{max_residents}
use beer_tab.Storage.{LittleFs}
use beer_tab.Catalog.Changes.{IsBounded}
use beer_tab.Catalog.Selection.{counts}
use beer_tab.Residents
use beer_tab.Protocol.Responses.{MySummary}
use beer_tab.Backend.{MySummaryState, my_idle, my_loading, my_ready, my_unavailable}
use beer_tab.App.{
  State, sleeping, waking, selecting_product, looking_up, product_found, new_product,
  selecting_user, selecting_archived, manage_product, confirm_archive, submitting, undoing, success,
  summary, error_state, admin, cancel, Terminal,
}
use beer_tab.Screens.Widgets.{
  confirms_name, label, build_footer_pair, build_footer_single, add_dwell_bar,
}
use beer_tab.Screens.Build.{
  overview, build_catalog, build_resident, build_archived, build_manage_product,
  build_confirm_archive, build_new_product, build_submitting, build_undoing, build_success,
  build_summary, build_error, build_admin, build_waking, build_sleeping, screen,
}
use beer_tab.Screens.Parts.{catalog_body, summary_body, summary_rows, total_line}
use beer_tab.Screens.Placing.{
  IsPlaced, catalog_body-Placed, archived-Placed, residents-Placed, rows-Placed, if-Placed,
}

-- What is written on the buttons does not matter.
pair-Placed : All IsPlaced (build_footer_pair [] confirms_name [] confirms_name)
pair-Placed = (
  (omega arith, omega arith, inr (omega arith, omega arith)),
  ((omega arith, omega arith, inr (omega arith, omega arith)), tt),
)

single-Placed : All IsPlaced (build_footer_single [] cancel)
single-Placed = ((omega arith, omega arith, inr (omega arith, omega arith)), tt)

bar-Placed : (n : ℕ) → All IsPlaced (add_dwell_bar n)
bar-Placed n = if-Placed (n == 0) [] _ tt (tt, tt)

body-Placed : (m : MySummary) → All IsPlaced (summary_body m)
unfolding summary_body
body-Placed m =
    if-Placed (length m.products == 0) (label (ascii "Noch nichts getrunken") ∷ [])
      ((label (ascii "Bier") ∷ label (ascii "Anzahl") ∷ label (ascii "Total") ∷ [])
        ++ (summary_rows m.products 0 ++ (label (total_line m) ∷ [])))
      (tt, tt)
      (
        tt,
        (
          tt,
          (
            tt,
            All-append IsPlaced (summary_rows m.products 0) _ (rows-Placed m.products 0) (tt, tt),
          ),
        ),
      )

module _ {fs : LittleFs} where
  overview-Placed : (s : MySummaryState) (t : Terminal fs) → All IsPlaced (overview s t)
  unfolding overview
  overview-Placed my_ready t = body-Placed t.device.backend.my_summary
  overview-Placed my_loading t = (tt, tt)
  overview-Placed my_idle t = (tt, tt)
  overview-Placed my_unavailable t = (tt, tt)

  success-Placed : (t : Terminal fs) → All IsPlaced (build_success t)
  unfolding build_success
  success-Placed t =
      if-Placed t.app.ctx.undone _ _ (tt, (tt, tt))
        (
          tt,
          (
            tt,
            All-append IsPlaced _ _ (if-Placed t.app.ctx.deferred _ _ (tt, tt) tt) (
              (omega arith, omega arith, inl (omega arith)),
              ((omega arith, omega arith, inl (omega arith)), bar-Placed t.app.dwell_total),
            ),
          ),
        )

  catalog-Placed : (t : Terminal fs) → IsBounded t.device.catalog → All IsPlaced (build_catalog t)
  unfolding build_catalog
  catalog-Placed t v = (
    tt,
    All-append IsPlaced (catalog_body t.device.catalog) _
        (catalog_body-Placed t.device.catalog (omega (arith, v.shown))) pair-Placed,
  )

  -- Each button, tile, row, name field, key pad and switch of each screen lies across the screen and
  -- below the header, wholly above the bottom strip or wholly in it, where the catalog is bounded and
  -- the residents fit their array.
  pub screen-Placed :
      (s : State) (t : Terminal fs)
      → IsBounded t.device.catalog
      → Residents.count t.device.residents ≤ max_residents
      → All IsPlaced (screen s t)
  unfolding screen build_resident build_archived build_manage_product build_confirm_archive
      build_new_product build_submitting build_undoing build_summary build_error build_admin
      build_waking build_sleeping
  screen-Placed sleeping t v r = tt
  screen-Placed waking t v r = (tt, tt)
  screen-Placed selecting_product t v r = catalog-Placed t v
  screen-Placed looking_up t v r = (tt, (tt, tt))
  screen-Placed product_found t v r = catalog-Placed t v
  screen-Placed selecting_archived t v r =
      let (shown, hidden, all) = counts t.device.catalog in
      (
        tt,
        (
          tt,
          All-append IsPlaced _ _ (archived-Placed t.device.catalog (omega (arith, v.stored, all)))
              pair-Placed,
        ),
      )
  screen-Placed manage_product t v r = (
    tt,
    (
      tt,
      (
        tt,
        (
          (omega arith, omega arith, inl (omega arith)),
          (
            (omega arith, omega arith, inl (omega arith)),
            ((omega arith, omega arith, inl (omega arith)), pair-Placed),
          ),
        ),
      ),
    ),
  )
  screen-Placed confirm_archive t v r = (tt, (tt, (tt, (tt, pair-Placed))))
  screen-Placed new_product t v r = (
    tt,
    (
      (omega arith, omega arith, inl (omega arith)),
      (
        tt,
        (
          (omega arith, omega arith, inl (omega arith)),
          ((omega arith, omega arith, inl (omega arith)), pair-Placed),
        ),
      ),
    ),
  )
  screen-Placed selecting_user t v r =
      (tt, (tt, All-append IsPlaced _ _ (residents-Placed t.device.residents r) single-Placed))
  screen-Placed submitting t v r = (tt, (tt, tt))
  screen-Placed undoing t v r = (tt, (tt, tt))
  screen-Placed success t v r = success-Placed t
  screen-Placed summary t v r = (
    tt,
    All-append IsPlaced _ _ (overview-Placed t.device.backend.my_state t)
        (single-Placed.0, bar-Placed t.app.dwell_total),
  )
  screen-Placed error_state t v r = (tt, (tt, (tt, pair-Placed)))
  screen-Placed admin t v r =
      (tt, (tt, ((omega arith, omega arith, inl (omega arith)), single-Placed)))
