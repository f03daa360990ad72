-- ===== src/Screens/Build.antt =====
-- ui_screens.cpp: the screens. Each takes the terminal that it shows.
use beer_tab.Common.{
  ◌+◌, ◌-◌, ◌*◌, ◌/◌, ◌%◌, ◌^◌, List, [], ◌∷◌, ◌++◌, Option, true, false, ascii, is_empty,
  print_text, if◌then◌else◌,
}
use beer_tab.Settings.{screen_w, screen_h, header_h, grid_margin}
use beer_tab.Records.{Product, Resident}
use beer_tab.Storage.{LittleFs}
use beer_tab.Catalog
use beer_tab.Catalog.Price.{format_rappen}
use beer_tab.Residents
use beer_tab.Keypad.{price_of}
use beer_tab.Backend.{my_loading, my_ready, MySummaryState}
use beer_tab.App.{
  State, sleeping, waking, selecting_product, looking_up, product_found, new_product,
  selecting_user, selecting_archived, manage_product, confirm_archive, submitting, undoing, success,
  summary, error_state, admin, not_listed, create_new_product, archive_requested, archive_confirmed,
  show_summary, undo, retry, cancel, admin_done, sleep, Terminal, resident_at_index,
}
use beer_tab.Screens.{event_button, free_button, price_confirm}
use beer_tab.Screens.Widgets.{
  calls, confirms_name, Widget, header, label, button, name_field, switch_box, spinner, box,
  build_footer_pair, build_footer_single, build_price_keypad, add_dwell_bar,
}
use beer_tab.Screens.Parts.{
  ue, ae, back, build_each, catalog_body, archived_one, resident_button, titled, name_or,
  price_or_unknown, person_or, queued_for, offline_line, summary_body, reported_name, text_or,
}

module _ {fs : LittleFs} where
  abbrev product_shown : Terminal fs → Option Product
  product_shown t = Catalog.at_storage t.device.catalog t.app.ctx.archive_storage_index

  abbrev person_shown : Terminal fs → Option Resident
  person_shown t = resident_at_index t.device.residents t.app.ctx.resident_index

  unfoldable pub build_catalog : Terminal fs → List Widget
  unfolding catalog_body
  build_catalog t =
      header (ascii "Was trinksch?") true
      ∷ (catalog_body t.device.catalog
          ++ build_footer_pair (ascii "Nicht gelistet") (calls (event_button not_listed))
              (ascii "Abbrechen") (calls (event_button sleep)))

  unfoldable pub build_resident : Terminal fs → List Widget
  unfolding resident_button build_each
  build_resident t =
      let ctx = t.app.ctx in
      let d = t.device.residents in
      header (titled ctx.product_name (format_rappen ctx.price_rappen ctx.free_item)) false
      ∷ label (ascii "Wer trinkt?")
      ∷ (build_each (resident_button d) ((Residents.count d + 1) % 2 ^ 8) 0
          ++ build_footer_single back cancel)

  unfoldable pub build_archived : Terminal fs → List Widget
  unfolding archived_one build_each
  build_archived t =
      let c = t.device.catalog in
      header (ascii "Schon mal dagewesen") false
      ∷ label (
          if Catalog.can_restore c
          then back ++ (ascii " in den K" ++ (ue ++ ascii "hlschrank, oder neu anlegen?"))
          else ascii "K"
            ++ (ue
                ++ (ascii "hlschrank voll "
                    ++ (226 ∷ 128 ∷ 147 ∷ ascii " zuerst ein Bier archivieren"))))
      ∷ (build_each (archived_one c) (Catalog.archived_count c) 0
          ++ build_footer_pair (ascii "Abbrechen") (calls (event_button cancel))
              (ascii "Neues Bier anlegen") (calls (event_button create_new_product)))

  unfoldable pub build_manage_product : Terminal fs → List Widget
  build_manage_product t =
      let p = product_shown t in
      let entry = price_of p in
      header (titled (name_or t.app.ctx.product_name p) (price_or_unknown p)) false
      ∷ label (ascii "Neuer Preis")
      ∷ label (format_rappen entry.rappen entry.free_item)
      ∷ button (ascii "Gratis") (box grid_margin (header_h + 130) 300 80) (calls free_button)
      ∷ button (ascii "Bier archivieren") (box grid_margin (header_h + 240) 400 90)
          (calls (event_button archive_requested))
      ∷ build_price_keypad
      ∷ build_footer_pair back (calls (event_button cancel)) (ascii "Preis speichern")
          (calls price_confirm)

  unfoldable pub build_confirm_archive : Terminal fs → List Widget
  build_confirm_archive t =
      header (ascii "Archivieren") false
      ∷ label (print_text 96 (name_or t.app.ctx.product_name (product_shown t)))
      ∷ label (ascii "aus dem K" ++ (ue ++ ascii "hlschrank nehmen?"))
      ∷ label (
          ascii "Bleibt gespeichert und kann "
          ++ (ue
              ++ (ascii "ber "
                  ++ (226 ∷ 128 ∷ 158 ∷ ascii "Nicht gelistet"
                      ++ (226 ∷ 128 ∷ 156 ∷ ascii " zur" ++ (ue ++ ascii "ckgeholt werden."))))))
      ∷ build_footer_pair (ascii "Abbrechen") (calls (event_button cancel)) (ascii "Archivieren")
          (calls (event_button archive_confirmed))

  unfoldable pub build_new_product : Terminal fs → List Widget
  build_new_product t =
      header (ascii "Neues Getr" ++ (ae ++ ascii "nk")) false
      ∷ name_field (box grid_margin (header_h + 8) 620 68)
      ∷ label (ascii "CHF 0.00")
      ∷ button (ascii "Gratis") (box grid_margin (header_h + 170) 300 80) (calls free_button)
      ∷ build_price_keypad
      ∷ build_footer_pair (ascii "Abbrechen") (calls (event_button cancel)) (ascii "Weiter")
          confirms_name

  unfoldable pub build_submitting : Terminal fs → List Widget
  build_submitting t = spinner ∷ label (ascii "Wird gespeichert...") ∷ []

  unfoldable pub build_undoing : Terminal fs → List Widget
  build_undoing t =
      spinner
      ∷ label (ascii "Wird r" ++ (ue ++ (ascii "ckg" ++ (ae ++ ascii "ngig gemacht..."))))
      ∷ []

  -- A reversal is final, so its confirmation offers nothing.
  unfoldable pub build_success : Terminal fs → List Widget
  build_success t =
      let ctx = t.app.ctx in
      let line =
        print_text 128
          (person_or (ascii "?") (person_shown t) ++ (ascii ": " ++ ctx.product_name)) in
      let reverted = 195 ∷ 188 ∷ (ascii "ckg" ++ (ae ++ ascii "ngig")) in
      let by = screen_h / 2 + 60 in
      let left = (screen_w - (2 * 460 + 24)) / 2 in
      if ctx.undone
      then label (82 ∷ (reverted ++ ascii " gemacht")) ∷ label line ∷ []
      else label (ascii "Gebucht")
        ∷ label line
        ∷ ((if ctx.deferred
              then label (ascii "Gespeichert - wird nachgetragen, sobald WLAN da ist") ∷ []
              else [])
            ++ (button (82 ∷ reverted) (box left by 460 84) (calls (event_button undo))
                ∷ button (195 ∷ 156 ∷ ascii "bersicht anzeigen") (box (left + 460 + 24) by 460 84)
                    (calls (event_button show_summary))
                ∷ add_dwell_bar t.app.dwell_total))

  -- What stands between the header and the footer of the overview, by the state of its request.
  unfoldable pub overview : MySummaryState → Terminal fs → List Widget
  unfolding summary_body queued_for
  overview my_loading t = spinner ∷ []
  overview my_ready t = summary_body t.device.backend.my_summary
  overview _ t = label (offline_line (queued_for (person_shown t) t.device.queue.items)) ∷ []

  unfoldable pub build_summary : Terminal fs → List Widget
  unfolding overview
  build_summary t =
      let b = t.device.backend in
      header
        (print_text 64 (
          text_or (person_or (195 ∷ 156 ∷ ascii "bersicht") (person_shown t))
            (reported_name b.my_state b.my_summary.resident_name)))
        false
      ∷ (overview b.my_state t
          ++ (build_footer_single back cancel ++ add_dwell_bar t.app.dwell_total))

  unfoldable pub build_error : Terminal fs → List Widget
  build_error t =
      let message = t.app.ctx.message in
      header (ascii "Fehler") false
      ∷ label (if is_empty message then ascii "Unbekannter Fehler" else message)
      ∷ label (ascii "Der Eintrag wird nicht doppelt erfasst.")
      ∷ build_footer_pair (ascii "Abbrechen") (calls (event_button cancel))
          (ascii "Nochmal versuchen") (calls (event_button retry))

  -- The title and the controls; the lines of figures between them are left out.
  unfoldable pub build_admin : Terminal fs → List Widget
  build_admin t =
      header (ascii "Admin") false
      ∷ label (ascii "N" ++ (ae ++ ascii "chsten Fehler simulieren"))
      ∷ switch_box (box 700 (header_h + 44) 90 46) t.app.fail_next_submit
      ∷ build_footer_single back admin_done

  unfoldable pub build_waking : Terminal fs → List Widget
  build_waking t = header (ascii "Was trinksch?") false ∷ []

  unfoldable pub build_sleeping : Terminal fs → List Widget
  build_sleeping t = []

  unfoldable pub screen : State → Terminal fs → List Widget
  unfolding build_catalog build_resident build_archived build_manage_product build_confirm_archive
      build_new_product build_submitting build_undoing build_success build_summary build_error
      build_admin build_waking build_sleeping
  screen sleeping t = build_sleeping t
  screen waking t = build_waking t
  screen selecting_product t = build_catalog t
  screen looking_up t = build_submitting t
  screen product_found t = build_catalog t
  screen selecting_archived t = build_archived t
  screen manage_product t = build_manage_product t
  screen confirm_archive t = build_confirm_archive t
  screen new_product t = build_new_product t
  screen selecting_user t = build_resident t
  screen submitting t = build_submitting t
  screen undoing t = build_undoing t
  screen success t = build_success t
  screen summary t = build_summary t
  screen error_state t = build_error t
  screen admin t = build_admin t
