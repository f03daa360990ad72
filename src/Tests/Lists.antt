-- ===== src/Tests/Lists.antt =====
-- The lists that the screens show, and what a sync does to them.
use beer_tab.Common.{◌≤◌, ◌<◌, ◌≡◌, ◌⊎◌, [], ◌∷◌, some, true, false, ascii, length}
use beer_tab.Settings.{max_products, max_residents}
use beer_tab.Queue.{Queue, remove_purchase}
use beer_tab.Queue.Removal.{Removes, remove_purchase-Removes}
use beer_tab.Catalog.{Catalog, active_at, archived_at, replace_all}
use beer_tab.Catalog.Selection.{active_at-matching}
use beer_tab.Catalog.Sync.{Replaced, replace_all_lem}
use beer_tab.Residents
use beer_tab.Residents.{Directory, all_usable}
use beer_tab.Residents.Laws.{replace_all_usable}
use beer_tab.Protocol.Responses.{copy_sanitised}
use beer_tab.Protocol.Responses.Laws.{IsPrintable, copy_sanitised_lem}
use beer_tab.Codec.Loops.{All}
use beer_tab.Tests.Data.{first_beer, second_beer, lager, radler, anna}

abbrev waiting : Queue
waiting = record { items = first_beer ∷ second_beer ∷ []; dirty = false }

remove_purchase-Removes_example :
    Removes
      (ascii "t0000000b-00000002")
      waiting
      (remove_purchase waiting (ascii "t0000000b-00000002"))
remove_purchase-Removes_example = remove_purchase-Removes waiting (ascii "t0000000b-00000002")

abbrev two_beers : Catalog
two_beers = record { items = radler ∷ lager ∷ []; revision = 3; dirty = false }

active_at-matching_example :
    (active_at two_beers 0 ≡ some lager) × (archived_at two_beers 0 ≡ some radler)
active_at-matching_example = active_at-matching two_beers 0

replace_all_example :
    ((max_products < 1) × (replace_all two_beers (lager ∷ []) 4 ≡ (two_beers, false)))
    ⊎ Replaced two_beers (lager ∷ []) 4 (replace_all two_beers (lager ∷ []) 4)
replace_all_example = replace_all_lem two_beers (lager ∷ []) 4

abbrev nobody : Directory
nobody = record { entries = []; from_backend = false; dirty = false }

replace_all_usable_example :
    (Residents.replace_all nobody (anna ∷ []) ≡ (nobody, false))
    ⊎ (((Residents.replace_all nobody (anna ∷ [])).1 ≡ true)
        × (0 < length (Residents.replace_all nobody (anna ∷ [])).0.entries)
        × (length (Residents.replace_all nobody (anna ∷ [])).0.entries ≤ max_residents)
        × (all_usable (Residents.replace_all nobody (anna ∷ [])).0.entries ≡ true))
replace_all_usable_example = replace_all_usable nobody (anna ∷ [])

copy_sanitised_example :
    All IsPrintable (copy_sanitised 4 (some (10 ∷ 65 ∷ 66 ∷ 67 ∷ 68 ∷ [])))
    × (length (copy_sanitised 4 (some (10 ∷ 65 ∷ 66 ∷ 67 ∷ 68 ∷ []))) ≤ 3)
copy_sanitised_example = copy_sanitised_lem 4 (some (10 ∷ 65 ∷ 66 ∷ 67 ∷ 68 ∷ []))
