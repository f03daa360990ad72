-- ===== src/Tests/Device.antt =====
-- The queue, the catalog, the residents, the purchase log, the radio and the client.
use beer_tab.Common.{◌≡◌, refl, [], ◌∷◌, true, false, ascii, text_eq, arith, pos}
use beer_tab.Settings.{max_queued_transactions}
use beer_tab.Codec.Blob.{finalise, put_header}
use beer_tab.Codec.Bytes.{put_text}
use beer_tab.Codec.Loops.{put_records}
use beer_tab.Storage.{write, replace_file}
use beer_tab.Queue
use beer_tab.Queue.{Queue, push, pop, remove_purchase}
use beer_tab.Queue.Bounds.{IsQueue, push_all, drain, drain-push_all}
use beer_tab.Queue.Durable.{begin-flush}
use beer_tab.Codec.Format.{put_entry, encode_queue, max_queue_bytes}
use beer_tab.Catalog.{Catalog, set_price, archive, restore, add_product, active_count, count_active}
use beer_tab.Catalog.Changes.{IsBounded, changes-IsBounded, restore-archive}
use beer_tab.Residents.{Directory}
use beer_tab.Residents.Laws.{IsDirectory}
use beer_tab.Log.{PurchaseLog}
use beer_tab.Wifi.{Wifi, connecting}
use beer_tab.Tests.Volume.{ram_laws, blank}
use beer_tab.Tests.Data.{
  first_beer, second_beer, anna, anna_line, lager, radler, first_beer-IsEntry, anna-IsResident,
}

abbrev one_waiting : Queue
one_waiting = record { items = first_beer ∷ []; dirty = true }

one_waiting-IsQueue : IsQueue one_waiting
one_waiting-IsQueue = record { bounded = omega arith; entries = (first_beer-IsEntry, tt) }

drain-push_all_example :
    drain max_queued_transactions (push_all one_waiting (second_beer ∷ first_beer ∷ []))
    ≡ first_beer ∷ second_beer ∷ first_beer ∷ []
drain-push_all_example = drain-push_all one_waiting (second_beer ∷ first_beer ∷ []) (omega arith)

begin-flush_example :
    Queue.begin (Queue.flush blank one_waiting).0 ≡ (Queue.flush blank one_waiting).1
unfolding Queue.flush write replace_file text_eq encode_queue max_queue_bytes finalise put_header
    put_records put_entry put_text
begin-flush_example = begin-flush ram_laws blank one_waiting one_waiting-IsQueue refl refl

abbrev two_beers : Catalog
two_beers = record { items = lager ∷ radler ∷ []; revision = 3; dirty = false }

two_beers-IsBounded : IsBounded two_beers
unfolding active_count count_active
two_beers-IsBounded = record { stored = omega arith; shown = omega arith }

changes-IsBounded_example :
    IsBounded (set_price two_beers (pos 0) (pos 300) false).0
    × IsBounded (archive two_beers (pos 0)).0
    × IsBounded (restore two_beers (pos 0)).0
    × IsBounded (add_product two_beers (ascii "Pils") (pos 300) false).0
changes-IsBounded_example =
    changes-IsBounded two_beers (pos 0) (pos 300) false (ascii "Pils") two_beers-IsBounded

restore-archive_example :
    ((restore (archive two_beers (pos 0)).0 (pos 0)).1 ≡ true)
    × ((restore (archive two_beers (pos 0)).0 (pos 0)).0.items ≡ lager ∷ radler ∷ [])
unfolding archive
restore-archive_example = restore-archive two_beers (pos 0) two_beers-IsBounded refl

abbrev one_resident : Directory
one_resident = record { entries = anna ∷ []; from_backend = true; dirty = true }

one_resident-IsDirectory : IsDirectory one_resident
one_resident-IsDirectory = record {
  some_one = omega arith;
  bounded = omega arith;
  fits = (anna-IsResident, tt);
}

abbrev annas_log : PurchaseLog
annas_log = record { baseline = anna_line ∷ []; has_baseline = true; view = []; dirty = true }

-- An attempt that began sixteen seconds ago, the radio still being wanted.
abbrev trying : Wifi
trying = record {
  state = connecting;
  attempt_started = 1000;
  linger_until = 100000;
  retry_after = 0;
  failures = 1;
  wanted = true;
}
