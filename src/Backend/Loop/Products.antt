-- ===== src/Backend/Loop/Products.antt =====
-- backend.cpp: when a turn of `update` changes the products or the residents.
use beer_tab.Common.{◌≡◌, ◌⊎◌, true}
use beer_tab.Codec.Loops.{All}
use beer_tab.Records.{Entry, purchase, void}
use beer_tab.Protocol.Json.{ArduinoJson}
use beer_tab.Protocol.Responses.{parse_sync}
use beer_tab.Client.{Config, done}
use beer_tab.Backend.{op_sync, Device, is_ok}
use beer_tab.Backend.Loop.Syncing.{Untouched}

-- The entry records a purchase or takes one back.
abbrev pub IsBooking : Entry → Type 0
IsBooking e = (e.kind ≡ purchase) ⊎ (e.kind ≡ void)

-- The complete answer to a sync was read, and every entry that waits is a purchase or a void one.
pub record Synced (json : ArduinoJson) (d : Device) : Type 0 where
  pub is_sync : d.backend.op ≡ op_sync
  pub was_posted : d.backend.posted ≡ true
  pub was_done : d.client.status ≡ done
  pub was_read : is_ok (parse_sync json d.client.response d.backend.sync 64).0 ≡ true
  pub bookings : All IsBooking d.queue.items

module _ (json : ArduinoJson) (config : Config) where
  Changes : Device → Device → Type 0
  Changes d d' = Untouched d d' ⊎ Synced json d
