-- ===== src/Backend.antt =====
-- firmware/beer_terminal/backend.cpp: its variables, and the components that it drives. `now` is the
-- argument `now_ms`, and `clock` what `millis()` answers during the call. What goes to the serial
-- port is left out.
pub mod Loop
use beer_tab.Common.{
  ℕ, zero, suc, ◌+◌, ◌*◌, ◌^◌, List, [], ◌∷◌, ◌++◌, Option, none, some, Bool, true, false, not,
  ◌&&◌, ◌||◌, Text, ascii, is_empty, print_text, ℤ, length, u32, sub32, is_before, ltb, leb, ◌==◌,
  if◌then◌else◌,
}
use beer_tab.Settings.{
  device_id, sync_on_wake_min_ms, sync_interval_ms, request_timeout_ms, wifi_connect_timeout_ms,
}
use beer_tab.Records.{Entry, Kind, purchase, void, archive, restore, create, change_price}
use beer_tab.Queue.{Queue, pop, head, has_product_changes}
use beer_tab.Queue
use beer_tab.Catalog.{Catalog}
use beer_tab.Catalog
use beer_tab.Residents.{Directory}
use beer_tab.Residents
use beer_tab.Log.{PurchaseLog, set_baseline}
use beer_tab.Wifi.{Wifi, request_online, online}
use beer_tab.Protocol.Json.{ArduinoJson}
use beer_tab.Protocol.Requests.{
  max_request_bytes, build_sync, build_record_purchase, build_void_purchase, build_create_product,
  build_change_price, build_set_active, build_my_summary,
}
use beer_tab.Protocol.Responses.{
  Outcome, ok, malformed, rejected, too_many_items, SyncResult, MySummary, parse_sync, parse_ack,
  parse_my_summary,
}
use beer_tab.Client
use beer_tab.Client.{Config, Client, configured}

pub data Op : Type 0 where
  op_none op_sync op_purchase op_void op_my_summary : Op

pub data Result : Type 0 where
  result_idle result_pending result_success result_unreachable result_rejected : Result

pub data MySummaryState : Type 0 where
  my_idle my_loading my_ready my_unavailable : MySummaryState

-- The variables of the file, `g_request` and `g_request_len` being one text.
pub record Backend : Type 0 where
  pub op : Op
  pub posted : Bool
  pub deadline : ℕ
  pub request : Text
  pub result : Result
  pub error : Text
  pub duplicate : Bool
  pub last_sync : ℕ
  pub active : Bool
  pub retry_after : ℕ
  pub send_failures : ℕ
  pub sync : SyncResult
  pub my_summary : MySummary
  pub my_state : MySummaryState
  pub my_resident : Text

-- The backend and what it calls.
pub record Device : Type 0 where
  pub backend : Backend
  pub queue : Queue
  pub catalog : Catalog
  pub residents : Directory
  pub log : PurchaseLog
  pub wifi : Wifi
  pub client : Client

abbrev pub is_sync : Op → Bool
is_sync op_sync = true
is_sync _ = false

abbrev pub is_my_summary : Op → Bool
is_my_summary op_my_summary = true
is_my_summary _ = false

abbrev pub is_free : Op → Bool
is_free op_none = true
is_free _ = false

abbrev pub is_ok : Outcome → Bool
is_ok ok = true
is_ok _ = false

abbrev is_loading : MySummaryState → Bool
is_loading my_loading = true
is_loading _ = false

abbrev pub busy : Device → Bool
busy d = not (is_free d.backend.op)

-- A background operation resolves to idle.
unfoldable pub finish : Device → Result → Text → Device
finish d r message = record d {
  backend = record (Device.backend d) {
    result = if is_sync d.backend.op || is_my_summary d.backend.op then result_idle else r;
    error = print_text 64 message;
    op = op_none;
    posted = false;
  };
  client = Client.reset d.client;
}

abbrev clear_result : Backend → Backend
clear_result b = record b { result = result_pending; error = []; duplicate = false }

-- The body is `none` where the builder returned 0.
unfoldable pub start : Device → Op → Option Text → ℕ → ℕ → Device × Bool
start d op body now clock = elim body [
  | none ↦ (d, false)
  | some request ↦
      let b = record (Device.backend d) {
        op = op;
        posted = false;
        request = request;
        deadline = u32 (now + wifi_connect_timeout_ms + request_timeout_ms + 5000);
      } in
      (
        record d {
          backend = if is_sync op then b else clear_result b;
          wifi = request_online d.wifi clock;
        },
        true,
      )
]

-- The exponent that stands after one more failure.
abbrev pub next_failures : ℕ → ℕ
next_failures n = if ltb n 6 then n + 1 else n

abbrev pub send_pause : ℕ → ℕ
send_pause n = let wait = u32 (2000 * 2 ^ n) in if ltb 120000 wait then 120000 else wait

unfoldable pub note_send_failure : Device → ℕ → Device
note_send_failure d now =
    let n = next_failures d.backend.send_failures in
    record d {
      backend = record (Device.backend d) {
        send_failures = n;
        retry_after = u32 (now + send_pause n);
      };
    }

-- `static_cast<int32_t>(now - deadline) >= 0`.
abbrev pub reached : ℕ → ℕ → Bool
reached now deadline = not (is_before now deadline)

abbrev pub stamp_sync : Bool → ℕ → Device → Device
stamp_sync was_sync now d =
    if was_sync then record d { backend = record (Device.backend d) { last_sync = now } } else d

abbrev pub my_unavailable_if : Bool → Device → Device
my_unavailable_if on d =
    if on then record d { backend = record (Device.backend d) { my_state = my_unavailable } } else d

-- A request that did not reach the server.
unfoldable pub unreachable : Device → ℕ → Text → Device
unfolding note_send_failure finish
unreachable d now message =
    stamp_sync (is_sync d.backend.op) now
      (finish (note_send_failure d now) result_unreachable message)

unfoldable pub clear : Device → Device
clear d = record d {
  backend = record (Device.backend d) { result = result_idle; error = []; duplicate = false };
}

-- What `apply_sync` does with an answer that was read.
unfoldable pub apply_summary : Device → SyncResult → Device
apply_summary d s =
    if s.has_summary then record d { log = set_baseline d.log d.queue s.summary } else d

unfoldable pub apply_catalog : Device → SyncResult → Device
apply_catalog d s =
    if has_product_changes d.queue
    then d
    else if not s.changed && s.revision == d.catalog.revision
    then d
    else record d {
      residents =
          if ltb 0 (length s.residents)
          then (Residents.replace_all d.residents s.residents).0
          else d.residents;
      catalog = (Catalog.replace_all d.catalog s.products s.revision).0;
    }

module _ (json : ArduinoJson) (config : Config) where
  unfoldable pub apply_sync : Device → Device
  unfolding apply_summary apply_catalog
  apply_sync d =
      let (outcome, err, s) = parse_sync json d.client.response d.backend.sync 64 in
      let d' = record d { backend = record (Device.backend d) { sync = s } } in
      if not (is_ok outcome) then d' else apply_catalog (apply_summary d' s) s

  unfoldable pub request_sync : Device → ℕ → Device × Bool
  unfolding start
  request_sync d clock =
      if not (configured config) || busy d
      then (d, false)
      else start d op_sync
          (build_sync json max_request_bytes config.device_token device_id d.catalog.revision) clock
          clock

  unfoldable pub begin : Device → ℕ → Device
  unfolding request_sync
  begin d clock =
      let d' = record d {
        backend = record (Device.backend d) {
          op = op_none;
          posted = false;
          result = result_idle;
          last_sync = 0;
        };
      } in
      if not (configured config) then d' else (request_sync d' clock).0

  unfoldable pub my_summary_body : Text → Option Text
  my_summary_body resident_id =
      build_my_summary json max_request_bytes config.device_token device_id resident_id

  unfoldable pub request_my_summary : Device → Text → ℕ → Device × Bool
  unfolding start my_summary_body
  request_my_summary d resident_id clock =
      let asked = record d {
        backend = record (Device.backend d) {
          my_resident = print_text 12 resident_id;
          my_state = my_loading;
        };
      } in
      let (started, went) =
        start asked op_my_summary (my_summary_body (print_text 12 resident_id)) clock clock in
      if not (configured config) || is_empty resident_id
      then (my_unavailable_if true d, false)
      else if busy d
      then (asked, true)
      else if not went
      then (my_unavailable_if true started, false)
      else (started, true)

  unfoldable pub set_active : Device → Bool → ℕ → Device
  unfolding request_sync
  set_active d active clock =
      let d' = record d { backend = record (Device.backend d) { active = active } } in
      if Catalog.same active d.backend.active
      then d
      else if not active
      then d'
      else if d.backend.last_sync == 0
          || reached clock (u32 (d.backend.last_sync + sync_on_wake_min_ms))
      then (request_sync d' clock).0
      else d'

  -- The operation and the body for an entry, by its kind.
  request_of_kind : Kind → Entry → Op × Option Text
  request_of_kind change_price e = (
    op_purchase,
    build_change_price json max_request_bytes config.device_token device_id e.barcode e.product_name
        e.price_rappen e.free_item,
  )
  request_of_kind create e = (
    op_purchase,
    build_create_product json max_request_bytes config.device_token device_id e.barcode
        e.product_name e.price_rappen e.free_item,
  )
  request_of_kind archive e = (
    op_purchase,
    build_set_active json max_request_bytes config.device_token device_id e.barcode e.product_name
        false,
  )
  request_of_kind restore e = (
    op_purchase,
    build_set_active json max_request_bytes config.device_token device_id e.barcode e.product_name
        true,
  )
  request_of_kind void e = (
    op_void,
    build_void_purchase json max_request_bytes config.device_token device_id e.transaction_id,
  )
  request_of_kind purchase e = (
    op_purchase,
    build_record_purchase json max_request_bytes config.device_token device_id e.transaction_id
        e.barcode e.product_name e.price_rappen e.free_item e.resident_id,
  )

  unfoldable pub request_of : Entry → Op × Option Text
  unfolding request_of_kind
  request_of e = request_of_kind e.kind e

  unfoldable pub send_queued_now : Device → ℕ → Device × Bool
  unfolding start request_of
  send_queued_now d clock =
      if not (configured config) || busy d then (d, false) else elim (head d.queue) [
        | none ↦ (d, false)
        | some e ↦ start d (request_of e).0 (request_of e).1 clock clock
      ]
