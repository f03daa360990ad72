-- ===== src/App.antt =====
-- firmware/beer_terminal/app_state.cpp: the states, what the file keeps, and the transactions that it
-- hands to the queue. App/Machine.antt has `enter`, `dispatch` and `update`.
pub mod Machine
pub mod Stored
pub mod Identity
use beer_tab.Common.{
  ℕ, zero, suc, ◌+◌, ◌*◌, ◌/◌, ◌%◌, ◌^◌, List, [], ◌∷◌, ◌++◌, Option, none, some, Bool, true, false,
  not, ◌&&◌, ◌||◌, Text, ascii, is_empty, print_text, ℤ, pos, negsuc, length, ltb, leb,
  if◌then◌else◌,
}
use beer_tab.Settings.{device_id, mock_submit_ms}
use beer_tab.Records.{Product, Resident, Entry, Kind, purchase, void}
use beer_tab.Storage.{LittleFs, Storage}
use beer_tab.Queue
use beer_tab.Queue.{Queue}
use beer_tab.Catalog
use beer_tab.Residents
use beer_tab.Residents.{Directory}
use beer_tab.Protocol.Json.{ArduinoJson}
use beer_tab.Client.{Config, configured}
use beer_tab.Backend.{Device, MySummaryState, send_queued_now}
use beer_tab.Keypad.{PriceEntry}

pub data State : Type 0 where
  sleeping waking selecting_product looking_up product_found new_product selecting_user : State
  selecting_archived manage_product confirm_archive submitting undoing success summary : State
  error_state admin : State

pub data Event : Type 0 where
  wake product_selected not_listed create_new_product product_restored new_product_ready : Event
  resident_selected manage_requested archive_requested price_changed archive_confirmed : Event
  show_summary submit_succeeded submit_failed undo undo_succeeded undo_failed retry cancel : Event
  dwell admin_requested admin_done sleep : Event

pub record Context : Type 0 where
  pub product_index : ℤ
  pub product_name : Text
  pub barcode : Text
  pub price_rappen : ℤ
  pub free_item : Bool
  pub resident_index : ℤ
  pub archive_storage_index : ℤ
  pub transaction_id : Text
  pub message : Text
  pub undone : Bool
  pub deferred : Bool
  pub undo_in_flight : Bool

-- The variables of the file, with the one that is local to `update`.
pub record App : Type 0 where
  pub state : State
  pub ctx : Context
  pub deadline : ℕ
  pub dwell_total : ℕ
  pub fail_next_submit : Bool
  pub simulated : Bool
  pub last_summary : MySummaryState

-- Everything that the loop of the sketch works on: with `g_awake` and `g_ignore_until_release` of
-- display_ui.cpp, and the price of ui_screens.cpp.
pub record Terminal (fs : LittleFs) : Type 0 where
  pub device : Device
  pub storage : Storage fs
  pub app : App
  pub awake : Bool
  pub ignore_touch : Bool
  pub price_entry : PriceEntry

pub data Enqueued : Type 0 where
  watching deferred refused no_backend : Enqueued

abbrev pub empty_context : Context
empty_context = record {
  product_index = negsuc 0;
  product_name = [];
  barcode = [];
  price_rappen = pos 0;
  free_item = false;
  resident_index = negsuc 0;
  archive_storage_index = negsuc 0;
  transaction_id = [];
  message = [];
  undone = false;
  deferred = false;
  undo_in_flight = false;
}

-- The ids and names of nobody.
abbrev resident_or_nobody : Option Resident → Resident
resident_or_nobody none = record { id = []; name = [] }
resident_or_nobody (some r) = r

pub resident_at_index : Directory → ℤ → Option Resident
resident_at_index d (negsuc n) = none
resident_at_index d (pos n) = Residents.at d (n % 2 ^ 8)

-- The resident that the context points at.
unfoldable pub chosen_resident : Directory → Context → Resident
unfolding resident_at_index
chosen_resident d ctx = resident_or_nobody (resident_at_index d ctx.resident_index)

hex_digit : ℕ → ℕ
hex_digit n = if ltb n 10 then 48 + n else 87 + n

-- `%0wx` of a number below 16 to the `w`.
unfoldable pub hex : ℕ → ℕ → Text
unfolding hex_digit
hex zero n = []
hex (suc w) n = hex w (n / 16) ++ (hex_digit (n % 16) ∷ [])

-- The arguments are `millis()` and `esp_random()`.
unfoldable pub make_transaction_id : ℕ → ℕ → Text
unfolding hex
make_transaction_id clock random =
    print_text 24
      (device_id ++ (ascii "-" ++ (hex 8 clock ++ (ascii "-" ++ hex 4 (random % 2 ^ 16)))))

abbrev pub with_message : {fs : LittleFs} → Terminal fs → Text → Terminal fs
with_message t m = record t {
  app = record (Terminal.app t) {
    ctx = record (App.ctx (Terminal.app t)) { message = print_text 64 m };
  };
}

abbrev pub with_queue : {fs : LittleFs} → Terminal fs → Queue → Terminal fs
with_queue t q = record t { device = record (Terminal.device t) { queue = q } }

-- The context, all of it cleared.
abbrev pub reset_context : {fs : LittleFs} → Terminal fs → Terminal fs
reset_context t = record t { app = record (Terminal.app t) { ctx = empty_context } }

-- `transaction_queue::flush`.
unfoldable pub flush_queue : {fs : LittleFs} → Terminal fs → Terminal fs
flush_queue t =
    let (s, q) = Queue.flush t.storage t.device.queue in
    record t { storage = s; device = record (Terminal.device t) { queue = q } }

abbrev pub void_entry : Context → Entry
void_entry ctx = record {
  transaction_id = print_text 24 ctx.transaction_id;
  barcode = [];
  product_name = print_text 40 ctx.product_name;
  resident_id = [];
  resident_name = [];
  price_rappen = pos 0;
  free_item = false;
  kind = void;
}

abbrev pub purchase_entry : Context → Resident → Entry
purchase_entry ctx r = record {
  transaction_id = print_text 24 ctx.transaction_id;
  barcode = print_text 14 ctx.barcode;
  product_name = print_text 40 ctx.product_name;
  resident_id = print_text 12 r.id;
  resident_name = print_text 24 r.name;
  price_rappen = ctx.price_rappen;
  free_item = ctx.free_item;
  kind = purchase;
}

unfoldable pub product_entry : ℕ → Product → Kind → Entry
unfolding hex
product_entry clock p kind = record {
  transaction_id = print_text 24 (device_id ++ (ascii "-" ++ (hex 8 clock ++ ascii "-p")));
  barcode = print_text 14 p.barcode;
  product_name = print_text 40 p.name;
  resident_id = [];
  resident_name = [];
  price_rappen = p.price_rappen;
  free_item = p.free_item;
  kind = kind;
}

abbrev watching_if : Bool → Enqueued
watching_if true = watching
watching_if false = deferred

module _ {fs : LittleFs} (json : ArduinoJson) (config : Config) (clock : ℕ) where
  -- Written to flash, and then sent if the slot is free.
  unfoldable pub store_and_send : Terminal fs → Terminal fs × Bool
  unfolding flush_queue
  store_and_send t =
      let t' = flush_queue t in
      let (d, sent) = send_queued_now json config t'.device clock in
      (record t' { device = d }, sent)

  unfoldable pub enqueue : Terminal fs → Entry → Terminal fs × Enqueued
  unfolding store_and_send
  enqueue t e =
      let (q, pushed) = Queue.push t.device.queue e in
      let (t', sent) = store_and_send (with_queue t q) in
      if not pushed
      then (with_message t (ascii "Warteschlange voll"), refused)
      else (t', watching_if sent)

  unfoldable pub enqueue_purchase : Terminal fs → Terminal fs × Enqueued
  unfolding enqueue chosen_resident
  enqueue_purchase t =
      if not (configured config)
      then (t, no_backend)
      else if Queue.full t.device.queue
      then (with_message t (ascii "Warteschlange voll - Terminal ans WLAN bringen"), refused)
      else enqueue t (purchase_entry t.app.ctx (chosen_resident t.device.residents t.app.ctx))

  unfoldable pub enqueue_undo : Terminal fs → Terminal fs × Enqueued
  unfolding enqueue flush_queue
  enqueue_undo t =
      let (q, removed) = Queue.remove_purchase t.device.queue t.app.ctx.transaction_id in
      if not (configured config)
      then (t, no_backend)
      else if removed
      then (flush_queue (with_queue t q), no_backend)
      else if Queue.full t.device.queue
      then (with_message t (ascii "Warteschlange voll"), refused)
      else enqueue t (void_entry t.app.ctx)

  -- Shared by the archive, restore, price and create paths.
  unfoldable pub queue_product_entry : Terminal fs → Product → Kind → Terminal fs
  unfolding store_and_send product_entry
  queue_product_entry t p kind =
      let e = product_entry clock p kind in
      let (q, pushed) = Queue.push t.device.queue e in
      let t' = (store_and_send (with_queue t q)).0 in
      if not (configured config) || Queue.full t.device.queue
      then t
      else if not pushed
      then t
      else t'
