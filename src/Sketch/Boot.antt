-- ===== src/Sketch/Boot.antt =====
-- beer_terminal.ino: `setup`, from the values that the variables have before it.
use beer_tab.Common.{ℕ, [], Bool, true, false, not, pos, if◌then◌else◌}
use beer_tab.Storage
use beer_tab.Storage.{LittleFs, Storage}
use beer_tab.Catalog
use beer_tab.Residents
use beer_tab.Queue
use beer_tab.Log
use beer_tab.Wifi
use beer_tab.Wifi.{Wifi, off}
use beer_tab.Keypad.{no_price}
use beer_tab.Protocol.Json.{ArduinoJson}
use beer_tab.Client
use beer_tab.Client.{Config, Client, idle, no_error, has}
use beer_tab.Backend
use beer_tab.Backend.{Backend, Device, op_none, result_idle, my_idle}
use beer_tab.App.{App, Terminal, sleeping, empty_context}
use beer_tab.App.Machine.Events
use beer_tab.Sketch.{Sketch, with_device}

abbrev pub first_backend : Backend
first_backend = record {
  op = op_none;
  posted = false;
  deadline = 0;
  request = [];
  result = result_idle;
  error = [];
  duplicate = false;
  last_sync = 0;
  active = true;
  retry_after = 0;
  send_failures = 0;
  sync = record {
    revision = 0;
    changed = false;
    has_summary = false;
    products = [];
    residents = [];
    summary = [];
  };
  my_summary = record { resident_name = []; drinks = 0; total_rappen = pos 0; products = [] };
  my_state = my_idle;
  my_resident = [];
}

abbrev pub first_wifi : Wifi
first_wifi = record {
  state = off;
  attempt_started = 0;
  linger_until = 0;
  retry_after = 0;
  failures = 0;
  wanted = false;
}

abbrev pub first_client : Client
first_client = record {
  ready = false;
  request = [];
  response = [];
  http_code = pos 0;
  status = idle;
  error = no_error;
  error_detail = [];
}

-- The file starts with a context of zeros; `begin` clears it.
abbrev pub first_app : App
first_app = record {
  state = sleeping;
  ctx = record empty_context {
    product_index = pos 0;
    resident_index = pos 0;
    archive_storage_index = pos 0;
  };
  deadline = 0;
  dwell_total = 0;
  fail_next_submit = false;
  simulated = false;
  last_summary = my_idle;
}

-- What `setup` finds: the clock and the random number, whether the draw buffers could be had, and the
-- buffer and the task of the client.
pub record Start : Type 0 where
  pub clock : ℕ
  pub random : ℕ
  pub display_ready : Bool
  pub buffer : Bool
  pub task : Bool

-- The parts that read what is stored.
unfoldable pub loaded : {fs : LittleFs} → Storage fs → Terminal fs
loaded s =
    let mounted = (Storage.begin s).0 in
    let (s', c) = Catalog.begin mounted in
    let q = Queue.begin s' in
    record {
      device = record {
        backend = first_backend;
        queue = q;
        catalog = c;
        residents = Residents.begin s';
        log = Log.begin s' q;
        wifi = first_wifi;
        client = first_client;
      };
      storage = s';
      app = first_app;
      awake = true;
      ignore_touch = false;
      price_entry = no_price;
    }

-- The radio, the client and the backend.
unfoldable pub networked : ArduinoJson → Config → Start → Device → Device
networked json config b d =
    Backend.begin json config
      (record d {
        wifi = Wifi.begin d.wifi (has config.wifi_ssid);
        client = (Client.begin d.client b.buffer b.task).0;
      })
      b.clock

-- Where LVGL has no buffers, `setup` returns at once.
unfoldable pub setup : {fs : LittleFs} → ArduinoJson → Config → Start → Storage fs → Sketch fs
unfolding loaded networked
setup json config b s =
    let t = loaded s in
    if not b.display_ready
    then record { terminal = t; last_activity = 0; next_heap_log = 0 }
    else record {
      terminal =
          Events.begin json config b.clock b.random
            (with_device t (networked json config b t.device));
      last_activity = b.clock;
      next_heap_log = b.clock;
    }
