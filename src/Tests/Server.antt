-- ===== src/Tests/Server.antt =====
-- A server that accepts everything, and the device that talks to it.
use beer_tab.Common.{
  ◌≡◌, ◌⊎◌, inl, inr, refl, [], ◌∷◌, none, some, true, false, Text, ascii, text_eq, pos, arith,
  if◌then◌else◌, is_empty,
}
use beer_tab.Wifi.{connected}
use beer_tab.Protocol.Json.{ArduinoJson}
use beer_tab.Protocol.Responses.{ok, SyncResult, parse_sync}
use beer_tab.Protocol.Responses.Laws.{IsSync, parse_sync-IsSync}
use beer_tab.Client.{Config, done, no_error, configured}
use beer_tab.Backend.{
  op_none, op_sync, op_purchase, result_idle, result_pending, my_idle, Backend, Device,
}
use beer_tab.Backend.Loop.{update}
use beer_tab.Queue
use beer_tab.Backend.Loop.Pacing.{Settled, update-Settled}
use beer_tab.Tests.Data.{first_beer, second_beer, lager, radler, anna, anna_line}

-- Every document has every member, and every list is empty.
abbrev pub yes_json : ArduinoJson
yes_json = record {
  Node = Text;
  serialize = λ doc. ascii "{}";
  deserialize = λ body. if is_empty body then none else some body;
  member = λ n key. n;
  is_bool = λ n. true;
  as_bool = λ n. true;
  as_text = λ n. some n;
  as_i32 = λ n. pos 1;
  as_u32 = λ n. 5;
  is_array = λ n. false;
  elements = λ n. [];
}

abbrev pub home_config : Config
home_config = record {
  wifi_ssid = ascii "home";
  api_endpoint = ascii "https://script.google.com/macros/exec";
  device_token = ascii "secret";
}

abbrev no_sync : SyncResult
no_sync = record {
  revision = 0;
  changed = false;
  has_summary = false;
  products = [];
  residents = [];
  summary = [];
}

abbrev pub idle_backend : Backend
idle_backend = record {
  op = op_none;
  posted = false;
  deadline = 0;
  request = [];
  result = result_idle;
  error = [];
  duplicate = false;
  last_sync = 0;
  active = true;
  retry_after = 0;
  send_failures = 0;
  sync = no_sync;
  my_summary = record { resident_name = []; drinks = 0; total_rappen = pos 0; products = [] };
  my_state = my_idle;
  my_resident = [];
}

-- An answer is in, to the entry at the head of a queue of two.
abbrev pub answered_device : Device
answered_device = record {
  backend = record idle_backend { op = op_purchase; posted = true; result = result_pending };
  queue = record { items = first_beer ∷ second_beer ∷ []; dirty = false };
  catalog = record { items = lager ∷ radler ∷ []; revision = 3; dirty = false };
  residents = record { entries = anna ∷ []; from_backend = true; dirty = false };
  log = record { baseline = anna_line ∷ []; has_baseline = true; view = []; dirty = false };
  wifi = record {
    state = connected;
    attempt_started = 0;
    linger_until = 90000;
    retry_after = 0;
    failures = 0;
    wanted = true;
  };
  client = record {
    ready = true;
    request = ascii "{}";
    response = ascii "{}";
    http_code = pos 200;
    status = done;
    error = no_error;
    error_detail = [];
  };
}

abbrev syncing_device : Device
syncing_device = record answered_device {
  backend = record idle_backend { op = op_sync; posted = true };
  client = record (Device.client answered_device) { response = [] };
}

-- The answer is there to the request for the first beer.
abbrev first_answered : Device
first_answered = record answered_device {
  backend = record (Device.backend answered_device) { request = ascii "{}" };
}

update-Settled_example : Settled (update yes_json home_config answered_device 1000 1000)
unfolding configured text_eq
update-Settled_example =
    update-Settled yes_json home_config answered_device 1000 1000 refl refl (inr (refl, inl refl))

no_sync-IsSync : IsSync no_sync
no_sync-IsSync = record {
  products_fit = omega arith;
  residents_fit = omega arith;
  summary_fit = omega arith;
}

parse_sync-IsSync_example :
    let (outcome, err, s) = parse_sync yes_json (ascii "{}") no_sync 64 in
    IsSync s × ((outcome ≡ ok) ⊎ (s ≡ no_sync))
parse_sync-IsSync_example = parse_sync-IsSync yes_json (ascii "{}") no_sync 64 no_sync-IsSync
