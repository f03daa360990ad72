-- ===== src/Backend/Loop/Frame.antt =====
-- backend.cpp: what starting a request leaves as it is.
use beer_tab.Common.{◌≡◌, refl, ◌∙◌, inl, inr, Option-cases, arith, ℕ, Option, none, some, Text}
use beer_tab.Settings.{device_id}
use beer_tab.Queue
use beer_tab.Protocol.Json.{ArduinoJson}
use beer_tab.Protocol.Requests.{build_sync, max_request_bytes}
use beer_tab.Client.{Config}
use beer_tab.Backend.{
  Op, op_sync, Device, start, request_of, request_sync, request_my_summary, send_queued_now,
  my_summary_body,
}

-- What a request that is started leaves alone.
pub record SameData (d d' : Device) : Type 0 where
  pub same_queue : d'.queue ≡ d.queue
  pub same_catalog : d'.catalog ≡ d.catalog
  pub same_residents : d'.residents ≡ d.residents
  pub same_active : d'.backend.active ≡ d.backend.active
  pub same_client : d'.client ≡ d.client

pub SameData-refl : (d : Device) → SameData d d
SameData-refl d = record {
  same_queue = refl;
  same_catalog = refl;
  same_residents = refl;
  same_active = refl;
  same_client = refl;
}

pub SameData-trans : (a b c : Device) → SameData a b → SameData b c → SameData a c
SameData-trans a b c f g = record {
  same_queue = g.same_queue ∙ f.same_queue;
  same_catalog = g.same_catalog ∙ f.same_catalog;
  same_residents = g.same_residents ∙ f.same_residents;
  same_active = g.same_active ∙ f.same_active;
  same_client = g.same_client ∙ f.same_client;
}

pub start-SameData :
    (d : Device) (op : Op) (body : Option Text) (now clock : ℕ)
    → SameData d (start d op body now clock).0
unfolding start
start-SameData d op none now clock = SameData-refl d
start-SameData d op (some body) now clock = record {
  same_queue = refl;
  same_catalog = refl;
  same_residents = refl;
  same_active = ground arith;
  same_client = refl;
}

pub request_sync-SameData :
    (json : ArduinoJson) (config : Config) (d : Device) (clock : ℕ)
    → SameData d (request_sync json config d clock).0
unfolding request_sync
request_sync-SameData json config d clock = ground (
  arith,
  SameData-refl d,
  start-SameData d op_sync
      (build_sync json max_request_bytes config.device_token device_id d.catalog.revision) clock
      clock,
)

pub send_queued_now-SameData :
    (json : ArduinoJson) (config : Config) (d : Device) (clock : ℕ)
    → SameData d (send_queued_now json config d clock).0
unfolding send_queued_now
send_queued_now-SameData json config d clock = elim (Option-cases (Queue.head d.queue)) [
  | inl e ↦ ground (arith, e, SameData-refl d)
  | inr (x, e) ↦
      let (op, body) = request_of json config x in
      ground (arith, e, SameData-refl d, start-SameData d op body clock clock)
]

pub request_my_summary-SameData :
    (json : ArduinoJson) (config : Config) (d : Device) (id : Text) (clock : ℕ)
    → SameData d (request_my_summary json config d id clock).0
unfolding request_my_summary start
request_my_summary-SameData json config d id clock = record {
  same_queue = ground (arith, my_summary_body);
  same_catalog = ground (arith, my_summary_body);
  same_residents = ground (arith, my_summary_body);
  same_active = ground (arith, my_summary_body);
  same_client = ground (arith, my_summary_body);
}
