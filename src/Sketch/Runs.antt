-- ===== src/Sketch/Runs.antt =====
-- beer_terminal.ino: runs of turns and jobs of the worker.
use beer_tab.Common.{
  ◌≡◌, refl, ap, inl, inr, Option-cases, arith, ℕ, ◌≤◌, true, false, not, List, [], ◌∷◌, length,
}
use beer_tab.Settings.{max_queued_transactions, max_products}
use beer_tab.Storage.{LittleFs, Storage}
use beer_tab.Storage
use beer_tab.Codec.Format.{decode_queue, decode_catalog, max_queue_bytes, max_catalog_bytes}
use beer_tab.Codec.Capacity.{decode_queue_fits, decode_catalog_fits}
use beer_tab.Queue
use beer_tab.Catalog
use beer_tab.Catalog.{seed, seed_generation, catalog_path}
use beer_tab.Residents.Laws.{begin_some}
use beer_tab.Protocol.Json.{ArduinoJson}
use beer_tab.Client
use beer_tab.Client.{Config, configured, idle, has}
use beer_tab.Client.Worker.{Http}
use beer_tab.Wifi
use beer_tab.Backend
use beer_tab.Backend.{Device}
use beer_tab.Backend.Loop.Handover.{request_sync-HandedOver}
use beer_tab.Backend.Loop.Delivery.{pick}
use beer_tab.Backend.Loop.Frame.{request_sync-SameData}
use beer_tab.App.{Terminal, sleeping, waking, selecting_product, reset_context}
use beer_tab.App.Stored.{items_of}
use beer_tab.App.Machine.{with_app}
use beer_tab.App.Machine.Events
use beer_tab.App.Machine.Room.{Fits}
use beer_tab.App.Machine.Soundness.{
  IsSupplied, enter-IsSupplied, enter_new-IsShown, enter-IsShown, device-IsSupplied,
}
use beer_tab.App.Machine.Sound.{IsSound}
use beer_tab.App.Machine.Walks.{enters, is_resting}
use beer_tab.Sketch.{Sketch, Turn, with_device, loop, work}
use beer_tab.Sketch.Boot.{Start, loaded, networked, setup}
use beer_tab.Sketch.Invariant.{loop-IsSound, work-IsSound, products-flush}

-- What happens between two power cuts: a turn of the loop, or a run of the worker against whatever
-- the network answers.
pub data Happening : Type 0 where
  turned : Turn → Happening
  worked : Http → Happening

unfoldable pub happen : {fs : LittleFs} → ArduinoJson → Config → Happening → Sketch fs → Sketch fs
unfolding loop work
happen json config (turned i) s = loop json config i s
happen json config (worked http) s = work json config http s

unfoldable pub run : {fs : LittleFs} → ArduinoJson → Config → List Happening → Sketch fs → Sketch fs
unfolding happen
run json config [] s = s
run json config (h ∷ hs) s = run json config hs (happen json config h s)

begin-Fits : {fs : LittleFs} (s : Storage fs) → Fits (Queue.begin s).items
unfolding Queue.begin
begin-Fits s = elim (Option-cases (Storage.read s Queue.queue_path max_queue_bytes)) [
  | inl e ↦ ground (arith, e)
  | inr (blob, e) ↦ elim (Option-cases (decode_queue blob max_queued_transactions)) [
    | inl f ↦ ground (arith, e, f)
    | inr (es, f) ↦ ground (arith, e, f, decode_queue_fits blob max_queued_transactions es f)
  ]
]

seed_stored : length seed ≤ max_products
unfolding seed
seed_stored = omega arith

reseed_stored : {fs : LittleFs} (s : Storage fs) → length (Catalog.reseed s).1.items ≤ max_products
unfolding Catalog.reseed
reseed_stored s =
    rw (products-flush s (record { items = seed; revision = 0; dirty = true })) seed_stored

begin_stored : {fs : LittleFs} (s : Storage fs) → length (Catalog.begin s).1.items ≤ max_products
unfolding Catalog.begin
begin_stored s = elim (Option-cases (Storage.read s catalog_path max_catalog_bytes)) [
  | inl e ↦ ground (arith, e, reseed_stored s)
  | inr (blob, e) ↦ elim (Option-cases (decode_catalog blob max_products)) [
    | inl f ↦ ground (arith, e, f, reseed_stored s)
    | inr (x, f) ↦ ground (arith, e, f, reseed_stored s, decode_catalog_fits blob max_products x f)
  ]
]

loaded-IsSupplied : {fs : LittleFs} (s : Storage fs) → IsSupplied (loaded s)
unfolding loaded
loaded-IsSupplied s =
    let mounted = (Storage.begin s).0 in
    let s' = (Catalog.begin mounted).0 in
    record {
      fits = begin-Fits s';
      stocked = record { stored = begin_stored mounted; some_one = begin_some s' };
      handed = inl refl;
    }

module _ {fs : LittleFs} (json : ArduinoJson) (config : Config) where
  begin-IsSupplied :
      (t : Terminal fs) (clock : ℕ)
      → t.device.client.status ≡ idle
      → IsSupplied t
      → IsSupplied (with_device t (Backend.begin json config t.device clock))
  unfolding Backend.begin
  begin-IsSupplied t clock is_idle v =
      let d' : Device = record (Terminal.device t) {
        backend = record (Device.backend t.device) {
          op = Backend.op_none;
          posted = false;
          result = Backend.result_idle;
          last_sync = 0;
        };
      } in
      let s = request_sync-SameData json config d' clock in
      let v' : IsSupplied (with_device t d') = record {
        fits = v.fits;
        stocked = record { stored = v.stocked.stored; some_one = v.stocked.some_one };
        handed = inl is_idle;
      } in
      pick (λ d. IsSupplied (with_device t d)) (not (configured config)) d' _ (λ b. v')
        (λ b. record {
          fits = rw (items_of, s.same_queue) v.fits;
          stocked = record {
            stored = rw s.same_catalog v.stocked.stored;
            some_one = rw s.same_residents v.stocked.some_one;
          };
          handed = request_sync-HandedOver json config d' clock (inl is_idle);
        })

  -- The first two changes of state bring the terminal up, whatever the panel was.
  begin-IsSound :
      (clock random : ℕ) (t : Terminal fs)
      → IsSupplied t
      → IsSound (Events.begin json config clock random t)
  unfolding Events.begin
  begin-IsSound clock random t v =
      let t' = reset_context (with_app t (record (Terminal.app t) { state = sleeping })) in
      let v' = device-IsSupplied t t' refl v in
      let up = enter-IsSupplied json config clock random waking t' v' in
      record {
        supplied = enter-IsSupplied json config clock random selecting_product _ up;
        shown =
            enter-IsShown json config clock random selecting_product _
              (enter_new-IsShown json config clock random waking t' refl);
        rests = ap is_resting (
            enters json config clock random selecting_product
              (Events.go json config clock random waking t'));
      }

  pub setup-IsSound :
      (b : Start) (s : Storage fs)
      → b.display_ready ≡ true
      → IsSound (setup json config b s).terminal
  unfolding setup networked Client.begin loaded
  setup-IsSound b s ready =
      let v = loaded-IsSupplied s in
      rw ready (
        begin-IsSound b.clock b.random _ (
          begin-IsSupplied
            (with_device (loaded s) (record (Terminal.device (loaded s)) {
              wifi = Wifi.begin (loaded s).device.wifi (has config.wifi_ssid);
              client = (Client.begin (loaded s).device.client b.buffer b.task).0;
            }))
            b.clock refl
            (record {
              fits = v.fits;
              stocked = record { stored = v.stocked.stored; some_one = v.stocked.some_one };
              handed = inl refl;
            })))

  pub happen-IsSound :
      (h : Happening) (s : Sketch fs)
      → IsSound s.terminal
      → IsSound (happen json config h s).terminal
  unfolding happen
  happen-IsSound (turned i) s v = loop-IsSound json config i s v
  happen-IsSound (worked http) s v = work-IsSound json config http s v

  run_from-IsSound :
      (hs : List Happening) (s : Sketch fs)
      → IsSound s.terminal
      → IsSound (run json config hs s).terminal
  unfolding run
  run_from-IsSound [] s v = v
  run_from-IsSound (h ∷ hs) s v = run_from-IsSound hs _ (happen-IsSound h s v)

  -- Whatever the flash held at power-up, and whatever is touched, answered and timed out since: where
  -- the draw buffers could be had, the queue and the catalog fit their arrays, there is somebody to
  -- charge, the client is idle or has the request of the operation under way, the panel is lit and the
  -- backend active exactly outside the sleeping state, and the state is none that is only passed
  -- through.
  pub run-IsSound :
      (b : Start) (s : Storage fs) (hs : List Happening)
      → b.display_ready ≡ true
      → IsSound (run json config hs (setup json config b s)).terminal
  run-IsSound b s hs ready = run_from-IsSound hs _ (setup-IsSound b s ready)
