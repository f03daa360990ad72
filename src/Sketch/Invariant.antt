-- ===== src/Sketch/Invariant.antt =====
-- beer_terminal.ino: the invariant of a terminal over a turn of `loop` and a job of the worker.
use beer_tab.Common.{
  ◌≡◌, refl, ◌∙◌, inl, inr, Bool-cases, arith, ◌≤◌, Bool, true, false, length, none, some, Option,
}
use beer_tab.Settings.{max_queued_transactions}
use beer_tab.Storage.{LittleFs, Storage}
use beer_tab.Queue
use beer_tab.Queue.{Queue}
use beer_tab.Queue.Bounds.{items-flush}
use beer_tab.Catalog
use beer_tab.Residents
use beer_tab.Protocol.Json.{ArduinoJson}
use beer_tab.Client.{Config}
use beer_tab.Client.Worker.{Http}
use beer_tab.Backend.Loop.Delivery.{update_queue}
use beer_tab.Backend.Loop.Handover.{update-HandedOver}
use beer_tab.Backend.Loop.Holdings.{update-Kept}
use beer_tab.App.{Terminal}
use beer_tab.App.Stored.{items_of}
use beer_tab.App.Machine.Sound.{
  IsSound, same-IsSound, note_activity-IsSound, power_update-IsSound, update-IsSound,
}
use beer_tab.Screens.{Touch}
use beer_tab.Screens.Soundness.{touched-IsSound}
use beer_tab.Sketch.{
  Sketch, Turn, read_touch, flush_all, is_busy, noted, powered, tuned, synced, pressed, displayed,
  before_backend, before_display, loop, work,
}

items-pop :
    (q : Queue)
    → length q.items ≤ max_queued_transactions
    → length (Queue.pop q).items ≤ max_queued_transactions
unfolding Queue.pop
items-pop q h = ground (arith, h)

entries-flush :
    {fs : LittleFs} (s : Storage fs) (d : Residents.Directory)
    → (Residents.flush s d).1.entries ≡ d.entries
unfolding Residents.flush
entries-flush s d = ground arith

pub products-flush :
    {fs : LittleFs} (s : Storage fs) (c : Catalog.Catalog) → (Catalog.flush s c).1.items ≡ c.items
unfolding Catalog.flush
products-flush s c = ground arith

module _ {fs : LittleFs} (json : ArduinoJson) (config : Config) where
  tuned-IsSound : (i : Turn) (t : Terminal fs) → IsSound t → IsSound (tuned json config i t)
  unfolding tuned
  tuned-IsSound i t v = record {
    supplied = record {
      fits = v.supplied.fits;
      stocked = record {
        stored = v.supplied.stocked.stored;
        some_one = v.supplied.stocked.some_one;
      };
      handed = v.supplied.handed;
    };
    shown = record { lit = v.shown.lit; wanted = v.shown.wanted };
    rests = v.rests;
  }

  synced-IsSound : (i : Turn) (t : Terminal fs) → IsSound t → IsSound (synced json config i t)
  unfolding synced
  synced-IsSound i t v =
      let d = t.device in
      let k = update-Kept json config d i.now i.clock in
      record {
        supplied = record {
          fits = elim (update_queue json config d i.now i.clock) [
            | inl e ↦ rw (items_of, e) v.supplied.fits
            | inr a ↦ rw (items_of, a.popped) (items-pop d.queue v.supplied.fits)
          ];
          stocked = k.stocked v.supplied.stocked;
          handed = update-HandedOver json config d i.now i.clock v.supplied.handed;
        };
        shown = record { lit = v.shown.lit; wanted = k.switch ∙ v.shown.wanted };
        rests = v.rests;
      }

  read_touch-IsSound :
      (finger : Bool) (t : Terminal fs) → IsSound t → IsSound (read_touch finger t).0
  unfolding read_touch
  read_touch-IsSound finger t v = elim (Bool-cases t.ignore_touch) [
    | inl b ↦ rw b (same-IsSound t _ refl refl refl v)
    | inr b ↦ rw b (same-IsSound t _ refl refl refl v)
  ]

  pressed-IsSound :
      (i : Turn) (o : Option Touch) (live : Bool) (t : Terminal fs)
      → IsSound t
      → IsSound (pressed json config i o live t)
  unfolding pressed
  pressed-IsSound i none live t v = v
  pressed-IsSound i (some c) false t v = v
  pressed-IsSound i (some c) true t v = touched-IsSound json config i.clock i.random c t v

  displayed-IsSound : (i : Turn) (t : Terminal fs) → IsSound t → IsSound (displayed json config i t)
  unfolding displayed
  displayed-IsSound i t v = pressed-IsSound i i.touch _ _ (read_touch-IsSound i.finger t v)

  flush_all-IsSound : (t : Terminal fs) → IsSound t → IsSound (flush_all t)
  unfolding flush_all
  flush_all-IsSound t v =
      let s1 = (Catalog.flush t.storage t.device.catalog).0 in
      let s2 = (Residents.flush s1 t.device.residents).0 in
      record {
        supplied = record {
          fits = rw (items_of, items-flush s2 t.device.queue) v.supplied.fits;
          stocked = record {
            stored = rw (products-flush t.storage t.device.catalog) v.supplied.stocked.stored;
            some_one = rw (entries-flush s1 t.device.residents) v.supplied.stocked.some_one;
          };
          handed = v.supplied.handed;
        };
        shown = record { lit = v.shown.lit; wanted = v.shown.wanted };
        rests = v.rests;
      }

  noted-IsSound :
      (i : Turn) (s : Sketch fs) → IsSound s.terminal → IsSound (noted json config i s).terminal
  unfolding noted
  noted-IsSound i s v = elim (Bool-cases i.finger) [
    | inl b ↦ rw b (note_activity-IsSound json config i.clock i.random s.terminal v)
    | inr b ↦ rw b v
  ]

  powered-IsSound :
      (i : Turn) (s : Sketch fs) → IsSound s.terminal → IsSound (powered json config i s).terminal
  unfolding powered
  powered-IsSound i s v =
      power_update-IsSound json config i.clock i.random s.last_activity i.now s.terminal v

  before_display-IsSound :
      (i : Turn) (s : Sketch fs) → IsSound s.terminal → IsSound (before_display json config i s)
  unfolding before_display before_backend
  before_display-IsSound i s v = update-IsSound json config i.clock i.random i.now _ (
      synced-IsSound i _
        (tuned-IsSound i _ (powered-IsSound i (noted json config i s) (noted-IsSound i s v))))

  pub loop-IsSound :
      (i : Turn) (s : Sketch fs) → IsSound s.terminal → IsSound (loop json config i s).terminal
  unfolding loop
  loop-IsSound i s v = flush_all-IsSound _ (displayed-IsSound i _ (before_display-IsSound i s v))

  pub work-IsSound :
      (http : Http) (s : Sketch fs)
      → IsSound s.terminal
      → IsSound (work json config http s).terminal
  unfolding work is_busy
  work-IsSound http s v = elim (Bool-cases (is_busy s.terminal.device.client.status)) [
    | inr b ↦ rw b v
    | inl b ↦ rw b (record {
      supplied = record {
        fits = v.supplied.fits;
        stocked = record {
          stored = v.supplied.stocked.stored;
          some_one = v.supplied.stocked.some_one;
        };
        handed = elim v.supplied.handed [ inl e ↦ absurd (ground (arith, b, e)) | inr p ↦ inr p ];
      };
      shown = record { lit = v.shown.lit; wanted = v.shown.wanted };
      rests = v.rests;
    })
  ]
