-- ===== src/Sketch.antt =====
-- firmware/beer_terminal/beer_terminal.ino: `setup` and `loop`, which call all other parts, with the
-- rest of power_manager.cpp and the touch input of display_ui.cpp.
pub mod Boot
pub mod Invariant
pub mod Runs
pub mod Accounts
pub mod Progress
use beer_tab.Common.{
  ℕ, ◌+◌, List, [], ◌∷◌, Option, none, some, Bool, true, false, not, ◌&&◌, Text, u32, if◌then◌else◌,
}
use beer_tab.Storage.{LittleFs}
use beer_tab.Catalog
use beer_tab.Residents
use beer_tab.Queue
use beer_tab.Log
use beer_tab.Wifi
use beer_tab.Protocol.Json.{ArduinoJson}
use beer_tab.Client.{Config, Client, Status, busy}
use beer_tab.Client.Worker.{Http, perform}
use beer_tab.Backend.{Device, reached}
use beer_tab.Backend.Loop
use beer_tab.App.{Terminal}
use beer_tab.App.Machine.Events.{note_activity, power_update}
use beer_tab.App.Machine.Events
use beer_tab.Screens.{Touch, touched}

-- The terminal, and the variables of power_manager.cpp.
pub record Sketch (fs : LittleFs) : Type 0 where
  pub terminal : Terminal fs
  pub last_activity : ℕ
  pub next_heap_log : ℕ

abbrev pub heap_log_interval_ms : ℕ
heap_log_interval_ms = 30000

-- What a turn of the loop finds: `now` is its `millis()` and `clock` that of the calls further down;
-- whether a finger is on the panel; whether the radio has a link; and the control that LVGL makes of
-- the touch samples, if any.
pub record Turn : Type 0 where
  pub now : ℕ
  pub clock : ℕ
  pub random : ℕ
  pub finger : Bool
  pub link_up : Bool
  pub touch : Option Touch

abbrev pub with_device : {fs : LittleFs} → Terminal fs → Device → Terminal fs
with_device t d = record t { device = d }

-- `touch_read_cb`: whether the sample that LVGL reads is that of the panel. A press that woke the
-- screen is read as released until the finger is off.
unfoldable pub read_touch : {fs : LittleFs} → Bool → Terminal fs → Terminal fs × Bool
read_touch finger t =
    if t.ignore_touch
    then (record t { ignore_touch = if finger then true else false }, false)
    else (t, true)

-- The four calls that write what has changed.
unfoldable pub flush_all : {fs : LittleFs} → Terminal fs → Terminal fs
flush_all t =
    let d = t.device in
    let (s1, c) = Catalog.flush t.storage d.catalog in
    let (s2, r) = Residents.flush s1 d.residents in
    let (s3, q) = Queue.flush s2 d.queue in
    let (s4, l) = Log.flush s3 d.log in
    record t { storage = s4; device = record d { catalog = c; residents = r; queue = q; log = l } }

is_busy : Status → Bool
is_busy busy = true
is_busy _ = false

module _ {fs : LittleFs} (json : ArduinoJson) (config : Config) where
  -- `power_manager::note_activity`, where a finger is on the panel.
  unfoldable pub noted : Turn → Sketch fs → Sketch fs
  unfolding note_activity
  noted i s =
      if i.finger
      then record s {
        last_activity = i.now;
        terminal = note_activity json config i.clock i.random s.terminal;
      }
      else s

  -- `power_manager::update`; the log line that it prints changes nothing else.
  unfoldable pub powered : Turn → Sketch fs → Sketch fs
  unfolding power_update
  powered i s = record s {
    next_heap_log =
        if reached i.now s.next_heap_log
        then u32 (i.now + heap_log_interval_ms)
        else s.next_heap_log;
    terminal = power_update json config i.clock i.random s.last_activity i.now s.terminal;
  }

  -- `wifi_manager::update`.
  unfoldable pub tuned : Turn → Terminal fs → Terminal fs
  tuned i t =
      with_device t
        (record (Terminal.device t) { wifi = Wifi.update t.device.wifi i.now i.link_up })

  -- `backend::update`.
  unfoldable pub synced : Turn → Terminal fs → Terminal fs
  synced i t = with_device t (Loop.update json config t.device i.now i.clock)

  -- The callback of a control, if there is one and the sample was that of the panel.
  unfoldable pub pressed : Turn → Option Touch → Bool → Terminal fs → Terminal fs
  unfolding touched
  pressed i none live t = t
  pressed i (some c) false t = t
  pressed i (some c) true t = touched json config i.clock i.random c t

  -- `display_ui::update`, in which LVGL reads the touch and calls back.
  unfoldable pub displayed : Turn → Terminal fs → Terminal fs
  unfolding read_touch pressed
  displayed i t = let (t', live) = read_touch i.finger t in pressed i i.touch live t'

  -- The terminal as `backend::update` finds it, and as the screens do.
  unfoldable pub before_backend : Turn → Sketch fs → Terminal fs
  unfolding noted powered tuned
  before_backend i s = tuned i (powered i (noted i s)).terminal

  unfoldable pub before_display : Turn → Sketch fs → Terminal fs
  unfolding before_backend synced
  before_display i s =
      Events.update json config i.clock i.random i.now (synced i (before_backend i s))

  unfoldable pub loop : Turn → Sketch fs → Sketch fs
  unfolding before_display displayed flush_all
  loop i s = record (powered i (noted i s)) {
    terminal = flush_all (displayed i (before_display i s));
  }

  -- The worker task, which runs between any two turns.
  unfoldable pub work : Http → Sketch fs → Sketch fs
  unfolding is_busy
  work http s =
      let d = s.terminal.device in
      if is_busy d.client.status
      then record s {
        terminal =
            with_device (Sketch.terminal s)
              (record d { client = (perform http config d.client).0 });
      }
      else s
