-- ===== src/Tests/Runs.antt =====
-- Runs of the whole sketch, and what is typed on its keypad.
use beer_tab.Common.{
  ◌+◌, ◌*◌, ◌≤◌, ◌<◌, ◌≡◌, ◌⊎◌, refl, inr, arith, List, [], ◌∷◌, some, true, false, ascii, pos,
  text_eq, ◌+ℤ◌,
}
use beer_tab.Layout.{isqrt, isqrt_loop}
use beer_tab.Layout.Grid.{isqrt_terminates}
use beer_tab.Keypad.{
  no_price, key, gratis, press_all, is_entered, press, press_key, press_free, next_rappen,
}
use beer_tab.Keypad.Typing.{press_all-typed, press_all_taken, digit_keys}
use beer_tab.Catalog
use beer_tab.Catalog.{Catalog}
use beer_tab.Client.{busy, configured}
use beer_tab.Client.Worker.{perform}
use beer_tab.Backend.{Device}
use beer_tab.Backend.Loop.{update}
use beer_tab.Backend.Loop.Pacing.{Settled}
use beer_tab.App.{undo, selecting_product, Terminal}
use beer_tab.Screens.Build.{screen}
use beer_tab.Screens.Placing.{IsPlaced}
use beer_tab.Screens.Inside.{screen-Placed}
use beer_tab.Codec.Loops.{All}
use beer_tab.Residents
use beer_tab.App.Stored.{items_of}
use beer_tab.App.Machine.Sound.{IsSound}
use beer_tab.Screens.{resident, event_button}
use beer_tab.Sketch.{Sketch, Turn}
use beer_tab.Sketch.Boot.{Start, setup}
use beer_tab.Sketch.Runs.{Happening, turned, worked, run, run-IsSound}
use beer_tab.Sketch.Accounts.{Waits, here, Left, run-Waits}
use beer_tab.Sketch.Progress.{perform-Settled}
use beer_tab.Tests.Volume.{ram, blank}
use beer_tab.Tests.Data.{first_beer, lager, radler}
use beer_tab.Tests.Server.{yes_json, home_config, answered_device}
use beer_tab.Tests.Screens.{restless}
use beer_tab.Tests.Taps.{at_submit}

abbrev at_power_up : Start
at_power_up = record { clock = 500; random = 3; display_ready = true; buffer = true; task = true }

-- Anna is pressed.
abbrev booking : Turn
booking = record {
  now = 1000;
  clock = 1000;
  random = 7;
  finger = true;
  link_up = true;
  touch = some (resident 0);
}

-- The undo button is pressed.
abbrev regret : Turn
regret = record {
  now = 3000;
  clock = 3000;
  random = 8;
  finger = true;
  link_up = true;
  touch = some (event_button undo);
}

abbrev an_evening : List Happening
an_evening = turned booking ∷ worked restless ∷ turned regret ∷ []

abbrev at_the_fridge : Sketch ram
at_the_fridge = record { terminal = at_submit; last_activity = 900; next_heap_log = 0 }

run-Waits_example :
    Waits first_beer (items_of (run yes_json home_config an_evening at_the_fridge).terminal)
    ⊎ Left yes_json home_config first_beer at_the_fridge an_evening
run-Waits_example = run-Waits yes_json home_config an_evening at_the_fridge first_beer here

run-IsSound_example :
    IsSound
      (run yes_json home_config an_evening (setup yes_json home_config at_power_up blank)).terminal
run-IsSound_example = run-IsSound yes_json home_config at_power_up blank an_evening refl

press_all-typed_example :
    press_all (key (some (ascii "C")) ∷ digit_keys (2 ∷ 5 ∷ 0 ∷ [])) no_price
    ≡ record { rappen = pos 250; free_item = false }
press_all-typed_example =
    press_all-typed (2 ∷ 5 ∷ 0 ∷ []) no_price (omega arith, (omega arith, (omega arith, tt)))
      (omega arith)

abbrev two_beers : Catalog
two_beers = record { items = lager ∷ radler ∷ []; revision = 3; dirty = false }

press_all_taken_example :
    let e = press_all (gratis ∷ digit_keys (9 ∷ [])) no_price in
    (Catalog.set_price two_beers (pos 1) e.rappen e.free_item).1 ≡ true
unfolding press_all press press_key press_free next_rappen is_entered text_eq ◌+ℤ◌
press_all_taken_example =
    press_all_taken (gratis ∷ digit_keys (9 ∷ [])) two_beers 1 radler refl refl

abbrev asking_device : Device
asking_device = record answered_device {
  client = record (Device.client answered_device) { status = busy };
}

perform-Settled_example : Settled (
    update yes_json home_config
      (record asking_device { client = (perform restless home_config asking_device.client).0 })
      2000
      2000)
unfolding configured text_eq
perform-Settled_example =
    perform-Settled yes_json home_config restless asking_device 2000 2000 refl (inr (refl, refl))
      refl

isqrt_terminates_example :
    (isqrt_loop 15 8 1 ≡ isqrt 8) × (isqrt 8 * isqrt 8 ≤ 8) × (8 < (isqrt 8 + 1) * (isqrt 8 + 1))
isqrt_terminates_example = isqrt_terminates 8 7 (omega arith)

abbrev with_two_beers : Terminal ram
with_two_beers = record at_submit {
  device = record (Terminal.device at_submit) { catalog = two_beers };
}

screen-Placed_example : All IsPlaced (screen selecting_product with_two_beers)
unfolding Catalog.active_count Catalog.count_active Residents.count
screen-Placed_example =
    screen-Placed selecting_product with_two_beers
      (record { stored = omega arith; shown = omega arith }) (omega arith)
