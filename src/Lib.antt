-- ===== src/Lib.antt =====
-- The firmware of the beer terminal, firmware/beer_terminal/ of the repository: a touch screen at a
-- fridge on which a resident books a drink. The booking is put in a queue on flash and sent to a
-- backend; products, residents and totals come back by a periodic sync.
--
-- How the parts interact. The sketch, beer_terminal.ino, begins the parts in `setup` and turns them in
-- `loop`. ui_screens builds the screen of a state and hands what is pressed to app_state, which handles
-- the events and puts transactions in transaction_queue, which is written by device_storage in the
-- format of catalog_codec. backend runs one operation at a time: it builds a request with
-- api_protocol, waits for wifi_manager, hands the request to the worker of api_client, and applies the
-- answer to the queue, product_catalog, resident_directory and purchase_log.
--
-- Which file models which part (a function of the source keeps its name):
--   Common             shared types: numbers, words of 32 bits, C strings, list lemmas
--   Settings, Records  settings.h, config.h, and the structs of the other headers
--   Codec              catalog_codec.cpp: Bytes, Blob (header and checksum), Format (records)
--   Storage            device_storage.cpp over LittleFS
--   Queue, Catalog     transaction_queue.cpp and product_catalog.cpp, with Catalog.Price
--   Residents, Log     resident_directory.cpp and purchase_log.cpp
--   Layout             catalog_layout.cpp
--   Wifi               wifi_manager.cpp
--   Protocol           api_protocol.cpp: Requests, Responses, Redirect
--   Client             config.h and api_client.cpp; Client.Worker is `perform`
--   Backend            backend.cpp; Backend.Loop is `update`
--   App                app_state.cpp; App.Machine is `enter` and the handler that follows the state,
--                      App.Machine.Events is `dispatch` and `update`, and App.Machine.Diagram lists the
--                      cases of the `switch` of `dispatch` as a relation, the arrows
--   Keypad             ui_screens.cpp: the price that is typed
--   Screens            ui_screens.cpp: Screens is what a press of a control does, Screens.Widgets,
--                      Screens.Parts and Screens.Build the controls of each screen
--   Sketch             beer_terminal.ino with power_manager.cpp and display_ui.cpp: `loop` and the
--                      worker; Sketch.Boot is `setup`, Sketch.Runs a run of turns
--   Tests              concrete data and runs
--
-- The variables of a source file are the fields of one record, and a function that changes them takes
-- and returns it. A char array is the list of its bytes before the terminator, a 32-bit integer keeps
-- its wrap-around (a sum of `int32_t`s wraps too), and a deadline is compared as the source does, by the sign of the difference. What
-- millis() and esp_random() answer is an argument, `clock` and `random`.
--
-- Parameters, for code that is not in the repository: LittleFS (Storage.LittleFs, with what is relied
-- on in Storage.Laws), ArduinoJson (Protocol.Json) and HTTPClient (Client.Worker.Http). Tests.Volume
-- is a volume that satisfies the laws.
--
-- Fuel: `isqrt` runs its loop on its own argument as fuel, and the root grows by one a round;
-- `perform` has the three redirects that the source allows; a decimal has ten digits. All other
-- functions are structural.
--
-- A run of the sketch is a list of turns of `loop` and of jobs of the worker, which stand between the
-- turns; the worker and the loop share the client alone, behind its status. A turn reads one touch
-- sample and presses one control at most, and only a sample that is not ignored reaches a control. What
-- is sampled, pressed, typed and answered is an argument, so a theorem over all runs is one over all of
-- it.
--
-- Not modelled: how a screen looks (colours, fonts, places of labels, the battery indicator, animations,
-- the layout inside a tile), the figures of the admin screen, the on-screen
-- keyboard and when it hides, LVGL's own timers; of the worker task only whether it was created; serial
-- output and the heap log's text; the fonts and the library's configuration; the Apps Script of the
-- backend.
pub mod Common
pub mod Settings
pub mod Records
pub mod Codec
pub mod Storage
pub mod Queue
pub mod Catalog
pub mod Residents
pub mod Log
pub mod Layout
pub mod Keypad
pub mod Wifi
pub mod Protocol
pub mod Client
pub mod Backend
pub mod App
pub mod Screens
pub mod Sketch
mod Tests
