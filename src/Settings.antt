-- ===== src/Settings.antt =====
-- firmware/beer_terminal/settings.h and config.h: the constants that the modelled code reads.
use beer_tab.Common.{ℕ, ◌*◌, Text, ascii, List, [], ◌∷◌}

abbrev pub device_id : Text
device_id = ascii "fridge-01"

abbrev pub screen_w : ℕ
screen_w = 1280

abbrev pub screen_h : ℕ
screen_h = 720

abbrev pub header_h : ℕ
header_h = 64

abbrev pub footer_h : ℕ
footer_h = 72

abbrev pub grid_margin : ℕ
grid_margin = 16

abbrev pub grid_gap : ℕ
grid_gap = 16

abbrev pub prompt_h : ℕ
prompt_h = 28

abbrev pub max_active_products : ℕ
max_active_products = 8

abbrev pub max_products : ℕ
max_products = 32

abbrev pub max_residents : ℕ
max_residents = 11

-- The ids and names that are used until the first sync.
abbrev pub default_residents : List (Text × Text)
default_residents =
    (ascii "r1", ascii "Person 1")
    ∷ (ascii "r2", ascii "Person 2")
    ∷ (ascii "r3", ascii "Person 3")
    ∷ (ascii "r4", ascii "Person 4")
    ∷ (ascii "r5", ascii "Person 5")
    ∷ (ascii "r6", ascii "Person 6")
    ∷ (ascii "r7", ascii "Person 7")
    ∷ []

abbrev pub tile_horizontal_ratio_x100 : ℕ
tile_horizontal_ratio_x100 = 135

abbrev pub max_queued_transactions : ℕ
max_queued_transactions = 64

abbrev pub sync_on_wake_min_ms : ℕ
sync_on_wake_min_ms = 60 * 1000

abbrev pub sync_interval_ms : ℕ
sync_interval_ms = 10 * 60 * 1000

abbrev pub display_off_ms : ℕ
display_off_ms = 60000

abbrev pub mock_submit_ms : ℕ
mock_submit_ms = 800

abbrev pub success_dwell_ms : ℕ
success_dwell_ms = 6000

abbrev pub undo_dwell_ms : ℕ
undo_dwell_ms = 2000

abbrev pub summary_dwell_ms : ℕ
summary_dwell_ms = 15000

abbrev pub request_timeout_ms : ℕ
request_timeout_ms = 12000

abbrev pub wifi_connect_timeout_ms : ℕ
wifi_connect_timeout_ms = 15000

abbrev pub wifi_linger_ms : ℕ
wifi_linger_ms = 30000
