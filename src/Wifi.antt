-- ===== src/Wifi.antt =====
-- firmware/beer_terminal/wifi_manager.cpp. The radio's own calls (`WiFi.begin`, `WiFi.mode`,
-- `WiFi.disconnect`) change no variable of the module; what `WiFi.status()` answers is the argument
-- `link_up`, and whether an SSID is compiled in is `has_ssid`.
pub mod Backoff
use beer_tab.Common.{
  ℕ, ◌+◌, ◌*◌, ◌^◌, List, ◌++◌, Bool, true, false, not, ◌&&◌, ◌||◌, Text, ascii, is_before, sub32,
  u32, ltb, leb, if◌then◌else◌,
}
use beer_tab.Settings.{wifi_linger_ms, wifi_connect_timeout_ms}

pub data WifiState : Type 0 where
  unconfigured off connecting connected failed : WifiState

pub record Wifi : Type 0 where
  pub state : WifiState
  pub attempt_started : ℕ
  pub linger_until : ℕ
  pub retry_after : ℕ
  pub failures : ℕ
  pub wanted : Bool

unfoldable pub backoff_ms : ℕ → ℕ
backoff_ms failures =
    let base = 2000 * 2 ^ (if ltb failures 5 then failures else 5) in
    if ltb 60000 base then 60000 else base

abbrev pub radio_off : Wifi → Wifi
radio_off w = record w { state = off }

abbrev pub start_attempt : Wifi → ℕ → Wifi
start_attempt w now = record w { attempt_started = now; state = connecting }

unfoldable pub begin : Wifi → Bool → Wifi
begin w has_ssid = if not has_ssid then record w { state = unconfigured } else radio_off w

request_online_in : WifiState → Wifi → ℕ → Wifi
request_online_in unconfigured w now = w
request_online_in _ w now = record w { wanted = true; linger_until = u32 (now + wifi_linger_ms) }

unfoldable pub request_online : Wifi → ℕ → Wifi
unfolding request_online_in
request_online w now = request_online_in w.state w now

request_offline_in : WifiState → Wifi → Wifi
request_offline_in unconfigured w = w
request_offline_in _ w = record w { wanted = false; linger_until = 0; state = off }

unfoldable pub request_offline : Wifi → Wifi
unfolding request_offline_in
request_offline w = request_offline_in w.state w

unfoldable pub is_up : WifiState → Bool
is_up connected = true
is_up connecting = true
is_up _ = false

-- `static_cast<int32_t>(now - started) > static_cast<int32_t>(timeout)`.
abbrev is_after : ℕ → ℕ → Bool
is_after now started =
    not (is_before now started) && ltb wifi_connect_timeout_ms (sub32 now started)

-- The `switch` of `update`.
update_in : WifiState → Wifi → ℕ → Bool → Wifi
update_in off w now link_up = if is_before now w.retry_after then w else start_attempt w now
update_in failed w now link_up = if is_before now w.retry_after then w else start_attempt w now
update_in connecting w now link_up =
    let failures = if ltb w.failures 255 then w.failures + 1 else w.failures in
    if link_up
    then record w { failures = 0; state = connected }
    else if is_after now w.attempt_started
    then record w {
      failures = failures;
      state = failed;
      retry_after = u32 (now + backoff_ms failures);
    }
    else w
update_in connected w now link_up =
    if not link_up then record w { state = failed; retry_after = now } else w
update_in unconfigured w now link_up = w

-- Whether the linger window is over, or nothing has asked for the radio.
abbrev pub is_idle : Wifi → ℕ → Bool
is_idle w now = not w.wanted || not (is_before now w.linger_until)

update_configured : Wifi → ℕ → Bool → Wifi
unfolding update_in is_up
update_configured w now link_up =
    if is_idle w now
    then if is_up w.state then record w { state = off; wanted = false } else w
    else update_in w.state w now link_up

update_from : WifiState → Wifi → ℕ → Bool → Wifi
unfolding update_configured
update_from unconfigured w now link_up = w
update_from _ w now link_up = update_configured w now link_up

unfoldable pub update : Wifi → ℕ → Bool → Wifi
unfolding update_from
update w now link_up = update_from w.state w now link_up

unfoldable pub is_connected : WifiState → Bool
is_connected connected = true
is_connected _ = false

unfoldable pub online : Wifi → Bool
unfolding is_connected
online w = is_connected w.state

unfoldable pub status_text : WifiState → Text
status_text unconfigured = ascii "nicht konfiguriert"
status_text off = ascii "aus"
status_text connecting = ascii "verbindet"
status_text connected = ascii "verbunden"
status_text failed = ascii "kein Netz"
