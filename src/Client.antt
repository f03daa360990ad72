-- ===== src/Client.antt =====
-- firmware/beer_terminal/api_client.cpp, and the configuration of config.h that decides whether it
-- runs. One request at a time is handed to a worker task; `perform` is what the worker does with it.
pub mod Worker
use beer_tab.Common.{
  ℕ, zero, suc, ◌+◌, ◌-◌, List, [], ◌∷◌, ◌++◌, Option, none, some, Bool, true, false, not, ◌&&◌,
  ◌||◌, Text, ascii, text_eq, is_empty, print_text, ℤ, pos, negsuc, ltb_ℤ, eq_ℤ, length, take, ltb,
  leb, ◌==◌, if◌then◌else◌,
}
use beer_tab.Protocol.Requests.{max_request_bytes}
use beer_tab.Protocol.Redirect.{redirect_target_allowed, https}

-- The compiled-in secrets.
pub record Config : Type 0 where
  pub wifi_ssid : Text
  pub api_endpoint : Text
  pub device_token : Text

abbrev pub has : Text → Bool
has s = not (is_empty s)

unfoldable pub configured : Config → Bool
unfolding text_eq
configured c =
    has c.wifi_ssid
    && has c.api_endpoint
    && has c.device_token
    && text_eq (take 8 c.api_endpoint) https

pub data Status : Type 0 where
  idle busy done failed : Status

pub data ClientError : Type 0 where
  no_error not_configured offline already_busy transport http_status too_large : ClientError

-- `ready` is that the worker task and the response buffer exist.
pub record Client : Type 0 where
  pub ready : Bool
  pub request : Text
  pub response : Text
  pub http_code : ℤ
  pub status : Status
  pub error : ClientError
  pub error_detail : Text

-- `begin`, with whether the response buffer and the worker task could be had.
unfoldable pub begin : Client → Bool → Bool → Client × Bool
begin c buffer task = (record c { ready = buffer && task }, buffer && task)

is_idle : Status → Bool
is_idle idle = true
is_idle _ = false

unfoldable pub post : Config → Client → Bool → Text → Client × Bool
unfolding is_idle
post config c online body =
    if not (configured config)
    then (record c { error = not_configured }, false)
    else if not c.ready
    then (record c { error = transport }, false)
    else if not (is_idle c.status)
    then (record c { error = already_busy }, false)
    else if not online
    then (record c { error = offline }, false)
    else if length body == 0 || leb max_request_bytes (length body)
    then (record c { error = transport }, false)
    else (record c { request = body; error = no_error; error_detail = []; status = busy }, true)

abbrev pub reset : Client → Client
reset c = record c { status = idle }

text_or : Text → Text → Text
text_or detail t = if is_empty detail then t else detail

-- An umlaut of a literal is two bytes.
error_text_of : ClientError → Text → Text
unfolding text_or
error_text_of no_error detail = []
error_text_of not_configured detail = ascii "Ger" ++ (0xC3 ∷ 0xA4 ∷ ascii "t nicht konfiguriert")
error_text_of offline detail = ascii "Kein WLAN"
error_text_of already_busy detail = ascii "Anfrage l" ++ (0xC3 ∷ 0xA4 ∷ ascii "uft bereits")
error_text_of transport detail = text_or detail (ascii "Server nicht erreichbar")
error_text_of http_status detail = text_or detail (ascii "Server meldet einen Fehler")
error_text_of too_large detail = ascii "Antwort zu gross"

unfoldable pub error_text : Client → Text
unfolding error_text_of
error_text c = error_text_of c.error c.error_detail

-- `BoundedSink`: what of a body it stored, and whether any was left out. A sink of `cap` bytes keeps
-- one for the terminator.
pub record Sink : Type 0 where
  pub stored : Text
  pub overflow : Bool

abbrev pub max_response_bytes : ℕ
max_response_bytes = 8192

unfoldable pub sink_write : ℕ → Sink → Text → Sink
sink_write cap s bytes =
    let room = if ltb (length s.stored + 1) cap then cap - 1 - length s.stored else 0 in
    let n = if ltb (length bytes) room then length bytes else room in
    record { stored = s.stored ++ take n bytes; overflow = s.overflow || ltb n (length bytes) }
