-- ===== src/Client/Worker.antt =====
-- api_client.cpp: `one_request` and `perform`. HTTP is the HTTPClient library's, so an exchange is a
-- parameter; what goes out is listed by the call that sends it.
pub mod Safety
pub mod Ends
use beer_tab.Common.{
  ℕ, zero, suc, ◌+◌, ◌-◌, List, [], ◌∷◌, ◌++◌, Option, none, some, Bool, true, false, not, ◌&&◌,
  ◌||◌, Text, ascii, is_empty, print_text, decimal, ℤ, pos, negsuc, ltb_ℤ, eq_ℤ, pos_part,
  if◌then◌else◌,
}
use beer_tab.Protocol.Redirect.{redirect_target_allowed}
use beer_tab.Client.{
  Config, Client, Sink, done, failed, no_error, transport, http_status, too_large,
  max_response_bytes, sink_write,
}

-- One exchange as the library reports it: the status or a negative error, the `Location`, and the
-- pieces of the body in the order in which `writeToStream` hands them over.
pub record Reply : Type 0 where
  pub code : ℤ
  pub location : Text
  pub body : List Text

-- A request that goes out: a POST of a body, or a GET.
pub record Sent : Type 0 where
  pub url : Text
  pub body : Option Text

-- `begins` is `http.begin`; `exchange` is `http.POST` or `http.GET`, and what comes back.
pub record Http : Type 0 where
  pub begins : Text → Bool
  pub refused : ℤ
  pub exchange : Sent → Reply
  pub error_string : ℤ → Text

-- The one call by which anything goes out: the reply to a request, and the request.
pub record Exchange : Type 0 where
  pub reply : Reply
  pub sent : List Sent

abbrev pub send : Http → Sent → Exchange
send http x = record { reply = http.exchange x; sent = x ∷ [] }

abbrev max_url_bytes : ℕ
max_url_bytes = 768

abbrev response_too_large : ℤ
response_too_large = negsuc 999

is_redirect : ℤ → Bool
is_redirect code =
    eq_ℤ code (pos 301)
    || eq_ℤ code (pos 302)
    || eq_ℤ code (pos 303)
    || eq_ℤ code (pos 307)
    || eq_ℤ code (pos 308)

sink_all : Sink → List Text → Sink
unfolding sink_write
sink_all s [] = s
sink_all s (piece ∷ pieces) = sink_all (sink_write max_response_bytes s piece) pieces

-- What one hop leaves: the client, the code, the redirect's target, and what went out.
pub record Hop : Type 0 where
  pub client : Client
  pub code : ℤ
  pub location : Text
  pub sent : List Sent

receive : Client → Exchange → Hop
unfolding is_redirect sink_all
receive c x =
    let r = x.reply in
    let sink = sink_all (record { stored = []; overflow = false }) r.body in
    if is_redirect r.code
    then record {
      client = c;
      code = r.code;
      location = print_text max_url_bytes r.location;
      sent = x.sent;
    }
    else if ltb_ℤ (pos 0) r.code
    then record {
      client = record c { response = sink.stored };
      code = if sink.overflow then response_too_large else r.code;
      location = [];
      sent = x.sent;
    }
    else record { client = c; code = r.code; location = []; sent = x.sent }

-- A failure with its detail in an array of 64 bytes.
fail : Client → Text → Client
fail c detail = record c {
  error_detail = print_text 64 detail;
  error = http_status;
  status = failed;
}

finish_perform : Client → ℤ → Client
unfolding fail
finish_perform c code =
    if ltb_ℤ code (pos 200) || not (ltb_ℤ code (pos 300))
    then fail c (ascii "HTTP " ++ (decimal (pos_part code) ++ ascii " vom Server"))
    else record c { error = no_error; status = done }

-- The client once the code of a hop is in.
abbrev arrived : Hop → Client
arrived hop = record (Hop.client hop) { http_code = Hop.code hop }

module _ (http : Http) where
  -- The client if the hop ends the request, `none` if it is a redirect to follow.
  settled : Hop → Option Client
  unfolding finish_perform
  settled hop =
      if eq_ℤ (Hop.code hop) response_too_large
      then some (record (arrived hop) {
        error_detail = ascii "Antwort zu gross";
        error = too_large;
        status = failed;
      })
      else if not (ltb_ℤ (pos 0) (Hop.code hop))
      then some (record (arrived hop) {
        error_detail = print_text 64 (http.error_string (Hop.code hop));
        error = transport;
        status = failed;
      })
      else if is_empty (Hop.location hop)
      then some (finish_perform (arrived hop) (Hop.code hop))
      else none

  -- A redirect is followed only to a host that is allowed.
  follow : Text → Client → List Sent → Client × List Sent → Client × List Sent
  unfolding fail
  follow target c sent next =
      if not (redirect_target_allowed target)
      then (fail c (ascii "Weiterleitung abgelehnt"), sent)
      else (next.0, sent ++ next.1)

  abbrev body_of : Bool → Client → Option Text
  body_of true c = some c.request
  body_of false c = none

  -- Nothing goes out where `http.begin` fails.
  one_request : Text → Bool → Client → Hop
  unfolding receive
  one_request url post c =
      if not (http.begins url)
      then record { client = c; code = http.refused; location = []; sent = [] }
      else receive c (send http (record { url = url; body = body_of post c }))

  -- The hops, `left` of them being allowed after this one. The body is not sent again, so the
  -- device token does not reach the second host.
  unfoldable pub perform_from : ℕ → Text → Bool → Client → Client × List Sent
  unfolding one_request settled follow
  perform_from zero url post c =
      let hop = one_request url post c in
      elim (settled hop) [
        | some c' ↦ (c', Hop.sent hop)
        | none ↦ (fail (arrived hop) (ascii "Zu viele Weiterleitungen"), Hop.sent hop)
      ]
  perform_from (suc left) url post c =
      let hop = one_request url post c in
      let next =
        perform_from left (print_text max_url_bytes (Hop.location hop)) false (arrived hop) in
      elim (settled hop) [
        | some c' ↦ (c', Hop.sent hop)
        | none ↦ follow (Hop.location hop) (arrived hop) (Hop.sent hop) next
      ]

  unfoldable pub perform : Config → Client → Client × List Sent
  unfolding perform_from
  perform config c =
      perform_from 3 (print_text max_url_bytes config.api_endpoint) true
        (record c { response = []; http_code = pos 0 })
