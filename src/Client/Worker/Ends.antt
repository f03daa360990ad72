-- ===== src/Client/Worker/Ends.antt =====
-- api_client.cpp: the status of the client after `perform`.
use beer_tab.Common.{
  ℕ, zero, suc, ◌≡◌, refl, List, print_text, ◌⊎◌, inl, inr, some, Bool, true, false, Text, ascii, ℤ,
  Option-cases, arith,
}
use beer_tab.Client.{Config, Client, done, failed}
use beer_tab.Client.Worker.{
  Http, Hop, Sent, fail, finish_perform, arrived, settled, follow, one_request, perform_from,
  perform, max_url_bytes,
}

-- The request has succeeded or failed.
abbrev pub IsEnded : Client → Type 0
IsEnded c = (c.status ≡ done) ⊎ (c.status ≡ failed)

fail-IsEnded : (c : Client) (detail : Text) → IsEnded (fail c detail)
unfolding fail
fail-IsEnded c detail = inr refl

finish_perform-IsEnded : (c : Client) (code : ℤ) → IsEnded (finish_perform c code)
unfolding finish_perform fail
finish_perform-IsEnded c code = ground arith

settled-IsEnded : (http : Http) (hop : Hop) {c : Client} → settled http hop ≡ some c → IsEnded c
unfolding settled
settled-IsEnded http hop h = ground (arith, h, finish_perform-IsEnded (arrived hop) (Hop.code hop))

module _ (http : Http) where
  follow-IsEnded :
      (target : Text) (c : Client) (sent : List Sent) (next : Client × List Sent)
      → IsEnded next.0
      → IsEnded (follow http target c sent next).0
  unfolding follow
  follow-IsEnded target c sent next h =
      ground (arith, h, fail-IsEnded c (ascii "Weiterleitung abgelehnt"))

  perform_from-IsEnded :
      (left : ℕ) (url : Text) (post : Bool) (c : Client)
      → IsEnded (perform_from http left url post c).0
  unfolding perform_from
  perform_from-IsEnded zero url post c =
      let hop = one_request http url post c in
      elim (Option-cases (settled http hop)) [
        | inl e ↦
            rw (perform_from, e) (fail-IsEnded (arrived hop) (ascii "Zu viele Weiterleitungen"))
        | inr (c', e) ↦ rw (perform_from, e) (settled-IsEnded http hop e)
      ]
  perform_from-IsEnded (suc left) url post c =
      let hop = one_request http url post c in
      elim (Option-cases (settled http hop)) [
        | inl e ↦
            rw (perform_from, e)
              (follow-IsEnded (Hop.location hop) (arrived hop) (Hop.sent hop) _ (
                perform_from-IsEnded left (print_text max_url_bytes (Hop.location hop)) false
                  (arrived hop)))
        | inr (c', e) ↦ rw (perform_from, e) (settled-IsEnded http hop e)
      ]

  -- Whatever the server answers, the request is over when the worker is through.
  pub perform-IsEnded : (config : Config) (c : Client) → IsEnded (perform http config c).0
  unfolding perform
  perform-IsEnded config c = perform_from-IsEnded 3 _ true _
