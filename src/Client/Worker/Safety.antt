-- ===== src/Client/Worker/Safety.antt =====
-- api_client.cpp: what `perform` sends, and to whom.
use beer_tab.Common.{
  ℕ, zero, suc, ◌+◌, ◌≤◌, ◌≡◌, ◌≢◌, refl, ap, ◌∙◌, List, [], ◌∷◌, ◌++◌, Option, none, some, Bool,
  not, if◌then◌else◌, true, false, Text, print_text, length-print_text, pos, ltb_ℤ, length,
  length-append, take_all, Bool-cases, Option-cases, inl, inr, arith,
}
use beer_tab.Codec.Loops.{All, All-append}
use beer_tab.Protocol.Redirect.{redirect_target_allowed}
use beer_tab.Client.{Config, Client}
use beer_tab.Client.Worker.{
  is_redirect, body_of, arrived, max_url_bytes, Http, Sent, Hop, one_request, receive, settled,
  follow, perform_from, perform, Exchange, send,
}

-- A request that carries no body, to a host that a redirect may lead to.
abbrev pub IsFollowUp : Sent → Type 0
IsFollowUp x = (x.body ≡ none) × (redirect_target_allowed x.url ≡ true)

-- The first request goes to `url` with `body`, every later one is a follow-up.
abbrev pub IsSafe : Text → Option Text → List Sent → Type 0
IsSafe url body [] = Unit {0}
IsSafe url body (x ∷ xs) = (x.url ≡ url) × (x.body ≡ body) × All IsFollowUp xs

-- The target of a hop fits the buffer for a URL.
receive_fits : (c : Client) (x : Exchange) → length (Hop.location (receive c x)) ≤ 767
unfolding receive
receive_fits c x = elim (Bool-cases (is_redirect x.reply.code)) [
  | inl b ↦ rw b (omega (arith, length-print_text 768 x.reply.location))
  | inr b ↦ rw b (elim (Bool-cases (ltb_ℤ (pos 0) x.reply.code)) [
    | inl b2 ↦ rw b2 (omega arith)
    | inr b2 ↦ rw b2 (omega arith)
  ])
]

location_fits :
    (http : Http) (url : Text) (post : Bool) (c : Client)
    → length (Hop.location (one_request http url post c)) ≤ 767
unfolding one_request
location_fits http url post c = elim (Bool-cases (http.begins url)) [
  | inl b ↦ rw b (receive_fits c (send http (record { url = url; body = body_of http post c })))
  | inr b ↦ rw b (omega arith)
]

-- A list of requests of which all are follow-ups, at most `n` of them.
Follows : ℕ → List Sent → Type 0
Follows n xs = All IsFollowUp xs × (length xs ≤ n)

-- What was sent is handed on whatever comes back.
sent-receive : (c : Client) (x : Exchange) → Hop.sent (receive c x) ≡ x.sent
unfolding receive
sent-receive c x = ground arith

-- The requests of a hop: the one that `begin` let out, or none.
sent-one_request :
    (http : Http) (url : Text) (post : Bool) (c : Client)
    → Hop.sent (one_request http url post c) ≡ (
        if not (http.begins url) then [] else record { url = url; body = body_of http post c } ∷ [])
unfolding one_request
sent-one_request http url post c = elim (Bool-cases (http.begins url)) [
  | inl b ↦ rw b (sent-receive c (send http (record { url = url; body = body_of http post c })))
  | inr b ↦ rw b refl
]

sent_get :
    (http : Http) (url : Text) (c : Client)
    → redirect_target_allowed url ≡ true
    → Follows 1 (Hop.sent (one_request http url false c))
unfolding Follows
sent_get http url c ok =
    rw (sent-one_request http url false c) (elim (Bool-cases (http.begins url)) [
      | inl b ↦ rw b (((refl, ok), tt), omega arith)
      | inr b ↦ rw b (tt, omega arith)
    ])

Follows-append :
    (n m : ℕ) (xs ys : List Sent) → Follows n xs → Follows m ys → Follows (n + m) (xs ++ ys)
unfolding Follows
Follows-append n m xs ys h k =
    (All-append IsFollowUp xs ys h.0 k.0, omega (arith, length-append xs ys, h.1, k.1))

Follows-weaken : (n m : ℕ) (xs : List Sent) → n ≤ m → Follows n xs → Follows m xs
unfolding Follows
Follows-weaken n m xs le h = (h.0, omega (arith, h.1))

-- The requests of `follow`, its target being the URL of the hops after it.
follow-Follows :
    (http : Http) (n : ℕ) (target : Text) (c : Client) (sent : List Sent)
    (next : Client × List Sent)
    → Follows 1 sent
    → (redirect_target_allowed target ≡ true → Follows n next.1)
    → Follows (suc n) (follow http target c sent next).1
unfolding follow
follow-Follows http n target c sent next h k = elim (Bool-cases (redirect_target_allowed target)) [
  | inl b ↦ rw b (
      Follows-weaken (1 + n) (suc n) (sent ++ next.1) (omega arith)
        (Follows-append 1 n sent next.1 h (k b)))
  | inr b ↦ rw b (Follows-weaken 1 (suc n) sent (omega arith) h)
]

-- The target as it is copied to the buffer for the URL of the next hop.
target_kept :
    (http : Http) (url : Text) (post : Bool) (c : Client)
    → print_text max_url_bytes (Hop.location (one_request http url post c))
      ≡ Hop.location (one_request http url post c)
target_kept http url post c =
    take_all 767 (Hop.location (one_request http url post c)) (location_fits http url post c)

-- The requests after a redirect, `left` more being allowed.
perform_from-Follows :
    (http : Http) (left : ℕ) (url : Text) (c : Client)
    → redirect_target_allowed url ≡ true
    → Follows (suc left) (perform_from http left url false c).1
unfolding perform_from
perform_from-Follows http zero url c ok =
    elim (Option-cases (settled http (one_request http url false c))) [
      | inl e ↦ rw (e, perform_from) (sent_get http url c ok)
      | inr (c', e) ↦ rw (e, perform_from) (sent_get http url c ok)
    ]
perform_from-Follows http (suc left) url c ok =
    elim (Option-cases (settled http (one_request http url false c))) [
      | inl e ↦
          rw (e, perform_from)
            (follow-Follows http (suc left) (Hop.location (one_request http url false c))
              (arrived (one_request http url false c)) (Hop.sent (one_request http url false c))
              (perform_from http left
                (print_text max_url_bytes (Hop.location (one_request http url false c))) false
                (arrived (one_request http url false c)))
              (sent_get http url c ok)
              (λ b.
                perform_from-Follows http left
                  (print_text max_url_bytes (Hop.location (one_request http url false c)))
                  (arrived (one_request http url false c))
                  (ap redirect_target_allowed (target_kept http url false c) ∙ b)))
      | inr (c', e) ↦
          rw (e, perform_from)
            (Follows-weaken 1 (suc (suc left)) (Hop.sent (one_request http url false c))
              (omega arith) (sent_get http url c ok))
    ]

-- A hop with no target ends the request.
settled_no_target : (http : Http) (hop : Hop) → Hop.location hop ≡ [] → settled http hop ≢ none
unfolding settled
settled_no_target http hop h e = ground (arith, h, e)

began :
    (http : Http) (url : Text) (post : Bool) (c : Client)
    → settled http (one_request http url post c) ≡ none
    → http.begins url ≡ true
unfolding one_request
began http url post c e = elim (Bool-cases (http.begins url)) [
  | inl b ↦ b
  | inr b ↦ absurd (settled_no_target http (one_request http url post c) (rw b refl) e)
]

-- At most four requests, of which the first is the POST.
abbrev IsSafeRun : Text → Option Text → List Sent → Type 0
IsSafeRun url body xs = IsSafe url body xs × (length xs ≤ 4)

safe_alone :
    (http : Http) (url : Text) (c : Client)
    → IsSafeRun url (some c.request) (Hop.sent (one_request http url true c))
safe_alone http url c = rw (sent-one_request http url true c) (elim (Bool-cases (http.begins url)) [
  | inl b ↦ rw b ((refl, refl, tt), omega arith)
  | inr b ↦ rw b (tt, omega arith)
])

safe_followed :
    (http : Http) (url : Text) (c : Client) (xs : List Sent)
    → http.begins url ≡ true
    → Follows 3 xs
    → IsSafeRun url (some c.request) (Hop.sent (one_request http url true c) ++ xs)
unfolding Follows
safe_followed http url c xs b h =
    rw (sent-one_request http url true c, b) ((refl, refl, h.0), omega (arith, h.1))

follow_safe :
    (http : Http) (url target : Text) (c c' : Client) (next : Client × List Sent)
    → http.begins url ≡ true
    → (redirect_target_allowed target ≡ true → Follows 3 next.1)
    → IsSafeRun url
        (some c.request)
        (follow http target c' (Hop.sent (one_request http url true c)) next).1
unfolding follow
follow_safe http url target c c' next b k = elim (Bool-cases (redirect_target_allowed target)) [
  | inl a ↦ rw a (safe_followed http url c next.1 b (k a))
  | inr a ↦ rw a (safe_alone http url c)
]

perform_from-IsSafeRun :
    (http : Http) (url : Text) (c : Client)
    → IsSafeRun url (some c.request) (perform_from http 3 url true c).1
unfolding perform_from
perform_from-IsSafeRun http url c =
    let hop = one_request http url true c in
    elim (Option-cases (settled http (one_request http url true c))) [
      | inl e ↦
          rw (e, perform_from)
            (follow_safe http url (Hop.location hop) c (arrived hop)
              (perform_from http 2 (print_text max_url_bytes (Hop.location hop)) false
                (arrived hop))
              (began http url true c e)
              (λ b.
                perform_from-Follows http 2 (print_text max_url_bytes (Hop.location hop))
                  (arrived hop) (ap redirect_target_allowed (target_kept http url true c) ∙ b)))
      | inr (c', e) ↦ rw (e, perform_from) (safe_alone http url c)
    ]

-- Whatever the server answers, `perform` sends at most four requests; the first of them posts the
-- prepared body to the configured endpoint, and every later one is a GET without a body to a URL
-- that `redirect_target_allowed` admits.
pub perform-IsSafe :
    (http : Http) (config : Config) (c : Client)
    → IsSafe (print_text 768 config.api_endpoint) (some c.request) (perform http config c).1
      × (length (perform http config c).1 ≤ 4)
unfolding perform
perform-IsSafe http config c =
    perform_from-IsSafeRun http (print_text 768 config.api_endpoint)
      (record c { response = []; http_code = pos 0 })
