-- ===== src/Backend/Loop/Delivery.antt =====
-- backend.cpp: the queue over a turn of `update`, and the request for its head.
use beer_tab.Common.{
  ℕ, ◌≡◌, refl, ◌∙◌, ◌⊎◌, inl, inr, Option, none, some, Bool, true, false, not, Text, ascii,
  if◌then◌else◌, Option-cases, arith,
}
use beer_tab.Queue
use beer_tab.Queue.{Queue, pop}
use beer_tab.Wifi.{online}
use beer_tab.Settings.{device_id}
use beer_tab.Protocol.Requests.{build_sync, max_request_bytes}
use beer_tab.Protocol.Json.{ArduinoJson}
use beer_tab.Protocol.Responses.{Outcome, ok, malformed, rejected, too_many_items, parse_ack}
use beer_tab.Client
use beer_tab.Client.{Config, Client, Status, idle, busy, done, failed, configured, error_text}
use beer_tab.Backend.{
  Op, op_none, op_sync, op_purchase, op_void, op_my_summary, Device, is_my_summary, is_free, finish,
  start, my_unavailable_if, unreachable, note_send_failure, apply_summary, apply_catalog,
  apply_sync, request_of, request_sync, send_queued_now, my_summary_body,
}
use beer_tab.Backend.Loop.{
  acknowledge, drain_or_sync, update_free, update_waiting, update_posted, answered, update,
}

-- The operations that send an entry of the queue.
abbrev pub is_entry : Op → Bool
is_entry op_purchase = true
is_entry op_void = true
is_entry _ = false

-- The two outcomes that the server means.
abbrev pub is_verdict : Outcome → Bool
is_verdict ok = true
is_verdict rejected = true
is_verdict _ = false

-- An operation on an entry was posted, its complete answer is a verdict, and the head was taken out.
-- Which entry the operation was for is not said here.
pub record Acknowledged (json : ArduinoJson) (before after : Device) : Type 0 where
  pub sends_entry : is_entry before.backend.op ≡ true
  pub was_posted : before.backend.posted ≡ true
  pub was_done : before.client.status ≡ done
  pub verdict : is_verdict (parse_ack json before.client.response 64).0 ≡ true
  pub popped : after.queue ≡ pop before.queue
  pub free : after.backend.op ≡ op_none

-- A property of both branches.
pub pick :
    (P : Device → Type 0) (b : Bool) (x y : Device)
    → (b ≡ true → P x)
    → (b ≡ false → P y)
    → P (if b then x else y)
pick P true x y f g = f refl
pick P false x y f g = g refl

queue-start :
    (d : Device) (op : Op) (body : Option Text) (now clock : ℕ)
    → (start d op body now clock).0.queue ≡ d.queue
unfolding start
queue-start d op none now clock = refl
queue-start d op (some body) now clock = refl

queue-unreachable :
    (d : Device) (now : ℕ) (message : Text) → (unreachable d now message).queue ≡ d.queue
unfolding unreachable finish note_send_failure
queue-unreachable d now message = ground arith

queue-my_unavailable_if : (b : Bool) (d : Device) → (my_unavailable_if b d).queue ≡ d.queue
queue-my_unavailable_if true d = refl
queue-my_unavailable_if false d = refl

module _ (json : ArduinoJson) (config : Config) where
  pub queue-request_sync :
      (d : Device) (clock : ℕ) → (request_sync json config d clock).0.queue ≡ d.queue
  unfolding request_sync
  queue-request_sync d clock = ground (
    arith,
    queue-start d op_sync
        (build_sync json max_request_bytes config.device_token device_id d.catalog.revision) clock
        clock,
  )

  pub queue-send_queued_now :
      (d : Device) (clock : ℕ) → (send_queued_now json config d clock).0.queue ≡ d.queue
  unfolding send_queued_now
  queue-send_queued_now d clock = elim (Option-cases (Queue.head d.queue)) [
    | inl e ↦ ground (arith, e)
    | inr (x, e) ↦
        let (op, body) = request_of json config x in
        ground (arith, e, queue-start d op body clock clock)
  ]

  queue-drain_or_sync :
      (d : Device) (now clock : ℕ) → (drain_or_sync json config d now clock).queue ≡ d.queue
  unfolding drain_or_sync
  queue-drain_or_sync d now clock =
      ground (arith, queue-send_queued_now d clock, queue-request_sync d clock)

  queue-update_free :
      (d : Device) (now clock : ℕ) → (update_free json config d now clock).queue ≡ d.queue
  unfolding update_free
  queue-update_free d now clock = ground (
    arith,
    queue-drain_or_sync d now clock,
    queue-drain_or_sync (my_unavailable_if true d) now clock,
    queue-start d op_my_summary (my_summary_body json config d.backend.my_resident) now clock,
  )

  queue-update_waiting : (d : Device) (now : ℕ) → (update_waiting json config d now).queue ≡ d.queue
  unfolding update_waiting
  queue-update_waiting d now =
      let posted = record d {
        client = (Client.post config d.client (online d.wifi) d.backend.request).0;
      } in
      let gone = my_unavailable_if (is_my_summary d.backend.op) d in
      ground (
        arith,
        queue-unreachable posted now (error_text posted.client),
        queue-unreachable gone now (ascii "Kein WLAN"),
        queue-my_unavailable_if (is_my_summary d.backend.op) d,
      )

  queue-apply_sync : (d : Device) → (apply_sync json config d).queue ≡ d.queue
  unfolding apply_sync apply_summary apply_catalog
  queue-apply_sync d = ground arith

  -- What an answer does to the queue, by the operation that it is for.
  queue-acknowledge :
      (o : Outcome) (err : Text) (duplicate : Bool) (d : Device) (now : ℕ)
      → ((acknowledge o err duplicate d now).queue ≡ d.queue)
        ⊎ ((is_verdict o ≡ true)
            × ((acknowledge o err duplicate d now).queue ≡ pop d.queue)
            × ((acknowledge o err duplicate d now).backend.op ≡ op_none))
  unfolding acknowledge finish
  queue-acknowledge ok err duplicate d now = inr (refl, refl, refl)
  queue-acknowledge rejected err duplicate d now = inr (refl, refl, refl)
  queue-acknowledge malformed err duplicate d now = inl (queue-unreachable d now _)
  queue-acknowledge too_many_items err duplicate d now = inl (queue-unreachable d now _)

  -- The same of a complete answer.
  Answered : Op → Device → Device → Type 0
  Answered op d d' =
      (d'.queue ≡ d.queue)
      ⊎ ((is_entry op ≡ true)
          × (is_verdict (parse_ack json d.client.response 64).0 ≡ true)
          × (d'.queue ≡ pop d.queue)
          × (d'.backend.op ≡ op_none))

  entry-Answered :
      (op : Op) (d : Device) (now : ℕ)
      → is_entry op ≡ true
      → Answered op d (
          let (o, err, duplicate) = parse_ack json d.client.response 64 in
          acknowledge o err duplicate d now)
  unfolding Answered
  entry-Answered op d now h =
      let (o, err, duplicate) = parse_ack json d.client.response 64 in
      elim (queue-acknowledge o err duplicate d now) [
        | inl e ↦ inl e
        | inr (v, p, f) ↦ inr (h, v, p, f)
      ]

  answered-Answered :
      (op : Op) (d : Device) (now : ℕ)
      → is_free op ≡ false
      → Answered op d (answered json config op d now)
  unfolding answered Answered finish
  answered-Answered op_my_summary d now free = inl refl
  answered-Answered op_sync d now free = inl (queue-apply_sync d)
  answered-Answered op_purchase d now free = entry-Answered op_purchase d now refl
  answered-Answered op_void d now free = entry-Answered op_void d now refl
  answered-Answered op_none d now free = cc

  update_posted-Acknowledged :
      (s : Status) (d : Device) (now : ℕ)
      → is_free d.backend.op ≡ false
      → d.backend.posted ≡ true
      → d.client.status ≡ s
      → ((update_posted json config s d now).queue ≡ d.queue)
        ⊎ Acknowledged json d (update_posted json config s d now)
  unfolding update_posted Answered
  update_posted-Acknowledged idle d now free p e = inl refl
  update_posted-Acknowledged busy d now free p e = inl refl
  update_posted-Acknowledged failed d now free p e = inl (
      queue-unreachable (my_unavailable_if (is_my_summary d.backend.op) d) now (error_text d.client)
      ∙ queue-my_unavailable_if (is_my_summary d.backend.op) d)
  update_posted-Acknowledged done d now free p e =
      elim (answered-Answered d.backend.op d now free) [
        | inl q ↦ inl q
        | inr (h, v, q, f) ↦ inr (record {
          sends_entry = h;
          was_posted = p;
          was_done = e;
          verdict = v;
          popped = q;
          free = f;
        })
      ]

  -- Whatever happens in a turn of the loop, the queue is as it was, or an operation on an entry was
  -- posted, its complete answer is an acceptance or a rejection, and the head alone was taken out.
  pub update_queue :
      (d : Device) (now clock : ℕ)
      → ((update json config d now clock).queue ≡ d.queue)
        ⊎ Acknowledged json d (update json config d now clock)
  unfolding update
  update_queue d now clock =
      pick Kept (not (configured config)) d _ (λ b. inl refl)
        (λ b.
          pick Kept (is_free d.backend.op) (update_free json config d now clock) _
            (λ f. inl (queue-update_free d now clock))
            (λ f.
              pick Kept (not d.backend.posted) (update_waiting json config d now)
                (update_posted json config d.client.status d now)
                (λ p. inl (queue-update_waiting d now))
                (λ p. update_posted-Acknowledged d.client.status d now f (ground (arith, p)) refl)))
    where
      Kept : Device → Type 0
      Kept d' = (d'.queue ≡ d.queue) ⊎ Acknowledged json d d'
