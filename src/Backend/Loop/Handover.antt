-- ===== src/Backend/Loop/Handover.antt =====
-- backend.cpp with api_client.cpp: the request and the response that the loop and the worker share.
use beer_tab.Common.{
  ℕ, ◌≡◌, refl, ◌⊎◌, inl, inr, Option, none, some, Bool, true, false, not, Text, ascii,
  Option-cases, arith,
}
use beer_tab.Settings.{device_id}
use beer_tab.Queue
use beer_tab.Wifi.{online}
use beer_tab.Protocol.Requests.{build_sync, max_request_bytes}
use beer_tab.Protocol.Json.{ArduinoJson}
use beer_tab.Protocol.Responses.{Outcome, ok, malformed, rejected, too_many_items}
use beer_tab.Client
use beer_tab.Client.{Config, Status, idle, busy, done, failed, configured, error_text}
use beer_tab.Backend.{
  Op, op_none, op_sync, op_purchase, op_void, op_my_summary, Device, is_my_summary, is_free, finish,
  start, my_unavailable_if, unreachable, note_send_failure, request_of, request_sync,
  request_my_summary, send_queued_now, my_summary_body, set_active,
}
use beer_tab.Backend.Loop.{
  acknowledge, drain_or_sync, update_free, update_waiting, update_posted, answered, update,
}
use beer_tab.Backend.Loop.Delivery.{pick}

-- The client is idle, or it has the request of the operation that is under way.
abbrev pub HandedOver : Device → Type 0
HandedOver d =
    (d.client.status ≡ idle) ⊎ ((d.backend.posted ≡ true) × (is_free d.backend.op ≡ false))

start-HandedOver :
    (d : Device) (op : Op) (body : Option Text) (now clock : ℕ)
    → is_free d.backend.op ≡ true
    → HandedOver d
    → HandedOver (start d op body now clock).0
unfolding start
start-HandedOver d op none now clock free h = h
start-HandedOver d op (some body) now clock free h = ground (arith, free, h)

pub finish-HandedOver : (d : Device) (now : ℕ) (m : Text) → HandedOver (unreachable d now m)
unfolding unreachable finish note_send_failure
finish-HandedOver d now m = inl (ground arith)

acknowledge-HandedOver :
    (o : Outcome) (err : Text) (duplicate : Bool) (d : Device) (now : ℕ)
    → HandedOver (acknowledge o err duplicate d now)
unfolding acknowledge finish
acknowledge-HandedOver ok err duplicate d now = inl refl
acknowledge-HandedOver rejected err duplicate d now = inl refl
acknowledge-HandedOver malformed err duplicate d now = finish-HandedOver d now _
acknowledge-HandedOver too_many_items err duplicate d now = finish-HandedOver d now _

module _ (json : ArduinoJson) (config : Config) where
  pub request_sync-HandedOver :
      (d : Device) (clock : ℕ) → HandedOver d → HandedOver (request_sync json config d clock).0
  unfolding request_sync
  request_sync-HandedOver d clock h = ground (
    arith,
    h,
    start-HandedOver d op_sync
        (build_sync json max_request_bytes config.device_token device_id d.catalog.revision) clock
        clock,
  )

  pub send_queued_now-HandedOver :
      (d : Device) (clock : ℕ) → HandedOver d → HandedOver (send_queued_now json config d clock).0
  unfolding send_queued_now
  send_queued_now-HandedOver d clock h = elim (Option-cases (Queue.head d.queue)) [
    | inl e ↦ ground (arith, e, h)
    | inr (x, e) ↦
        let (op, body) = request_of json config x in
        ground (arith, e, h, start-HandedOver d op body clock clock)
  ]

  pub request_my_summary-HandedOver :
      (d : Device) (id : Text) (clock : ℕ)
      → HandedOver d
      → HandedOver (request_my_summary json config d id clock).0
  unfolding request_my_summary start
  request_my_summary-HandedOver d id clock h = ground (arith, h, my_summary_body)

  pub set_active-HandedOver :
      (d : Device) (on : Bool) (clock : ℕ)
      → HandedOver d
      → HandedOver (set_active json config d on clock)
  unfolding set_active
  set_active-HandedOver d on clock h =
      let d' = record d { backend = record (Device.backend d) { active = on } } in
      ground (arith, h, request_sync-HandedOver d' clock)

  drain_or_sync-HandedOver :
      (d : Device) (now clock : ℕ)
      → HandedOver d
      → HandedOver (drain_or_sync json config d now clock)
  unfolding drain_or_sync
  drain_or_sync-HandedOver d now clock h =
      ground (arith, h, send_queued_now-HandedOver d clock, request_sync-HandedOver d clock)

  update_free-HandedOver :
      (d : Device) (now clock : ℕ)
      → is_free d.backend.op ≡ true
      → HandedOver d
      → HandedOver (update_free json config d now clock)
  unfolding update_free
  update_free-HandedOver d now clock free h = ground (
    arith,
    h,
    free,
    drain_or_sync-HandedOver d now clock,
    drain_or_sync-HandedOver (my_unavailable_if true d) now clock,
    start-HandedOver d op_my_summary (my_summary_body json config d.backend.my_resident) now clock,
  )

  update_waiting-HandedOver :
      (d : Device) (now : ℕ)
      → is_free d.backend.op ≡ false
      → HandedOver d
      → HandedOver (update_waiting json config d now)
  unfolding update_waiting
  update_waiting-HandedOver d now op h =
      let posted = record d {
        client = (Client.post config d.client (online d.wifi) d.backend.request).0;
      } in
      let gone = my_unavailable_if (is_my_summary d.backend.op) d in
      unfold Client.post in
      ground (
        arith,
        h,
        op,
        finish-HandedOver posted now (error_text posted.client),
        finish-HandedOver gone now (ascii "Kein WLAN"),
      )

  answered-HandedOver :
      (op : Op) (d : Device) (now : ℕ)
      → is_free op ≡ false
      → HandedOver (answered json config op d now)
  unfolding answered finish
  answered-HandedOver op_my_summary d now free = inl refl
  answered-HandedOver op_sync d now free = inl refl
  answered-HandedOver op_purchase d now free = acknowledge-HandedOver _ _ _ d now
  answered-HandedOver op_void d now free = acknowledge-HandedOver _ _ _ d now
  answered-HandedOver op_none d now free = cc

  update_posted-HandedOver :
      (s : Status) (d : Device) (now : ℕ)
      → is_free d.backend.op ≡ false
      → HandedOver d
      → HandedOver (update_posted json config s d now)
  unfolding update_posted
  update_posted-HandedOver idle d now free h = h
  update_posted-HandedOver busy d now free h = h
  update_posted-HandedOver failed d now free h =
      finish-HandedOver (my_unavailable_if (is_my_summary d.backend.op) d) now (error_text d.client)
  update_posted-HandedOver done d now free h = answered-HandedOver d.backend.op d now free

  -- A turn of the loop keeps the bargain.
  pub update-HandedOver :
      (d : Device) (now clock : ℕ) → HandedOver d → HandedOver (update json config d now clock)
  unfolding update
  update-HandedOver d now clock h =
      pick (λ x. HandedOver x) (not (configured config)) d _ (λ b. h)
        (λ b.
          pick (λ x. HandedOver x) (is_free d.backend.op) (update_free json config d now clock) _
            (λ f. update_free-HandedOver d now clock f h)
            (λ f.
              pick (λ x. HandedOver x) (not d.backend.posted) (update_waiting json config d now)
                (update_posted json config d.client.status d now)
                (λ p. update_waiting-HandedOver d now f h)
                (λ p. update_posted-HandedOver d.client.status d now f h)))
