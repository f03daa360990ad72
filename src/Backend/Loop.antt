-- ===== src/Backend/Loop.antt =====
-- backend.cpp: `update`, which the loop of the sketch calls. It has a part for each of the phases of
-- an operation: none, waiting for the radio, and posted.
pub mod Delivery
pub mod Syncing
pub mod Pacing
pub mod Handover
pub mod Frame
pub mod Holdings
pub mod Products
pub mod Asking
use beer_tab.Common.{
  ℕ, ◌+◌, List, [], ◌∷◌, ◌++◌, Option, none, some, Bool, true, false, not, ◌&&◌, ◌||◌, Text, ascii,
  is_empty, u32, if◌then◌else◌,
}
use beer_tab.Settings.{sync_interval_ms}
use beer_tab.Queue
use beer_tab.Queue.{pop}
use beer_tab.Wifi.{online}
use beer_tab.Protocol.Json.{ArduinoJson}
use beer_tab.Protocol.Responses.{
  Outcome, ok, malformed, rejected, too_many_items, parse_ack, parse_my_summary,
}
use beer_tab.Client
use beer_tab.Client.{
  Config, Client, Status, idle, busy, done, failed, ClientError, already_busy, configured,
  error_text,
}
use beer_tab.Backend.{
  Op, op_none, op_sync, op_purchase, op_void, op_my_summary, Result, result_idle, result_success,
  result_unreachable, result_rejected, MySummaryState, my_loading, my_ready, my_unavailable,
  Backend, Device, is_sync, is_my_summary, is_free, is_ok, finish, start, reached, stamp_sync,
  my_unavailable_if, unreachable, apply_sync, request_sync, send_queued_now, my_summary_body,
}

pub is_loading : MySummaryState → Bool
is_loading my_loading = true
is_loading _ = false

pub is_already_busy : ClientError → Bool
is_already_busy already_busy = true
is_already_busy _ = false

-- `x[0] ? x : y`.
abbrev or_text : Text → Text → Text
or_text x y = if is_empty x then y else x

-- The server's answer to an entry that was sent.
unfoldable pub acknowledge : Outcome → Text → Bool → Device → ℕ → Device
unfolding finish unreachable
acknowledge ok err duplicate d now =
    finish
      (record d {
        queue = pop d.queue;
        backend = record (Device.backend d) {
          duplicate = duplicate;
          send_failures = 0;
          last_sync = 0;
        };
      })
      result_success []
acknowledge rejected err duplicate d now =
    finish (record d { queue = pop d.queue }) result_rejected
      (or_text err (ascii "Vom Server abgelehnt"))
acknowledge malformed err duplicate d now =
    unreachable d now (or_text err (ascii "Antwort unlesbar"))
acknowledge too_many_items err duplicate d now =
    unreachable d now (or_text err (ascii "Antwort unlesbar"))

module _ (json : ArduinoJson) (config : Config) where
  drain_or_sync : Device → ℕ → ℕ → Device
  unfolding send_queued_now request_sync
  drain_or_sync d now clock =
      if not (Queue.empty d.queue)
      then if reached now d.backend.retry_after then (send_queued_now json config d clock).0 else d
      else if d.backend.active && reached now (u32 (d.backend.last_sync + sync_interval_ms))
      then (request_sync json config d clock).0
      else d

  pub update_free : Device → ℕ → ℕ → Device
  unfolding start drain_or_sync is_loading
  update_free d now clock =
      let (started, went) =
        start d op_my_summary (my_summary_body json config d.backend.my_resident) now clock in
      let rest = drain_or_sync (my_unavailable_if true d) now clock in
      if is_loading d.backend.my_state && not (is_empty d.backend.my_resident)
      then if went then started else rest
      else drain_or_sync d now clock

  pub update_waiting : Device → ℕ → Device
  unfolding unreachable is_already_busy
  update_waiting d now =
      let (c, accepted) = Client.post config d.client (online d.wifi) d.backend.request in
      let posted = record d { client = c } in
      if online d.wifi
      then if accepted
        then record posted { backend = record (Device.backend d) { posted = true } }
        else if is_already_busy c.error
        then posted
        else unreachable posted now (error_text c)
      else if reached now d.backend.deadline
      then unreachable (my_unavailable_if (is_my_summary d.backend.op) d) now (ascii "Kein WLAN")
      else d

  -- An answer that is complete, by the operation that asked.
  unfoldable pub answered : Op → Device → ℕ → Device
  unfolding acknowledge apply_sync finish
  answered op_my_summary d now =
      let (outcome, err, m) = parse_my_summary json d.client.response d.backend.my_summary 64 in
      finish
        (record d {
          backend = record (Device.backend d) {
            my_summary = m;
            my_state = if is_ok outcome then my_ready else my_unavailable;
          };
        })
        result_idle []
  answered op_sync d now = finish (stamp_sync true now (apply_sync json config d)) result_idle []
  answered _ d now =
      let (outcome, err, duplicate) = parse_ack json d.client.response 64 in
      acknowledge outcome err duplicate d now

  pub update_posted : Status → Device → ℕ → Device
  unfolding answered unreachable
  update_posted busy d now = d
  update_posted failed d now =
      unreachable (my_unavailable_if (is_my_summary d.backend.op) d) now (error_text d.client)
  update_posted done d now = answered d.backend.op d now
  update_posted idle d now = d

  unfoldable pub update : Device → ℕ → ℕ → Device
  unfolding update_free update_waiting update_posted
  update d now clock =
      if not (configured config)
      then d
      else if is_free d.backend.op
      then update_free d now clock
      else if not d.backend.posted
      then update_waiting d now
      else update_posted d.client.status d now
