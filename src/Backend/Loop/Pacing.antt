-- ===== src/Backend/Loop/Pacing.antt =====
-- backend.cpp: deadlines and the pause between sends.
use beer_tab.Common.{ℕ, zero, suc, ◌≤◌, ◌≡◌, refl, ◌⊎◌, Bool, true, false, not, Text, ascii, arith}
use beer_tab.Wifi.{online}
use beer_tab.Protocol.Json.{ArduinoJson}
use beer_tab.Protocol.Responses.{Outcome, ok, malformed, rejected, too_many_items}
use beer_tab.Client.{Config, Status, idle, busy, done, failed, configured, error_text}
use beer_tab.Backend.{
  Op, op_none, op_sync, op_purchase, op_void, op_my_summary, Device, is_free, is_my_summary, finish,
  my_unavailable_if, unreachable, note_send_failure, next_failures, send_pause, reached,
}
use beer_tab.Backend.Loop.{
  acknowledge, update_free, update_waiting, update_posted, answered, update,
}
use beer_tab.Backend.Loop.Delivery.{pick}

-- The pauses between two attempts to send: four seconds after the first failure, two minutes at most,
-- never shorter after one more, and the counter stays at six, where the pause is longest.
pub send_pause_bounds :
    (failures : ℕ)
    → failures ≤ 6
    → (next_failures failures ≤ 6)
      × (4000 ≤ send_pause (next_failures failures))
      × (send_pause (next_failures failures) ≤ 120000)
      × (send_pause (next_failures failures) ≤ send_pause (next_failures (next_failures failures)))
send_pause_bounds zero h = omega arith
send_pause_bounds (suc zero) h = omega arith
send_pause_bounds (suc (suc zero)) h = omega arith
send_pause_bounds (suc (suc (suc zero))) h = omega arith
send_pause_bounds (suc (suc (suc (suc zero)))) h = omega arith
send_pause_bounds (suc (suc (suc (suc (suc zero))))) h = omega arith
send_pause_bounds (suc (suc (suc (suc (suc (suc zero)))))) h = omega arith
send_pause_bounds (suc (suc (suc (suc (suc (suc (suc n))))))) h = absurd (omega arith)

-- Nothing is in flight.
pub record Settled (d : Device) : Type 0 where
  pub free : d.backend.op ≡ op_none
  pub not_posted : d.backend.posted ≡ false
  pub client_idle : d.client.status ≡ idle

-- The slot is free again, whatever the outcome was.
unreachable-Settled : (d : Device) (now : ℕ) (message : Text) → Settled (unreachable d now message)
unfolding unreachable finish note_send_failure
unreachable-Settled d now message = record {
  free = ground arith;
  not_posted = ground arith;
  client_idle = ground arith;
}

-- The radio did not come up in time, or the worker is through with the request.
abbrev pub IsOver : Device → ℕ → Type 0
IsOver d now =
    ((d.backend.posted ≡ false) × (online d.wifi ≡ false) × (reached now d.backend.deadline ≡ true))
    ⊎ ((d.backend.posted ≡ true) × ((d.client.status ≡ done) ⊎ (d.client.status ≡ failed)))

module _ (json : ArduinoJson) (config : Config) where
  acknowledge-Settled :
      (o : Outcome) (err : Text) (duplicate : Bool) (d : Device) (now : ℕ)
      → Settled (acknowledge o err duplicate d now)
  unfolding acknowledge finish
  acknowledge-Settled ok err duplicate d now = record {
    free = refl;
    not_posted = refl;
    client_idle = refl;
  }
  acknowledge-Settled rejected err duplicate d now = record {
    free = refl;
    not_posted = refl;
    client_idle = refl;
  }
  acknowledge-Settled malformed err duplicate d now = unreachable-Settled d now _
  acknowledge-Settled too_many_items err duplicate d now = unreachable-Settled d now _

  answered-Settled : (op : Op) (d : Device) (now : ℕ) → Settled (answered json config op d now)
  unfolding answered finish
  answered-Settled op_my_summary d now = record {
    free = refl;
    not_posted = refl;
    client_idle = refl;
  }
  answered-Settled op_sync d now = record { free = refl; not_posted = refl; client_idle = refl }
  answered-Settled op_purchase d now = acknowledge-Settled _ _ _ d now
  answered-Settled op_void d now = acknowledge-Settled _ _ _ d now
  answered-Settled op_none d now = acknowledge-Settled _ _ _ d now

  update_posted-Settled :
      (s : Status) (d : Device) (now : ℕ)
      → (s ≡ done) ⊎ (s ≡ failed)
      → Settled (update_posted json config s d now)
  unfolding update_posted
  update_posted-Settled idle d now h = absurd (ground (arith, h))
  update_posted-Settled busy d now h = absurd (ground (arith, h))
  update_posted-Settled failed d now h =
      unreachable-Settled (my_unavailable_if (is_my_summary d.backend.op) d) now
        (error_text d.client)
  update_posted-Settled done d now h = answered-Settled d.backend.op d now

  update_waiting-Settled :
      (d : Device) (now : ℕ)
      → online d.wifi ≡ false
      → reached now d.backend.deadline ≡ true
      → Settled (update_waiting json config d now)
  unfolding update_waiting
  update_waiting-Settled d now off late =
      rw (off, late)
        (unreachable-Settled (my_unavailable_if (is_my_summary d.backend.op) d) now
          (ascii "Kein WLAN"))

  -- No operation holds the slot for ever: where the radio is down when the deadline is reached, or the
  -- worker is through with the request, the next turn of the loop ends the operation, frees the client
  -- and leaves nothing posted.
  pub update-Settled :
      (d : Device) (now clock : ℕ)
      → configured config ≡ true
      → is_free d.backend.op ≡ false
      → IsOver d now
      → Settled (update json config d now clock)
  unfolding update
  update-Settled d now clock c f over =
      pick Settled (not (configured config)) d _ (λ b. absurd (ground (arith, b, c)))
        (λ b.
          pick Settled (is_free d.backend.op) (update_free json config d now clock) _
            (λ e. absurd (ground (arith, e, f)))
            (λ e.
              pick Settled (not d.backend.posted) (update_waiting json config d now)
                (update_posted json config d.client.status d now)
                (λ p.
                  update_waiting-Settled d now (ground (arith, p, over)) (ground (arith, p, over)))
                (λ p. update_posted-Settled d.client.status d now (ground (arith, p, over)))))
