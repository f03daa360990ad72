-- ===== src/Backend/Loop/Syncing.antt =====
-- backend.cpp: `apply_sync`, and the products and the residents over a turn of `update`.
use beer_tab.Common.{ℕ, ◌<◌, ◌≡◌, refl, ◌∙◌, ◌⊎◌, inl, inr, true, false, not, Text, length, arith}
use beer_tab.Queue.{has_product_changes}
use beer_tab.Residents.Laws.{replace_all_usable}
use beer_tab.Protocol.Json.{ArduinoJson}
use beer_tab.Protocol.Responses.{SyncResult, parse_sync}
use beer_tab.Client.{Config, Status, idle, busy, done, failed, configured}
use beer_tab.Backend.{
  Op, op_none, op_sync, op_purchase, op_void, op_my_summary, result_idle, Device, is_sync, is_free,
  is_ok, finish, unreachable, note_send_failure, apply_summary, apply_catalog, apply_sync,
}
use beer_tab.Backend.Loop.{update_waiting, update_posted, answered, update}
use beer_tab.Backend.Loop.Delivery.{pick}

-- The device but for the last sync answer is as it was.
pub record Untouched (before after : Device) : Type 0 where
  pub same_catalog : after.catalog ≡ before.catalog
  pub same_residents : after.residents ≡ before.residents

module _ (json : ArduinoJson) (config : Config) where
  -- An answer that could not be read, or a product change that still waits in the queue, leaves the
  -- catalog and the residents alone.
  pub apply_sync-Untouched :
      (d : Device)
      → (is_ok (parse_sync json d.client.response d.backend.sync 64).0 ≡ false)
        ⊎ (has_product_changes d.queue ≡ true)
      → Untouched d (apply_sync json config d)
  unfolding apply_sync apply_summary apply_catalog
  apply_sync-Untouched d h = record {
    same_catalog = ground (arith, h);
    same_residents = ground (arith, h);
  }

  apply_catalog_some :
      (d : Device) (s : SyncResult)
      → 0 < length d.residents.entries
      → 0 < length (apply_catalog d s).residents.entries
  unfolding apply_catalog
  apply_catalog_some d s h = ground (arith, h, replace_all_usable d.residents s.residents)

  residents-apply_summary :
      (d : Device) (s : SyncResult) → (apply_summary d s).residents ≡ d.residents
  unfolding apply_summary
  residents-apply_summary d s = ground arith

  op-apply_sync : (d : Device) → (apply_sync json config d).backend.op ≡ d.backend.op
  unfolding apply_sync apply_summary apply_catalog
  op-apply_sync d = ground arith

  -- A sync that begins with a resident to charge ends with one.
  pub apply_sync_some :
      (d : Device)
      → 0 < length d.residents.entries
      → 0 < length (apply_sync json config d).residents.entries
  unfolding apply_sync apply_summary
  apply_sync_some d h =
      let s = (parse_sync json d.client.response d.backend.sync 64).2 in
      let d' = record d { backend = record (Device.backend d) { sync = s } } in
      ground
        (arith, h, apply_catalog_some (apply_summary d' s) s (rw (residents-apply_summary d' s) h))

  result-unreachable :
      (d : Device) (now : ℕ) (message : Text)
      → is_sync d.backend.op ≡ true
      → (unreachable d now message).backend.result ≡ result_idle
  unfolding unreachable finish note_send_failure
  result-unreachable d now message h = ground (arith, h)

  Quiet : Device → Device → Type 0
  Quiet d d' = (d'.backend.result ≡ d.backend.result) ⊎ (d'.backend.result ≡ result_idle)

  waiting_quiet :
      (d : Device) (now : ℕ)
      → d.backend.op ≡ op_sync
      → ((update_waiting json config d now).backend.result ≡ d.backend.result)
        ⊎ ((update_waiting json config d now).backend.result ≡ result_idle)
  unfolding update_waiting unreachable finish note_send_failure
  waiting_quiet d now h = ground (arith, h)

  answered_quiet :
      (op : Op) (d : Device) (now : ℕ)
      → op ≡ op_sync
      → d.backend.op ≡ op_sync
      → (answered json config op d now).backend.result ≡ result_idle
  unfolding answered finish
  answered_quiet op_sync d now e h = rw (op-apply_sync d ∙ h) refl
  answered_quiet op_none d now e h = absurd (ground (arith, e))
  answered_quiet op_purchase d now e h = absurd (ground (arith, e))
  answered_quiet op_void d now e h = absurd (ground (arith, e))
  answered_quiet op_my_summary d now e h = absurd (ground (arith, e))

  posted_quiet :
      (s : Status) (d : Device) (now : ℕ)
      → d.backend.op ≡ op_sync
      → ((update_posted json config s d now).backend.result ≡ d.backend.result)
        ⊎ ((update_posted json config s d now).backend.result ≡ result_idle)
  unfolding update_posted answered unreachable finish note_send_failure
  posted_quiet idle d now h = inl refl
  posted_quiet busy d now h = inl refl
  posted_quiet failed d now h = inr (ground (arith, h))
  posted_quiet done d now h = inr (answered_quiet d.backend.op d now h h)

  -- While a sync holds the slot, a turn of the loop leaves the result that the screens poll as it
  -- was, or idle: a sync is never reported as a purchase that went through or failed.
  pub update_background :
      (d : Device) (now clock : ℕ)
      → d.backend.op ≡ op_sync
      → ((update json config d now clock).backend.result ≡ d.backend.result)
        ⊎ ((update json config d now clock).backend.result ≡ result_idle)
  unfolding update Quiet
  update_background d now clock h =
      pick (Quiet d) (not (configured config)) d _ (λ b. inl refl)
        (λ b.
          pick (Quiet d) (is_free d.backend.op) _ _ (λ f. absurd (ground (arith, f, h)))
            (λ f.
              pick (Quiet d) (not d.backend.posted) (update_waiting json config d now)
                (update_posted json config d.client.status d now) (λ p. waiting_quiet d now h)
                (λ p. posted_quiet d.client.status d now h)))
