-- ===== src/App/Machine/Feeding.antt =====
-- app_state.cpp: the rest of the terminal when a transaction is handed to the queue.
use beer_tab.Common.{◌≡◌, refl, ap, ◌∙◌, inl, inr, Bool-cases, arith, ℕ, ascii}
use beer_tab.Records.{Entry, Kind, Product}
use beer_tab.Storage.{LittleFs}
use beer_tab.Queue
use beer_tab.Queue.{Queue}
use beer_tab.Protocol.Json.{ArduinoJson}
use beer_tab.Client.{Config, configured}
use beer_tab.Backend.{Device}
use beer_tab.Backend.Loop.Frame.{send_queued_now-SameData, request_my_summary-SameData}
use beer_tab.Backend.Loop.Handover.{
  HandedOver, send_queued_now-HandedOver, request_my_summary-HandedOver,
}
use beer_tab.App.{
  State, submitting, undoing, success, summary, Terminal, Enqueued, chosen_resident, purchase_entry,
  void_entry, product_entry, with_queue, with_message, flush_queue, store_and_send, enqueue,
  enqueue_purchase, enqueue_undo, queue_product_entry,
}
use beer_tab.App.Machine.{apply_enqueued, on_enter}

-- A terminal of which at most the queue, the flash, the message and the backend have changed.
pub record Fed {fs : LittleFs} (t t' : Terminal fs) : Type 0 where
  pub same_catalog : t'.device.catalog ≡ t.device.catalog
  pub same_residents : t'.device.residents ≡ t.device.residents
  pub same_active : t'.device.backend.active ≡ t.device.backend.active
  pub same_awake : t'.awake ≡ t.awake
  pub handed : HandedOver t.device → HandedOver t'.device

pub Fed-refl : {fs : LittleFs} (t : Terminal fs) → Fed t t
Fed-refl t = record {
  same_catalog = refl;
  same_residents = refl;
  same_active = refl;
  same_awake = refl;
  handed = λ h. h;
}

-- The device and the light decide.
Fed-of :
    {fs : LittleFs} (t t' t'' : Terminal fs)
    → Fed t t'
    → t''.device ≡ t'.device
    → t''.awake ≡ t'.awake
    → Fed t t''
Fed-of t t' t'' f d a = record {
  same_catalog = ap (λ (x : Device). x.catalog) d ∙ f.same_catalog;
  same_residents = ap (λ (x : Device). x.residents) d ∙ f.same_residents;
  same_active = ap (λ (x : Device). x.backend.active) d ∙ f.same_active;
  same_awake = a ∙ f.same_awake;
  handed = λ h. rw d (f.handed h);
}

module _ {fs : LittleFs} (json : ArduinoJson) (config : Config) (clock : ℕ) where
  store_and_send-Fed : (t : Terminal fs) → Fed t (store_and_send json config clock t).0
  unfolding store_and_send flush_queue
  store_and_send-Fed t =
      let d = (flush_queue t).device in
      let s = send_queued_now-SameData json config d clock in
      record {
        same_catalog = s.same_catalog;
        same_residents = s.same_residents;
        same_active = s.same_active;
        same_awake = refl;
        handed = λ h. send_queued_now-HandedOver json config d clock h;
      }

  enqueue-Fed : (t : Terminal fs) (e : Entry) → Fed t (enqueue json config clock t e).0
  unfolding enqueue
  enqueue-Fed t e =
      let q = (Queue.push t.device.queue e).0 in
      let f = store_and_send-Fed (with_queue t q) in
      elim (Bool-cases (Queue.push t.device.queue e).1) [
        | inl b ↦ rw b (record {
          same_catalog = f.same_catalog;
          same_residents = f.same_residents;
          same_active = f.same_active;
          same_awake = f.same_awake;
          handed = f.handed;
        })
        | inr b ↦
            rw b (Fed-of t t (with_message t (ascii "Warteschlange voll")) (Fed-refl t) refl refl)
      ]

  enqueue_purchase-Fed : (t : Terminal fs) → Fed t (enqueue_purchase json config clock t).0
  unfolding enqueue_purchase
  enqueue_purchase-Fed t = elim (Bool-cases (configured config)) [
    | inr b ↦ rw b (Fed-refl t)
    | inl b ↦ rw b (elim (Bool-cases (Queue.full t.device.queue)) [
      | inl f ↦ rw f (Fed-of t t _ (Fed-refl t) refl refl)
      | inr f ↦
          rw f (
            enqueue-Fed t (purchase_entry t.app.ctx (chosen_resident t.device.residents t.app.ctx)))
    ])
  ]

  enqueue_undo-Fed : (t : Terminal fs) → Fed t (enqueue_undo json config clock t).0
  unfolding enqueue_undo flush_queue
  enqueue_undo-Fed t =
      let removed = Queue.remove_purchase t.device.queue t.app.ctx.transaction_id in
      elim (Bool-cases (configured config)) [
        | inr b ↦ rw b (Fed-refl t)
        | inl b ↦ rw b (elim (Bool-cases removed.1) [
          | inl f ↦ rw f (record {
            same_catalog = refl;
            same_residents = refl;
            same_active = refl;
            same_awake = refl;
            handed = λ h. h;
          })
          | inr f ↦ rw f (elim (Bool-cases (Queue.full t.device.queue)) [
            | inl g ↦ rw g (Fed-of t t _ (Fed-refl t) refl refl)
            | inr g ↦ rw g (enqueue-Fed t (void_entry t.app.ctx))
          ])
        ])
      ]

  pub queue_product_entry-Fed :
      (t : Terminal fs) (p : Product) (k : Kind)
      → Fed t (queue_product_entry json config clock t p k)
  unfolding queue_product_entry
  queue_product_entry-Fed t p k =
      let e = product_entry clock p k in
      let f = store_and_send-Fed (with_queue t (Queue.push t.device.queue e).0) in
      let stored : Fed t
          (store_and_send json config clock (with_queue t (Queue.push t.device.queue e).0)).0 =
        record {
          same_catalog = f.same_catalog;
          same_residents = f.same_residents;
          same_active = f.same_active;
          same_awake = f.same_awake;
          handed = f.handed;
        } in
      ground (arith, Fed-refl t, stored)

  pub app-queue_product_entry :
      (t : Terminal fs) (p : Product) (k : Kind)
      → (queue_product_entry json config clock t p k).app ≡ t.app
  unfolding queue_product_entry store_and_send flush_queue
  app-queue_product_entry t p k = ground arith

  apply_enqueued-Fed :
      (t : Terminal fs) (x : Terminal fs × Enqueued) → Fed t x.0 → Fed t (apply_enqueued x)
  unfolding apply_enqueued
  apply_enqueued-Fed t (t', e) f = Fed-of t t' _ f refl refl

  pub on_enter-Fed :
      (random : ℕ) (s : State) (t : Terminal fs) → Fed t (on_enter json config clock random s t)
  unfolding on_enter
  on_enter-Fed random submitting t =
      apply_enqueued-Fed t (enqueue_purchase json config clock t) (enqueue_purchase-Fed t)
  on_enter-Fed random undoing t =
      apply_enqueued-Fed t (enqueue_undo json config clock t) (enqueue_undo-Fed t)
  on_enter-Fed random success t = Fed-of t t _ (Fed-refl t) refl refl
  on_enter-Fed random summary t =
      let id = (chosen_resident t.device.residents t.app.ctx).id in
      let s = request_my_summary-SameData json config t.device id clock in
      record {
        same_catalog = s.same_catalog;
        same_residents = s.same_residents;
        same_active = s.same_active;
        same_awake = refl;
        handed = λ h. request_my_summary-HandedOver json config t.device id clock h;
      }
  on_enter-Fed random s t = Fed-refl t
