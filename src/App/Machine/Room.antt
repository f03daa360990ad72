-- ===== src/App/Machine/Room.antt =====
-- app_state.cpp with transaction_queue.cpp: how long the queue is after an event.
use beer_tab.Common.{
  ap, inl, inr, Bool-cases, arith, ℕ, ◌≤◌, true, List, [], ◌∷◌, ◌++◌, length, length-append, leb,
  Text,
}
use beer_tab.Settings.{max_queued_transactions}
use beer_tab.Records.{Entry, Kind, Product}
use beer_tab.Storage.{LittleFs}
use beer_tab.Queue
use beer_tab.Queue.{Queue}
use beer_tab.Queue.Bounds.{items-flush}
use beer_tab.Queue.Removal.{removed_Found, Found}
use beer_tab.Protocol.Json.{ArduinoJson}
use beer_tab.Client.{Config, configured}
use beer_tab.Backend.Loop.Frame.{request_my_summary-SameData}
use beer_tab.App.{
  State, submitting, undoing, success, summary, Terminal, chosen_resident, purchase_entry,
  void_entry, product_entry, with_queue, flush_queue, enqueue, enqueue_purchase, enqueue_undo,
  queue_product_entry,
}
use beer_tab.App.Stored.{items_of, items-store_and_send}
use beer_tab.App.Machine.{on_enter}
use beer_tab.App.Machine.Shifts.{items-apply_enqueued}
use beer_tab.Queue.Removal.{removed_Found, remove_purchase-Removes}

-- The queue fits its array.
abbrev pub Fits : List Entry → Type 0
Fits es = length es ≤ max_queued_transactions

Fits-removed : (id : Text) (es es' : List Entry) → Found id es es' → Fits es → Fits es'
Fits-removed id es es' f h = omega (
  arith,
  h,
  ap length f.split,
  ap length f.removed,
  length-append f.before (f.entry ∷ f.behind),
  length-append f.before f.behind,
)

module _ {fs : LittleFs} (json : ArduinoJson) (config : Config) (clock : ℕ) where
  enqueue-Fits :
      (t : Terminal fs) (e : Entry)
      → Fits (items_of t)
      → Fits (items_of (enqueue json config clock t e).0)
  unfolding enqueue Queue.push Queue.full
  enqueue-Fits t e h = elim (Bool-cases (leb max_queued_transactions (length (items_of t)))) [
    | inl b ↦ rw b h
    | inr b ↦
        let q : Queue = record { items = items_of t ++ (e ∷ []); dirty = true } in
        rw (b, items-store_and_send json config clock (with_queue t q))
          (ground (arith, b, length-append (items_of t) (e ∷ [])))
  ]

  enqueue_purchase-Fits :
      (t : Terminal fs)
      → Fits (items_of t)
      → Fits (items_of (enqueue_purchase json config clock t).0)
  unfolding enqueue_purchase
  enqueue_purchase-Fits t h = ground (
    arith,
    h,
    enqueue-Fits t (purchase_entry t.app.ctx (chosen_resident t.device.residents t.app.ctx)),
  )

  enqueue_undo-Fits :
      (t : Terminal fs) → Fits (items_of t) → Fits (items_of (enqueue_undo json config clock t).0)
  unfolding enqueue_undo flush_queue
  enqueue_undo-Fits t h =
      let id = t.app.ctx.transaction_id in
      let x = Queue.remove_purchase t.device.queue id in
      elim (Bool-cases (configured config)) [
        | inr b ↦ rw b h
        | inl b ↦ rw b (elim (Bool-cases x.1) [
          | inl f ↦
              rw (f, items-flush t.storage x.0)
                (Fits-removed id (items_of t) x.0.items
                  (removed_Found id t.device.queue x (remove_purchase-Removes t.device.queue id) f)
                  h)
          | inr f ↦ rw f (elim (Bool-cases (Queue.full t.device.queue)) [
            | inl g ↦ rw g h
            | inr g ↦ rw g (enqueue-Fits t (void_entry t.app.ctx) h)
          ])
        ])
      ]

  pub queue_product_entry-Fits :
      (t : Terminal fs) (p : Product) (k : Kind)
      → Fits (items_of t)
      → Fits (items_of (queue_product_entry json config clock t p k))
  unfolding queue_product_entry Queue.push Queue.full
  queue_product_entry-Fits t p k h =
      let e = product_entry clock p k in
      let q : Queue = record { items = items_of t ++ (e ∷ []); dirty = true } in
      elim (Bool-cases (configured config)) [
        | inr b ↦ rw b h
        | inl b ↦ rw b (elim (Bool-cases (leb max_queued_transactions (length (items_of t)))) [
          | inl f ↦ rw f h
          | inr f ↦
              rw (f, items-store_and_send json config clock (with_queue t q))
                (ground (arith, f, length-append (items_of t) (e ∷ [])))
        ])
      ]

  pub on_enter-Fits :
      (random : ℕ) (s : State) (t : Terminal fs)
      → Fits (items_of t)
      → Fits (items_of (on_enter json config clock random s t))
  unfolding on_enter
  on_enter-Fits random submitting t h =
      let x = enqueue_purchase json config clock t in
      rw (items-apply_enqueued json config clock x) (enqueue_purchase-Fits t h)
  on_enter-Fits random undoing t h =
      let x = enqueue_undo json config clock t in
      rw (items-apply_enqueued json config clock x) (enqueue_undo-Fits t h)
  on_enter-Fits random summary t h =
      let id = (chosen_resident t.device.residents t.app.ctx).id in
      let s = request_my_summary-SameData json config t.device id clock in
      rw (items_of, s.same_queue) h
  on_enter-Fits random success t h = h
  on_enter-Fits random s t h = h
