-- ===== src/App/Stored.antt =====
-- app_state.cpp: what a tap leaves in the queue and on flash.
use beer_tab.Common.{
  ℕ, ◌≡◌, ◌≢◌, refl, sym, ap, ◌∙◌, ◌⊎◌, inl, inr, List, [], ◌∷◌, ◌++◌, Bool, true, false, length,
  leb, Bool-cases,
}
use beer_tab.Settings.{max_queued_transactions}
use beer_tab.Records.{Entry, IsEntry}
use beer_tab.Storage.{LittleFs}
use beer_tab.Storage.Laws.{Laws}
use beer_tab.Queue
use beer_tab.Queue.{Queue}
use beer_tab.Queue.Bounds.{IsQueue, push-IsQueue, items-flush}
use beer_tab.Queue.Removal.{
  Found, NonePurchases, remove_purchase-Removes, removed_Found, left_NonePurchases,
}
use beer_tab.Queue.Durable.{begin-flush}
use beer_tab.Protocol.Json.{ArduinoJson}
use beer_tab.Client.{Config, configured}
use beer_tab.Backend.Loop.Delivery.{queue-send_queued_now}
use beer_tab.App.{
  Terminal, Enqueued, watching, deferred, refused, no_backend, chosen_resident, purchase_entry,
  void_entry, with_queue, flush_queue, store_and_send, watching_if, enqueue, enqueue_purchase,
  enqueue_undo,
}

abbrev pub items_of : {fs : LittleFs} → Terminal fs → List Entry
items_of t = t.device.queue.items

-- A transaction that is watched or deferred stands behind the entries `es`; one that is refused, or
-- that no backend is there for, does not.
abbrev pub Recorded : {fs : LittleFs} → List Entry → Entry → Terminal fs → Enqueued → Type 0
Recorded es e t watching = items_of t ≡ es ++ (e ∷ [])
Recorded es e t deferred = items_of t ≡ es ++ (e ∷ [])
Recorded es e t refused = items_of t ≡ es
Recorded es e t no_backend = items_of t ≡ es

watching_if-ne-no_backend : (sent : Bool) → watching_if sent ≢ no_backend
watching_if-ne-no_backend true e = cc
watching_if-ne-no_backend false e = cc

module _ {fs : LittleFs} (json : ArduinoJson) (config : Config) (clock : ℕ) where
  queue-store_and_send :
      (t : Terminal fs)
      → (store_and_send json config clock t).0.device.queue ≡ (flush_queue t).device.queue
  unfolding store_and_send
  queue-store_and_send t = queue-send_queued_now json config (flush_queue t).device clock

  pub items-store_and_send :
      (t : Terminal fs) → items_of (store_and_send json config clock t).0 ≡ items_of t
  unfolding flush_queue
  items-store_and_send t =
      ap (λ (q : Queue). q.items) (queue-store_and_send t) ∙ items-flush t.storage t.device.queue

  Recorded-watching_if :
      (es : List Entry) (e : Entry) (t : Terminal fs) (sent : Bool)
      → items_of t ≡ es ++ (e ∷ [])
      → Recorded es e t (watching_if sent)
  Recorded-watching_if es e t true h = h
  Recorded-watching_if es e t false h = h

  enqueue-Recorded :
      (t : Terminal fs) (e : Entry)
      → let (t', r) = enqueue json config clock t e in Recorded (items_of t) e t' r
  unfolding enqueue Queue.push Queue.full
  enqueue-Recorded t e = elim (Bool-cases (leb max_queued_transactions (length (items_of t)))) [
    | inl b ↦ rw b refl
    | inr b ↦ rw b (
        let q : Queue = record { items = items_of t ++ (e ∷ []); dirty = true } in
        let (t', sent) = store_and_send json config clock (with_queue t q) in
        Recorded-watching_if (items_of t) e t' sent (items-store_and_send (with_queue t q)))
  ]

  pub enqueue_purchase-Recorded :
      (t : Terminal fs)
      → let (t', r) = enqueue_purchase json config clock t in
        Recorded
          (items_of t)
          (purchase_entry t.app.ctx (chosen_resident t.device.residents t.app.ctx))
          t'
          r
  unfolding enqueue_purchase
  enqueue_purchase-Recorded t = elim (Bool-cases (configured config)) [
    | inr b ↦ rw b refl
    | inl b ↦ rw b (elim (Bool-cases (Queue.full t.device.queue)) [
      | inl f ↦ rw f refl
      | inr f ↦ rw f (
          enqueue-Recorded t
            (purchase_entry t.app.ctx (chosen_resident t.device.residents t.app.ctx)))
    ])
  ]

  -- An undo that has no transaction to wait for is one of a device with no backend, or it took the
  -- first purchase with the id, and nothing else, out of the queue.
  unfoldable pub Dropped : Terminal fs → Terminal fs → Type 0
  Dropped t t' =
      ((configured config ≡ false) × (items_of t' ≡ items_of t))
      ⊎ Found t.app.ctx.transaction_id (items_of t) (items_of t')

  abbrev pub Reversed : Terminal fs → Terminal fs → Enqueued → Type 0
  Reversed t t' no_backend = Dropped t t'
  Reversed t t' watching =
      NonePurchases t.app.ctx.transaction_id (items_of t)
      × (items_of t' ≡ items_of t ++ (void_entry t.app.ctx ∷ []))
  Reversed t t' deferred =
      NonePurchases t.app.ctx.transaction_id (items_of t)
      × (items_of t' ≡ items_of t ++ (void_entry t.app.ctx ∷ []))
  Reversed t t' refused =
      NonePurchases t.app.ctx.transaction_id (items_of t) × (items_of t' ≡ items_of t)

  Reversed-Recorded :
      (t t' : Terminal fs) (r : Enqueued)
      → r ≢ no_backend
      → NonePurchases t.app.ctx.transaction_id (items_of t)
      → Recorded (items_of t) (void_entry t.app.ctx) t' r
      → Reversed t t' r
  Reversed-Recorded t t' watching ne n h = (n, h)
  Reversed-Recorded t t' deferred ne n h = (n, h)
  Reversed-Recorded t t' refused ne n h = (n, h)
  Reversed-Recorded t t' no_backend ne n h = absurd (ne refl)

  abbrev pushed : Terminal fs → Entry → Terminal fs
  pushed t e = with_queue t (record { items = items_of t ++ (e ∷ []); dirty = true })

  enqueue_with_room :
      (t : Terminal fs) (e : Entry)
      → Queue.full t.device.queue ≡ false
      → enqueue json config clock t e
        ≡ (let (t', sent) = store_and_send json config clock (pushed t e) in (t', watching_if sent))
  unfolding enqueue Queue.push Queue.full
  enqueue_with_room t e f = rw f refl

  enqueue-ne-no_backend :
      (t : Terminal fs) (e : Entry)
      → Queue.full t.device.queue ≡ false
      → (enqueue json config clock t e).1 ≢ no_backend
  enqueue-ne-no_backend t e f h =
      watching_if-ne-no_backend (store_and_send json config clock (pushed t e)).1
        (ap (λ (x : Terminal fs × Enqueued). x.1) (sym (enqueue_with_room t e f)) ∙ h)

  pub enqueue_undo-Reversed :
      (t : Terminal fs) → let (t', r) = enqueue_undo json config clock t in Reversed t t' r
  unfolding enqueue_undo Dropped flush_queue
  enqueue_undo-Reversed t =
      let id = t.app.ctx.transaction_id in
      let x = Queue.remove_purchase t.device.queue id in
      let removes = remove_purchase-Removes t.device.queue id in
      elim (Bool-cases (configured config)) [
        | inr b ↦ rw b (inl (b, refl))
        | inl b ↦ rw b (elim (Bool-cases x.1) [
          | inl f ↦
              rw (f, items-flush t.storage x.0) (inr (removed_Found id t.device.queue x removes f))
          | inr f ↦
              let none_waits = left_NonePurchases id t.device.queue x removes f in
              rw f (elim (Bool-cases (Queue.full t.device.queue)) [
                | inl g ↦ rw g (none_waits, refl)
                | inr g ↦ rw g (
                    Reversed-Recorded t (enqueue json config clock t (void_entry t.app.ctx)).0
                      (enqueue json config clock t (void_entry t.app.ctx)).1
                      (enqueue-ne-no_backend t (void_entry t.app.ctx) g) none_waits
                      (enqueue-Recorded t (void_entry t.app.ctx)))
              ])
        ])
      ]

  room_for :
      (t : Terminal fs) (e : Entry)
      → Queue.full t.device.queue ≡ false
      → IsQueue t.device.queue
      → IsEntry e
      → IsQueue (pushed t e).device.queue
  unfolding Queue.push Queue.full
  room_for t e f v fits = let h = push-IsQueue t.device.queue e v fits in rw f at h

  store_and_send_durable :
      (laws : Laws fs) (t : Terminal fs)
      → IsQueue t.device.queue
      → t.device.queue.dirty ≡ true
      → let t' = (store_and_send json config clock t).0 in
        t'.device.queue.dirty ≡ false → Queue.begin t'.storage ≡ t'.device.queue
  unfolding flush_queue store_and_send
  store_and_send_durable laws t v dirty clean =
      begin-flush laws t.storage t.device.queue v dirty
        (ap (λ (q : Queue). q.dirty) (sym (queue-store_and_send t)) ∙ clean)
      ∙ sym (queue-store_and_send t)

  -- What a restart finds behind the entries that waited.
  enqueue_durable :
      (laws : Laws fs) (t : Terminal fs) (e : Entry)
      → Queue.full t.device.queue ≡ false
      → IsQueue t.device.queue
      → IsEntry e
      → let t' = (enqueue json config clock t e).0 in
        t'.device.queue.dirty ≡ false → (Queue.begin t'.storage).items ≡ items_of t ++ (e ∷ [])
  enqueue_durable laws t e f v fits = rw (enqueue_with_room t e f) (λ clean.
      ap (λ (q : Queue). q.items)
        (store_and_send_durable laws (pushed t e) (room_for t e f v fits) refl clean)
      ∙ items-store_and_send (pushed t e))

  -- Durable before the first attempt: where a backend is configured, there is room, the queue and the
  -- purchase are valid, and the flush went through, a restart after the tap finds the entries that
  -- waited before it and, behind them, the purchase, whether or not the request was started.
  pub enqueue_purchase_durable :
      (laws : Laws fs) (t : Terminal fs)
      → configured config ≡ true
      → Queue.full t.device.queue ≡ false
      → IsQueue t.device.queue
      → IsEntry (purchase_entry t.app.ctx (chosen_resident t.device.residents t.app.ctx))
      → let t' = (enqueue_purchase json config clock t).0 in
        t'.device.queue.dirty ≡ false
        → (Queue.begin t'.storage).items
          ≡ items_of t
            ++ (purchase_entry t.app.ctx (chosen_resident t.device.residents t.app.ctx) ∷ [])
  unfolding enqueue_purchase
  enqueue_purchase_durable laws t c f v fits =
      rw (c, f)
        (enqueue_durable laws t
          (purchase_entry t.app.ctx (chosen_resident t.device.residents t.app.ctx)) f v fits)
