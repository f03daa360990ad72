-- ===== src/App/Machine/Shifts.antt =====
-- app_state.cpp: the shape of the queue after an event, beside the one before.
use beer_tab.Common.{
  ◌≡◌, refl, sym, ap, ◌∙◌, inl, inr, Bool-cases, ℕ, Bool, true, false, List, [], ◌∷◌, ◌++◌,
  append-nil, append_assoc, length, leb, Text,
}
use beer_tab.Settings.{max_queued_transactions}
use beer_tab.Records.{Entry, Kind, Product}
use beer_tab.Storage.{LittleFs}
use beer_tab.Queue
use beer_tab.Queue.{Queue}
use beer_tab.Queue.Removal.{Found}
use beer_tab.Protocol.Json.{ArduinoJson}
use beer_tab.Client.{Config, configured}
use beer_tab.Backend.Loop.Frame.{request_my_summary-SameData}
use beer_tab.App.{
  State, submitting, undoing, success, summary, Terminal, Enqueued, watching, deferred, refused,
  no_backend, chosen_resident, purchase_entry, void_entry, product_entry, with_queue,
  enqueue_purchase, enqueue_undo, queue_product_entry,
}
use beer_tab.App.Stored.{
  items_of, items-store_and_send, Recorded, Reversed, Dropped, enqueue_purchase-Recorded,
  enqueue_undo-Reversed,
}
use beer_tab.App.Machine.{apply_enqueued, on_enter}

-- Entries are appended, or, where an undo may be under way, the first purchase with the id is taken
-- out.
pub data Shift (back : Bool) (id : Text) (es es' : List Entry) : Type 0 where
  grows : (added : List Entry) → es' ≡ es ++ added → Shift back id es es'
  loses : back ≡ true → Found id es es' → Shift back id es es'

pub Shift-same : (back : Bool) (id : Text) (es es' : List Entry) → es' ≡ es → Shift back id es es'
Shift-same back id es es' h = grows [] (h ∙ sym (append-nil es))

-- Where there is no undo, the id does not matter.
pub Shift-any :
    (back : Bool) (id id' : Text) (es es' : List Entry)
    → Shift false id es es'
    → Shift back id' es es'
Shift-any back id id' es es' (grows added h) = grows added h
Shift-any back id id' es es' (loses b f) = cc

-- Appending first, and then any shift.
pub Shift-trans :
    (back : Bool) (id : Text) (es es' es'' : List Entry)
    → Shift false id es es'
    → Shift false id es' es''
    → Shift back id es es''
Shift-trans back id es es' es'' (grows a h) (grows b k) =
    grows (a ++ b) (k ∙ ap (λ x. x ++ b) h ∙ append_assoc es a b)
Shift-trans back id es es' es'' (loses b f) k = cc
Shift-trans back id es es' es'' (grows a h) (loses b f) = cc

abbrev pub is_undoing : State → Bool
is_undoing undoing = true
is_undoing _ = false

Recorded-Shift :
    {fs : LittleFs} (back : Bool) (id : Text) (es : List Entry) (e : Entry) (t : Terminal fs)
    (r : Enqueued)
    → Recorded es e t r
    → Shift back id es (items_of t)
Recorded-Shift back id es e t watching h = grows (e ∷ []) h
Recorded-Shift back id es e t deferred h = grows (e ∷ []) h
Recorded-Shift back id es e t refused h = Shift-same back id es _ h
Recorded-Shift back id es e t no_backend h = Shift-same back id es _ h

module _ {fs : LittleFs} (json : ArduinoJson) (config : Config) (clock : ℕ) where
  Reversed-Shift :
      (t t' : Terminal fs) (r : Enqueued)
      → Reversed json config clock t t' r
      → Shift true t.app.ctx.transaction_id (items_of t) (items_of t')
  unfolding Dropped
  Reversed-Shift t t' watching (n, h) = grows (void_entry t.app.ctx ∷ []) h
  Reversed-Shift t t' deferred (n, h) = grows (void_entry t.app.ctx ∷ []) h
  Reversed-Shift t t' refused (n, h) = Shift-same true _ _ _ h
  Reversed-Shift t t' no_backend (inl (c, h)) = Shift-same true _ _ _ h
  Reversed-Shift t t' no_backend (inr f) = loses refl f

  pub items-apply_enqueued :
      (x : Terminal fs × Enqueued) → items_of (apply_enqueued x) ≡ items_of x.0
  unfolding apply_enqueued
  items-apply_enqueued (t, e) = refl

  pub on_enter-Shift :
      (random : ℕ) (s : State) (t : Terminal fs)
      → Shift
          (is_undoing s)
          t.app.ctx.transaction_id
          (items_of t)
          (items_of (on_enter json config clock random s t))
  unfolding on_enter
  on_enter-Shift random submitting t =
      let x = enqueue_purchase json config clock t in
      rw (items-apply_enqueued x) (
        Recorded-Shift false t.app.ctx.transaction_id (items_of t)
          (purchase_entry t.app.ctx (chosen_resident t.device.residents t.app.ctx)) x.0 x.1
          (enqueue_purchase-Recorded json config clock t))
  on_enter-Shift random undoing t =
      let x = enqueue_undo json config clock t in
      rw (items-apply_enqueued x)
        (Reversed-Shift t x.0 x.1 (enqueue_undo-Reversed json config clock t))
  on_enter-Shift random summary t =
      let id = (chosen_resident t.device.residents t.app.ctx).id in
      let s = request_my_summary-SameData json config t.device id clock in
      Shift-same false _ _ _ (ap (λ (q : Queue). q.items) s.same_queue)
  on_enter-Shift random success t = Shift-same false _ _ _ refl
  on_enter-Shift random s t = Shift-same false _ _ _ refl

  -- A product change is appended, or the queue is as it was.
  pub queue_product_entry-Shift :
      (id : Text) (t : Terminal fs) (p : Product) (k : Kind)
      → Shift false id (items_of t) (items_of (queue_product_entry json config clock t p k))
  unfolding queue_product_entry Queue.push Queue.full
  queue_product_entry-Shift id t p k =
      let e = product_entry clock p k in
      let q : Queue = record { items = items_of t ++ (e ∷ []); dirty = true } in
      elim (Bool-cases (configured config)) [
        | inr b ↦ rw b (Shift-same false id _ _ refl)
        | inl b ↦ rw b (elim (Bool-cases (leb max_queued_transactions (length (items_of t)))) [
          | inl f ↦ rw f (Shift-same false id _ _ refl)
          | inr f ↦ rw f (grows (e ∷ []) (items-store_and_send json config clock (with_queue t q)))
        ])
      ]
