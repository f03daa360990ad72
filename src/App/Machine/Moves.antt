-- ===== src/App/Machine/Moves.antt =====
-- app_state.cpp: the queue over an event.
use beer_tab.Common.{
  ◌≡◌, refl, ap, ◌⊎◌, inl, inr, Bool-cases, arith, ℕ, Bool, true, false, List, Option, none, some,
  Text, ℤ, ◌==◌, if◌then◌else◌,
}
use beer_tab.Records.{Entry, Kind, Product, archive, restore}
use beer_tab.Storage.{LittleFs}
use beer_tab.Queue.{Queue}
use beer_tab.Catalog
use beer_tab.Protocol.Json.{ArduinoJson}
use beer_tab.Client.{Config}
use beer_tab.Backend
use beer_tab.App.{
  State, waking, selecting_product, undoing, submitting, Event, undo, retry, Terminal,
  queue_product_entry,
}
use beer_tab.App.Stored.{items_of}
use beer_tab.App.Machine.{
  ordinal, in_flight, with_app, with_ctx, on_enter, on_state_change, arm, enter, begin_purchase,
  confirm, queue_product_change,
}
use beer_tab.App.Machine.Events.{dispatch}
use beer_tab.App.Machine.Handler.{on_state_change-Followed}
use beer_tab.App.Machine.Diagram.{
  Edge, undoes, undoes_again, wakes, Effect, stays, goes, lights_up, buys, shelves, on_event-Effect,
}
use beer_tab.App.Machine.Shifts.{
  Shift, grows, loses, Shift-same, Shift-any, Shift-trans, is_undoing, on_enter-Shift,
  queue_product_entry-Shift,
}

-- The events that may lead to an undo.
abbrev pub takes_back : Event → Bool
takes_back undo = true
takes_back retry = true
takes_back _ = false

Edge-undoing : {s s' : State} {e : Event} → Edge s e s' → is_undoing s' ≡ true → takes_back e ≡ true
Edge-undoing wakes h = cc
Edge-undoing undoes h = refl
Edge-undoing undoes_again h = refl
Edge-undoing _ h = cc

in_flight-undoing : (s : State) → in_flight s ≡ false → is_undoing s ≡ false
in_flight-undoing undoing h = cc
in_flight-undoing submitting h = refl
in_flight-undoing _ h = refl

-- A shift on the way into a state, as one of the event that led there.
along :
    (s : State) (e : Event) (next : State) (id id' : Text) (es es' : List Entry)
    → Edge s e next
    → ((in_flight next ≡ false) ⊎ (id ≡ id'))
    → Shift (is_undoing next) id es es'
    → Shift (takes_back e) id' es es'
along s e next id id' es es' edge same (grows added h) = grows added h
along s e next id id' es es' edge (inl quiet) (loses b f) =
    absurd (ground (arith, b, in_flight-undoing next quiet))
along s e next id id' es es' edge (inr eq) (loses b f) = loses (Edge-undoing edge b) (rw⁻¹ eq f)

module _ {fs : LittleFs} (json : ArduinoJson) (config : Config) (clock random : ℕ) where
  device-arm : (t : Terminal fs) → items_of (arm json config clock random t) ≡ items_of t
  device-arm t = ground arith

  pub items-on_state_change :
      (s : State) (t : Terminal fs)
      → items_of (on_state_change json config clock random s t) ≡ items_of t
  items-on_state_change s t =
      ap (λ (q : Queue). q.items)
        (on_state_change-Followed json config clock random s t).device.kept_queue

  enter-Shift :
      (s : State) (t : Terminal fs)
      → Shift
          (is_undoing s)
          t.app.ctx.transaction_id
          (items_of t)
          (items_of (enter json config clock random s t))
  unfolding enter
  enter-Shift s t =
      let t' = with_app t (record (Terminal.app t) { state = s; deadline = 0; dwell_total = 0 }) in
      let t'' = on_enter json config clock random s t' in
      elim (Bool-cases (ordinal s == ordinal t.app.state)) [
        | inl b ↦ rw b (Shift-same (is_undoing s) _ _ _ refl)
        | inr b ↦
            rw (b, items-on_state_change s (arm json config clock random t''), device-arm t'')
              (on_enter-Shift json config clock random s t')
      ]

  pub product_entry-Shift :
      (id : Text) (o : Option Product) (k : Kind) (t : Terminal fs)
      → Shift false id
          (items_of t)
          (items_of (elim o [ none ↦ t | some p ↦ queue_product_entry json config clock t p k ]))
  product_entry-Shift id none k t = Shift-same false id _ _ refl
  product_entry-Shift id (some p) k t = queue_product_entry-Shift json config clock id t p k

  pub queue_product_change-Shift :
      (id : Text) (i : ℤ) (active : Bool) (t : Terminal fs)
      → Shift false id
          (items_of t)
          (items_of (queue_product_change json config clock random i active t))
  unfolding queue_product_change
  queue_product_change-Shift id i active t =
      product_entry-Shift id (Catalog.at_storage t.device.catalog i)
        (if active then restore else archive) t

  confirm-Shift :
      (back : Bool) (t : Terminal fs)
      → Shift back t.app.ctx.transaction_id
          (items_of t)
          (items_of (confirm json config clock random t))
  unfolding confirm
  confirm-Shift back t =
      Shift-trans back _ _ _ _
        (queue_product_change-Shift _ t.app.ctx.archive_storage_index false t)
        (Shift-any false _ _ _ _ (enter-Shift selecting_product _))

  begin_purchase-Shift :
      (back : Bool) (t : Terminal fs)
      → Shift back t.app.ctx.transaction_id
          (items_of t)
          (items_of (begin_purchase json config clock random t))
  unfolding Backend.clear
  begin_purchase-Shift back t = Shift-any back _ _ _ _ (enter-Shift submitting _)

  Effect-Shift :
      (s : State) (e : Event) (t x : Terminal fs)
      → Effect json config clock random s e t x
      → Shift (takes_back e) t.app.ctx.transaction_id (items_of t) (items_of x)
  Effect-Shift s e t x (stays eq) = Shift-same _ _ _ _ (ap (λ y. items_of y) eq)
  Effect-Shift s e t x (goes next c edge same eq) =
      rw eq (along s e next _ _ _ _ edge same (enter-Shift next (with_ctx t c)))
  Effect-Shift s e t x (lights_up edge eq) = rw eq (
      Shift-trans _ t.app.ctx.transaction_id _ _ _ (enter-Shift waking t)
        (Shift-any false _ _ _ _ (enter-Shift selecting_product _)))
  Effect-Shift s e t x (buys edge eq) = rw eq (begin_purchase-Shift _ t)
  Effect-Shift s e t x (shelves edge eq) = rw eq (confirm-Shift _ t)

  -- No event but an undo and the retry of one takes an entry out of the queue, and what these take out
  -- is the first purchase with the transaction id of the context; all else is appended.
  pub dispatch-Shift :
      (e : Event) (t : Terminal fs)
      → Shift
          (takes_back e)
          t.app.ctx.transaction_id
          (items_of t)
          (items_of (dispatch json config clock random e t))
  unfolding dispatch
  dispatch-Shift e t =
      Effect-Shift t.app.state e t _ (on_event-Effect json config clock random t.app.state e t)
