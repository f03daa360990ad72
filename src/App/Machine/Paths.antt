-- ===== src/App/Machine/Paths.antt =====
-- app_state.cpp: the state after `enter`, and the timer of an undo.
use beer_tab.Common.{◌≡◌, refl, ap, ◌∙◌, inl, inr, Bool-cases, arith, ℕ, Bool, true, false, ◌==◌}
use beer_tab.Records.{Entry}
use beer_tab.Storage.{LittleFs}
use beer_tab.Protocol.Json.{ArduinoJson}
use beer_tab.Client.{Config}
use beer_tab.Backend.{Device, reached, set_active}
use beer_tab.App.{
  State, sleeping, waking, selecting_product, looking_up, product_found, new_product,
  selecting_user, selecting_archived, manage_product, confirm_archive, submitting, undoing, success,
  summary, error_state, admin, App, Terminal, Enqueued, chosen_resident, enqueue_purchase,
  enqueue_undo,
}
use beer_tab.App.Machine.{ordinal, with_app, enter}
use beer_tab.App.{purchase_entry, void_entry, enqueue, store_and_send, flush_queue}
use beer_tab.App.Machine.{apply_enqueued, on_enter, on_state_change, arm, show, set_awake}
use beer_tab.App.Machine.Events.{
  on_event, dispatch, update, update_timed, redraw_summary, timed_out,
}
use beer_tab.App.Machine.Handler.{on_state_change-Followed}
use beer_tab.Backend.Loop.Delivery.{queue-request_sync}

queue-set_active :
    (json : ArduinoJson) (config : Config) (clock : ℕ) (d : Device) (on : Bool)
    → (set_active json config d on clock).queue ≡ d.queue
unfolding set_active
queue-set_active json config clock d on =
    let d' = record d { backend = record (Device.backend d) { active = on } } in
    ground (arith, queue-request_sync json config d' clock)

module _ {fs : LittleFs} (json : ArduinoJson) (config : Config) (clock random : ℕ) where
  state-apply_enqueued : (x : Terminal fs × Enqueued) → (apply_enqueued x).app.state ≡ x.0.app.state
  unfolding apply_enqueued
  state-apply_enqueued (t, e) = refl

  state-enqueue :
      (t : Terminal fs) (e : Entry) → (enqueue json config clock t e).0.app.state ≡ t.app.state
  unfolding enqueue store_and_send flush_queue
  state-enqueue t e = ground arith

  state-enqueue_purchase :
      (t : Terminal fs) → (enqueue_purchase json config clock t).0.app.state ≡ t.app.state
  unfolding enqueue_purchase
  state-enqueue_purchase t =
      let e = purchase_entry t.app.ctx (chosen_resident t.device.residents t.app.ctx) in
      ground (arith, state-enqueue t e)

  state-enqueue_undo :
      (t : Terminal fs) → (enqueue_undo json config clock t).0.app.state ≡ t.app.state
  unfolding enqueue_undo flush_queue
  state-enqueue_undo t = ground (arith, state-enqueue t (void_entry t.app.ctx))

  state-on_enter :
      (s : State) (t : Terminal fs)
      → (on_enter json config clock random s t).app.state ≡ t.app.state
  unfolding on_enter
  state-on_enter submitting t =
      state-apply_enqueued (enqueue_purchase json config clock t) ∙ state-enqueue_purchase t
  state-on_enter undoing t =
      state-apply_enqueued (enqueue_undo json config clock t) ∙ state-enqueue_undo t
  state-on_enter success t = refl
  state-on_enter summary t = refl
  state-on_enter sleeping t = refl
  state-on_enter waking t = refl
  state-on_enter selecting_product t = refl
  state-on_enter looking_up t = refl
  state-on_enter product_found t = refl
  state-on_enter new_product t = refl
  state-on_enter selecting_user t = refl
  state-on_enter selecting_archived t = refl
  state-on_enter manage_product t = refl
  state-on_enter confirm_archive t = refl
  state-on_enter error_state t = refl
  state-on_enter admin t = refl

  state-arm : (t : Terminal fs) → (arm json config clock random t).app.state ≡ t.app.state
  state-arm t = ground arith

  pub state-prepared :
      (s : State) (t : Terminal fs)
      → (arm json config clock random (on_enter json config clock random s t)).app.state
        ≡ t.app.state
  state-prepared s t = state-arm (on_enter json config clock random s t) ∙ state-on_enter s t

  -- Entering a state ends in it, whatever the handlers do.
  pub state-enter :
      (s : State) (t : Terminal fs)
      → ordinal (enter json config clock random s t).app.state ≡ ordinal s
  unfolding enter
  state-enter s t = elim (Bool-cases (ordinal s == ordinal t.app.state)) [
    | inl b ↦ rw b (ground (arith, b))
    | inr b ↦
        let t' =
          with_app t (record (Terminal.app t) { state = s; deadline = 0; dwell_total = 0 }) in
        let t'' = on_enter json config clock random s t' in
        let told =
          on_state_change-Followed json config clock random s (arm json config clock random t'') in
        rw b (
          ap ordinal
            (ap (λ (a : App). a.state) told.same_app ∙ state-arm t'' ∙ state-on_enter s t'))
  ]

  -- An undo that is on the timer ends on the confirmation screen, marked as undone, whether or not a
  -- failure was asked for: the mark of a refused undo is still set, for the next submission.
  pub update_undoing :
      (t : Terminal fs) (now : ℕ)
      → t.app.state ≡ undoing
      → t.app.simulated ≡ true
      → (t.app.deadline == 0) ≡ false
      → reached now t.app.deadline ≡ true
      → let t' = update json config clock random now t in
        (t'.app.state ≡ success)
        × (t'.app.ctx.undone ≡ true)
        × (t'.app.fail_next_submit ≡ t.app.fail_next_submit)
        × (t'.device.queue ≡ t.device.queue)
  unfolding update update_timed redraw_summary timed_out dispatch on_event enter on_enter
      on_state_change show set_awake
  update_undoing t now s sim d r =
      ground (arith, s, sim, d, r, queue-set_active json config clock t.device true)
