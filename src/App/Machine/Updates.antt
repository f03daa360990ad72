-- ===== src/App/Machine/Updates.antt =====
-- app_state.cpp: the queue over a turn of `update`.
use beer_tab.Common.{◌≡◌, refl, ℕ, Bool, true, false, not, ◌||◌, [], ascii, ◌==◌, if◌then◌else◌}
use beer_tab.Storage.{LittleFs}
use beer_tab.Protocol.Json.{ArduinoJson}
use beer_tab.Client.{Config}
use beer_tab.Backend
use beer_tab.Backend.{Device, my_loading}
use beer_tab.App.{
  State, submitting, undoing, success, summary, Event, wake, sleep, dwell, submit_succeeded,
  submit_failed, undo_succeeded, undo_failed, App, Terminal, with_message,
}
use beer_tab.App.Stored.{items_of}
use beer_tab.App.Machine.{with_app, with_ctx, reverse_locally, is_success, is_unreachable, ordinal}
use beer_tab.App.Machine.Events.{
  rejection, is_summary, same_summary, dispatch, note_activity, power_update, judged, watched,
  timed_out, redraw, redraw_summary, update_timed, update,
}
use beer_tab.App.Machine.Sound.{branch}
use beer_tab.App.Machine.Shifts.{Shift, Shift-same, Shift-any, Shift-trans}
use beer_tab.App.Machine.Moves.{takes_back, dispatch-Shift, items-on_state_change}

-- Entries are appended to the queue of the first terminal.
pub record Appends {fs : LittleFs} (t t' : Terminal fs) : Type 0 where
  pub shift : Shift false [] (items_of t) (items_of t')

pub Appends-same : {fs : LittleFs} (t t' : Terminal fs) → items_of t' ≡ items_of t → Appends t t'
Appends-same t t' h = record { shift = Shift-same false [] _ _ h }

pub Appends-refl : {fs : LittleFs} (t : Terminal fs) → Appends t t
Appends-refl t = Appends-same t t refl

pub Appends-trans :
    {fs : LittleFs} (t t' t'' : Terminal fs) → Appends t t' → Appends t' t'' → Appends t t''
Appends-trans t t' t'' a b = record { shift = Shift-trans false [] _ _ _ a.shift b.shift }

-- From a terminal with the same queue.
pub Appends-from :
    {fs : LittleFs} (t t' t'' : Terminal fs)
    → items_of t' ≡ items_of t
    → Appends t' t''
    → Appends t t''
Appends-from t t' t'' h a = Appends-trans t t' t'' (Appends-same t t' h) a

failed_takes : (b : Bool) → takes_back (if b then submit_failed else undo_failed) ≡ false
failed_takes true = refl
failed_takes false = refl

module _ {fs : LittleFs} (json : ArduinoJson) (config : Config) (clock random : ℕ) where
  -- An event that does not take back.
  pub dispatch-Appends :
      (e : Event) (t : Terminal fs)
      → takes_back e ≡ false
      → Appends t (dispatch json config clock random e t)
  dispatch-Appends e t h = record {
    shift =
        let s = dispatch-Shift json config clock random e t in
        Shift-any false t.app.ctx.transaction_id [] _ _ (rw h at s);
  }

  pub note_activity-Appends :
      (t : Terminal fs) → Appends t (note_activity json config clock random t)
  unfolding note_activity
  note_activity-Appends t =
      branch (λ x. Appends t x) t.awake t _ (Appends-refl t) (dispatch-Appends wake t refl)

  pub power_update-Appends :
      (last_activity now : ℕ) (t : Terminal fs)
      → Appends t (power_update json config clock random last_activity now t)
  unfolding power_update
  power_update-Appends last_activity now t =
      branch (λ x. Appends t x) (not t.awake) t _ (Appends-refl t)
        (branch (λ x. Appends t x) _ t _ (Appends-refl t) (dispatch-Appends sleep t refl))

  cleared-Appends :
      (t x : Terminal fs)
      → Appends t x
      → Appends t (record x { device = Backend.clear (Terminal.device x) })
  unfolding Backend.clear
  cleared-Appends t x h = record { shift = h.shift }

  judged-Appends : (s : State) (t : Terminal fs) → Appends t (judged json config clock random s t)
  unfolding judged
  judged-Appends s t =
      let ok = is_success t.device.backend.result || is_unreachable t.device.backend.result in
      let is_submit = ordinal s == ordinal submitting in
      let t' =
        with_ctx t (record (App.ctx (Terminal.app t)) {
          deferred = is_unreachable t.device.backend.result;
        }) in
      let t'' = reverse_locally t' in
      let told = with_message t' (rejection t.device) in
      branch (λ x. Appends t x) ok _ _
        (branch (λ x. Appends t x) is_submit _ _
          (Appends-from t t' _ refl (dispatch-Appends submit_succeeded t' refl))
          (Appends-from t t'' _ refl (dispatch-Appends undo_succeeded t'' refl)))
        (Appends-from t told _ refl (dispatch-Appends _ told (failed_takes is_submit)))

  watched-Appends : (s : State) (t : Terminal fs) → Appends t (watched json config clock random s t)
  unfolding watched
  watched-Appends s t = cleared-Appends t (judged json config clock random s t) (judged-Appends s t)

  timed_out-Appends :
      (s : State) (t : Terminal fs) → Appends t (timed_out json config clock random s t)
  unfolding timed_out
  timed_out-Appends submitting t =
      let t' =
        with_message (with_app t (record (Terminal.app t) { fail_next_submit = false }))
          (ascii "Keine Verbindung zum Server") in
      branch (λ x. Appends t x) t.app.fail_next_submit _ _
        (Appends-from t t' _ refl (dispatch-Appends submit_failed t' refl))
        (dispatch-Appends submit_succeeded t refl)
  timed_out-Appends undoing t =
      Appends-from t (reverse_locally t) _ refl
        (dispatch-Appends undo_succeeded (reverse_locally t) refl)
  timed_out-Appends success t = dispatch-Appends dwell t refl
  timed_out-Appends summary t = dispatch-Appends dwell t refl
  timed_out-Appends s t = Appends-refl t

  redraw_summary-items :
      (t : Terminal fs) → items_of (redraw_summary json config clock random t) ≡ items_of t
  unfolding redraw_summary redraw
  redraw_summary-items t =
      let t' = with_app t (record (Terminal.app t) { last_summary = t.device.backend.my_state }) in
      branch (λ x. items_of x ≡ items_of t)
        (not (is_summary t.app.state) || same_summary t.device.backend.my_state t.app.last_summary)
        t _ refl
        (branch (λ x. items_of x ≡ items_of t) (same_summary t.device.backend.my_state my_loading)
          t' _ refl (items-on_state_change json config clock random t.app.state t'))

  update_timed-Appends :
      (now : ℕ) (t : Terminal fs) → Appends t (update_timed json config clock random now t)
  unfolding update_timed
  update_timed-Appends now t =
      let t' = with_app t (record (Terminal.app t) { deadline = 0 }) in
      branch (λ x. Appends t x) _ _ _
        (branch (λ x. Appends t x) _ t _ (Appends-refl t) (watched-Appends t.app.state t))
        (branch (λ x. Appends t x) _ t _ (Appends-refl t)
          (Appends-from t t' _ refl (timed_out-Appends t.app.state t')))

  pub update-Appends :
      (now : ℕ) (t : Terminal fs) → Appends t (update json config clock random now t)
  unfolding update
  update-Appends now t =
      let t' = redraw_summary json config clock random t in
      Appends-from t t' _ (redraw_summary-items t) (update_timed-Appends now t')
