-- ===== src/App/Machine/Sound.antt =====
-- app_state.cpp and power_manager.cpp: the invariant of a terminal, over an event, a turn of `update` and
-- a tick of the power manager.
use beer_tab.Common.{
  ◌≡◌, refl, sym, ap, ◌∙◌, inl, inr, ℕ, Bool, true, false, not, ◌||◌, if◌then◌else◌,
}
use beer_tab.Storage.{LittleFs}
use beer_tab.Protocol.Json.{ArduinoJson}
use beer_tab.Client.{Config}
use beer_tab.Backend
use beer_tab.Backend.{Device, Result, my_loading, reached}
use beer_tab.App.{
  State, submitting, undoing, success, summary, Event, wake, sleep, dwell, submit_succeeded,
  submit_failed, undo_succeeded, App, Terminal,
}
use beer_tab.App.Machine.{is_sleeping, with_app}
use beer_tab.App.Machine.Events.{
  is_summary, same_summary, dispatch, note_activity, power_update, judged, watched, timed_out,
  redraw, redraw_summary, update_timed, update,
}
use beer_tab.App.Machine.Handler.{on_state_change-Followed}
use beer_tab.App.Machine.Walks.{is_resting, Edge-rests, dispatch-Edge}
use beer_tab.App.Machine.Soundness.{
  IsSupplied, IsShown, device-IsSupplied, dispatch-IsSupplied, dispatch-IsShown,
  on_state_change-IsSupplied, on_state_change-IsShown,
}

-- Both at once, in a state that is not one of those that are only passed through or never used.
pub record IsSound {fs : LittleFs} (t : Terminal fs) : Type 0 where
  pub supplied : IsSupplied t
  pub shown : IsShown t
  pub rests : is_resting t.app.state ≡ true

-- Changes that neither predicate looks at.
pub same-IsSound :
    {fs : LittleFs} (t t' : Terminal fs)
    → t'.device ≡ t.device
    → t'.app.state ≡ t.app.state
    → t'.awake ≡ t.awake
    → IsSound t
    → IsSound t'
same-IsSound t t' d s a v = record {
  supplied = device-IsSupplied t t' d v.supplied;
  shown = record {
    lit = a ∙ v.shown.lit ∙ ap (λ x. not (is_sleeping x)) (sym s);
    wanted = ap (λ (x : Device). x.backend.active) d ∙ v.shown.wanted ∙ sym a;
  };
  rests = ap is_resting s ∙ v.rests;
}

-- A property of both branches, for terminals.
pub branch :
    {fs : LittleFs} (P : Terminal fs → Type 0) (b : Bool) (x y : Terminal fs)
    → P x
    → P y
    → P (if b then x else y)
branch P true x y p q = p
branch P false x y p q = q

module _ {fs : LittleFs} (json : ArduinoJson) (config : Config) (clock random : ℕ) where
  pub dispatch-IsSound :
      (e : Event) (t : Terminal fs) → IsSound t → IsSound (dispatch json config clock random e t)
  dispatch-IsSound e t v = record {
    supplied = dispatch-IsSupplied json config clock random e t v.supplied;
    shown = dispatch-IsShown json config clock random e t v.shown;
    rests = elim (dispatch-Edge json config clock random e t) [
      | inl same ↦ ap is_resting same ∙ v.rests
      | inr edge ↦ Edge-rests edge v.rests
    ];
  }

  pub note_activity-IsSound :
      (t : Terminal fs) → IsSound t → IsSound (note_activity json config clock random t)
  unfolding note_activity
  note_activity-IsSound t v = branch (λ x. IsSound x) t.awake t _ v (dispatch-IsSound wake t v)

  pub power_update-IsSound :
      (last_activity now : ℕ) (t : Terminal fs)
      → IsSound t
      → IsSound (power_update json config clock random last_activity now t)
  unfolding power_update
  power_update-IsSound last_activity now t v =
      branch (λ x. IsSound x) (not t.awake) t _ v
        (branch (λ x. IsSound x) _ t _ v (dispatch-IsSound sleep t v))

  -- The result that was watched is cleared.
  cleared-IsSound :
      (t : Terminal fs)
      → IsSound t
      → IsSound (record t { device = Backend.clear (Terminal.device t) })
  unfolding Backend.clear
  cleared-IsSound t v = record {
    supplied = record {
      fits = v.supplied.fits;
      stocked = record {
        stored = v.supplied.stocked.stored;
        some_one = v.supplied.stocked.some_one;
      };
      handed = v.supplied.handed;
    };
    shown = record { lit = v.shown.lit; wanted = v.shown.wanted };
    rests = v.rests;
  }

  judged-IsSound :
      (s : State) (t : Terminal fs) → IsSound t → IsSound (judged json config clock random s t)
  unfolding judged
  judged-IsSound s t v =
      branch (λ x. IsSound x) _ _ _
        (branch (λ x. IsSound x) _ _ _
          (dispatch-IsSound submit_succeeded _ (same-IsSound t _ refl refl refl v))
          (dispatch-IsSound undo_succeeded _ (same-IsSound t _ refl refl refl v)))
        (dispatch-IsSound _ _ (same-IsSound t _ refl refl refl v))

  watched-IsSound :
      (s : State) (t : Terminal fs) → IsSound t → IsSound (watched json config clock random s t)
  unfolding watched
  watched-IsSound s t v = cleared-IsSound _ (judged-IsSound s t v)

  timed_out-IsSound :
      (s : State) (t : Terminal fs) → IsSound t → IsSound (timed_out json config clock random s t)
  unfolding timed_out
  timed_out-IsSound submitting t v =
      branch (λ x. IsSound x) t.app.fail_next_submit _ _
        (dispatch-IsSound submit_failed _ (same-IsSound t _ refl refl refl v))
        (dispatch-IsSound submit_succeeded t v)
  timed_out-IsSound undoing t v =
      dispatch-IsSound undo_succeeded _ (same-IsSound t _ refl refl refl v)
  timed_out-IsSound success t v = dispatch-IsSound dwell t v
  timed_out-IsSound summary t v = dispatch-IsSound dwell t v
  timed_out-IsSound s t v = v

  redraw-IsSound : (t : Terminal fs) → IsSound t → IsSound (redraw json config clock random t)
  unfolding redraw
  redraw-IsSound t v = record {
    supplied = on_state_change-IsSupplied json config clock random t.app.state t v.supplied;
    shown = on_state_change-IsShown json config clock random t.app.state t refl;
    rests =
        ap (λ (a : App). is_resting a.state)
          (on_state_change-Followed json config clock random t.app.state t).same_app
        ∙ v.rests;
  }

  redraw_summary-IsSound :
      (t : Terminal fs) → IsSound t → IsSound (redraw_summary json config clock random t)
  unfolding redraw_summary
  redraw_summary-IsSound t v =
      let t' = with_app t (record (Terminal.app t) { last_summary = t.device.backend.my_state }) in
      let seen = same-IsSound t t' refl refl refl v in
      branch (λ x. IsSound x)
        (not (is_summary t.app.state) || same_summary t.device.backend.my_state t.app.last_summary)
        t _ v
        (branch (λ x. IsSound x) (same_summary t.device.backend.my_state my_loading) t' _ seen
          (redraw-IsSound t' seen))

  update_timed-IsSound :
      (now : ℕ) (t : Terminal fs)
      → IsSound t
      → IsSound (update_timed json config clock random now t)
  unfolding update_timed
  update_timed-IsSound now t v =
      branch (λ x. IsSound x) _ _ _
        (branch (λ x. IsSound x) _ t _ v (watched-IsSound t.app.state t v))
        (branch (λ x. IsSound x) _ t _ v
          (timed_out-IsSound t.app.state _ (same-IsSound t _ refl refl refl v)))

  pub update-IsSound :
      (now : ℕ) (t : Terminal fs) → IsSound t → IsSound (update json config clock random now t)
  unfolding update
  update-IsSound now t v = update_timed-IsSound now _ (redraw_summary-IsSound t v)
