-- ===== src/Screens/Presses.antt =====
-- ui_screens.cpp with app_state.cpp: what a press of one control does to the state.
use beer_tab.Common.{
  ℕ, zero, suc, ◌+◌, ◌≡◌, refl, List, Option, none, some, Bool, true, false, if◌then◌else◌, ◌<◌,
  ◌==◌, arith,
}
use beer_tab.Codec.Loops.{All, All-append}
use beer_tab.Storage.{LittleFs}
use beer_tab.Protocol.Json.{ArduinoJson}
use beer_tab.Client.{Config}
use beer_tab.App.{
  State, selecting_product, new_product, selecting_archived, submitting, undoing, success,
  error_state, Event, product_selected, not_listed, product_restored, resident_selected, undo,
  retry, admin_requested, Terminal,
}
use beer_tab.App.Machine.{enter}
use beer_tab.App.Machine.Events.{on_event, dispatch}
use beer_tab.App.Machine.Diagram.{Edge, browses, invents, undoes, submits_again, undoes_again}
use beer_tab.App.Machine.Walks.{enters}
use beer_tab.Screens.{
  Touch, tile, resident, event_button, archived_tile, header_long_press, touched,
}
use beer_tab.Screens.Widgets.{Widget, touch_of, add_dwell_bar}
use beer_tab.Screens.Parts.{build_each}

-- The event that a press of a control sends.
abbrev event_of : Touch → Option Event
event_of (tile i) = some product_selected
event_of (resident i) = some resident_selected
event_of (event_button e) = some e
event_of (archived_tile i) = some product_restored
event_of header_long_press = some admin_requested
event_of _ = none

abbrev AnEdge : State → Option Event → State → Type 0
AnEdge s none s' = Unit {0}
AnEdge s (some e) s' = Edge s e s'

pub All-build_each :
    (P : Widget → Type 0) (build : ℕ → List Widget) (k i : ℕ)
    → ((j : ℕ) → j < i + k → All P (build j))
    → All P (build_each build k i)
unfolding build_each
All-build_each P build zero i h = tt
All-build_each P build (suc k) i h =
    All-append P (build i) _ (h i (omega arith))
      (All-build_each P build k (i + 1) (λ j l. h j (omega (arith, l))))

module _ {fs : LittleFs} (json : ArduinoJson) (config : Config) (clock random : ℕ) where
  -- A press of the widget walks along an arrow of `dispatch`.
  abbrev pub IsLive : State → Terminal fs → Option Touch → Type 0
  IsLive s t none = Unit {0}
  IsLive s t (some x) = AnEdge s (event_of x) (touched json config clock random x t).app.state

  abbrev pub Alive : State → Terminal fs → List Widget → Type 0
  Alive s t ws = All (λ w. IsLive s t (touch_of w)) ws

  pub either :
      (s : State) (t : Terminal fs) (b : Bool) (xs ys : List Widget)
      → (b ≡ true → Alive s t xs)
      → (b ≡ false → Alive s t ys)
      → Alive s t (if b then xs else ys)
  either s t true xs ys h k = h refl
  either s t false xs ys h k = k refl

  pub walks :
      (s next : State) (e : Event) (t : Terminal fs)
      → Edge s e next
      → Edge s e (enter json config clock random next t).app.state
  walks s next e t edge = rw (enters json config clock random next t) edge

  answered_at :
      (s' s : State) (e : Event) (t : Terminal fs)
      → s' ≡ s
      → Edge s e (on_event json config clock random s e t).app.state
      → Edge s e (on_event json config clock random s' e t).app.state
  answered_at s' s e t h edge = rw h edge

  -- A press that the state `s` answers.
  pub pressed :
      (s : State) (e : Event) (t : Terminal fs)
      → t.app.state ≡ s
      → Edge s e (on_event json config clock random s e t).app.state
      → Edge s e (dispatch json config clock random e t).app.state
  unfolding dispatch
  pressed s e t at edge = answered_at t.app.state s e t at edge

  pub unlisted :
      (t : Terminal fs) (b : Bool)
      → Edge selecting_product not_listed
          (enter json config clock random
            (if b then selecting_archived else new_product)
            t).app.state
  unlisted t true = walks _ _ _ t browses
  unlisted t false = walks _ _ _ t invents

  pub retried :
      (t : Terminal fs) (b : Bool)
      → Edge error_state retry
          (enter json config clock random (if b then undoing else submitting) t).app.state
  retried t true = walks _ _ _ t undoes_again
  retried t false = walks _ _ _ t submits_again

  pub undone_not :
      (t x : Terminal fs) (b : Bool)
      → b ≡ false
      → Edge success undo (if b then t else enter json config clock random undoing x).app.state
  undone_not t x true h = cc
  undone_not t x false h = walks _ _ _ x undoes

  -- The bar at the bottom, whether it is there or not.
  pub bar : (s : State) (t : Terminal fs) (n : ℕ) → Alive s t (add_dwell_bar n)
  bar s t n = either s t (n == 0) _ _ (λ h. tt) (λ h. (tt, tt))
