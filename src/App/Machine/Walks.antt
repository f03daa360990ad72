-- ===== src/App/Machine/Walks.antt =====
-- app_state.cpp: `dispatch` beside the relation of its cases.
use beer_tab.Common.{◌≡◌, refl, ◌⊎◌, inl, inr, ℕ, Bool, true, false, List, [], ◌∷◌, some, get_elem?}
use beer_tab.Storage.{LittleFs}
use beer_tab.Protocol.Json.{ArduinoJson}
use beer_tab.Client.{Config}
use beer_tab.App.{
  State, sleeping, waking, selecting_product, looking_up, product_found, new_product,
  selecting_user, selecting_archived, manage_product, confirm_archive, submitting, undoing, success,
  summary, error_state, admin, Event, Terminal,
}
use beer_tab.App.Machine.{ordinal, enter, confirm}
use beer_tab.App.Machine.Events.{on_event, dispatch}
use beer_tab.App.Machine.Paths.{state-enter}
use beer_tab.App.Machine.Diagram.{
  Edge, wakes, finds, Effect, stays, goes, lights_up, buys, shelves, on_event-Effect,
}

-- In the order of the enumeration.
abbrev all_states : List State
all_states =
    sleeping ∷ waking ∷ selecting_product ∷ looking_up ∷ product_found ∷ new_product
    ∷ selecting_user ∷ selecting_archived ∷ manage_product ∷ confirm_archive ∷ submitting ∷ undoing
    ∷ success ∷ summary ∷ error_state ∷ admin ∷ []

get_elem?-ordinal : (s : State) → get_elem? all_states (ordinal s) ≡ some s
get_elem?-ordinal sleeping = refl
get_elem?-ordinal _ = refl

pub ordinal_inj : (s s' : State) → ordinal s ≡ ordinal s' → s ≡ s'
ordinal_inj s s' h = let e = get_elem?-ordinal s in let e' = get_elem?-ordinal s' in cc

-- WAKING is only passed through; nothing leads to LOOKING_UP, nor from there to PRODUCT_FOUND.
abbrev pub is_resting : State → Bool
is_resting waking = false
is_resting looking_up = false
is_resting product_found = false
is_resting _ = true

pub Edge-rests :
    {s s' : State} {e : Event} → Edge s e s' → is_resting s ≡ true → is_resting s' ≡ true
Edge-rests wakes h = refl
Edge-rests finds h = cc
Edge-rests _ h = refl

module _ {fs : LittleFs} (json : ArduinoJson) (config : Config) (clock random : ℕ) where
  pub enters : (s : State) (t : Terminal fs) → (enter json config clock random s t).app.state ≡ s
  enters s t = ordinal_inj _ s (state-enter json config clock random s t)

  ends :
      (s next : State) (e : Event) (t x y : Terminal fs)
      → Edge s e next
      → x ≡ enter json config clock random next y
      → (x.app.state ≡ s) ⊎ Edge s e x.app.state
  ends s next e t x y edge eq = inr (rw (eq, enters next y) edge)

  pub state-confirm :
      (t : Terminal fs) → (confirm json config clock random t).app.state ≡ selecting_product
  unfolding confirm
  state-confirm t = enters selecting_product _

  Effect-Edge :
      (s : State) (e : Event) (t x : Terminal fs)
      → t.app.state ≡ s
      → Effect json config clock random s e t x
      → (x.app.state ≡ s) ⊎ Edge s e x.app.state
  Effect-Edge s e t x at (stays eq) = inl (rw eq at)
  Effect-Edge s e t x at (goes next c edge tid eq) = ends s next e t x _ edge eq
  Effect-Edge s e t x at (lights_up edge eq) = ends s selecting_product e t x _ edge eq
  Effect-Edge s e t x at (buys edge eq) = ends s submitting e t x _ edge eq
  Effect-Edge s e t x at (shelves edge eq) = inr (rw (eq, state-confirm t) edge)

  -- Whatever the event, `dispatch` ends in the state that it began in, or in one that its `switch`
  -- leads to on that event.
  pub dispatch-Edge :
      (e : Event) (t : Terminal fs)
      → let t' = dispatch json config clock random e t in
        (t'.app.state ≡ t.app.state) ⊎ Edge t.app.state e t'.app.state
  unfolding dispatch
  dispatch-Edge e t =
      Effect-Edge t.app.state e t (on_event json config clock random t.app.state e t) refl
        (on_event-Effect json config clock random t.app.state e t)
