-- ===== src/App/Machine/Soundness.antt =====
-- app_state.cpp: the parts of the invariant of a terminal, over an event.
use beer_tab.Common.{
  ◌≡◌, refl, sym, ap, ◌∙◌, inl, inr, Bool-cases, Option-cases, arith, ℕ, ◌≤◌, Bool, false, not,
  length, none, some, Option, ◌==◌, ℤ, pos, negsuc, get_elem?, length-set, if◌then◌else◌,
}
use beer_tab.Settings.{max_products}
use beer_tab.Records.{Product, Kind, archive, restore}
use beer_tab.Storage.{LittleFs}
use beer_tab.Catalog
use beer_tab.Protocol.Json.{ArduinoJson}
use beer_tab.Client.{Config}
use beer_tab.Backend
use beer_tab.Backend.{Device}
use beer_tab.Backend.Loop.Handover.{HandedOver, set_active-HandedOver}
use beer_tab.Backend.Loop.Holdings.{IsStocked}
use beer_tab.App.{State, waking, selecting_product, Event, App, Terminal, queue_product_entry}
use beer_tab.App.Stored.{items_of}
use beer_tab.App.Machine.{
  ordinal, is_sleeping, with_app, with_ctx, on_enter, on_state_change, arm, enter, begin_purchase,
  confirm, queue_product_change,
}
use beer_tab.App.Machine.Events.{dispatch}
use beer_tab.App.Machine.Handler.{on_state_change-Followed, device-on_state_change}
use beer_tab.App.Machine.Diagram.{Effect, stays, goes, lights_up, buys, shelves, on_event-Effect}
use beer_tab.App.Machine.Paths.{state-prepared}
use beer_tab.App.Machine.Feeding.{
  Fed, on_enter-Fed, queue_product_entry-Fed, app-queue_product_entry,
}
use beer_tab.App.Machine.Room.{Fits, on_enter-Fits, queue_product_entry-Fits}

-- The queue and the catalog fit their arrays, there is somebody to charge, and the client is left
-- alone while it works.
pub record IsSupplied {fs : LittleFs} (t : Terminal fs) : Type 0 where
  pub fits : Fits (items_of t)
  pub stocked : IsStocked t.device
  pub handed : HandedOver t.device

-- The panel is lit, and the backend active, exactly where the state is not the sleeping one.
pub record IsShown {fs : LittleFs} (t : Terminal fs) : Type 0 where
  pub lit : t.awake ≡ not (is_sleeping t.app.state)
  pub wanted : t.device.backend.active ≡ t.awake

Fed-IsSupplied :
    {fs : LittleFs} (t t' : Terminal fs)
    → Fed t t'
    → Fits (items_of t')
    → IsSupplied t
    → IsSupplied t'
Fed-IsSupplied t t' f fits v = record {
  fits = fits;
  stocked = record {
    stored = rw f.same_catalog v.stocked.stored;
    some_one = rw f.same_residents v.stocked.some_one;
  };
  handed = f.handed v.handed;
}

-- Only the device counts.
pub device-IsSupplied :
    {fs : LittleFs} (t t' : Terminal fs) → t'.device ≡ t.device → IsSupplied t → IsSupplied t'
device-IsSupplied t t' e v = record {
  fits = rw (items_of, e) v.fits;
  stocked = rw e v.stocked;
  handed = rw e v.handed;
}

archive_bounds :
    (c : Catalog.Catalog) (i : ℤ)
    → length c.items ≤ max_products
    → length (Catalog.archive c i).0.items ≤ max_products
unfolding Catalog.archive
archive_bounds c (negsuc n) h = h
archive_bounds c (pos i) h = elim (Option-cases (get_elem? c.items i)) [
  | inl e ↦ ground (arith, e, h)
  | inr (p, e) ↦ ground (arith, e, h, length-set c.items i (record p { active = false }))
]

module _ {fs : LittleFs} (json : ArduinoJson) (config : Config) (clock random : ℕ) where
  device-arm : (t : Terminal fs) → (arm json config clock random t).device ≡ t.device
  device-arm t = ground arith

  pub on_state_change-IsSupplied :
      (s : State) (t : Terminal fs)
      → IsSupplied t
      → IsSupplied (on_state_change json config clock random s t)
  on_state_change-IsSupplied s t v =
      let a = (on_state_change-Followed json config clock random s t).device in
      record {
        fits = rw (items_of, a.kept_queue) v.fits;
        stocked = record {
          stored = rw a.kept_catalog v.stocked.stored;
          some_one = rw a.kept_residents v.stocked.some_one;
        };
        handed =
            rw (device-on_state_change json config clock random s t)
              (set_active-HandedOver json config t.device (not (is_sleeping s)) clock v.handed);
      }

  pub enter-IsSupplied :
      (s : State) (t : Terminal fs) → IsSupplied t → IsSupplied (enter json config clock random s t)
  unfolding enter
  enter-IsSupplied s t v =
      let t' = with_app t (record (Terminal.app t) { state = s; deadline = 0; dwell_total = 0 }) in
      let t'' = on_enter json config clock random s t' in
      let v' : IsSupplied t' = record { fits = v.fits; stocked = v.stocked; handed = v.handed } in
      elim (Bool-cases (ordinal s == ordinal t.app.state)) [
        | inl b ↦ rw b v
        | inr b ↦ rw b (
            on_state_change-IsSupplied s (arm json config clock random t'') (
              device-IsSupplied t'' (arm json config clock random t'') (device-arm t'') (
                Fed-IsSupplied t' t'' (on_enter-Fed json config clock random s t')
                  (on_enter-Fits json config clock random s t' v.fits) v')))
      ]

  -- An entry for a product, if there is one.
  pub product_entry-IsSupplied :
      (o : Option Product) (k : Kind) (t : Terminal fs)
      → IsSupplied t
      → IsSupplied (elim o [ none ↦ t | some p ↦ queue_product_entry json config clock t p k ])
  product_entry-IsSupplied none k t v = v
  product_entry-IsSupplied (some p) k t v =
      Fed-IsSupplied t _ (queue_product_entry-Fed json config clock t p k)
        (queue_product_entry-Fits json config clock t p k v.fits) v

  pub queue_product_change-IsSupplied :
      (i : ℤ) (active : Bool) (t : Terminal fs)
      → IsSupplied t
      → IsSupplied (queue_product_change json config clock random i active t)
  unfolding queue_product_change
  queue_product_change-IsSupplied i active t v =
      product_entry-IsSupplied (Catalog.at_storage t.device.catalog i)
        (if active then restore else archive) t v

  confirm-IsSupplied :
      (t : Terminal fs) → IsSupplied t → IsSupplied (confirm json config clock random t)
  unfolding confirm
  confirm-IsSupplied t v =
      let i = t.app.ctx.archive_storage_index in
      let t' = queue_product_change json config clock random i false t in
      let v' = queue_product_change-IsSupplied i false t v in
      enter-IsSupplied selecting_product _ (record {
        fits = v'.fits;
        stocked = record {
          stored = archive_bounds t'.device.catalog i v'.stocked.stored;
          some_one = v'.stocked.some_one;
        };
        handed = v'.handed;
      })

  begin_purchase-IsSupplied :
      (t : Terminal fs) → IsSupplied t → IsSupplied (begin_purchase json config clock random t)
  unfolding Backend.clear
  begin_purchase-IsSupplied t v = enter-IsSupplied _ _ (record {
    fits = v.fits;
    stocked = record { stored = v.stocked.stored; some_one = v.stocked.some_one };
    handed = v.handed;
  })

  Effect-IsSupplied :
      (s : State) (e : Event) (t x : Terminal fs)
      → IsSupplied t
      → Effect json config clock random s e t x
      → IsSupplied x
  Effect-IsSupplied s e t x v (stays eq) = rw eq v
  Effect-IsSupplied s e t x v (goes next c edge tid eq) =
      rw eq (enter-IsSupplied next (with_ctx t c) (device-IsSupplied t (with_ctx t c) refl v))
  Effect-IsSupplied s e t x v (lights_up edge eq) =
      rw eq (enter-IsSupplied selecting_product _ (enter-IsSupplied waking t v))
  Effect-IsSupplied s e t x v (buys edge eq) = rw eq (begin_purchase-IsSupplied t v)
  Effect-IsSupplied s e t x v (shelves edge eq) = rw eq (confirm-IsSupplied t v)

  pub dispatch-IsSupplied :
      (e : Event) (t : Terminal fs)
      → IsSupplied t
      → IsSupplied (dispatch json config clock random e t)
  unfolding dispatch
  dispatch-IsSupplied e t v =
      Effect-IsSupplied t.app.state e t _ v
        (on_event-Effect json config clock random t.app.state e t)

  pub on_state_change-IsShown :
      (s : State) (t : Terminal fs)
      → t.app.state ≡ s
      → IsShown (on_state_change json config clock random s t)
  on_state_change-IsShown s t at =
      let f = on_state_change-Followed json config clock random s t in
      record {
        lit =
            f.is_lit
            ∙ ap (λ x. not (is_sleeping x)) (sym (ap (λ (a : App). a.state) f.same_app ∙ at));
        wanted = f.device.is_active ∙ sym f.is_lit;
      }

  -- A state that is new.
  pub enter_new-IsShown :
      (s : State) (t : Terminal fs)
      → (ordinal s == ordinal t.app.state) ≡ false
      → IsShown (enter json config clock random s t)
  unfolding enter
  enter_new-IsShown s t b =
      let t' = with_app t (record (Terminal.app t) { state = s; deadline = 0; dwell_total = 0 }) in
      let t'' = arm json config clock random (on_enter json config clock random s t') in
      rw b (on_state_change-IsShown s t'' (state-prepared json config clock random s t'))

  pub enter-IsShown :
      (s : State) (t : Terminal fs) → IsShown t → IsShown (enter json config clock random s t)
  unfolding enter
  enter-IsShown s t v = elim (Bool-cases (ordinal s == ordinal t.app.state)) [
    | inl b ↦ rw b v
    | inr b ↦ enter_new-IsShown s t b
  ]

  -- What the panel and the radio go by is the same.
  pub same-IsShown :
      (t t' : Terminal fs)
      → t'.app.state ≡ t.app.state
      → t'.awake ≡ t.awake
      → t'.device.backend.active ≡ t.device.backend.active
      → IsShown t
      → IsShown t'
  same-IsShown t t' s a d v = record {
    lit = a ∙ v.lit ∙ ap (λ x. not (is_sleeping x)) (sym s);
    wanted = d ∙ v.wanted ∙ sym a;
  }

  pub product_entry-IsShown :
      (o : Option Product) (k : Kind) (t : Terminal fs)
      → IsShown t
      → IsShown (elim o [ none ↦ t | some p ↦ queue_product_entry json config clock t p k ])
  product_entry-IsShown none k t v = v
  product_entry-IsShown (some p) k t v =
      let f = queue_product_entry-Fed json config clock t p k in
      same-IsShown t _ (ap (λ (a : App). a.state) (app-queue_product_entry json config clock t p k))
        f.same_awake f.same_active v

  pub queue_product_change-IsShown :
      (i : ℤ) (active : Bool) (t : Terminal fs)
      → IsShown t
      → IsShown (queue_product_change json config clock random i active t)
  unfolding queue_product_change
  queue_product_change-IsShown i active t v =
      product_entry-IsShown (Catalog.at_storage t.device.catalog i)
        (if active then restore else archive) t v

  pub state-product_entry :
      (o : Option Product) (k : Kind) (t : Terminal fs)
      → let t' : Terminal fs = elim o [
        | none ↦ t
        | some p ↦ queue_product_entry json config clock t p k
      ] in
        t'.app.state ≡ t.app.state
  state-product_entry none k t = refl
  state-product_entry (some p) k t =
      ap (λ (a : App). a.state) (app-queue_product_entry json config clock t p k)

  pub state-queue_product_change :
      (i : ℤ) (active : Bool) (t : Terminal fs)
      → (queue_product_change json config clock random i active t).app.state ≡ t.app.state
  unfolding queue_product_change
  state-queue_product_change i active t =
      state-product_entry (Catalog.at_storage t.device.catalog i)
        (if active then restore else archive) t

  confirm-IsShown : (t : Terminal fs) → IsShown t → IsShown (confirm json config clock random t)
  unfolding confirm
  confirm-IsShown t v =
      let t' =
        queue_product_change json config clock random t.app.ctx.archive_storage_index false t in
      let v' = queue_product_change-IsShown t.app.ctx.archive_storage_index false t v in
      enter-IsShown selecting_product _ (same-IsShown t' _ refl refl refl v')

  Effect-IsShown :
      (s : State) (e : Event) (t x : Terminal fs)
      → IsShown t
      → Effect json config clock random s e t x
      → IsShown x
  Effect-IsShown s e t x v (stays eq) = rw eq v
  Effect-IsShown s e t x v (goes next c edge tid eq) =
      rw eq (enter-IsShown next (with_ctx t c) (record { lit = v.lit; wanted = v.wanted }))
  Effect-IsShown s e t x v (lights_up edge eq) =
      rw eq (enter-IsShown selecting_product _ (enter-IsShown waking t v))
  Effect-IsShown s e t x v (buys edge eq) =
      rw eq (unfold Backend.clear in enter-IsShown _ _ (record { lit = v.lit; wanted = v.wanted }))
  Effect-IsShown s e t x v (shelves edge eq) = rw eq (confirm-IsShown t v)

  pub dispatch-IsShown :
      (e : Event) (t : Terminal fs) → IsShown t → IsShown (dispatch json config clock random e t)
  unfolding dispatch
  dispatch-IsShown e t v =
      Effect-IsShown t.app.state e t _ v (on_event-Effect json config clock random t.app.state e t)
