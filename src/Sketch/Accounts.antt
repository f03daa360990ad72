-- ===== src/Sketch/Accounts.antt =====
-- beer_terminal.ino: one entry of the queue over a run.
use beer_tab.Common.{
  ◌≡◌, refl, ◌⊎◌, inl, inr, Bool-cases, arith, Bool, true, false, List, [], ◌∷◌, ◌++◌, Option, none,
  some, Text,
}
use beer_tab.Records.{Entry}
use beer_tab.Storage.{LittleFs}
use beer_tab.Queue.{Queue, is_purchase_of, pop, head}
use beer_tab.Queue.Bounds.{items-flush}
use beer_tab.Protocol.Json.{ArduinoJson}
use beer_tab.Client.{Config}
use beer_tab.Client.Worker.{Http}
use beer_tab.Backend.Loop
use beer_tab.Backend.Loop.Delivery.{Acknowledged, update_queue}
use beer_tab.App.{Terminal}
use beer_tab.App.Stored.{items_of}
use beer_tab.App.Machine.Shifts.{Shift, grows, loses}
use beer_tab.App.Machine.Events.{power_update}
use beer_tab.App.Machine.Updates.{
  Appends, Appends-refl, Appends-same, Appends-trans, note_activity-Appends, power_update-Appends,
  update-Appends,
}
use beer_tab.Screens.{Touch, touched}
use beer_tab.Screens.Moves.{takes_back_touch, touched-Shift}
use beer_tab.Sketch.{
  Sketch, Turn, read_touch, flush_all, is_busy, noted, powered, tuned, synced, pressed, displayed,
  before_backend, before_display, loop, work,
}
use beer_tab.Sketch.Runs.{Happening, turned, worked, happen, run}

-- The entry stands in the list.
pub data Waits (e : Entry) : List Entry → Type 0 where
  here : {es : List Entry} → Waits e (e ∷ es)
  behind : {x : Entry} {es : List Entry} → Waits e es → Waits e (x ∷ es)

Waits-append : (e : Entry) (es added : List Entry) → Waits e es → Waits e (es ++ added)
Waits-append e [] added w = elim w [ ]
Waits-append e (x ∷ es) added here = here
Waits-append e (x ∷ es) added (behind w) = behind (Waits-append e es added w)

-- Where one entry is taken out of a list, another still stands there.
Waits-without :
    (e x : Entry) (before after : List Entry)
    → Waits e (before ++ (x ∷ after))
    → Waits e (before ++ after) ⊎ (x ≡ e)
Waits-without e x [] after here = inr refl
Waits-without e x [] after (behind w) = inl w
Waits-without e x (b ∷ before) after here = inl here
Waits-without e x (b ∷ before) after (behind w) = elim (Waits-without e x before after w) [
  | inl v ↦ inl (behind v)
  | inr q ↦ inr q
]

Waits-Shift :
    (e : Entry) (back : Bool) (id : Text) (es es' : List Entry)
    → Shift back id es es'
    → Waits e es
    → Waits e es' ⊎ ((back ≡ true) × (is_purchase_of id e ≡ true))
Waits-Shift e back id es es' (grows added h) w = inl (rw h (Waits-append e es added w))
Waits-Shift e back id es es' (loses b f) w =
    elim (Waits-without e f.entry f.before f.behind (rw f.split at w)) [
      | inl v ↦ inl (rw f.removed v)
      | inr q ↦ inr (b, rw⁻¹ q f.is_found)
    ]

Waits-pop :
    (e : Entry) (es : List Entry) (dirty : Bool)
    → Waits e es
    → let q : Queue = record { items = es; dirty = dirty } in
      Waits e (pop q).items ⊎ (head q ≡ some e)
unfolding pop head
Waits-pop e [] dirty w = elim w [ ]
Waits-pop e (x ∷ es) dirty here = inr refl
Waits-pop e (x ∷ es) dirty (behind w) = inl w

-- The control that is pressed is an undo or a retry, and the entry is a purchase with the transaction
-- id of the terminal.
pub record TakenBack {fs : LittleFs} (e : Entry) (i : Turn) (t : Terminal fs) : Type 0 where
  pub touch : Touch
  pub is_touch : i.touch ≡ some touch
  pub takes_back : takes_back_touch touch ≡ true
  pub is_it : is_purchase_of t.app.ctx.transaction_id e ≡ true

items-read_touch :
    {fs : LittleFs} (finger : Bool) (t : Terminal fs)
    → items_of (read_touch finger t).0 ≡ items_of t
unfolding read_touch
items-read_touch finger t = ground arith

app-read_touch :
    {fs : LittleFs} (finger : Bool) (t : Terminal fs) → (read_touch finger t).0.app ≡ t.app
unfolding read_touch
app-read_touch finger t = ground arith

items-flush_all : {fs : LittleFs} (t : Terminal fs) → items_of (flush_all t) ≡ items_of t
unfolding flush_all
items-flush_all t = items-flush _ t.device.queue

module _ {fs : LittleFs} (json : ArduinoJson) (config : Config) where
  -- The two ways out of the queue, in a turn of the loop: the entry is at the head of the queue that
  -- the backend finds, which takes the head out on a verdict of the server; or it is undone.
  pub data Leaves (e : Entry) (i : Turn) (s : Sketch fs) : Type 0 where
    answered :
        head (before_backend json config i s).device.queue ≡ some e
        → Acknowledged json
            (before_backend json config i s).device
            (Loop.update json config (before_backend json config i s).device i.now i.clock)
        → Leaves e i s
    undone : TakenBack e i (before_display json config i s) → Leaves e i s

  -- A part of a turn that only appends.
  Appends-Waits :
      (e : Entry) (t t' : Terminal fs) → Appends t t' → Waits e (items_of t) → Waits e (items_of t')
  Appends-Waits e t t' a w = elim (Waits-Shift e false [] _ _ a.shift w) [
    | inl v ↦ v
    | inr (b, q) ↦ cc
  ]

  noted-Appends : (i : Turn) (s : Sketch fs) → Appends s.terminal (noted json config i s).terminal
  unfolding noted
  noted-Appends i s = elim (Bool-cases i.finger) [
    | inl b ↦ rw b (note_activity-Appends json config i.clock i.random s.terminal)
    | inr b ↦ rw b (Appends-refl s.terminal)
  ]

  before_backend-Appends :
      (i : Turn) (s : Sketch fs) → Appends s.terminal (before_backend json config i s)
  unfolding before_backend powered tuned
  before_backend-Appends i s =
      let n = noted json config i s in
      let p = power_update json config i.clock i.random n.last_activity i.now n.terminal in
      Appends-trans s.terminal p _
        (Appends-trans s.terminal n.terminal p (noted-Appends i s)
          (power_update-Appends json config i.clock i.random n.last_activity i.now n.terminal))
        (Appends-same p _ refl)

  synced-Waits :
      (e : Entry) (i : Turn) (t : Terminal fs)
      → Waits e (items_of t)
      → Waits e (items_of (synced json config i t))
        ⊎ ((head t.device.queue ≡ some e)
            × Acknowledged json t.device (Loop.update json config t.device i.now i.clock))
  unfolding synced
  synced-Waits e i t w = elim (update_queue json config t.device i.now i.clock) [
    | inl q ↦ inl (rw (items_of, q) w)
    | inr a ↦ elim (Waits-pop e t.device.queue.items t.device.queue.dirty w) [
      | inl v ↦ inl (rw (items_of, a.popped) v)
      | inr h ↦ inr (h, a)
    ]
  ]

  touched-Waits :
      (e : Entry) (i : Turn) (c : Touch) (t t' : Terminal fs)
      → i.touch ≡ some c
      → t'.app ≡ t.app
      → Waits e (items_of t')
      → Waits e (items_of (touched json config i.clock i.random c t')) ⊎ TakenBack e i t
  touched-Waits e i c t t' at same w =
      elim (Waits-Shift e (takes_back_touch c) _ _ _
        (touched-Shift json config i.clock i.random c t') w) [
          | inl v ↦ inl v
          | inr (b, q) ↦
              inr (record { touch = c; is_touch = at; takes_back = b; is_it = rw⁻¹ same q })
        ]

  pressed-Waits :
      (e : Entry) (i : Turn) (o : Option Touch) (live : Bool) (t t' : Terminal fs)
      → i.touch ≡ o
      → t'.app ≡ t.app
      → Waits e (items_of t')
      → Waits e (items_of (pressed json config i o live t')) ⊎ TakenBack e i t
  unfolding pressed
  pressed-Waits e i none live t t' at same w = inl w
  pressed-Waits e i (some c) false t t' at same w = inl w
  pressed-Waits e i (some c) true t t' at same w = touched-Waits e i c t t' at same w

  displayed-Waits :
      (e : Entry) (i : Turn) (t : Terminal fs)
      → Waits e (items_of t)
      → Waits e (items_of (displayed json config i t)) ⊎ TakenBack e i t
  unfolding displayed
  displayed-Waits e i t w =
      pressed-Waits e i i.touch (read_touch i.finger t).1 t (read_touch i.finger t).0 refl
        (app-read_touch i.finger t) (rw (items-read_touch i.finger t) w)

  loop-Waits :
      (e : Entry) (i : Turn) (s : Sketch fs)
      → Waits e (items_of s.terminal)
      → Waits e (items_of (loop json config i s).terminal) ⊎ Leaves e i s
  unfolding loop before_display
  loop-Waits e i s w =
      let t1 = before_backend json config i s in
      let t2 = synced json config i t1 in
      let t3 = before_display json config i s in
      elim (synced-Waits e i t1 (Appends-Waits e s.terminal t1 (before_backend-Appends i s) w)) [
        | inr (h, a) ↦ inr (answered h a)
        | inl v ↦
            elim (displayed-Waits e i t3
              (Appends-Waits e t2 t3 (update-Appends json config i.clock i.random i.now t2) v)) [
                | inr u ↦ inr (undone u)
                | inl x ↦ inl (rw (items-flush_all (displayed json config i t3)) x)
              ]
      ]

  items-work :
      (http : Http) (s : Sketch fs)
      → items_of (work json config http s).terminal ≡ items_of s.terminal
  unfolding work is_busy
  items-work http s = elim (Bool-cases (is_busy s.terminal.device.client.status)) [
    | inl b ↦ rw b refl
    | inr b ↦ rw b refl
  ]

  -- An entry leaves in one of the turns of a run.
  pub data Left (e : Entry) : Sketch fs → List Happening → Type 0 where
    now : {i : Turn} {s : Sketch fs} {hs : List Happening} → Leaves e i s → Left e s (turned i ∷ hs)
    later :
        {h : Happening} {s : Sketch fs} {hs : List Happening}
        → Left e (happen json config h s) hs
        → Left e s (h ∷ hs)

  happen-Waits :
      (e : Entry) (h : Happening) (s : Sketch fs) (hs : List Happening)
      → Waits e (items_of s.terminal)
      → Waits e (items_of (happen json config h s).terminal) ⊎ Left e s (h ∷ hs)
  unfolding happen
  happen-Waits e (worked http) s hs w = inl (rw (items-work http s) w)
  happen-Waits e (turned i) s hs w = elim (loop-Waits e i s w) [
    | inl v ↦ inl v
    | inr l ↦ inr (now l)
  ]

  -- However long the sketch runs, and whatever is touched and whatever the network answers: an entry
  -- that waits in the queue still waits at the end, or there was a turn in which it stood at the head
  -- of the queue when the complete answer to an operation on an entry, whichever that was, was a
  -- verdict of the server, or one in which a press of the undo or the retry button was made while it
  -- was a purchase with the transaction id of the context.
  pub run-Waits :
      (hs : List Happening) (s : Sketch fs) (e : Entry)
      → Waits e (items_of s.terminal)
      → Waits e (items_of (run json config hs s).terminal) ⊎ Left e s hs
  unfolding run
  run-Waits [] s e w = inl w
  run-Waits (h ∷ hs) s e w = elim (happen-Waits e h s hs w) [
    | inr l ↦ inr l
    | inl v ↦ elim (run-Waits hs (happen json config h s) e v) [
      | inl x ↦ inl x
      | inr l ↦ inr (later l)
    ]
  ]
