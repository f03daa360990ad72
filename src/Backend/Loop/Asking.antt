-- ===== src/Backend/Loop/Asking.antt =====
-- backend.cpp: which entry the request under way is for.
use beer_tab.Common.{◌≡◌, ◌⊎◌, inl, inr, List, ◌∷◌, ◌++◌, [], some, Bool, true, false}
use beer_tab.Records.{Entry}
use beer_tab.Queue
use beer_tab.Queue.{Queue, head}
use beer_tab.Protocol.Json.{ArduinoJson}
use beer_tab.Client
use beer_tab.Client.{Config, Client}
use beer_tab.Backend.{Device, request_of}
use beer_tab.Backend.Loop.Delivery.{is_entry}

module _ (json : ArduinoJson) (config : Config) where
  -- The operation and the body under way are those for the head of the queue, and the client has that
  -- body once it is posted.
  pub record IsForHead (d : Device) : Type 0 where
    pub entry : Entry
    pub at_head : head d.queue ≡ some entry
    pub asked : request_of json config entry ≡ (d.backend.op, some d.backend.request)
    pub handed : (d.backend.posted ≡ false) ⊎ (d.client.request ≡ d.backend.request)

  -- No entry is being sent, or the head is.
  abbrev pub Asks : Device → Type 0
  Asks d = (is_entry d.backend.op ≡ false) ⊎ IsForHead d

  head-append :
      (es : List Entry) (e x : Entry) (dirty dirty' : Bool)
      → head (record { items = es; dirty = dirty }) ≡ some e
      → head (record { items = es ++ (x ∷ []); dirty = dirty' }) ≡ some e
  unfolding head
  head-append [] e x dirty dirty' h = cc
  head-append (y ∷ es) e x dirty dirty' h = h

  -- An entry that is appended between two turns leaves the head what it is.
  pub append-Asks :
      (d : Device) (x : Entry)
      → Asks d
      → Asks (record d { queue = record { items = d.queue.items ++ (x ∷ []); dirty = true } })
  append-Asks d x (inl h) = inl h
  append-Asks d x (inr h) = inr (record {
    entry = h.entry;
    at_head = head-append d.queue.items h.entry x d.queue.dirty true h.at_head;
    asked = h.asked;
    handed = h.handed;
  })
