-- ===== src/Backend/Loop/Holdings.antt =====
-- backend.cpp: the products, the residents and the switch of the radio over a turn of `update`.
use beer_tab.Common.{
  ℕ, ◌≤◌, ◌<◌, ◌≡◌, refl, List, [], ◌∷◌, Bool, true, false, not, Text, ascii, length, length-append,
  arith,
}
use beer_tab.Settings.{max_products}
use beer_tab.Records.{Product}
use beer_tab.Wifi.{online}
use beer_tab.Catalog
use beer_tab.Catalog.{Catalog, append_local, superseded, local_products}
use beer_tab.Protocol.Json.{ArduinoJson}
use beer_tab.Protocol.Responses.{
  Outcome, ok, malformed, rejected, too_many_items, SyncResult, parse_sync,
}
use beer_tab.Client
use beer_tab.Client.{Config, Status, idle, busy, done, failed, configured, error_text}
use beer_tab.Backend.{
  Op, op_none, op_sync, op_purchase, op_void, op_my_summary, Device, is_my_summary, is_free, finish,
  my_unavailable_if, unreachable, note_send_failure, apply_summary, apply_catalog, apply_sync,
  my_summary_body,
}
use beer_tab.Backend.Loop.{
  acknowledge, drain_or_sync, update_free, update_waiting, update_posted, answered, update,
}
use beer_tab.Backend.Loop.Delivery.{pick}
use beer_tab.Backend.Loop.Syncing.{apply_sync_some}
use beer_tab.Backend.Loop.Frame.{
  SameData, SameData-refl, SameData-trans, start-SameData, send_queued_now-SameData,
  request_sync-SameData,
}

drain_or_sync-SameData :
    (json : ArduinoJson) (config : Config) (d : Device) (now clock : ℕ)
    → SameData d (drain_or_sync json config d now clock)
unfolding drain_or_sync
drain_or_sync-SameData json config d now clock = ground (
  arith,
  SameData-refl d,
  send_queued_now-SameData json config d clock,
  request_sync-SameData json config d clock,
)

my_unavailable-SameData : (d : Device) → SameData d (my_unavailable_if true d)
my_unavailable-SameData d = record {
  same_queue = refl;
  same_catalog = refl;
  same_residents = refl;
  same_active = refl;
  same_client = refl;
}

pub update_free-SameData :
    (json : ArduinoJson) (config : Config) (d : Device) (now clock : ℕ)
    → SameData d (update_free json config d now clock)
unfolding update_free
update_free-SameData json config d now clock =
    let d' = my_unavailable_if true d in
    ground (
      arith,
      drain_or_sync-SameData json config d now clock,
      SameData-trans d d' (drain_or_sync json config d' now clock) (my_unavailable-SameData d)
          (drain_or_sync-SameData json config d' now clock),
      start-SameData d op_my_summary (my_summary_body json config d.backend.my_resident) now clock,
    )

-- The products fit their array, and there is somebody to charge.
pub record IsStocked (d : Device) : Type 0 where
  pub stored : length d.catalog.items ≤ max_products
  pub some_one : 0 < length d.residents.entries

append_local_bounds :
    (synced ps acc : List Product)
    → length acc ≤ max_products
    → length (append_local synced acc ps) ≤ max_products
unfolding append_local
append_local_bounds synced [] acc h = h
append_local_bounds synced (p ∷ ps) acc h =
    append_local_bounds synced ps _ (ground (arith, h, length-append acc (p ∷ [])))

replace_all_bounds :
    (c : Catalog) (synced : List Product) (revision : ℕ)
    → length c.items ≤ max_products
    → length (Catalog.replace_all c synced revision).0.items ≤ max_products
unfolding Catalog.replace_all
replace_all_bounds c synced revision h =
    ground (arith, h, append_local_bounds synced (local_products c.items) synced)

pub SameData-IsStocked : (d d' : Device) → SameData d d' → IsStocked d → IsStocked d'
SameData-IsStocked d d' s h = record {
  stored = rw s.same_catalog h.stored;
  some_one = rw s.same_residents h.some_one;
}

-- The same catalog, residents and switch, whatever else.
pub record Aside (d d' : Device) : Type 0 where
  pub same_catalog : d'.catalog ≡ d.catalog
  pub same_residents : d'.residents ≡ d.residents
  pub same_active : d'.backend.active ≡ d.backend.active

Aside-unreachable : (d : Device) (now : ℕ) (m : Text) → Aside d (unreachable d now m)
unfolding unreachable finish note_send_failure
Aside-unreachable d now m = record {
  same_catalog = ground arith;
  same_residents = ground arith;
  same_active = ground arith;
}

pub Aside-gone :
    (b : Bool) (d : Device) (now : ℕ) (m : Text)
    → Aside d (unreachable (my_unavailable_if b d) now m)
Aside-gone true d now m =
    let a = Aside-unreachable (my_unavailable_if true d) now m in
    record {
      same_catalog = a.same_catalog;
      same_residents = a.same_residents;
      same_active = a.same_active;
    }
Aside-gone false d now m = Aside-unreachable d now m

pub Aside-acknowledge :
    (o : Outcome) (err : Text) (duplicate : Bool) (d : Device) (now : ℕ)
    → Aside d (acknowledge o err duplicate d now)
unfolding acknowledge finish
Aside-acknowledge ok err duplicate d now = record {
  same_catalog = refl;
  same_residents = refl;
  same_active = refl;
}
Aside-acknowledge rejected err duplicate d now = record {
  same_catalog = refl;
  same_residents = refl;
  same_active = refl;
}
Aside-acknowledge malformed err duplicate d now = Aside-unreachable d now _
Aside-acknowledge too_many_items err duplicate d now = Aside-unreachable d now _

-- What a turn keeps.
pub record Kept (d d' : Device) : Type 0 where
  pub stocked : IsStocked d → IsStocked d'
  pub switch : d'.backend.active ≡ d.backend.active

Kept-Aside : (d d' : Device) → Aside d d' → Kept d d'
Kept-Aside d d' a = record {
  stocked = λ h. record {
    stored = rw a.same_catalog h.stored;
    some_one = rw a.same_residents h.some_one;
  };
  switch = a.same_active;
}

Kept-SameData : (d d' : Device) → SameData d d' → Kept d d'
Kept-SameData d d' s = record { stocked = SameData-IsStocked d d' s; switch = s.same_active }

module _ (json : ArduinoJson) (config : Config) where
  apply_catalog_bounds :
      (d : Device) (s : SyncResult)
      → length d.catalog.items ≤ max_products
      → length (apply_catalog d s).catalog.items ≤ max_products
  unfolding apply_catalog
  apply_catalog_bounds d s h = ground (arith, h, replace_all_bounds d.catalog s.products s.revision)

  catalog-apply_summary : (d : Device) (s : SyncResult) → (apply_summary d s).catalog ≡ d.catalog
  unfolding apply_summary
  catalog-apply_summary d s = ground arith

  apply_sync_bounds :
      (d : Device)
      → length d.catalog.items ≤ max_products
      → length (apply_sync json config d).catalog.items ≤ max_products
  unfolding apply_sync
  apply_sync_bounds d h =
      let s = (parse_sync json d.client.response d.backend.sync 64).2 in
      let d' = record d { backend = record (Device.backend d) { sync = s } } in
      ground
        (arith, h, apply_catalog_bounds (apply_summary d' s) s (rw (catalog-apply_summary d' s) h))

  active-apply_sync : (d : Device) → (apply_sync json config d).backend.active ≡ d.backend.active
  unfolding apply_sync apply_summary apply_catalog
  active-apply_sync d = ground arith

  Kept-answered : (op : Op) (d : Device) (now : ℕ) → Kept d (answered json config op d now)
  unfolding answered finish
  Kept-answered op_my_summary d now =
      Kept-Aside d _ (record { same_catalog = refl; same_residents = refl; same_active = refl })
  Kept-answered op_sync d now = record {
    stocked = λ h. record {
      stored = apply_sync_bounds d h.stored;
      some_one = apply_sync_some json config d h.some_one;
    };
    switch = active-apply_sync d;
  }
  Kept-answered op_purchase d now = Kept-Aside d _ (Aside-acknowledge _ _ _ d now)
  Kept-answered op_void d now = Kept-Aside d _ (Aside-acknowledge _ _ _ d now)
  Kept-answered op_none d now = Kept-Aside d _ (Aside-acknowledge _ _ _ d now)

  Kept-update_posted :
      (s : Status) (d : Device) (now : ℕ) → Kept d (update_posted json config s d now)
  unfolding update_posted
  Kept-update_posted idle d now = Kept-SameData d d (SameData-refl d)
  Kept-update_posted busy d now = Kept-SameData d d (SameData-refl d)
  Kept-update_posted failed d now = Kept-Aside d _ (Aside-gone _ d now _)
  Kept-update_posted done d now = Kept-answered d.backend.op d now

  pub Aside-update_waiting : (d : Device) (now : ℕ) → Aside d (update_waiting json config d now)
  unfolding update_waiting
  Aside-update_waiting d now =
      let posted = record d {
        client = (Client.post config d.client (online d.wifi) d.backend.request).0;
      } in
      let u = Aside-unreachable posted now (error_text posted.client) in
      let g = Aside-gone (is_my_summary d.backend.op) d now (ascii "Kein WLAN") in
      record {
        same_catalog = ground (arith, u.same_catalog, g.same_catalog);
        same_residents = ground (arith, u.same_residents, g.same_residents);
        same_active = ground (arith, u.same_active, g.same_active);
      }

  pub update-Kept : (d : Device) (now clock : ℕ) → Kept d (update json config d now clock)
  unfolding update
  update-Kept d now clock =
      pick (Kept d) (not (configured config)) d _ (λ b. Kept-SameData d d (SameData-refl d))
        (λ b.
          pick (Kept d) (is_free d.backend.op) (update_free json config d now clock) _
            (λ f. Kept-SameData d _ (update_free-SameData json config d now clock))
            (λ f.
              pick (Kept d) (not d.backend.posted) (update_waiting json config d now)
                (update_posted json config d.client.status d now)
                (λ p. Kept-Aside d _ (Aside-update_waiting d now))
                (λ p. Kept-update_posted d.client.status d now)))
