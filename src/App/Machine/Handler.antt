-- ===== src/App/Machine/Handler.antt =====
-- beer_terminal.ino: lemmas on `on_state_change`.
use beer_tab.Common.{◌≡◌, refl, arith, ℕ, Bool, true, false, not}
use beer_tab.Storage.{LittleFs}
use beer_tab.Protocol.Json.{ArduinoJson}
use beer_tab.Client.{Config}
use beer_tab.Catalog.{same}
use beer_tab.Backend.{Device, set_active}
use beer_tab.Backend.Loop.Frame.{request_sync-SameData}
use beer_tab.App.{State, Terminal}
use beer_tab.App.Machine.{is_sleeping, show, set_awake, on_state_change}

same-eq : (a b : Bool) → same a b ≡ true → b ≡ a
same-eq true true h = refl
same-eq false false h = refl
same-eq true false h = cc
same-eq false true h = cc

-- Everything but `active`, which is as it was told.
pub record Activated (on : Bool) (d d' : Device) : Type 0 where
  pub kept_queue : d'.queue ≡ d.queue
  pub kept_catalog : d'.catalog ≡ d.catalog
  pub kept_residents : d'.residents ≡ d.residents
  pub is_active : d'.backend.active ≡ on
  pub kept_client : d'.client ≡ d.client

pub set_active-Activated :
    (json : ArduinoJson) (config : Config) (clock : ℕ) (d : Device) (on : Bool)
    → Activated on d (set_active json config d on clock)
unfolding set_active
set_active-Activated json config clock d on =
    let d' = record d { backend = record (Device.backend d) { active = on } } in
    let s = request_sync-SameData json config d' clock in
    let e = same-eq on d.backend.active in
    record {
      kept_queue = ground (arith, s.same_queue);
      kept_catalog = ground (arith, s.same_catalog);
      kept_residents = ground (arith, s.same_residents);
      is_active = ground (arith, s.same_active, e);
      kept_client = ground (arith, s.same_client);
    }

-- A terminal whose handler has been told of a state.
pub record Followed {fs : LittleFs} (s : State) (t t' : Terminal fs) : Type 0 where
  pub same_app : t'.app ≡ t.app
  pub same_storage : t'.storage ≡ t.storage
  pub is_lit : t'.awake ≡ not (is_sleeping s)
  pub device : Activated (not (is_sleeping s)) t.device t'.device

awake-set_awake : {fs : LittleFs} (on : Bool) (t : Terminal fs) → (set_awake on t).awake ≡ on
unfolding set_awake
awake-set_awake on t = ground (arith, same-eq on t.awake)

-- Every change of state, and every redraw, ends with the panel lit and the backend active exactly where
-- the state is not the sleeping one.
pub on_state_change-Followed :
    {fs : LittleFs} (json : ArduinoJson) (config : Config) (clock random : ℕ) (s : State)
    (t : Terminal fs)
    → Followed s t (on_state_change json config clock random s t)
unfolding on_state_change show set_awake
on_state_change-Followed json config clock random s t = record {
  same_app = ground arith;
  same_storage = ground arith;
  is_lit = ground (arith, same-eq false t.awake);
  device =
      let a = set_active-Activated json config clock t.device (not (is_sleeping s)) in
      record {
        kept_queue = ground (arith, a.kept_queue);
        kept_catalog = ground (arith, a.kept_catalog);
        kept_residents = ground (arith, a.kept_residents);
        is_active = ground (arith, a.is_active);
        kept_client = ground (arith, a.kept_client);
      };
}

pub device-on_state_change :
    {fs : LittleFs} (json : ArduinoJson) (config : Config) (clock random : ℕ) (s : State)
    (t : Terminal fs)
    → (on_state_change json config clock random s t).device
      ≡ set_active json config t.device (not (is_sleeping s)) clock
unfolding on_state_change show set_awake
device-on_state_change json config clock random s t = ground arith
