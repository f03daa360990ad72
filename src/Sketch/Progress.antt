-- ===== src/Sketch/Progress.antt =====
-- beer_terminal.ino: a job of the worker and the turn after it.
use beer_tab.Common.{◌≡◌, inr, arith, ℕ, true}
use beer_tab.Protocol.Json.{ArduinoJson}
use beer_tab.Client.{Config, configured, busy}
use beer_tab.Client.Worker.{Http, perform}
use beer_tab.Client.Worker.Ends.{perform-IsEnded}
use beer_tab.Backend.{Device}
use beer_tab.Backend.Loop.{update}
use beer_tab.Backend.Loop.Handover.{HandedOver}
use beer_tab.Backend.Loop.Pacing.{Settled, update-Settled}

-- Once the worker has run, whatever the server answered, the next turn of the loop ends the operation,
-- frees the client and leaves nothing posted.
pub perform-Settled :
    (json : ArduinoJson) (config : Config) (http : Http) (d : Device) (now clock : ℕ)
    → configured config ≡ true
    → HandedOver d
    → d.client.status ≡ busy
    → Settled
        (update json config (record d { client = (perform http config d.client).0 }) now clock)
perform-Settled json config http d now clock c h b =
    let d' : Device = record d { client = (perform http config d.client).0 } in
    update-Settled json config d' now clock c (ground (arith, h, b))
      (inr (ground (arith, h, b), perform-IsEnded http config d.client))
