-- ===== src/Tests/Taps.antt =====
-- A tap on the screen of a terminal with a volume that is never full.
use beer_tab.Common.{ℕ, ◌%◌, ◌^◌, ◌≡◌, refl, [], ◌∷◌, true, false, ascii, text_eq, pos, arith}
use beer_tab.Codec.Blob.{finalise, put_header}
use beer_tab.Codec.Bytes.{put_text}
use beer_tab.Codec.Loops.{put_records}
use beer_tab.Codec.Format.{put_entry, encode_queue, max_queue_bytes}
use beer_tab.Records.{IsEntry}
use beer_tab.Storage.{write, replace_file}
use beer_tab.Queue
use beer_tab.Queue.{Queue}
use beer_tab.Queue.Bounds.{IsQueue}
use beer_tab.Residents
use beer_tab.Protocol.Requests.{build_record_purchase}
use beer_tab.Client.{configured}
use beer_tab.Keypad.{no_price}
use beer_tab.Backend.{my_idle, Device, send_queued_now}
use beer_tab.App.{
  make_transaction_id, hex, Terminal, Context, undoing, selecting_user, success, empty_context,
  purchase_entry, chosen_resident, enqueue_purchase, enqueue, store_and_send, flush_queue,
}
use beer_tab.App.Identity.{make_transaction_id_inj}
use beer_tab.App.Stored.{enqueue_purchase_durable}
use beer_tab.App.Machine.Events.{update}
use beer_tab.App.Machine.Paths.{update_undoing}
use beer_tab.Tests.Volume.{ram, ram_laws, blank}
use beer_tab.Tests.Data.{first_beer, first_beer-IsEntry, second_beer-IsEntry}
use beer_tab.Tests.Server.{yes_json, home_config, idle_backend, answered_device}

-- Anna has chosen a Lager, and one beer is waiting.
abbrev chosen : Context
chosen = record empty_context {
  product_name = ascii "Lager";
  price_rappen = pos 250;
  resident_index = pos 0;
  transaction_id = ascii "t0000000b-00000002";
}

abbrev pub at_submit : Terminal ram
at_submit = record {
  device = record answered_device {
    backend = idle_backend;
    queue = record { items = first_beer ∷ []; dirty = false };
  };
  storage = blank;
  app = record {
    state = selecting_user;
    ctx = chosen;
    deadline = 0;
    dwell_total = 0;
    fail_next_submit = false;
    simulated = false;
    last_summary = my_idle;
  };
  awake = true;
  ignore_touch = false;
  price_entry = no_price;
}

one_waiting-IsQueue : IsQueue (record { items = first_beer ∷ []; dirty = false })
one_waiting-IsQueue = record { bounded = omega arith; entries = (first_beer-IsEntry, tt) }

chosen-IsEntry :
    IsEntry (purchase_entry chosen (chosen_resident (Device.residents answered_device) chosen))
unfolding chosen_resident Residents.at
chosen-IsEntry = second_beer-IsEntry

enqueue_purchase_durable_example :
    let t' = (enqueue_purchase yes_json home_config 1000 at_submit).0 in
    (Queue.begin t'.storage).items
    ≡ first_beer
      ∷ purchase_entry chosen (chosen_resident (Device.residents answered_device) chosen)
      ∷ []
unfolding enqueue_purchase enqueue store_and_send flush_queue Queue.push Queue.full Queue.flush
    configured text_eq write replace_file encode_queue max_queue_bytes finalise put_header
    put_records put_entry put_text send_queued_now chosen_resident Queue.head Residents.at
    build_record_purchase
enqueue_purchase_durable_example =
    enqueue_purchase_durable yes_json home_config 1000 ram_laws at_submit refl refl
      one_waiting-IsQueue chosen-IsEntry refl

-- A refused undo, its dwell over.
abbrev refused_undo : Terminal ram
refused_undo = record at_submit {
  app = record {
    state = undoing;
    ctx = chosen;
    deadline = 1800;
    dwell_total = 800;
    fail_next_submit = true;
    simulated = true;
    last_summary = my_idle;
  };
}

update_undoing_example :
    let t' = update yes_json home_config 2000 7 2000 refused_undo in
    (t'.app.state ≡ success)
    × (t'.app.ctx.undone ≡ true)
    × (t'.app.fail_next_submit ≡ true)
    × (t'.device.queue ≡ record { items = first_beer ∷ []; dirty = false })
update_undoing_example =
    update_undoing yes_json home_config 2000 7 refused_undo 2000 refl refl refl refl

abbrev tick : ℕ
tick = 1000

abbrev draw : ℕ
draw = 7

abbrev other_draw : ℕ
other_draw = 65543

make_transaction_id_inj_example : (tick ≡ tick) × (draw % 2 ^ 16 ≡ other_draw % 2 ^ 16)
unfolding make_transaction_id hex
make_transaction_id_inj_example =
    make_transaction_id_inj tick draw tick other_draw (omega arith) (omega arith) refl
