-- ===== src/Queue/Durable.antt =====
-- transaction_queue.cpp: `flush` and `begin`.
use beer_tab.Common.{
  ◌+◌, ◌*◌, ◌≤◌, ◌≡◌, ◌≢◌, true, false, length, Bool-cases, inl, inr, text_eq, text_eq_iff, arith,
}
use beer_tab.Settings.{max_queued_transactions}
use beer_tab.Codec.Format.{max_queue_bytes, queue_record}
use beer_tab.Codec.Blob.{header_bytes}
use beer_tab.Codec.RoundTrip.Files.{decode_queue-encode_queue}
use beer_tab.Storage
use beer_tab.Storage.{LittleFs, Storage, temp_path}
use beer_tab.Storage.Laws.{Laws, read-write}
use beer_tab.Queue.{Queue, queue_path, begin, flush}
use beer_tab.Queue.Bounds.{IsQueue}

queue_path-ne-temp : queue_path ≢ temp_path queue_path
unfolding text_eq
queue_path-ne-temp e = cc ((text_eq_iff queue_path (temp_path queue_path)).1 e)

-- After a flush that cleared the dirty flag, a restart finds exactly the entries that waited.
pub begin-flush :
    {fs : LittleFs} (laws : Laws fs) (s : Storage fs) (q : Queue)
    → IsQueue q
    → q.dirty ≡ true
    → (flush s q).1.dirty ≡ false
    → begin (flush s q).0 ≡ (flush s q).1
unfolding flush begin
begin-flush laws s q v dirty clean =
    let (blob, encodes, sized, decodes) =
      decode_queue-encode_queue q.items max_queue_bytes max_queued_transactions v.entries
        (omega (arith, v.bounded)) v.bounded room in
    elim (Bool-cases (Storage.write s queue_path blob).1) [
      | inl ok ↦
          let found =
            read-write laws s queue_path blob max_queue_bytes queue_path-ne-temp
              (omega (arith, sized, room)) ok in
          ground (arith, encodes, decodes, ok, dirty, found)
      | inr failed ↦ ground (arith, encodes, failed, dirty, clean)
    ]
  where
    room : header_bytes + length q.items * queue_record ≤ max_queue_bytes
    room = unfold max_queue_bytes in omega (arith, v.bounded)
