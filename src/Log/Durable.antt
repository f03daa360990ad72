-- ===== src/Log/Durable.antt =====
-- purchase_log.cpp: `flush` and `begin`.
use beer_tab.Common.{
  ◌+◌, ◌*◌, ◌≤◌, ◌≡◌, ◌≢◌, true, false, text_eq, text_eq_iff, length, Bool-cases, inl, inr, arith,
}
use beer_tab.Settings.{max_residents}
use beer_tab.Records.{IsTally}
use beer_tab.Codec.Blob.{header_bytes}
use beer_tab.Codec.Loops.{All}
use beer_tab.Codec.Format.{max_summary_bytes, summary_record}
use beer_tab.Codec.RoundTrip.Files.{decode_summary-encode_summary}
use beer_tab.Storage
use beer_tab.Storage.{LittleFs, Storage, temp_path}
use beer_tab.Storage.Laws.{Laws, read-write}
use beer_tab.Queue.{Queue}
use beer_tab.Log.{PurchaseLog, summary_path, rebuild, begin, flush}

summary_path-ne-temp : summary_path ≢ temp_path summary_path
unfolding text_eq
summary_path-ne-temp e = cc ((text_eq_iff summary_path (temp_path summary_path)).1 e)

-- After a flush that cleared the dirty flag, a restart finds the same baseline, and shows it with
-- the purchases that wait in the queue then.
pub begin-flush_summary :
    {fs : LittleFs} (laws : Laws fs) (s : Storage fs) (l : PurchaseLog) (q : Queue)
    → length l.baseline ≤ max_residents
    → All IsTally l.baseline
    → l.dirty ≡ true
    → (flush s l).1.dirty ≡ false
    → begin (flush s l).0 q ≡ record {
      baseline = l.baseline;
      has_baseline = true;
      view = rebuild l.baseline q.items;
      dirty = false;
    }
unfolding flush begin
begin-flush_summary laws s l q bounded fits dirty clean =
    let (blob, encodes, sized, decodes) =
      decode_summary-encode_summary l.baseline max_summary_bytes max_residents fits
        (omega (arith, bounded)) bounded room in
    elim (Bool-cases (Storage.write s summary_path blob).1) [
      | inl ok ↦
          let found =
            read-write laws s summary_path blob max_summary_bytes summary_path-ne-temp
              (omega (arith, sized, room)) ok in
          ground (arith, encodes, decodes, ok, dirty, found)
      | inr failed ↦ ground (arith, encodes, failed, dirty, clean)
    ]
  where
    room : header_bytes + length l.baseline * summary_record ≤ max_summary_bytes
    room = unfold max_summary_bytes in omega (arith, bounded)
