-- ===== src/Codec/Capacity.antt =====
-- catalog_codec.cpp: how many records `decode_queue` and `decode_catalog` give.
use beer_tab.Common.{
  ℕ, zero, suc, ◌≤◌, ◌≡◌, refl, ap, List, some, length, drop, arith, Option-cases, inl, inr,
}
use beer_tab.Records.{Entry, Product}
use beer_tab.Codec.Loops.{get_records}
use beer_tab.Codec.Blob.{Header, check, header_bytes}
use beer_tab.Codec.Format.{
  decode_queue, decode_catalog, magic_queue, queue_record, magic_catalog, catalog_record, get_entry,
  get_product,
}

length-get_records {ℓ} :
    {A : Type ℓ} (size : ℕ) (get : List ℕ → A) (n : ℕ) (p : List ℕ)
    → length (get_records size get n p) ≡ n
unfolding get_records
length-get_records size get zero p = refl
length-get_records size get (suc n) p = ap suc (length-get_records size get n (drop size p))

check_count :
    (blob : List ℕ) (magic record_size capacity : ℕ) {h : Header}
    → check blob magic record_size capacity ≡ some h
    → h.count ≤ capacity
unfolding check
check_count blob magic record_size capacity e = ground (arith, e)

pub decode_queue_fits :
    (blob : List ℕ) (capacity : ℕ) (x : List Entry)
    → decode_queue blob capacity ≡ some x
    → length x ≤ capacity
unfolding decode_queue
decode_queue_fits blob capacity x e =
    elim (Option-cases (check blob magic_queue queue_record capacity)) [
      | inl c ↦ ground (arith, c, e)
      | inr (h, c) ↦ ground (
        arith,
        c,
        e,
        check_count blob magic_queue queue_record capacity c,
        length-get_records queue_record get_entry h.count (drop header_bytes blob),
      )
    ]

pub decode_catalog_fits :
    (blob : List ℕ) (capacity : ℕ) (x : List Product × ℕ × ℕ)
    → decode_catalog blob capacity ≡ some x
    → length x.0 ≤ capacity
unfolding decode_catalog
decode_catalog_fits blob capacity x e =
    elim (Option-cases (check blob magic_catalog catalog_record capacity)) [
      | inl c ↦ ground (arith, c, e)
      | inr (h, c) ↦ ground (
        arith,
        c,
        e,
        check_count blob magic_catalog catalog_record capacity c,
        length-get_records catalog_record get_product h.count (drop header_bytes blob),
      )
    ]
