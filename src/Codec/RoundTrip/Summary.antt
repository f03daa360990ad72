-- ===== src/Codec/RoundTrip/Summary.antt =====
-- catalog_codec.cpp: the tally record. A section follows the decoder's pointer from field to field.
use beer_tab.Common.{
  ℕ, ◌≡◌, refl, ap, ◌∙◌, List, ◌++◌, append_assoc, to_u32, to_i32, length, length-append, drop,
  arith,
}
use beer_tab.Records.{Tally, IsTally}
use beer_tab.Codec.Bytes.{put_u16, put_u32, get_u16, get_u32, put_text, get_text}
use beer_tab.Codec.Fields.{get_u16-put_u16, length-put_text, get_text-put_text}
use beer_tab.Codec.Loops.{Layout, drop_next}
use beer_tab.Codec.Format.{summary_record, put_tally, get_tally}
use beer_tab.Codec.RoundTrip.Ints.{length-put_u16, length-put_u32, price-put_u32}

module _ (t : Tally) (rest : List ℕ) (h : IsTally t) where
  abbrev tally_from_3 : List ℕ
  tally_from_3 = put_u32 (to_u32 t.total_rappen) ++ rest

  abbrev tally_from_2 : List ℕ
  tally_from_2 = put_u16 t.drinks ++ tally_from_3

  abbrev tally_from_1 : List ℕ
  tally_from_1 = put_text 24 t.resident_name ++ tally_from_2

  abbrev tally_from_0 : List ℕ
  tally_from_0 = put_text 12 t.resident_id ++ tally_from_1

  tally_at_1 : drop 12 tally_from_0 ≡ tally_from_1
  tally_at_1 =
      drop_next 0 12 tally_from_0 (put_text 12 t.resident_id) tally_from_1 refl
        (length-put_text 12 t.resident_id h.resident_id_text)

  tally_at_2 : drop 36 tally_from_0 ≡ tally_from_2
  tally_at_2 =
      drop_next 12 24 tally_from_0 (put_text 24 t.resident_name) tally_from_2 tally_at_1
        (length-put_text 24 t.resident_name h.resident_name_text)

  tally_at_3 : drop 38 tally_from_0 ≡ tally_from_3
  tally_at_3 =
      drop_next 36 2 tally_from_0 (put_u16 t.drinks) tally_from_3 tally_at_2
        (length-put_u16 t.drinks)

  get_tally-from_0 : get_tally tally_from_0 ≡ t
  unfolding get_tally
  get_tally-from_0 = λ i. record {
    resident_id = (get_text-put_text 12 t.resident_id tally_from_1 h.resident_id_text) i;
    resident_name =
        (ap (λ p. get_text 24 p 24) tally_at_1
            ∙ get_text-put_text 24 t.resident_name tally_from_2 h.resident_name_text)
          i;
    drinks = (ap (get_u16) tally_at_2 ∙ get_u16-put_u16 t.drinks tally_from_3 h.drinks_range) i;
    total_rappen =
        (ap (λ p. to_i32 (get_u32 p)) tally_at_3 ∙ price-put_u32 t.total_rappen rest h.total_range)
          i;
  }

pub length-put_tally : (t : Tally) → IsTally t → length (put_tally t) ≡ summary_record
unfolding put_tally
length-put_tally t h = omega (
  arith,
  length-append (put_text 12 t.resident_id)
      (put_text 24 t.resident_name ++ (put_u16 t.drinks ++ (put_u32 (to_u32 t.total_rappen)))),
  length-append (put_text 24 t.resident_name)
      (put_u16 t.drinks ++ (put_u32 (to_u32 t.total_rappen))),
  length-append (put_u16 t.drinks) (put_u32 (to_u32 t.total_rappen)),
  length-put_text 12 t.resident_id h.resident_id_text,
  length-put_text 24 t.resident_name h.resident_name_text,
  length-put_u16 t.drinks,
  length-put_u32 (to_u32 t.total_rappen),
)

pub get_tally-put_tally :
    (t : Tally) (rest : List ℕ) → IsTally t → get_tally (put_tally t ++ rest) ≡ t
unfolding put_tally
get_tally-put_tally t rest h = simp append_assoc (get_tally-from_0 t rest h)

abbrev pub tally_layout : Layout Tally
tally_layout = record {
  size = summary_record;
  put = put_tally;
  get = get_tally;
  Fits = IsTally;
  length-put = length-put_tally;
  get-put = get_tally-put_tally;
}
