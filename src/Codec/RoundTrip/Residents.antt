-- ===== src/Codec/RoundTrip/Residents.antt =====
-- catalog_codec.cpp: the resident record. A section follows the decoder's pointer from field to field.
use beer_tab.Common.{
  ℕ, ◌≡◌, refl, ap, ◌∙◌, List, ◌++◌, append_assoc, length, length-append, drop, arith,
}
use beer_tab.Records.{Resident, IsResident}
use beer_tab.Codec.Bytes.{put_text, get_text}
use beer_tab.Codec.Fields.{length-put_text, get_text-put_text}
use beer_tab.Codec.Loops.{Layout, drop_next}
use beer_tab.Codec.Format.{resident_record, put_resident, get_resident}

module _ (r : Resident) (rest : List ℕ) (h : IsResident r) where
  abbrev resident_from_1 : List ℕ
  resident_from_1 = put_text 24 r.name ++ rest

  abbrev resident_from_0 : List ℕ
  resident_from_0 = put_text 12 r.id ++ resident_from_1

  resident_at_1 : drop 12 resident_from_0 ≡ resident_from_1
  resident_at_1 =
      drop_next 0 12 resident_from_0 (put_text 12 r.id) resident_from_1 refl
        (length-put_text 12 r.id h.id_text)

  get_resident-from_0 : get_resident resident_from_0 ≡ r
  unfolding get_resident
  get_resident-from_0 = λ i. record {
    id = (get_text-put_text 12 r.id resident_from_1 h.id_text) i;
    name =
        (ap (λ p. get_text 24 p 24) resident_at_1 ∙ get_text-put_text 24 r.name rest h.name_text) i;
  }

pub length-put_resident : (r : Resident) → IsResident r → length (put_resident r) ≡ resident_record
unfolding put_resident
length-put_resident r h = omega (
  arith,
  length-append (put_text 12 r.id) (put_text 24 r.name),
  length-put_text 12 r.id h.id_text,
  length-put_text 24 r.name h.name_text,
)

pub get_resident-put_resident :
    (r : Resident) (rest : List ℕ) → IsResident r → get_resident (put_resident r ++ rest) ≡ r
unfolding put_resident
get_resident-put_resident r rest h = simp append_assoc (get_resident-from_0 r rest h)

abbrev pub resident_layout : Layout Resident
resident_layout = record {
  size = resident_record;
  put = put_resident;
  get = get_resident;
  Fits = IsResident;
  length-put = length-put_resident;
  get-put = get_resident-put_resident;
}
