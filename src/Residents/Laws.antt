-- ===== src/Residents/Laws.antt =====
-- resident_directory.cpp: `replace_all`, `flush` and `begin`.
use beer_tab.Common.{
  ℕ, suc, ◌+◌, ◌*◌, ◌≤◌, ◌<◌, ◌≡◌, ◌≢◌, refl, List, [], ◌∷◌, true, false, Text, text_eq,
  text_eq_iff, is_empty, length, length-map, take, map, Bool-cases, inl, inr, ◌⊎◌, arith,
}
use beer_tab.Settings.{max_residents}
use beer_tab.Records.{Resident, IsResident}
use beer_tab.Codec.Blob.{header_bytes}
use beer_tab.Codec.Loops.{All}
use beer_tab.Codec.Format.{max_residents_bytes, resident_record}
use beer_tab.Codec.RoundTrip.Files.{decode_residents-encode_residents}
use beer_tab.Storage
use beer_tab.Storage.{LittleFs, Storage, temp_path}
use beer_tab.Storage.Laws.{Laws, read-write}
use beer_tab.Residents.{
  Directory, residents_path, copy_entry, all_usable, replace_all, begin, flush, fallback,
}

-- Between one and eleven residents, each of whom fits the arrays.
pub record IsDirectory (d : Directory) : Type 0 where
  pub some_one : 0 < length d.entries
  pub bounded : length d.entries ≤ max_residents
  pub fits : All IsResident d.entries

fallback_some : 0 < length fallback.entries
unfolding fallback
fallback_some = omega arith

-- A restart always comes up with somebody to charge.
pub begin_some : {fs : LittleFs} (s : Storage fs) → 0 < length (begin s).entries
unfolding begin
begin_some s = ground (arith, fallback_some)

residents_path-ne-temp : residents_path ≢ temp_path residents_path
unfolding text_eq
residents_path-ne-temp e = cc ((text_eq_iff residents_path (temp_path residents_path)).1 e)

-- After a flush that cleared the dirty flag, a restart finds the same residents, as the backend's.
pub begin-flush_residents :
    {fs : LittleFs} (laws : Laws fs) (s : Storage fs) (d : Directory)
    → IsDirectory d
    → d.dirty ≡ true
    → (flush s d).1.dirty ≡ false
    → begin (flush s d).0 ≡ record { entries = d.entries; from_backend = true; dirty = false }
unfolding flush begin
begin-flush_residents laws s d v dirty clean =
    let (blob, encodes, sized, decodes) =
      decode_residents-encode_residents d.entries max_residents_bytes max_residents v.fits
        (omega (arith, v.bounded)) v.bounded room in
    elim (Bool-cases (Storage.write s residents_path blob).1) [
      | inl ok ↦
          let found =
            read-write laws s residents_path blob max_residents_bytes residents_path-ne-temp
              (omega (arith, sized, room)) ok in
          ground (arith, encodes, decodes, ok, dirty, found, v.some_one)
      | inr failed ↦ ground (arith, encodes, failed, dirty, clean)
    ]
  where
    room : header_bytes + length d.entries * resident_record ≤ max_residents_bytes
    room = unfold max_residents_bytes in omega (arith, v.bounded)

is_empty-take : (n : ℕ) (s : Text) → is_empty (take (suc n) s) ≡ is_empty s
is_empty-take n [] = refl
is_empty-take n (c ∷ s) = refl

all_usable-map : (rs : List Resident) → all_usable rs ≡ true → all_usable (map copy_entry rs) ≡ true
unfolding all_usable
all_usable-map [] h = refl
all_usable-map (r ∷ rs) h =
    ground (arith, is_empty-take 10 r.id, is_empty-take 22 r.name, all_usable-map rs)

-- Whatever the backend sent: `replace_all` either leaves the directory as it was and answers false,
-- or leaves one in which every resident has an id and a name.
pub replace_all_usable :
    (d : Directory) (rs : List Resident)
    → (replace_all d rs ≡ (d, false))
      ⊎ (((replace_all d rs).1 ≡ true)
          × (0 < length (replace_all d rs).0.entries)
          × (length (replace_all d rs).0.entries ≤ max_residents)
          × (all_usable (replace_all d rs).0.entries ≡ true))
unfolding replace_all
replace_all_usable d rs = ground (arith, length-map rs copy_entry, all_usable-map rs)
