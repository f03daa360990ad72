-- ===== src/Residents.antt =====
-- firmware/beer_terminal/resident_directory.cpp. The first `g_count` elements of `g_entries` are the
-- list `entries`.
pub mod Laws
use beer_tab.Common.{
  ℕ, ◌+◌, List, [], ◌∷◌, Option, none, some, Bool, true, false, not, ◌&&◌, ◌||◌, Text, ascii,
  is_empty, print_text, length, get_elem?, take, map, ltb, ◌==◌, if◌then◌else◌,
}
use beer_tab.Settings.{max_residents, default_residents}
use beer_tab.Records.{Resident}
use beer_tab.Codec.Format.{encode_residents, decode_residents, max_residents_bytes}
use beer_tab.Storage
use beer_tab.Storage.{LittleFs, Storage}

pub record Directory : Type 0 where
  pub entries : List Resident
  pub from_backend : Bool
  pub dirty : Bool

abbrev pub residents_path : Text
residents_path = ascii "/residents.bin"

-- The two `snprintf` calls that copy an entry.
abbrev pub copy_entry : Resident → Resident
copy_entry r = record { id = print_text 12 r.id; name = print_text 24 r.name }

abbrev pub to_resident : Text × Text → Resident
to_resident (id, name) = record { id = id; name = name }

unfoldable pub seed : List Resident
seed = map (λ r. copy_entry (to_resident r)) (take max_residents default_residents)

abbrev pub usable : Resident → Bool
usable r = not (is_empty r.id) && not (is_empty r.name)

unfoldable pub all_usable : List Resident → Bool
all_usable [] = true
all_usable (r ∷ rs) = usable r && all_usable rs

unfoldable pub count : Directory → ℕ
count d = length d.entries

unfoldable pub at : Directory → ℕ → Option Resident
at d index = get_elem? d.entries index

unfoldable pub replace_all : Directory → List Resident → Directory × Bool
unfolding all_usable
replace_all d rs =
    if length rs == 0 || ltb max_residents (length rs)
    then (d, false)
    else if not (all_usable rs)
    then (d, false)
    else (record { entries = map copy_entry rs; from_backend = true; dirty = true }, true)

-- The list when nothing is stored, or nothing that can be used.
unfoldable pub fallback : Directory
unfolding seed
fallback = record { entries = seed; from_backend = false; dirty = false }

module _ {fs : LittleFs} where
  unfoldable pub begin : Storage fs → Directory
  unfolding fallback
  begin s = elim (Storage.read s residents_path max_residents_bytes) [
    | none ↦ fallback
    | some blob ↦ elim (decode_residents blob max_residents) [
      | none ↦ fallback
      | some [] ↦ fallback
      | some (r ∷ rs) ↦ record { entries = r ∷ rs; from_backend = true; dirty = false }
    ]
  ]

  unfoldable pub flush : Storage fs → Directory → Storage fs × Directory
  flush s d =
      if not d.dirty then (s, d) else elim (encode_residents d.entries max_residents_bytes) [
        | none ↦ (s, d)
        | some blob ↦
            let (s', ok) = Storage.write s residents_path blob in
            if ok then (s', record d { dirty = false }) else (s', d)
      ]
