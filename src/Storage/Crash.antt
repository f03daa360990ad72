-- ===== src/Storage/Crash.antt =====
-- device_storage.cpp: `write` with a power cut. The volume is then as one of the library calls left it.
use beer_tab.Common.{
  ℕ, ◌≡◌, ◌≢◌, ◌⊎◌, inl, inr, ◌||◌, List, [], ◌∷◌, none, some, Bool, false, not, Bool-cases, Text,
  length, ◌==◌, if◌then◌else◌, arith,
}
use beer_tab.Codec.Loops.{All}
use beer_tab.Storage.{LittleFs, Storage, temp_path, write, replace_file}
use beer_tab.Storage.Laws.{
  Laws, opened, written, cleared, renamed, written_keeps, cleared_path, renamed_path,
}

abbrev pub last_or {ℓ} : {A : Type ℓ} → A → List A → A
last_or d [] = d
last_or d (x ∷ xs) = last_or x xs

module _ {fs : LittleFs} where
  open fs use {open_write, write_file, remove_file, rename}

  -- The volume after each call that `write` makes, in order.
  unfoldable pub write_disks : Storage fs → Text → List ℕ → List (LittleFs.Disk fs)
  write_disks s path bytes =
      let tmp = temp_path path in
      let (opened, ok) = open_write s.disk tmp in
      let (written, n) = write_file opened tmp bytes in
      let cleared = (remove_file written path).0 in
      let (renamed, moved) = rename cleared tmp path in
      if not s.mounted || length bytes == 0
      then []
      else if not ok
      then opened ∷ []
      else if not (n == length bytes)
      then opened ∷ written ∷ (remove_file written tmp).0 ∷ []
      else if moved
      then opened ∷ written ∷ cleared ∷ renamed ∷ []
      else opened ∷ written ∷ cleared ∷ renamed ∷ (remove_file renamed tmp).0 ∷ []

  -- The calls listed are those of `write`: it ends in the volume that the last of them left.
  pub last-write_disks :
      (s : Storage fs) (path : Text) (bytes : List ℕ)
      → last_or s.disk (write_disks s path bytes) ≡ (write s path bytes).0.disk
  unfolding write_disks write replace_file
  last-write_disks s path bytes = ground arith

-- Old, absent or new: what a path may hold while it is written.
abbrev pub IsWhole :
    {fs : LittleFs} → Laws fs → Storage fs → Text → List ℕ → LittleFs.Disk fs → Type 0
IsWhole laws s path bytes d =
    (laws.contents d path ≡ laws.contents s.disk path)
    ⊎ ((laws.contents d path ≡ none) ⊎ (laws.contents d path ≡ some bytes))

module _ {fs : LittleFs} (laws : Laws fs) (s : Storage fs) (path : Text) (bytes : List ℕ)
    (apart : path ≢ temp_path path) where
  abbrev Whole : LittleFs.Disk fs → Type 0
  Whole = IsWhole laws s path bytes

  opened-Whole : Whole (opened laws s path bytes apart)
  opened-Whole = inl (laws.open_write_other s.disk (temp_path path) path apart)

  written-Whole : Whole (written laws s path bytes apart)
  written-Whole = inl (written_keeps laws s path bytes apart)

  cleared-Whole : Whole (cleared laws s path bytes apart)
  cleared-Whole = elim (cleared_path laws s path bytes apart) [
    | inl e ↦ inr (inl e)
    | inr e ↦ inl e
  ]

  -- Taking the temporary file away changes nothing at the path.
  remove_temp-Whole : (d : LittleFs.Disk fs) → Whole d → Whole (fs.remove_file d (temp_path path)).0
  remove_temp-Whole d h = ground (arith, laws.remove_other d (temp_path path) path apart)

  rename_failed-Whole :
      (d : LittleFs.Disk fs)
      → (fs.rename d (temp_path path) path).1 ≡ false
      → Whole d
      → Whole (fs.rename d (temp_path path) path).0
  rename_failed-Whole d e h = ground (arith, laws.rename_failed d (temp_path path) path path e)

  -- At every point where the power may go during a write, the path holds what it held before, or
  -- nothing, or exactly the given bytes.
  pub write_disks-IsWhole : All Whole (write_disks s path bytes)
  unfolding write_disks
  write_disks-IsWhole = elim (Bool-cases (not s.mounted || length bytes == 0)) [
    | inl idle ↦ rw idle tt
    | inr go ↦ rw go (elim (Bool-cases (not (fs.open_write s.disk (temp_path path)).1)) [
      | inl shut ↦ rw shut (opened-Whole, tt)
      | inr ok ↦ rw ok (elim (Bool-cases (not (count == length bytes))) [
        | inl short ↦
            rw short (opened-Whole, (written-Whole, (remove_temp-Whole _ written-Whole, tt)))
        | inr all ↦ rw all (elim (Bool-cases moved) [
          | inl yes_moved ↦ rw yes_moved (
            opened-Whole,
            (
              written-Whole,
              (
                cleared-Whole,
                (
                  inr (
                      inr (
                        renamed_path laws s path bytes apart (ground (arith, ok))
                          (ground (arith, all)) yes_moved)),
                  tt,
                ),
              ),
            ),
          )
          | inr stuck ↦ rw stuck (
            opened-Whole,
            (
              written-Whole,
              (
                cleared-Whole,
                (
                  rename_failed-Whole _ stuck cleared-Whole,
                  (remove_temp-Whole _ (rename_failed-Whole _ stuck cleared-Whole), tt),
                ),
              ),
            ),
          )
        ])
      ])
    ])
  ]
    where
      count : ℕ
      count = (fs.write_file (opened laws s path bytes apart) (temp_path path) bytes).1

      moved : Bool
      moved = (fs.rename (cleared laws s path bytes apart) (temp_path path) path).1
