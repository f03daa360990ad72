-- ===== src/Storage/Laws.antt =====
-- The documented behaviour of LittleFS, and device_storage.cpp over it.
use beer_tab.Common.{
  ℕ, ◌≤◌, ◌<◌, ◌≡◌, ◌≢◌, ◌⊎◌, sym, ◌∙◌, List, Option, none, some, true, false, Text, length, arith,
}
use beer_tab.Storage.{LittleFs, Storage, temp_path, read, write, replace_file}

-- `contents d p` is what a reader finds at the path `p`, or `none` if there is no file.
pub record Laws (fs : LittleFs) : Type 1 where
  pub contents : LittleFs.Disk fs → Text → Option (List ℕ)
  pub open_read_absent :
      (d : LittleFs.Disk fs) (p : Text) → contents d p ≡ none → fs.open_read d p ≡ none
  pub open_read_present :
      (d : LittleFs.Disk fs) (p : Text) (bytes : List ℕ)
      → contents d p ≡ some bytes
      → (f : LittleFs.File fs) × (fs.open_read d p ≡ some f)
        × (fs.size f ≡ length bytes)
        × (fs.read_file f (length bytes) ≡ bytes)
  pub open_write_other :
      (d : LittleFs.Disk fs) (p q : Text) → q ≢ p → contents (fs.open_write d p).0 q ≡ contents d q
  pub write_file_all :
      (d : LittleFs.Disk fs) (p : Text) (bytes : List ℕ)
      → (fs.open_write d p).1 ≡ true
      → (fs.write_file (fs.open_write d p).0 p bytes).1 ≡ length bytes
      → contents (fs.write_file (fs.open_write d p).0 p bytes).0 p ≡ some bytes
  pub write_file_other :
      (d : LittleFs.Disk fs) (p q : Text) (bytes : List ℕ)
      → q ≢ p
      → contents (fs.write_file d p bytes).0 q ≡ contents d q
  pub remove_self :
      (d : LittleFs.Disk fs) (p : Text)
      → (contents (fs.remove_file d p).0 p ≡ none)
        ⊎ (contents (fs.remove_file d p).0 p ≡ contents d p)
  pub remove_other :
      (d : LittleFs.Disk fs) (p q : Text) → q ≢ p → contents (fs.remove_file d p).0 q ≡ contents d q
  pub rename_to :
      (d : LittleFs.Disk fs) (p q : Text)
      → (fs.rename d p q).1 ≡ true
      → contents (fs.rename d p q).0 q ≡ contents d p
  pub rename_failed :
      (d : LittleFs.Disk fs) (p q r : Text)
      → (fs.rename d p q).1 ≡ false
      → contents (fs.rename d p q).0 r ≡ contents d r
  pub rename_other :
      (d : LittleFs.Disk fs) (p q r : Text)
      → r ≢ p
      → r ≢ q
      → contents (fs.rename d p q).0 r ≡ contents d r

module _ {fs : LittleFs} (laws : Laws fs) (s : Storage fs) (path : Text) (bytes : List ℕ)
    (apart : path ≢ temp_path path) where
  abbrev pub tmp : Text
  tmp = temp_path path

  abbrev pub opened : LittleFs.Disk fs
  opened = (fs.open_write s.disk tmp).0

  abbrev pub written : LittleFs.Disk fs
  written = (fs.write_file opened tmp bytes).0

  abbrev pub cleared : LittleFs.Disk fs
  cleared = (fs.remove_file written path).0

  abbrev pub renamed : LittleFs.Disk fs
  renamed = (fs.rename cleared tmp path).0

  temp_apart : tmp ≢ path
  temp_apart e = apart (sym e)

  pub written_keeps : laws.contents written path ≡ laws.contents s.disk path
  written_keeps =
      laws.write_file_other opened tmp path bytes apart
      ∙ laws.open_write_other s.disk tmp path apart

  pub cleared_path :
      (laws.contents cleared path ≡ none) ⊎ (laws.contents cleared path ≡ laws.contents s.disk path)
  cleared_path = ground (arith, laws.remove_self written path, written_keeps)

  -- After a `rename` that succeeded the path holds the new bytes.
  pub renamed_path :
      (fs.open_write s.disk tmp).1 ≡ true
      → (fs.write_file opened tmp bytes).1 ≡ length bytes
      → (fs.rename cleared tmp path).1 ≡ true
      → laws.contents renamed path ≡ some bytes
  renamed_path ok all moved =
      laws.rename_to cleared tmp path moved
      ∙ (laws.remove_other written path tmp temp_apart
          ∙ laws.write_file_all s.disk tmp bytes ok all)

  -- A write that reports success leaves exactly the given bytes at its path.
  pub write_success :
      (write s path bytes).1 ≡ true → laws.contents (write s path bytes).0.disk path ≡ some bytes
  unfolding write replace_file
  write_success h = ground (arith, renamed_path)

  -- Whatever a write reports, its path holds afterwards what it held before, or nothing, or
  -- exactly the given bytes: never a part of them.
  pub write_whole :
      let after = laws.contents (write s path bytes).0.disk path in
      (after ≡ laws.contents s.disk path) ⊎ ((after ≡ none) ⊎ (after ≡ some bytes))
  unfolding write replace_file
  write_whole = ground (
    arith,
    renamed_path,
    cleared_path,
    written_keeps,
    laws.open_write_other s.disk tmp path apart,
    laws.remove_other written tmp path apart,
    laws.remove_other renamed tmp path apart,
    laws.rename_failed cleared tmp path path,
  )

  write_success_ready :
      (write s path bytes).1 ≡ true → ((write s path bytes).0.mounted ≡ true) × (0 < length bytes)
  unfolding write replace_file
  write_success_ready h = ground arith

module _ {fs : LittleFs} (laws : Laws fs) where
  -- A file of a mounted volume that is not empty and fits the buffer is read whole.
  pub read-contents :
      (s : Storage fs) (path : Text) (bytes : List ℕ) (capacity : ℕ)
      → s.mounted ≡ true
      → 0 < length bytes
      → length bytes ≤ capacity
      → laws.contents s.disk path ≡ some bytes
      → read s path capacity ≡ some bytes
  unfolding read
  read-contents s path bytes capacity m some_bytes fits c =
      let (f, opens, sized, got) = laws.open_read_present s.disk path bytes c in
      ground (arith, opens, sized, got)

  -- What a successful write stored is what the next read of the path gives, if it fits the buffer.
  pub read-write :
      (s : Storage fs) (path : Text) (bytes : List ℕ) (capacity : ℕ)
      → path ≢ temp_path path
      → length bytes ≤ capacity
      → (write s path bytes).1 ≡ true
      → read (write s path bytes).0 path capacity ≡ some bytes
  read-write s path bytes capacity apart fits h =
      let (m, some_bytes) = write_success_ready laws s path bytes apart h in
      read-contents (write s path bytes).0 path bytes capacity m some_bytes fits
        (write_success laws s path bytes apart h)
