-- ===== src/Storage.antt =====
-- firmware/beer_terminal/device_storage.cpp over LittleFS, which is a library: its calls are the
-- fields of `LittleFs`, and what the code relies on is `Laws`.
pub mod Crash
pub mod Laws
use beer_tab.Common.{
  ℕ, ◌≡◌, ◌||◌, List, [], ◌∷◌, ◌++◌, Option, none, some, Bool, true, false, not, Text, ascii,
  length, ltb, ◌==◌, if◌then◌else◌, print_text,
}

-- The file system of the board. `write_file` is what `f.write` does to a file that is open for
-- writing, with the number of bytes that it took.
pub record LittleFs : Type 1 where
  pub Disk : Type 0
  pub File : Type 0
  pub mount : Disk → Disk × Bool
  pub open_read : Disk → Text → Option File
  pub size : File → ℕ
  pub read_file : File → ℕ → List ℕ
  pub open_write : Disk → Text → Disk × Bool
  pub write_file : Disk → Text → List ℕ → Disk × ℕ
  pub remove_file : Disk → Text → Disk × Bool
  pub rename : Disk → Text → Text → Disk × Bool

-- `g_mounted` and the volume.
pub record Storage (fs : LittleFs) : Type 0 where
  pub mounted : Bool
  pub disk : LittleFs.Disk fs

abbrev pub temp_suffix : Text
temp_suffix = ascii ".tmp"

-- The name of the temporary file, in an array of 64 bytes.
abbrev pub temp_path : Text → Text
temp_path path = print_text 64 (path ++ temp_suffix)

module _ {fs : LittleFs} where
  open fs use {mount, open_read, size, read_file, open_write, write_file, remove_file, rename}

  unfoldable pub begin : Storage fs → Storage fs × Bool
  begin s = let (d, ok) = mount s.disk in (record s { mounted = ok; disk = d }, ok)

  -- What was read, or `none` where the source returns false.
  unfoldable pub read : Storage fs → Text → ℕ → Option (List ℕ)
  read s path capacity = if not s.mounted then none else elim (open_read s.disk path) [
    | none ↦ none
    | some f ↦
        let n = size f in
        let got = read_file f n in
        if n == 0 || ltb capacity n then none else if not (length got == n) then none else some got
  ]

  -- The rename at the end of `write`.
  unfoldable pub replace_file : Storage fs → Text → Storage fs × Bool
  replace_file s path =
      let cleared = (remove_file s.disk path).0 in
      let (renamed, ok) = rename cleared (temp_path path) path in
      if ok
      then (record s { disk = renamed }, true)
      else (record s { disk = (remove_file renamed (temp_path path)).0 }, false)

  unfoldable pub write : Storage fs → Text → List ℕ → Storage fs × Bool
  write s path bytes =
      let (opened, ok) = open_write s.disk (temp_path path) in
      let (written, n) = write_file opened (temp_path path) bytes in
      if not s.mounted || length bytes == 0
      then (s, false)
      else if not ok
      then (record s { disk = opened }, false)
      else if not (n == length bytes)
      then (record s { disk = (remove_file written (temp_path path)).0 }, false)
      else replace_file (record s { disk = written }) path

  unfoldable pub remove : Storage fs → Text → Storage fs × Bool
  remove s path =
      let (d, ok) = remove_file s.disk path in
      if s.mounted then (record s { disk = d }, ok) else (s, false)
