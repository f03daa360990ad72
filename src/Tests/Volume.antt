-- ===== src/Tests/Volume.antt =====
-- A volume that keeps each file whole, and that never runs full: it shows that the laws can hold.
use beer_tab.Common.{
  ℕ, ◌≡◌, ◌≢◌, refl, ◌∙◌, inl, inr, List, [], Option, none, some, Bool, true, false, Text, text_eq,
  text_eq_iff, text_eq_refl, length, take, take_all, if◌then◌else◌, Bool-cases, arith,
}
use beer_tab.Storage.{LittleFs, Storage}
use beer_tab.Storage.Laws.{Laws}

abbrev pub Disk : Type 0
Disk = Text → Option (List ℕ)

abbrev pub put : Disk → Text → Option (List ℕ) → Disk
put d p v q = if text_eq q p then v else d q

abbrev pub moved : Disk → Text → Text → Option (List ℕ) → Disk × Bool
moved d p q none = (d, false)
moved d p q (some bytes) = (put (put d p none) q (some bytes), true)

abbrev pub ram : LittleFs
ram = record {
  Disk = Disk;
  File = List ℕ;
  mount = λ d. (d, true);
  open_read = λ d p. d p;
  size = λ f. length f;
  read_file = λ f n. take n f;
  open_write = λ d p. (put d p (some []), true);
  write_file = λ d p bytes. (put d p (some bytes), length bytes);
  remove_file = λ d p. (put d p none, true);
  rename = λ d p q. moved d p q (d p);
}

pub put_self : (d : Disk) (p : Text) (v : Option (List ℕ)) → put d p v p ≡ v
put_self d p v = rw (text_eq_refl p) refl

text_eq_other : (p q : Text) → q ≢ p → text_eq q p ≡ false
text_eq_other p q ne = elim (Bool-cases (text_eq q p)) [
  | inl b ↦ absurd (ne ((text_eq_iff q p).0 b))
  | inr b ↦ b
]

pub put_other : (d : Disk) (p q : Text) (v : Option (List ℕ)) → q ≢ p → put d p v q ≡ d q
put_other d p q v ne = rw (text_eq_other p q ne) refl

pub moved_to :
    (d : Disk) (p q : Text) (o : Option (List ℕ))
    → (moved d p q o).1 ≡ true
    → (moved d p q o).0 q ≡ o
moved_to d p q none h = cc
moved_to d p q (some bytes) h = put_self (put d p none) q (some bytes)

pub moved_failed :
    (d : Disk) (p q r : Text) (o : Option (List ℕ))
    → (moved d p q o).1 ≡ false
    → (moved d p q o).0 r ≡ d r
moved_failed d p q r none h = refl
moved_failed d p q r (some bytes) h = cc

pub moved_other :
    (d : Disk) (p q r : Text) (o : Option (List ℕ)) → r ≢ p → r ≢ q → (moved d p q o).0 r ≡ d r
moved_other d p q r none h k = refl
moved_other d p q r (some bytes) h k =
    put_other (put d p none) q r (some bytes) k ∙ put_other d p r none h

abbrev pub ram_laws : Laws ram
ram_laws = record {
  contents = λ d p. d p;
  open_read_absent = λ d p h. h;
  open_read_present = λ d p bytes h. (bytes, h, refl, take_all (length bytes) bytes (omega arith));
  open_write_other = λ d p q ne. put_other d p q (some []) ne;
  write_file_all = λ d p bytes ok all. put_self (put d p (some [])) p (some bytes);
  write_file_other = λ d p q bytes ne. put_other d p q (some bytes) ne;
  remove_self = λ d p. inl (put_self d p none);
  remove_other = λ d p q ne. put_other d p q none ne;
  rename_to = λ d p q h. moved_to d p q (d p) h;
  rename_failed = λ d p q r h. moved_failed d p q r (d p) h;
  rename_other = λ d p q r h k. moved_other d p q r (d p) h k;
}

-- An empty volume that is mounted.
abbrev pub blank : Storage ram
blank = record { mounted = true; disk = λ p. none }
