-- ===== src/Catalog/Selection.antt =====
-- product_catalog.cpp: `nth_matching` and the two views that use it.
use beer_tab.Common.{
  ℕ, zero, suc, ◌+◌, ◌≡◌, refl, sym, ap, ◌∙◌, List, [], ◌∷◌, none, some, ◌⊎◌, Bool, true, false, ℤ,
  pos, negsuc, length, get_elem?, ◌==◌, if◌then◌else◌, Bool-cases, inl, inr, arith,
}
use beer_tab.Records.{Product}
use beer_tab.Catalog.{
  Catalog, same, nth_matching, nth_matching_from, at_storage, active_at, archived_at, active_count,
  archived_count, count_active, count_archived, can_restore, restore, restore_at,
  storage_index_of_archived,
}

-- The products that match, in order.
abbrev pub matching : Bool → List Product → List Product
matching w [] = []
matching w (p ∷ ps) = let rest = matching w ps in if same p.active w then p ∷ rest else rest

-- What the loop answers from storage index `i` on, `d` matches being left to skip.
data Answer (w : Bool) (ps : List Product) (i d : ℕ) (n : ℤ) : Type 0 where
  missing : n ≡ negsuc 0 → get_elem? (matching w ps) d ≡ none → Answer w ps i d n
  found :
      (k : ℕ) (p : Product)
      → n ≡ pos (i + k)
      → get_elem? ps k ≡ some p
      → get_elem? (matching w ps) d ≡ some p
      → Answer w ps i d n

-- A product that does not match is passed over.
skip_other :
    {w : Bool} {p : Product} {ps : List Product} {i d : ℕ} {n : ℤ}
    → same p.active w ≡ false
    → Answer w ps (suc i) d n
    → Answer w (p ∷ ps) i d n
skip_other b (missing e m) = missing e (ground (arith, b, m))
skip_other b (found k p e g m) = found (suc k) p (ground (arith, e)) g (ground (arith, b, m))

-- A match that is not the one wanted uses up one.
skip_match :
    {w : Bool} {p : Product} {ps : List Product} {i d : ℕ} {n : ℤ}
    → same p.active w ≡ true
    → Answer w ps (suc i) d n
    → Answer w (p ∷ ps) i (suc d) n
skip_match b (missing e m) = missing e (ground (arith, b, m))
skip_match b (found k p e g m) = found (suc k) p (ground (arith, e)) g (ground (arith, b, m))

nth_matching_from-Answer :
    (w : Bool) (ps : List Product) (i seen index d : ℕ)
    → index ≡ seen + d
    → Answer w ps i d (nth_matching_from ps index w i seen)
unfolding nth_matching_from
nth_matching_from-Answer w [] i seen index d h = missing refl refl
nth_matching_from-Answer w (p ∷ ps) i seen index zero h = elim (Bool-cases (same p.active w)) [
  | inl b ↦ found 0 p (ground (arith, b, h)) refl (ground (arith, b))
  | inr b ↦ rw b (skip_other b (nth_matching_from-Answer w ps (suc i) seen index 0 h))
]
nth_matching_from-Answer w (p ∷ ps) i seen index (suc d) h = elim (Bool-cases (same p.active w)) [
  | inl b ↦
      rw (b, differs)
        (skip_match b (nth_matching_from-Answer w ps (suc i) (suc seen) index d (omega arith)))
  | inr b ↦ rw b (skip_other b (nth_matching_from-Answer w ps (suc i) seen index (suc d) h))
]
  where
    differs : (seen == index) ≡ false
    differs = ground (arith, h)

at_storage-Answer :
    (c : Catalog) {w : Bool} {d : ℕ} {n : ℤ}
    → Answer w c.items 0 d n
    → at_storage c n ≡ get_elem? (matching w c.items) d
unfolding at_storage
at_storage-Answer c (missing e m) = rw (e, m)
at_storage-Answer c (found k p e g m) = rw e (ap (get_elem? c.items) (omega arith) ∙ (g ∙ sym m))

-- The `index`-th active product is the `index`-th element of the active products in catalog order,
-- and likewise for the archived ones; past the end both are absent.
pub active_at-matching :
    (c : Catalog) (index : ℕ)
    → (active_at c index ≡ get_elem? (matching true c.items) index)
      × (archived_at c index ≡ get_elem? (matching false c.items) index)
unfolding active_at archived_at nth_matching
active_at-matching c index = (
  at_storage-Answer c (nth_matching_from-Answer true c.items 0 0 index index (omega arith)),
  at_storage-Answer c (nth_matching_from-Answer false c.items 0 0 index index (omega arith)),
)

count-matching :
    (ps : List Product)
    → (count_active ps ≡ length (matching true ps))
      × (count_archived ps ≡ length (matching false ps))
unfolding count_active count_archived
count-matching [] = (refl, refl)
count-matching (p ∷ ps) = (ground (arith, count-matching ps), ground (arith, count-matching ps))

count_active-add-count_archived :
    (ps : List Product) → count_active ps + count_archived ps ≡ length ps
unfolding count_active count_archived
count_active-add-count_archived [] = refl
count_active-add-count_archived (p ∷ ps) = ground (arith, count_active-add-count_archived ps)

-- The two counts are the lengths of the two views, and together they count every product once.
pub counts :
    (c : Catalog)
    → (active_count c ≡ length (matching true c.items))
      × (archived_count c ≡ length (matching false c.items))
      × (active_count c + archived_count c ≡ length c.items)
unfolding active_count archived_count
counts c =
    let (shown, hidden) = count-matching c.items in
    (shown, hidden, count_active-add-count_archived c.items)

at_match :
    (q : Product) (ps : List Product) (d : ℕ) {p : Product}
    → same q.active false ≡ true
    → ((k : ℕ) → get_elem? ps k ≡ some p → same p.active false ≡ true)
    → get_elem? (q ∷ ps) d ≡ some p
    → same p.active false ≡ true
at_match q ps zero b later h = cc
at_match q ps (suc d) b later h = later d h

archived-same :
    (ps : List Product) (d : ℕ) {p : Product}
    → get_elem? (matching false ps) d ≡ some p
    → same p.active false ≡ true
archived-same [] d h = cc
archived-same (q ∷ ps) d {p} h = elim (Bool-cases (same q.active false)) [
  | inl b ↦
      at_match q (matching false ps) d {p = p} b (λ k e. archived-same ps k e)
        (ground (arith, b, h))
  | inr b ↦ archived-same ps d {p = p} (ground (arith, b, h))
]

restore_here :
    (c : Catalog) (j : ℕ) (p : Product)
    → get_elem? c.items j ≡ some p
    → same p.active false ≡ true
    → can_restore c ≡ true
    → (restore c (pos j)).1 ≡ true
unfolding restore restore_at
restore_here c j p g b r = ground (arith, g, b, r)

restore_found :
    (c : Catalog) (i : ℕ) (n : ℤ)
    → Answer false c.items 0 i n
    → can_restore c ≡ true
    → (get_elem? (matching false c.items) i ≡ none) ⊎ ((restore c n).1 ≡ true)
restore_found c i n (missing e m) r = inl m
restore_found c i n (found k p e g m) r =
    let here = ap (get_elem? c.items) (omega arith) ∙ g in
    inr (rw e (restore_here c (0 + k) p here (archived-same c.items i m) r))

-- An archived product of the view can be brought back as long as there is room.
pub restore_archived :
    (c : Catalog) (index : ℕ) {p : Product}
    → archived_at c index ≡ some p
    → can_restore c ≡ true
    → (restore c (storage_index_of_archived c index)).1 ≡ true
unfolding storage_index_of_archived nth_matching
restore_archived c index h r =
    elim (restore_found c index _
      (nth_matching_from-Answer false c.items 0 0 index index (omega arith)) r) [
        | inl m ↦ let e = (active_at-matching c index).1 in cc
        | inr t ↦ t
      ]
