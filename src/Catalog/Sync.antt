-- ===== src/Catalog/Sync.antt =====
-- product_catalog.cpp: `replace_all`.
use beer_tab.Common.{
  ◌≢◌, ◌<◌, ◌⊎◌, Bool, Text, is_empty, text_eq, text_eq_iff, ℕ, zero, suc, ◌+◌, ◌-◌, ◌≤◌, ◌≡◌, refl,
  sym, ap, ◌∙◌, List, [], ◌∷◌, ◌++◌, append-nil, append_assoc, true, false, length, length-append,
  take, ltb, leb, if◌then◌else◌, Bool-cases, inl, inr, arith,
}
use beer_tab.Codec.Loops.{All}
use beer_tab.Settings.{max_products}
use beer_tab.Records.{Product}
use beer_tab.Catalog.{Catalog, local_products, superseded, append_local, replace_all}

-- The local products whose name the synced list does not have.
abbrev kept : List Product → List Product → List Product
kept synced [] = []
kept synced (p ∷ ps) = let rest = kept synced ps in if superseded synced p then rest else p ∷ rest

append_local-full :
    (synced acc ps : List Product) → max_products ≤ length acc → append_local synced acc ps ≡ acc
unfolding append_local
append_local-full synced acc [] h = refl
append_local-full synced acc (p ∷ ps) h = rw (full) (append_local-full synced acc ps h)
  where
    full : leb max_products (length acc) ≡ true
    full = ground (arith, h)

append_local_lem :
    (synced acc ps : List Product) (room : ℕ)
    → length acc + room ≡ max_products
    → append_local synced acc ps ≡ acc ++ take room (kept synced ps)
unfolding append_local
append_local_lem synced acc [] zero h = sym (append-nil acc)
append_local_lem synced acc [] (suc room) h = sym (append-nil acc)
append_local_lem synced acc (p ∷ ps) zero h =
    append_local-full synced acc (p ∷ ps) (omega arith) ∙ sym (append-nil acc)
append_local_lem synced acc (p ∷ ps) (suc room) h = elim (Bool-cases (superseded synced p)) [
  | inl old ↦ rw (free, old) (append_local_lem synced acc ps (suc room) h)
  | inr new ↦
      rw (free, new)
        (append_local_lem synced (acc ++ (p ∷ [])) ps room
            (omega (arith, length-append acc (p ∷ [])))
          ∙ append_assoc acc (p ∷ []) (take room (kept synced ps)))
]
  where
    free : leb max_products (length acc) ≡ false
    free = ground (arith, h)

-- A product of the list has this name.
pub data Named (name : Text) : List Product → Type 0 where
  first : {s : Product} {ss : List Product} → s.name ≡ name → Named name (s ∷ ss)
  later : {s : Product} {ss : List Product} → Named name ss → Named name (s ∷ ss)

-- What of a catalog is to be carried over, in its order: the products with no barcode whose name no
-- product of the synced list has.
pub data Carried (synced : List Product) : List Product → List Product → Type 0 where
  none_left : Carried synced [] []
  carries :
      {p : Product} {ps ks : List Product}
      → p.barcode ≡ []
      → All (λ s. s.name ≢ p.name) synced
      → Carried synced ps ks
      → Carried synced (p ∷ ps) (p ∷ ks)
  knows_by_barcode :
      {p : Product} {ps ks : List Product}
      → p.barcode ≢ []
      → Carried synced ps ks
      → Carried synced (p ∷ ps) ks
  knows_by_name :
      {p : Product} {ps ks : List Product}
      → Named p.name synced
      → Carried synced ps ks
      → Carried synced (p ∷ ps) ks

superseded-Named :
    (synced : List Product) (p : Product) → superseded synced p ≡ true → Named p.name synced
unfolding superseded
superseded-Named [] p h = cc
superseded-Named (s ∷ ss) p h = elim (Bool-cases (text_eq s.name p.name)) [
  | inl b ↦ first ((text_eq_iff s.name p.name).0 b)
  | inr b ↦ later (superseded-Named ss p (ground (arith, b, h)))
]

name_differs : (a b : Text) → text_eq a b ≡ false → a ≢ b
name_differs a b h e = let t = (text_eq_iff a b).1 e in cc

superseded-none :
    (synced : List Product) (p : Product)
    → superseded synced p ≡ false
    → All (λ s. s.name ≢ p.name) synced
unfolding superseded
superseded-none [] p h = tt
superseded-none (s ∷ ss) p h =
    (name_differs s.name p.name (ground (arith, h)), superseded-none ss p (ground (arith, h)))

is_empty_nil : (s : Text) → is_empty s ≡ true → s ≡ []
is_empty_nil [] h = refl
is_empty_nil (c ∷ s) h = cc

nil_is_empty : (s : Text) → is_empty s ≡ false → s ≢ []
nil_is_empty s h e = ground (arith, h, e)

kept-Carried : (synced ps : List Product) → Carried synced ps (kept synced (local_products ps))
unfolding local_products
kept-Carried synced [] = none_left
kept-Carried synced (p ∷ ps) = elim (Bool-cases (is_empty p.barcode)) [
  | inr b ↦ rw b (knows_by_barcode (nil_is_empty p.barcode b) (kept-Carried synced ps))
  | inl b ↦ rw b (elim (Bool-cases (superseded synced p)) [
    | inl n ↦ rw n (knows_by_name (superseded-Named synced p n) (kept-Carried synced ps))
    | inr n ↦
        rw n
          (carries (is_empty_nil p.barcode b) (superseded-none synced p n) (kept-Carried synced ps))
  ])
]

-- What became of a catalog and a synced list that fits.
pub record Replaced (c : Catalog) (synced : List Product) (revision : ℕ) (result : Catalog × Bool)
    : Type 0 where
  pub carried : List Product
  pub is_carried : Carried synced c.items carried
  pub fits : length synced ≤ max_products
  pub replaced : result ≡ (
    record {
      items = synced ++ take (max_products - length synced) carried;
      revision = revision;
      dirty = true;
    },
    true,
  )

-- A list that fits is taken over whole, with its revision, and behind it come the products of the
-- catalog that have no barcode and whose name no product of the list has, in their order, as many as
-- there is room for: the others of them are lost. A list that does not fit changes nothing.
pub replace_all_lem :
    (c : Catalog) (synced : List Product) (revision : ℕ)
    → ((max_products < length synced) × (replace_all c synced revision ≡ (c, false)))
      ⊎ Replaced c synced revision (replace_all c synced revision)
unfolding replace_all
replace_all_lem c synced revision = elim (Bool-cases (ltb max_products (length synced))) [
  | inl big ↦ rw big (inl (ground (arith, big), refl))
  | inr fits ↦ rw fits (
      inr (record {
        carried = kept synced (local_products c.items);
        is_carried = kept-Carried synced c.items;
        fits = ground (arith, fits);
        replaced =
            ap
              (λ (ps : List Product).
                (record { items = ps; revision = revision; dirty = true }, true))
              (append_local_lem synced synced (local_products c.items)
                (max_products - length synced) (ground (arith, fits)));
      }))
]
