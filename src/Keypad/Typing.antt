-- ===== src/Keypad/Typing.antt =====
-- ui_screens.cpp: sequences of presses on the keypad.
use beer_tab.Common.{
  ℕ, ◌+◌, ◌-◌, ◌*◌, ◌≤◌, ◌≡◌, refl, ap, ◌∙◌, List, [], ◌∷◌, none, some, Bool, true, false, ascii,
  text_eq, ℤ, pos, negsuc, ◌+ℤ◌, pos_part, neg_part, arith, get_elem?,
}
use beer_tab.Records.{Product}
use beer_tab.Codec.Loops.{All}
use beer_tab.Catalog.{Catalog, set_price}
use beer_tab.Keypad.{
  PriceEntry, no_price, next_rappen, press_key, press_free, first_char, is_entered, Press, key,
  gratis, press, press_all,
}

-- No price on the pad is negative or above CHF 99.99.
pub record IsPrice (e : PriceEntry) : Type 0 where
  pub at_most : pos_part e.rappen ≤ 9999
  pub not_negative : neg_part e.rappen ≡ 0

pub no_price-IsPrice : IsPrice no_price
no_price-IsPrice = record { at_most = omega arith; not_negative = refl }

next_rappen_bounds :
    (digit : ℕ) (r : ℤ)
    → pos_part r ≤ 9999
    → neg_part r ≡ 0
    → (pos_part (next_rappen digit r) ≤ 9999) × (neg_part (next_rappen digit r) ≡ 0)
unfolding next_rappen ◌+ℤ◌
next_rappen_bounds digit (pos n) h z = ground (arith, h)
next_rappen_bounds digit (negsuc n) h z = absurd (omega (arith, z))

press_digit-IsPrice :
    (digit : ℕ) (e : PriceEntry)
    → IsPrice e
    → IsPrice (record { rappen = next_rappen digit e.rappen; free_item = false })
press_digit-IsPrice digit e v =
    let b = next_rappen_bounds digit e.rappen v.at_most v.not_negative in
    record { at_most = b.0; not_negative = b.1 }

pub press-IsPrice : (p : Press) (e : PriceEntry) → IsPrice e → IsPrice (press p e)
unfolding press press_key press_free
press-IsPrice gratis e v = record { at_most = omega arith; not_negative = refl }
press-IsPrice (key none) e v = v
press-IsPrice (key (some text)) e v =
    ground (arith, v, no_price-IsPrice, press_digit-IsPrice (first_char text - 48) e)

press_all-IsPrice : (ps : List Press) (e : PriceEntry) → IsPrice e → IsPrice (press_all ps e)
unfolding press_all
press_all-IsPrice [] e v = v
press_all-IsPrice (p ∷ ps) e v = press_all-IsPrice ps (press p e) (press-IsPrice p e v)

set_price_takes :
    (c : Catalog) (i : ℕ) (p : Product) (r : ℤ) (f : Bool)
    → get_elem? c.items i ≡ some p
    → pos_part r ≤ 9999
    → neg_part r ≡ 0
    → is_entered (record { rappen = r; free_item = f }) ≡ true
    → (set_price c (pos i) r f).1 ≡ true
unfolding set_price is_entered
set_price_takes c i p (pos n) f e h z entered = ground (arith, e, h, entered)
set_price_takes c i p (negsuc n) f e h z entered = absurd (omega (arith, z))

-- Whatever is pressed from an empty price on, a price that the confirm button takes is one that the
-- catalog takes for a product that it has.
pub press_all_taken :
    (ps : List Press) (c : Catalog) (i : ℕ) (p : Product)
    → get_elem? c.items i ≡ some p
    → is_entered (press_all ps no_price) ≡ true
    → let e = press_all ps no_price in (set_price c (pos i) e.rappen e.free_item).1 ≡ true
press_all_taken ps c i p found entered =
    let e = press_all ps no_price in
    let v = press_all-IsPrice ps no_price no_price-IsPrice in
    set_price_takes c i p e.rappen e.free_item found v.at_most v.not_negative entered

-- The number that digits stand for, behind the number `n`.
abbrev pub typed : List ℕ → ℕ → ℕ
typed [] n = n
typed (d ∷ ds) n = typed ds (n * 10 + d)

-- The keys of the digits.
abbrev pub digit_keys : List ℕ → List Press
digit_keys [] = []
digit_keys (d ∷ ds) = key (some ((48 + d) ∷ [])) ∷ digit_keys ds

typed_least : (ds : List ℕ) (n : ℕ) → n ≤ typed ds n
typed_least [] n = omega arith
typed_least (d ∷ ds) n = omega (arith, typed_least ds (n * 10 + d))

next_rappen_pos : (d n : ℕ) → n * 10 + d ≤ 9999 → next_rappen d (pos n) ≡ pos (n * 10 + d)
unfolding next_rappen ◌+ℤ◌
next_rappen_pos d n h = ground (arith, h)

press_digit_key :
    (d n : ℕ) (f : Bool)
    → d ≤ 9
    → n * 10 + d ≤ 9999
    → press (key (some ((48 + d) ∷ []))) (record { rappen = pos n; free_item = f })
      ≡ record { rappen = pos (n * 10 + d); free_item = false }
unfolding press press_key text_eq
press_digit_key d n f small h = ground (arith, small, next_rappen_pos d n h)

press_all_digits :
    (ds : List ℕ) (n : ℕ)
    → All (λ d. d ≤ 9) ds
    → typed ds n ≤ 9999
    → press_all (digit_keys ds) (record { rappen = pos n; free_item = false })
      ≡ record { rappen = pos (typed ds n); free_item = false }
unfolding press_all
press_all_digits [] n small h = refl
press_all_digits (d ∷ ds) n small h =
    ap (λ e. press_all (digit_keys ds) e)
      (press_digit_key d n false small.0 (omega (arith, h, typed_least ds (n * 10 + d))))
    ∙ press_all_digits ds (n * 10 + d) small.1 h

-- The digits of an amount up to CHF 99.99, typed after `C`, compose that amount, whatever was there.
pub press_all-typed :
    (ds : List ℕ) (e : PriceEntry)
    → All (λ d. d ≤ 9) ds
    → typed ds 0 ≤ 9999
    → press_all (key (some (ascii "C")) ∷ digit_keys ds) e
      ≡ record { rappen = pos (typed ds 0); free_item = false }
unfolding press_all press press_key text_eq
press_all-typed ds e small h = press_all_digits ds 0 small h
