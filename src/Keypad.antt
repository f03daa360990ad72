-- ===== src/Keypad.antt =====
-- firmware/beer_terminal/ui_screens.cpp: the price that is composed on the keypad.
pub mod Typing
use beer_tab.Common.{
  ℕ, ◌+◌, ◌-◌, ◌*◌, List, [], ◌∷◌, Option, none, some, Bool, true, false, not, ◌&&◌, ◌||◌, Text,
  ascii, text_eq, ℤ, pos, negsuc, ◌+ℤ◌, ltb_ℤ, leb, if◌then◌else◌,
}
use beer_tab.Records.{Product}

-- `g_entry_rappen` and `g_entry_free`.
pub record PriceEntry : Type 0 where
  pub rappen : ℤ
  pub free_item : Bool

abbrev pub no_price : PriceEntry
no_price = record { rappen = pos 0; free_item = false }

abbrev times_ten : ℤ → ℤ
times_ten (pos n) = pos (n * 10)
times_ten (negsuc n) = negsuc (n * 10 + 9)

abbrev pub first_char : Text → ℕ
first_char [] = 0
first_char (c ∷ s) = c

abbrev is_digit : ℕ → Bool
is_digit c = leb 48 c && leb c 57

-- The product is one of integers: as the price grows to CHF 99.99 at most, ten times it fits an
-- `int32_t`.
unfoldable pub next_rappen : ℕ → ℤ → ℤ
next_rappen digit rappen =
    let next = times_ten rappen +ℤ pos digit in if ltb_ℤ (pos 9999) next then rappen else next

abbrev press_digit : ℕ → PriceEntry → PriceEntry
press_digit digit e = record { rappen = next_rappen digit e.rappen; free_item = false }

-- `on_keypad`, with the text of the key that was pressed.
unfoldable pub press_key : Option Text → PriceEntry → PriceEntry
unfolding next_rappen
press_key none e = e
press_key (some key) e =
    if text_eq key (ascii "C")
    then no_price
    else if is_digit (first_char key)
    then press_digit (first_char key - 48) e
    else e

-- `on_free`.
unfoldable pub press_free : PriceEntry → PriceEntry
press_free e = record { rappen = pos 0; free_item = true }

-- There is a price, or the beer is free.
unfoldable pub is_entered : PriceEntry → Bool
is_entered e = not (not e.free_item && not (ltb_ℤ (pos 0) e.rappen))

-- The price that the manage screen starts from.
unfoldable pub price_of : Option Product → PriceEntry
price_of none = no_price
price_of (some p) = record { rappen = p.price_rappen; free_item = p.free_item }

-- The buttons that change the price: a key of the pad, by its text, and `Gratis`.
pub data Press : Type 0 where
  key : Option Text → Press
  gratis : Press

unfoldable pub press : Press → PriceEntry → PriceEntry
unfolding press_key press_free
press (key text) e = press_key text e
press gratis e = press_free e

unfoldable pub press_all : List Press → PriceEntry → PriceEntry
unfolding press
press_all [] e = e
press_all (p ∷ ps) e = press_all ps (press p e)
