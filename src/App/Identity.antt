-- ===== src/App/Identity.antt =====
-- app_state.cpp: `make_transaction_id`.
use native.Mathlib.Nat.{div-add-mod, mod-lt, pow-suc}
use beer_tab.Common.{
  ℕ, zero, suc, ◌/◌, ◌%◌, ◌^◌, ◌<◌, ◌≡◌, refl, sym, ap, ◌∙◌, List, [], ◌∷◌, ◌++◌, Text, ascii,
  length, length-append, take_all, arith,
}
use beer_tab.Settings.{device_id}
use beer_tab.App.{hex, hex_digit, make_transaction_id}

-- Two lists that are equal, split at the same place.
append_inj {ℓ} :
    {A : Type ℓ} (xs ys us vs : List A)
    → length xs ≡ length ys
    → xs ++ us ≡ ys ++ vs
    → (xs ≡ ys) × (us ≡ vs)
append_inj [] [] us vs h e = (refl, e)
append_inj [] (y ∷ ys) us vs h e = absurd (omega arith)
append_inj (x ∷ xs) [] us vs h e = absurd (omega arith)
append_inj (x ∷ xs) (y ∷ ys) us vs h e =
    let rest : xs ++ us ≡ ys ++ vs = cc in
    let here : x ≡ y = cc in
    let (front, back) = append_inj xs ys us vs (omega arith) rest in (cc, back)

length-hex : (w n : ℕ) → length (hex w n) ≡ w
unfolding hex
length-hex zero n = refl
length-hex (suc w) n =
    length-append (hex w (n / 16)) (hex_digit (n % 16) ∷ []) ∙ omega (arith, length-hex w (n / 16))

hex_digit_inj : (n m : ℕ) → n < 16 → m < 16 → hex_digit n ≡ hex_digit m → n ≡ m
unfolding hex_digit
hex_digit_inj n m h k e = ground (arith, h, k, e)

high_part : (n w : ℕ) → n < 16 ^ suc w → n / 16 < 16 ^ w
high_part n w h = omega (arith, h, pow-suc 16 w, div-add-mod n 16)

hex_inj : (w n m : ℕ) → n < 16 ^ w → m < 16 ^ w → hex w n ≡ hex w m → n ≡ m
unfolding hex
hex_inj zero n m h k e = omega arith
hex_inj (suc w) n m h k e =
    let (front, back) =
      append_inj (hex w (n / 16)) (hex w (m / 16)) (hex_digit (n % 16) ∷ [])
        (hex_digit (m % 16) ∷ []) (length-hex w (n / 16) ∙ sym (length-hex w (m / 16))) e in
    let digit : hex_digit (n % 16) ≡ hex_digit (m % 16) = cc in
    let low =
      hex_digit_inj (n % 16) (m % 16) (mod-lt n (omega arith)) (mod-lt m (omega arith)) digit in
    let high = hex_inj w (n / 16) (m / 16) (high_part n w h) (high_part m w k) front in
    omega (arith, low, high, div-add-mod n 16, div-add-mod m 16)

-- The parts behind the name of the device.
abbrev stamp : ℕ → ℕ → Text
stamp clock random = hex 8 clock ++ (ascii "-" ++ hex 4 (random % 2 ^ 16))

length-stamp : (clock random : ℕ) → length (stamp clock random) ≡ 13
length-stamp clock random =
    length-append (hex 8 clock) (ascii "-" ++ hex 4 (random % 2 ^ 16))
    ∙ omega (arith, length-hex 8 clock, length-hex 4 (random % 2 ^ 16))

-- The array of 24 bytes holds the id whole.
make_transaction_id-stamp :
    (clock random : ℕ)
    → make_transaction_id clock random ≡ device_id ++ (ascii "-" ++ stamp clock random)
unfolding make_transaction_id
make_transaction_id-stamp clock random =
    take_all 23 (device_id ++ (ascii "-" ++ stamp clock random))
      (omega (arith, length-stamp clock random))

stamp_inj :
    (clock random clock' random' : ℕ)
    → clock < 2 ^ 32
    → clock' < 2 ^ 32
    → stamp clock random ≡ stamp clock' random'
    → (clock ≡ clock') × (random % 2 ^ 16 ≡ random' % 2 ^ 16)
stamp_inj c r c' r' h k e =
    let (front, back) =
      append_inj (hex 8 c) (hex 8 c') (ascii "-" ++ hex 4 (r % 2 ^ 16))
        (ascii "-" ++ hex 4 (r' % 2 ^ 16)) (length-hex 8 c ∙ sym (length-hex 8 c')) e in
    let behind : hex 4 (r % 2 ^ 16) ≡ hex 4 (r' % 2 ^ 16) = cc in
    (
      hex_inj 8 c c' (omega arith) (omega arith) front,
      hex_inj 4 (r % 2 ^ 16) (r' % 2 ^ 16) (omega arith) (omega arith) behind,
    )

stamps :
    (clock random clock' random' : ℕ)
    → device_id ++ (ascii "-" ++ stamp clock random)
      ≡ device_id ++ (ascii "-" ++ stamp clock' random')
    → stamp clock random ≡ stamp clock' random'
stamps c r c' r' e =
    (append_inj (device_id ++ ascii "-") (device_id ++ ascii "-") (stamp c r) (stamp c' r') refl
      e).1

-- No transaction id is cut by its array: it has 23 bytes.
pub length-make_transaction_id : (clock random : ℕ) → length (make_transaction_id clock random) ≡ 23
length-make_transaction_id c r =
    ap length (make_transaction_id-stamp c r) ∙ omega (arith, length-stamp c r)

-- Two transaction ids are equal only where the milliseconds, which fit 32 bits, and the sixteen random
-- bits are.
pub make_transaction_id_inj :
    (clock random clock' random' : ℕ)
    → clock < 2 ^ 32
    → clock' < 2 ^ 32
    → make_transaction_id clock random ≡ make_transaction_id clock' random'
    → (clock ≡ clock') × (random % 2 ^ 16 ≡ random' % 2 ^ 16)
make_transaction_id_inj c r c' r' h k e =
    stamp_inj c r c' r' h k (
      stamps c r c' r'
        (sym (make_transaction_id-stamp c r) ∙ (e ∙ make_transaction_id-stamp c' r')))
