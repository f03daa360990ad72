-- ===== src/Common/Strings.antt =====
-- C strings. A `char` array that holds a terminated string is the list of the bytes before its
-- terminator, so it is empty exactly when its first byte is '\0'.
use Prim.Native.Nat.{ℕ, zero, suc, ◌+◌, ◌-◌, ◌/◌, ◌%◌, ◌≤◌, ◌<◌}
use Prim.Native.Char.{code}
use Prim.Native.String.{String}
use mathlib.Core.Path.{◌≡◌, refl, ap}
use mathlib.Core.Logic.{◌↔◌}
use mathlib.Core.Bool.{Bool, true, false, ◌&&◌}
use mathlib.Core.List.{List, [], ◌∷◌}
use native.Mathlib.Omega.{arith}
use beer_tab.Common.Tests.{◌==◌, if◌then◌else◌}
use beer_tab.Common.Lists.{length, take, length-take}

abbrev pub Text : Type 0
Text = List ℕ

-- The bytes of an ASCII literal.
abbrev pub ascii : String → Text
ascii String.[] = []
ascii (String.◌∷◌ c s) = code c ∷ ascii s

-- `s[0] == '\0'`.
abbrev pub is_empty : Text → Bool
is_empty [] = true
is_empty (c ∷ s) = false

-- `strcmp(s, t) == 0`.
unfoldable pub text_eq : Text → Text → Bool
text_eq [] [] = true
text_eq [] (d ∷ t) = false
text_eq (c ∷ s) [] = false
text_eq (c ∷ s) (d ∷ t) = c == d && text_eq s t

pub text_eq_iff : (s t : Text) → (text_eq s t ≡ true) ↔ (s ≡ t)
unfolding text_eq
text_eq_iff [] [] = ((λ h. refl), (λ h. refl))
text_eq_iff [] (d ∷ t) = ((λ h. cc), (λ h. cc))
text_eq_iff (c ∷ s) [] = ((λ h. cc), (λ h. cc))
text_eq_iff (c ∷ s) (d ∷ t) =
    ((λ h. ground (arith, text_eq_iff s t)), (λ h. ground (arith, text_eq_iff s t)))

pub text_eq_refl : (s : Text) → text_eq s s ≡ true
text_eq_refl s = (text_eq_iff s s).1 refl

-- `snprintf(dst, cap, "%s", src)`: at most `cap - 1` bytes, and a terminator.
abbrev pub print_text : ℕ → Text → Text
print_text cap src = take (cap - 1) src

-- The bytes of a string in an array of `cap` bytes: none is the terminator, and there is room for
-- the terminator behind them.
abbrev pub AllBytes : Text → Type 0
AllBytes [] = Unit {0}
AllBytes (c ∷ s) = (0 < c) × (c < 256) × AllBytes s

pub record IsText (cap : ℕ) (s : Text) : Type 0 where
  pub fits : length s < cap
  pub bytes : AllBytes s

pub take_all {ℓ} : {A : Type ℓ} (n : ℕ) (xs : List A) → length xs ≤ n → take n xs ≡ xs
take_all zero [] h = refl
take_all zero (x ∷ xs) h = absurd (omega arith)
take_all (suc n) [] h = refl
take_all (suc n) (x ∷ xs) h = ap (λ t. x ∷ t) (take_all n xs (omega arith))

pub AllBytes-take : (n : ℕ) (s : Text) → AllBytes s → AllBytes (take n s)
AllBytes-take zero s h = tt
AllBytes-take (suc n) [] h = tt
AllBytes-take (suc n) (c ∷ s) h = (h.0, h.1, AllBytes-take n s h.2)

-- A string that fits its array is copied whole.
pub print_text_fits : (cap : ℕ) (s : Text) → IsText cap s → print_text cap s ≡ s
print_text_fits cap s h = take_all (cap - 1) s (omega (arith, h.fits))

-- What `snprintf` leaves always fits, whatever it was given.
pub print_text-IsText : (cap : ℕ) (s : Text) → 0 < cap → AllBytes s → IsText cap (print_text cap s)
print_text-IsText cap s h b = record {
  fits = omega (arith, length-take (cap - 1) s);
  bytes = AllBytes-take (cap - 1) s b;
}

-- The decimal digits of a number, as `%d` and `%lu` print it; `fuel` digits at most.
abbrev pub decimal_on : ℕ → ℕ → Text → Text
decimal_on zero n acc = acc
decimal_on (suc fuel) n acc =
    let more = decimal_on fuel (n / 10) ((48 + n % 10) ∷ acc) in
    if n / 10 == 0 then (48 + n % 10) ∷ acc else more

-- Ten digits are enough for 32 bits.
abbrev pub decimal : ℕ → Text
decimal n = decimal_on 10 n []

pub length-print_text : (cap : ℕ) (t : Text) → 0 < cap → length (print_text cap t) < cap
length-print_text cap t h = ground (arith, h, length-take (cap - 1) t)
