-- ===== src/Codec/Loops.antt =====
-- The record loops of catalog_codec.cpp: each encoder writes one record after another, and each
-- decoder reads `count` records, moving its pointer on by the record size.
use beer_tab.Common.{
  ℕ, zero, suc, ◌+◌, ◌*◌, ◌≡◌, refl, sym, ap, ◌∙◌, List, [], ◌∷◌, ◌++◌, append_assoc, length,
  length-append, drop, arith,
}

module _ {ℓ} {A : Type ℓ} where
  unfoldable pub put_records : (A → List ℕ) → List A → List ℕ
  put_records put [] = []
  put_records put (x ∷ xs) = put x ++ put_records put xs

  unfoldable pub get_records : ℕ → (List ℕ → A) → ℕ → List ℕ → List A
  get_records size get zero p = []
  get_records size get (suc n) p = get p ∷ get_records size get n (drop size p)

  -- Every element satisfies `P`.
  abbrev pub All : (A → Type 0) → List A → Type 0
  All P [] = Unit {0}
  All P (x ∷ xs) = P x × All P xs

pub All-append {ℓ} :
    {A : Type ℓ} (P : A → Type 0) (xs ys : List A) → All P xs → All P ys → All P (xs ++ ys)
All-append P [] ys h k = k
All-append P (x ∷ xs) ys h k = (h.0, All-append P xs ys h.1 k)

pub drop-append_exact {ℓ} :
    {A : Type ℓ} (n : ℕ) (xs ys : List A) → length xs ≡ n → drop n (xs ++ ys) ≡ ys
drop-append_exact zero [] ys h = refl
drop-append_exact zero (x ∷ xs) ys h = absurd (omega arith)
drop-append_exact (suc n) [] ys h = absurd (omega arith)
drop-append_exact (suc n) (x ∷ xs) ys h = drop-append_exact n xs ys (omega arith)

drop-nil {ℓ} : {A : Type ℓ} (n : ℕ) → drop {A = A} n [] ≡ []
drop-nil zero = refl
drop-nil (suc n) = refl

drop_add {ℓ} : {A : Type ℓ} (n m : ℕ) (xs : List A) → drop (n + m) xs ≡ drop m (drop n xs)
drop_add zero m xs = ap (λ k. drop k xs) (omega arith)
drop_add (suc n) m [] = drop-nil (suc n + m) ∙ sym (drop-nil m)
drop_add (suc n) m (x ∷ xs) = ap (λ k. drop k (x ∷ xs)) shifted ∙ drop_add n m xs
  where
    shifted : suc n + m ≡ suc (n + m)
    shifted = omega arith

-- A pointer at a field, moved on by the width of the field, points behind it.
pub drop_next {ℓ} :
    {A : Type ℓ} (n m : ℕ) (all xs ys : List A)
    → drop n all ≡ xs ++ ys
    → length xs ≡ m
    → drop (n + m) all ≡ ys
drop_next n m all xs ys h e = drop_add n m all ∙ ap (drop m) h ∙ drop-append_exact m xs ys e

-- A record layout of `size` bytes that reads back what it wrote, whatever follows.
pub record Layout {ℓ} (A : Type ℓ) : Type (ℓ ⊔ 1) where
  pub size : ℕ
  pub put : A → List ℕ
  pub get : List ℕ → A
  pub Fits : A → Type 0
  pub length-put : (x : A) → Fits x → length (put x) ≡ size
  pub get-put : (x : A) (rest : List ℕ) → Fits x → get (put x ++ rest) ≡ x

module _ {ℓ} {A : Type ℓ} (l : Layout A) where
  open l use {size, put, get, Fits, length-put, get-put}

  pub length-put_records :
      (xs : List A) → All Fits xs → length (put_records put xs) ≡ length xs * size
  unfolding put_records
  length-put_records [] h = omega arith
  length-put_records (x ∷ xs) h = omega (
    arith,
    length-append (put x) (put_records put xs),
    length-put x h.0,
    length-put_records xs h.1,
  )

  pub get_records-put_records :
      (xs : List A) (rest : List ℕ)
      → All Fits xs
      → get_records size get (length xs) (put_records put xs ++ rest) ≡ xs
  unfolding put_records get_records
  get_records-put_records [] rest h = refl
  get_records-put_records (x ∷ xs) rest h =
      rw
        (
          append_assoc (put x) (put_records put xs) rest,
          get-put x (put_records put xs ++ rest) h.0,
          drop-append_exact size (put x) (put_records put xs ++ rest) (length-put x h.0),
        )
        (ap (λ t. x ∷ t) (get_records-put_records xs rest h.1))
