-- ===== src/Float/Defs.antt =====
-- What the sources use of `float`: conversion from and to `int`, literals, arithmetic, comparison,
-- `floor`, `ceil`, `abs`, and OpenCV's `cvSqrt`.
use planetariumfd.Prelude.{ℕ, suc, ◌^◌, ◌≤◌, ◌≡◌, ℤ, pos, ◌+ℤ◌, ◌-ℤ◌, ◌*ℤ◌, ltb_ℤ, magnitude, Bool}

pub record Float (F : Type 0) : Type 0 where
  pub of_int : ℤ → F
  -- A literal, as a numerator over a denominator: `1.1f` is `literal (pos 11) 10`.
  pub literal : ℤ → ℕ → F
  pub add : F → F → F
  pub sub : F → F → F
  pub mul : F → F → F
  pub div : F → F → F
  pub lt : F → F → Bool
  pub le : F → F → Bool
  pub floor : F → F
  pub ceil : F → F
  pub abs : F → F
  pub sqrt : F → F
  -- The cast `(int)f` of a float without a fraction.
  pub to_int : F → ℤ

-- Integers up to 2^24 in magnitude have an exact `float`.
abbrev pub IsExact : ℤ → Type 0
IsExact z = magnitude z ≤ 2 ^ 24

-- IEEE single precision on exactly represented integers.
pub record IsIeee (F : Type 0) ⦃fl : Float F⦄ : Type 0 where
  pub lt-of_int : (a b : ℤ) → IsExact a → IsExact b → fl.lt (fl.of_int a) (fl.of_int b) ≡ ltb_ℤ a b
  pub add-of_int :
      (a b : ℤ)
      → IsExact a
      → IsExact b
      → IsExact (a +ℤ b)
      → fl.add (fl.of_int a) (fl.of_int b) ≡ fl.of_int (a +ℤ b)
  pub sub-of_int :
      (a b : ℤ)
      → IsExact a
      → IsExact b
      → IsExact (a -ℤ b)
      → fl.sub (fl.of_int a) (fl.of_int b) ≡ fl.of_int (a -ℤ b)
  pub mul-of_int :
      (a b : ℤ)
      → IsExact a
      → IsExact b
      → IsExact (a *ℤ b)
      → fl.mul (fl.of_int a) (fl.of_int b) ≡ fl.of_int (a *ℤ b)
  -- A quotient that is exact is not rounded.
  pub div-of_int :
      (a : ℤ) (n : ℕ)
      → IsExact (a *ℤ pos (suc n))
      → fl.div (fl.of_int (a *ℤ pos (suc n))) (fl.of_int (pos (suc n))) ≡ fl.of_int a
  pub floor-of_int : (a : ℤ) → IsExact a → fl.floor (fl.of_int a) ≡ fl.of_int a
  pub ceil-of_int : (a : ℤ) → IsExact a → fl.ceil (fl.of_int a) ≡ fl.of_int a
  pub to_int-of_int : (a : ℤ) → IsExact a → fl.to_int (fl.of_int a) ≡ a
  pub literal-of_int : (n : ℕ) → n ≤ 2 ^ 24 → fl.literal (pos n) 1 ≡ fl.of_int (pos n)
