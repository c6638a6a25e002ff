-- ===== src/Float/Fixed.antt =====
-- A concrete instance of the interface for tests and witnesses: numbers with two decimal places,
-- held as a whole number of hundredths.
use planetariumfd.Prelude.{
  ℕ, zero, suc, ◌+◌, ◌*◌, ◌/◌, ◌≡◌, ℤ, pos, negsuc, ◌+ℤ◌, ◌-ℤ◌, ◌*ℤ◌, quotient, sub_ℕ, ltb_ℤ, leb_ℤ,
  magnitude, leb, if◌then◌else◌, pos_part, arith,
}
use native.Mathlib.Nat.{mul_assoc, mul_comm, mul-div_cancel}
use planetariumfd.Float.Defs.{Float, IsIeee}

abbrev pub Fixed : Type 0
Fixed = ℤ

abbrev hundred : ℤ → ℤ
hundred (pos n) = pos (100 * n)
hundred (negsuc n) = negsuc (100 * n + 99)

-- Division by a signed number, towards zero; a division by zero gives zero here.
abbrev divide : ℤ → ℤ → ℤ
divide (pos a) (pos b) = pos (a / b)
divide (pos a) (negsuc b) = sub_ℕ 0 (a / suc b)
divide (negsuc a) (pos b) = sub_ℕ 0 (suc a / b)
divide (negsuc a) (negsuc b) = pos (suc a / suc b)

abbrev whole_below : ℤ → ℤ
whole_below (pos n) = pos (n / 100 * 100)
whole_below (negsuc n) = sub_ℕ 0 ((n / 100 + 1) * 100)

abbrev whole_above : ℤ → ℤ
whole_above (pos n) = pos ((n + 99) / 100 * 100)
whole_above (negsuc n) = sub_ℕ 0 (suc n / 100 * 100)

-- The integer square root, a bit at a time.
abbrev root : ℕ → ℕ → ℕ
root zero n = 0
root (suc fuel) n = let r = 2 * root fuel (n / 4) in if leb ((r + 1) * (r + 1)) n then r + 1 else r

instance abbrev pub fixed : Float Fixed
unfolding ◌+ℤ◌ ◌-ℤ◌ ◌*ℤ◌ quotient
fixed = record {
  of_int = hundred;
  literal = λ n d. quotient (hundred n) d;
  add = λ a b. a +ℤ b;
  sub = λ a b. a -ℤ b;
  mul = λ a b. quotient (a *ℤ b) 100;
  div = λ a b. divide (hundred a) b;
  lt = ltb_ℤ;
  le = leb_ℤ;
  floor = whole_below;
  ceil = whole_above;
  abs = λ a. pos (magnitude a);
  sqrt = λ a. pos (root 40 (100 * pos_part a));
  to_int = λ a. quotient a 100;
}

-- Multiplying by a positive number and dividing by it again.
div-mul : (k n : ℕ) → k * suc n * 100 / (100 * suc n) ≡ k
div-mul k n = rw (mul_assoc k (suc n) 100, mul_comm (suc n) 100) (mul-div_cancel k (omega arith))

mul_lem : (a b : ℤ) → quotient (hundred a *ℤ hundred b) 100 ≡ hundred (a *ℤ b)
unfolding ◌*ℤ◌ quotient
mul_lem (pos a) (pos b) = ground arith
mul_lem (pos a) (negsuc b) = ground arith
mul_lem (negsuc a) (pos b) = ground arith
mul_lem (negsuc a) (negsuc b) = ground arith

div_lem :
    (a : ℤ) (n : ℕ) → divide (hundred (hundred (a *ℤ pos (suc n)))) (pos (100 * suc n)) ≡ hundred a
unfolding ◌*ℤ◌
div_lem (pos a) n = ground (arith, div-mul (100 * a) n)
div_lem (negsuc a) n = ground (arith, div-mul (100 * suc a) n)

pub Fixed-IsIeee : IsIeee Fixed
unfolding ◌+ℤ◌ ◌-ℤ◌ quotient fixed
Fixed-IsIeee = record {
  lt-of_int = λ a b p q. ground arith;
  add-of_int = λ a b p q r. ground arith;
  sub-of_int = λ a b p q r. ground arith;
  mul-of_int = λ a b p q r. mul_lem a b;
  div-of_int = λ a n p. div_lem a n;
  floor-of_int = λ a p. ground arith;
  ceil-of_int = λ a p. ground arith;
  to_int-of_int = λ a p. ground arith;
  literal-of_int = λ n p. ground arith;
}
