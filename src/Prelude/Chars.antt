-- ===== src/Prelude/Chars.antt =====
-- Text as lists of character codes: literals, equality, decimal output.
use Prim.Native.Nat.{ℕ, zero, suc, ◌+◌, ◌/◌, ◌%◌}
use Prim.Native.Char.{code}
use Prim.Native.String.{String}
use mathlib.Core.Path.{◌≡◌, refl}
use mathlib.Core.Bool.{Bool, true, false, ◌&&◌}
use mathlib.Core.List.{List, [], ◌∷◌}
use native.Mathlib.Omega.{arith}
use planetariumfd.Prelude.Tests.{◌==◌, ltb, if◌then◌else◌}
use planetariumfd.Prelude.Int.{ℤ, pos, negsuc}

abbrev pub Text : Type 0
Text = List ℕ

-- The codes of a literal.
abbrev pub codes : String → Text
codes String.[] = []
codes (String.◌∷◌ c s) = code c ∷ codes s

abbrev pub text_eq : Text → Text → Bool
text_eq [] [] = true
text_eq (x ∷ xs) (y ∷ ys) = x == y && text_eq xs ys
text_eq _ _ = false

pub text_eq_self : (xs : Text) → text_eq xs xs ≡ true
text_eq_self [] = refl
text_eq_self (x ∷ xs) = ground (arith, text_eq_self xs)

-- The digits of `n` in front of `rest`, with fuel for the number of digits.
abbrev pub digits_on : ℕ → ℕ → Text → Text
digits_on zero n rest = rest
digits_on (suc fuel) n rest =
    let last = (b'0' + n % 10) ∷ rest in
    let more = digits_on fuel (n / 10) last in if ltb n 10 then last else more

-- `ostream << n`. A `long` has at most 20 digits.
unfoldable pub decimal : ℕ → Text
decimal n = digits_on 20 n []

unfoldable pub decimal_ℤ : ℤ → Text
decimal_ℤ (pos n) = decimal n
decimal_ℤ (negsuc n) = b'-' ∷ decimal (suc n)
