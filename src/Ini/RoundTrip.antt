-- ===== src/Ini/RoundTrip.antt =====
-- Numbers in decimal, as `ostream << n` prints them and `sscanf("%d")` reads them.
use planetariumfd.Prelude.{
  ℕ, zero, suc, ◌+◌, ◌*◌, ◌/◌, ◌%◌, ◌<◌, ◌≡◌, refl, ap, ◌∙◌, ℤ, pos, negsuc, sub_ℕ, magnitude, Bool,
  true, false, [], ◌∷◌, ◌++◌, some, none, Option, arith, Bool-cases, inl, inr, ltb, ◌==◌, Text,
  codes, digits_on, decimal, decimal_ℤ, ◌≤ℤ◌,
}
use planetariumfd.Ini.{
  Platform, scan_digits, scan_number, scan_int, is_digit, is_space, is_empty, get_ini_string,
  get_ini_int, is_space, fit_int,
}

-- How many numbers have at most so many digits.
abbrev pub limit : ℕ → ℕ
limit zero = 1
limit (suc k) = 10 * limit k

last_digit : (n : ℕ) → is_digit (b'0' + n % 10) ≡ true
last_digit n = ground arith

-- Reading what is printed in front of `rest` goes on in `rest` with the number.
pub scan_digits-digits_on :
    (fuel n : ℕ) (rest : Text) (seen : Bool)
    → n < limit (suc fuel)
    → scan_digits (digits_on (suc fuel) n rest) 0 seen ≡ scan_digits rest n true
scan_digits-digits_on zero n rest seen h =
    let one : ltb n 10 ≡ true = ground arith in
    rw one (rw (last_digit n) (ap (λ k. scan_digits rest k true) (ground arith)))
scan_digits-digits_on (suc k) n rest seen h = elim (Bool-cases (ltb n 10)) [
  | inl one ↦ rw one (rw (last_digit n) (ap (λ k. scan_digits rest k true) (ground arith)))
  | inr more ↦ rw more (
      scan_digits-digits_on k (n / 10) ((b'0' + n % 10) ∷ rest) seen (omega arith)
      ∙ rw (last_digit n) (ap (λ k. scan_digits rest k true) (omega arith)))
]

pub digits_on-append :
    (fuel n : ℕ) (a b : Text) → digits_on fuel n a ++ b ≡ digits_on fuel n (a ++ b)
digits_on-append zero n a b = refl
digits_on-append (suc k) n a b = elim (Bool-cases (ltb n 10)) [
  | inl one ↦ rw one refl
  | inr more ↦ rw more (digits_on-append k (n / 10) ((b'0' + n % 10) ∷ a) b)
]

-- A print begins with a digit.
pub digits_on-first :
    (fuel n : ℕ) (rest : Text)
    → (c : ℕ) × (cs : Text) × (digits_on (suc fuel) n rest ≡ c ∷ cs) × (is_digit c ≡ true)
digits_on-first zero n rest = elim (Bool-cases (ltb n 10)) [
  | inl one ↦ (b'0' + n % 10, rest, rw one refl, last_digit n)
  | inr more ↦ (b'0' + n % 10, rest, rw more refl, last_digit n)
]
digits_on-first (suc k) n rest = elim (Bool-cases (ltb n 10)) [
  | inl one ↦ (b'0' + n % 10, rest, rw one refl, last_digit n)
  | inr more ↦
      let (c, cs, e, d) = digits_on-first k (n / 10) ((b'0' + n % 10) ∷ rest) in
      (c, cs, rw more e, d)
]

digit_lem :
    (c : ℕ)
    → is_digit c ≡ true
    → (is_space c ≡ false) × ((c == b'-') ≡ false) × ((c == b'+') ≡ false)
digit_lem c d = (ground arith, ground arith, ground arith)

signed_digits-digit :
    (c : ℕ) (cs : Text) (n : ℕ)
    → is_digit c ≡ true
    → scan_digits (c ∷ cs) 0 false ≡ some n
    → scan_number (c ∷ cs) ≡ some (pos n)
unfolding scan_number
signed_digits-digit c cs n d e =
    let (space, minus, plus) = digit_lem c d in rw space (rw minus (rw plus (rw e refl)))

minus_lem :
    (cs : Text) (n : ℕ)
    → scan_digits cs 0 false ≡ some n
    → scan_number (b'-' ∷ cs) ≡ some (sub_ℕ 0 n)
unfolding scan_number
minus_lem cs n e = rw e refl

-- `sscanf` reads back what `ostream <<` prints of an `int`.
pub scan_number-decimal_ℤ : (z : ℤ) → magnitude z < limit 20 → scan_number (decimal_ℤ z) ≡ some z
unfolding decimal_ℤ decimal
scan_number-decimal_ℤ (ℤ.pos n) h =
    let (c, cs, e, d) = digits_on-first 19 n [] in
    let read = scan_digits-digits_on 19 n [] false (omega arith) in
    rw e (signed_digits-digit c cs n d (rw e at read))
scan_number-decimal_ℤ (ℤ.negsuc n) h =
    let negated : sub_ℕ 0 (suc n) ≡ negsuc n = ground arith in
    minus_lem (digits_on 20 (suc n) []) (suc n)
      (scan_digits-digits_on 19 (suc n) [] false (omega arith))
    ∙ ap some negated

short_lem : (z : ℤ) → negsuc 2147483647 ≤ℤ z → z ≤ℤ pos 2147483647 → magnitude z < limit 20
short_lem (ℤ.pos n) low high = omega arith
short_lem (ℤ.negsuc n) low high = omega arith

fit_int-same :
    (beyond : ℤ → ℤ) (z : ℤ) → negsuc 2147483647 ≤ℤ z → z ≤ℤ pos 2147483647 → fit_int beyond z ≡ z
fit_int-same beyond z low high = ground arith

scan_int-number :
    (beyond : ℤ → ℤ) (cs : Text) (z : ℤ)
    → scan_number cs ≡ some z
    → scan_int beyond cs ≡ some (fit_int beyond z)
unfolding scan_int scan_number
scan_int-number beyond cs z e =
    ap (λ (r : Option ℤ). elim r [ none ↦ none | some n ↦ some (fit_int beyond n) ]) e

pub scan_int-decimal_ℤ :
    (beyond : ℤ → ℤ) (z : ℤ)
    → negsuc 2147483647 ≤ℤ z
    → z ≤ℤ pos 2147483647
    → scan_int beyond (decimal_ℤ z) ≡ some z
scan_int-decimal_ℤ beyond z low high =
    scan_int-number beyond (decimal_ℤ z) z (scan_number-decimal_ℤ z (short_lem z low high))
    ∙ ap some (fit_int-same beyond z low high)

is_empty-decimal_ℤ : (z : ℤ) → is_empty (decimal_ℤ z) ≡ false
unfolding decimal_ℤ decimal
is_empty-decimal_ℤ (ℤ.pos n) = let (c, cs, e, d) = digits_on-first 19 n [] in rw e refl
is_empty-decimal_ℤ (ℤ.negsuc n) = refl

-- A setting that is written as `ostream <<` prints an `int`, of 32 bits, is read back by
-- `getIniValue` as that number, and as found, whatever the default, if the working directory is known.
pub get_ini_int-decimal_ℤ :
    {F : Type 0} (os : Platform F) (filename section key : Text) (default_value z : ℤ)
    → negsuc 2147483647 ≤ℤ z
    → z ≤ℤ pos 2147483647
    → is_empty os.current_directory ≡ false
    → os.profile_string section key [] (os.current_directory ++ (codes "\\" ++ filename))
      ≡ decimal_ℤ z
    → get_ini_int os filename section key default_value ≡ (true, z)
unfolding get_ini_int get_ini_string
get_ini_int-decimal_ℤ os filename section key default_value z low high there text =
    rw there
      (rw text (rw (is_empty-decimal_ℤ z) (rw (scan_int-decimal_ℤ os.beyond_int z low high) refl)))
