-- ===== src/Ini.antt =====
-- Configuration files, CommonLib/ConfigIni.cpp: the overloads of `getIniValue`.
use planetariumfd.Prelude.{
  ℕ, zero, suc, ◌+◌, ◌-◌, ◌*◌, ℤ, pos, negsuc, sub_ℕ, Bool, true, false, ◌&&◌, ◌||◌, List, [], ◌∷◌,
  ◌++◌, Option, none, some, Text, codes, ltb, ltb_ℤ, leb, ◌==◌, if◌then◌else◌,
}
pub mod Laws
pub mod RoundTrip

-- What Windows and the C library provide: the working directory (empty where the call fails), the
-- text that `GetPrivateProfileStringA section key default path` leaves in the buffer, and `%f`.
pub record Platform (F : Type 0) : Type 0 where
  pub current_directory : Text
  pub profile_string : Text → Text → Text → Text → Text
  pub scan_float : Text → Option F
  -- What `%d` stores for a number that no `int` holds, which the C standard leaves open.
  pub beyond_int : ℤ → ℤ

abbrev pub is_digit : ℕ → Bool
is_digit c = leb b'0' c && leb c b'9'

abbrev pub is_space : ℕ → Bool
is_space c = c == b' ' || (leb 9 c && leb c 13)

-- The digits that a text begins with, if it begins with one.
abbrev pub scan_digits : Text → ℕ → Bool → Option ℕ
scan_digits [] n seen = if seen then some n else none
scan_digits (c ∷ cs) n seen =
    let more = scan_digits cs (10 * n + (c - b'0')) true in
    if is_digit c then more else if seen then some n else none

abbrev pub signed_digits : Text → Option ℤ
signed_digits [] = none
signed_digits (c ∷ cs) =
    if c == b'-'
    then elim (scan_digits cs 0 false) [ none ↦ none | some n ↦ some (sub_ℕ 0 n) ]
    else elim (scan_digits (if c == b'+' then cs else c ∷ cs) 0 false) [
      | none ↦ none
      | some n ↦ some (pos n)
    ]

abbrev pub skip_spaces : Text → Text
skip_spaces [] = []
skip_spaces (c ∷ cs) = if is_space c then skip_spaces cs else c ∷ cs

-- The number that a text begins with, behind spaces.
unfoldable pub scan_number : Text → Option ℤ
scan_number cs = signed_digits (skip_spaces cs)

-- The 32 bits of an `int`.
abbrev pub fit_int : (beyond : ℤ → ℤ) → ℤ → ℤ
fit_int beyond n = if ltb_ℤ n (negsuc 2147483647) || ltb_ℤ (pos 2147483647) n then beyond n else n

-- `sscanf(text, "%d", &value)`
unfoldable pub scan_int : (beyond : ℤ → ℤ) → Text → Option ℤ
unfolding scan_number
scan_int beyond cs = elim (scan_number cs) [ none ↦ none | some n ↦ some (fit_int beyond n) ]

abbrev pub is_empty : Text → Bool
is_empty [] = true
is_empty _ = false

-- The two nested tests of the overloads for numbers.
abbrev pub scanned {ℓ} : {A : Type ℓ} → Bool → Option A → A → Bool × A
scanned false _ default_value = (false, default_value)
scanned true none default_value = (false, default_value)
scanned true (some n) default_value = (true, n)

module _ {F : Type 0} (os : Platform F) where
  open os use {current_directory, profile_string, scan_float, beyond_int}

  -- An overload returns its flag and the new content of its output parameter.
  unfoldable pub get_ini_string : Text → Text → Text → Text → Text → Bool × Text
  get_ini_string filename section key default_value value =
      if is_empty current_directory
      then (false, value)
      else (let path = current_directory ++ (codes "\\" ++ filename) in
          let buffer = profile_string section key default_value path in
          if is_empty buffer then (false, value) else (true, buffer))

  -- The overload that takes C strings.
  unfoldable pub get_ini_cstring : Text → Text → Text → Text → Text → Bool × Text
  get_ini_cstring p_filename p_section p_key p_default_value value =
      if is_empty current_directory
      then (false, value)
      else (let path = current_directory ++ (codes "\\" ++ p_filename) in
          let buffer = profile_string p_section p_key p_default_value path in
          if is_empty buffer then (false, value) else (true, buffer))

  -- The number that the file gives for a key, if it gives one that parses.
  unfoldable pub get_ini_int : Text → Text → Text → ℤ → Bool × ℤ
  unfolding get_ini_string
  get_ini_int filename section key default_value =
      let (found, text) = get_ini_string filename section key [] [] in
      scanned found (scan_int beyond_int text) default_value

  unfoldable pub get_ini_float : Text → Text → Text → F → Bool × F
  unfolding get_ini_string
  get_ini_float filename section key default_value =
      let (found, text) = get_ini_string filename section key [] [] in
      scanned found (scan_float text) default_value
