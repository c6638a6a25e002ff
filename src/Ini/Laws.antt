-- ===== src/Ini/Laws.antt =====
-- `getIniValue` of CommonLib/ConfigIni.cpp, for numbers: the key, the text and the default.
use planetariumfd.Prelude.{ℤ, true, false, ◌≡◌, [], ◌++◌, some, Text, codes, arith, ◌↔◌}
use planetariumfd.Ini.{Platform, get_ini_int, get_ini_float, scan_int, is_empty}

-- The file in which `GetPrivateProfileStringA` looks.
abbrev pub path_of : {F : Type 0} → Platform F → Text → Text
path_of os filename = os.current_directory ++ (codes "\\" ++ filename)

-- What the file holds for a key, with the empty default of the overloads for numbers.
abbrev pub text_of : {F : Type 0} → Platform F → Text → Text → Text → Text
text_of os filename section key = os.profile_string section key [] (path_of os filename)

module _ {F : Type 0} (os : Platform F) (filename section key : Text) where
  -- The overload for `int` returns true with the number `n` exactly when the working directory is
  -- known, the file's text for the key is not empty, and that text parses as `n` (for a number that
  -- no `int` holds, as what `sscanf` stores for it); when it returns false it stores the default.
  pub get_ini_int_lem :
      (default_value n : ℤ)
      → let r = get_ini_int os filename section key default_value in
        (r ≡ (true, n)
          ↔ (is_empty os.current_directory ≡ false)
            × (is_empty (text_of os filename section key) ≡ false)
            × (scan_int os.beyond_int (text_of os filename section key) ≡ some n))
        × (r.0 ≡ false → r.1 ≡ default_value)
  unfolding get_ini_int
  get_ini_int_lem d n = ((λ e. ground arith, λ e. ground arith), λ e. ground arith)

  -- The overload for `float` returns true with the number `v` exactly when the working directory is
  -- known, the file's text for the key is not empty, and that text parses as `v`; when it returns
  -- false it stores the default.
  pub get_ini_float_lem :
      (default_value v : F)
      → let r = get_ini_float os filename section key default_value in
        (r ≡ (true, v)
          ↔ (is_empty os.current_directory ≡ false)
            × (is_empty (text_of os filename section key) ≡ false)
            × (os.scan_float (text_of os filename section key) ≡ some v))
        × (r.0 ≡ false → r.1 ≡ default_value)
  unfolding get_ini_float
  get_ini_float_lem d v = ((λ e. ground arith, λ e. ground arith), λ e. ground arith)
