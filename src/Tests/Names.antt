-- ===== src/Tests/Names.antt =====
-- The theorems on printed numbers, on concrete inputs.
use planetariumfd.Prelude.{◌≢◌, ◌≡◌, refl, pos, negsuc, true, none, codes, decimal_ℤ, arith}
use planetariumfd.Float.Fixed.{Fixed}
use planetariumfd.Ini.{Platform, get_ini_int}
use planetariumfd.Ini.RoundTrip.{get_ini_int-decimal_ℤ}
use planetariumfd.SaveThread.Distinct.{image, video, file_name, file_name-injective}

-- Every setting is -42.
abbrev written : Platform Fixed
written = record {
  current_directory = codes "C:";
  profile_string = λ section key default_value path. decimal_ℤ (negsuc 41);
  scan_float = λ text. none;
  beyond_int = λ n. pos 0;
}

get_ini_int-decimal_ℤ_example :
    get_ini_int written (codes "face_detect.ini") (codes "main") (codes "CAM_ID") (pos 0)
    ≡ (true, negsuc 41)
get_ini_int-decimal_ℤ_example =
    get_ini_int-decimal_ℤ written (codes "face_detect.ini") (codes "main") (codes "CAM_ID") (pos 0)
      (negsuc 41) (omega arith) (omega arith) refl refl

image_is_no_video : image 7 4 ≢ video 7 true
image_is_no_video e = cc

file_name-injective_example :
    file_name (codes "planetarium") (image 7 4) ≢ file_name (codes "planetarium") (video 7 true)
file_name-injective_example =
    file_name-injective (codes "planetarium") (image 7 4) (video 7 true) (omega arith, omega arith)
      (omega arith) image_is_no_video
