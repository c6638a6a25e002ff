-- ===== src/Tests/Files.antt =====
-- The theorems on settings, file names and the converter, on concrete inputs.
use planetariumfd.Prelude.{◌≡◌, refl, pos, true, List, [], ◌∷◌, ◌++◌, some, Text, codes, arith, All}
use planetariumfd.Float.Fixed.{Fixed, fixed}
use planetariumfd.Ini.{Platform, scan_int, scan_number, get_ini_int, get_ini_float}
use planetariumfd.Ini.Laws.{get_ini_int_lem, get_ini_float_lem}
use planetariumfd.Register.{register_output_file, requested, url_of, blank_name}
use planetariumfd.Register.Laws.{answer, register_output_file_lem, register_output_file-refused}
use planetariumfd.SaveThread.{image_name}
use planetariumfd.SaveThread.Names.{image_stem, saved_names_lem}
use planetariumfd.Converter.{
  Settings, convert, convert_rows, execute_process, parameters_of, media_file,
}
use planetariumfd.Converter.Laws.{IsConvertible, all_effects, convert_lem, convert_rows_lem}

-- A machine whose files give 7 for every key.
abbrev sevens : Platform Fixed
sevens = record {
  current_directory = codes "C:";
  profile_string = λ section key default_value path. codes "7";
  scan_float = λ text. some (pos 700);
  beyond_int = λ n. pos 0;
}

seven_scans : scan_int (λ n. pos 0) (codes "7") ≡ some (pos 7)
unfolding scan_int scan_number
seven_scans = refl

get_ini_int_lem_example :
    get_ini_int sevens (codes "f") (codes "s") (codes "k") (pos 12) ≡ (true, pos 7)
get_ini_int_lem_example =
    (get_ini_int_lem sevens (codes "f") (codes "s") (codes "k") (pos 12) (pos 7)).0.1
      (refl, refl, seven_scans)

get_ini_float_lem_example :
    get_ini_float sevens (codes "f") (codes "s") (codes "k") (pos 1200) ≡ (true, pos 700)
get_ini_float_lem_example =
    (get_ini_float_lem sevens (codes "f") (codes "s") (codes "k") (pos 1200) (pos 700)).0.1
      (refl, refl, refl)

register_output_file_lem_example :
    register_output_file (codes "http://server") (codes "a.b" ++ (b'.' ∷ codes "flv"))
    ≡ answer (codes "http://server") (codes "a.b") (codes "flv")
register_output_file_lem_example =
    register_output_file_lem (codes "http://server") (codes "a.b") (codes "flv") (omega arith)
      (refl, (refl, (refl, tt)))

register_output_file-refused_example : register_output_file (codes "http://server") [] ≡ blank_name
register_output_file-refused_example = (register_output_file-refused (codes "http://server")).0

saved_names_lem_example :
    register_output_file
      (codes "http://server")
      (image_name (λ p. true) (codes "C:") (codes "base") 3 (pos 1) 0)
    ≡ requested (
        url_of
          (codes "http://server")
          (image_stem (codes "base") 3 0)
          (codes "image")
          (codes "jpg"))
saved_names_lem_example =
    (saved_names_lem (codes "http://server") (codes "base") 3 0 true (λ p. true) (codes "C:")
      (pos 1)).0

abbrev converter : Settings
converter = record {
  media_path = codes "C:\\media";
  ffmpeg_exe_path = codes "C:\\ffmpeg\\ffmpeg.exe";
  ffmpeg_dir = codes "C:\\ffmpeg";
  sql_hostname = codes "localhost";
  sql_user = codes "user";
  sql_password = [];
  sql_db_name = codes "db";
}

convert_lem_example :
    convert converter (codes "17" ∷ codes "1" ∷ codes "face" ∷ [])
    ≡ some (
      true,
      execute_process converter.ffmpeg_exe_path
          (parameters_of
            (media_file converter (codes "face") (codes ".avi"))
            (media_file converter (codes "face") (codes ".flv")))
          converter.ffmpeg_dir,
    )
convert_lem_example =
    (convert_lem converter (codes "17") (codes "1") (codes "face") []).0 (omega arith)

abbrev rows : List (List Text)
rows = (codes "17" ∷ codes "1" ∷ codes "face" ∷ []) ∷ []

abbrev rows-IsConvertible : All (IsConvertible converter) rows
rows-IsConvertible = (
  record {
    id = codes "17";
    type = codes "1";
    name = codes "face";
    fields = [];
    whole = refl;
    fits = omega arith;
  },
  tt,
)

convert_rows_lem_example :
    convert_rows converter true true true rows
    ≡ some (all_effects converter rows rows-IsConvertible)
convert_rows_lem_example = convert_rows_lem converter rows rows-IsConvertible
