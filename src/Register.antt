-- ===== src/Register.antt =====
-- `registerOutputFile` of Detector/RegisterOutput.cpp: the name of a file is taken apart, and the server
-- is told its name and its type by a request.
use planetariumfd.Prelude.{
  ℕ, zero, suc, ◌+◌, ◌-◌, ℤ, pos, Bool, true, false, ◌||◌, List, [], ◌∷◌, ◌++◌, Option, none, some,
  length, get_elem?, Text, codes, text_eq, if◌then◌else◌, ◌==◌,
}
use planetariumfd.Ini.{Platform, get_ini_string}
pub mod Laws

-- `substr(0, n)` and `substr(n)`
abbrev pub take {ℓ} : {A : Type ℓ} → ℕ → List A → List A
take zero xs = []
take (suc n) [] = []
take (suc n) (x ∷ xs) = x ∷ take n xs

abbrev pub drop {ℓ} : {A : Type ℓ} → ℕ → List A → List A
drop zero xs = xs
drop (suc n) [] = []
drop (suc n) (x ∷ xs) = drop n xs

-- What the call comes to: a request for a URL, or one of the three exceptions.
pub data Registered : Type 0 where
  requested : (url : Text) → Registered
  blank_name : Registered
  no_dot : Registered
  unsupported : Registered

-- `init`: the server's address, from the settings.
unfoldable pub init_server : {F : Type 0} → Platform F → Text → Text
unfolding get_ini_string
init_server os server_url =
    (get_ini_string os (codes "face_detect.ini") (codes "server") (codes "SERVER_URL")
      (codes "http://localhost/planetariumsvc/srcAdded.php") server_url).1

-- The loop that looks for the dot from the end: `n` is `dotLoc + 1`.
unfoldable pub dot_location : Text → ℕ → Option ℕ
dot_location name zero = none
dot_location name (suc n) =
    let before = dot_location name n in
    elim (get_elem? name n) [ none ↦ before | some c ↦ if c == b'.' then some n else before ]

abbrev pub is_image : Text → Bool
is_image ext =
    text_eq ext (codes "jpg")
    || (text_eq ext (codes "jpeg")
        || (text_eq ext (codes "png") || (text_eq ext (codes "gif") || text_eq ext (codes "bmp"))))

abbrev pub is_video : Text → Bool
is_video ext =
    text_eq ext (codes "avi")
    || (text_eq ext (codes "mpg") || (text_eq ext (codes "mpeg") || text_eq ext (codes "flv")))

abbrev pub type_of_extension : Text → Option Text
type_of_extension ext =
    if is_image ext
    then some (codes "image")
    else if is_video ext
    then some (codes "video")
    else none

abbrev pub url_of : Text → Text → Text → Text → Text
url_of server name type extension =
    server
    ++ (codes "?name=" ++ (name ++ (codes "&type=" ++ (type ++ (codes "&subtype=" ++ extension)))))

-- Behind the loop; a dot in front of the first character does not count.
abbrev pub request_for : Text → Text → Option ℕ → Registered
request_for server name none = no_dot
request_for server name (some zero) = no_dot
request_for server name (some (suc n)) =
    let extension = drop (suc n + 1) name in
    elim (type_of_extension extension) [
      | none ↦ unsupported
      | some type ↦ requested (url_of server (take (suc n) name) type extension)
    ]

unfoldable pub register_output_file : Text → Text → Registered
unfolding dot_location
register_output_file server [] = blank_name
register_output_file server (c ∷ cs) =
    request_for server (c ∷ cs) (dot_location (c ∷ cs) (length (c ∷ cs)))
