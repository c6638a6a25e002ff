-- ===== src/Converter/Laws.antt =====
-- The buffer of `convert` and the loop of `main`, CConverter/CConverter.cpp.
use planetariumfd.Prelude.{
  ℕ, ◌+◌, ◌*◌, ◌≤◌, ◌<◌, ◌≡◌, refl, true, false, List, [], ◌∷◌, ◌++◌, none, some, length,
  length-append, arith, Text, codes, ltb, All,
}
use planetariumfd.Converter.{
  Settings, media_file, parameters_of, convert, execute_process, update, convert_rows, started,
  executed, Effect,
}

-- The room that the text for a name takes.
abbrev pub room : Settings → Text → ℕ
room s name = 2 * (length s.media_path + length name) + 66

length-media_file :
    (s : Settings) (name suffix : Text)
    → length (media_file s name suffix) ≡ length s.media_path + 1 + length name + length suffix
length-media_file s name suffix =
    omega (
      arith,
      length-append s.media_path (codes "\\" ++ (name ++ suffix)),
      length-append name suffix,
    )

length-parameters_of :
    (s : Settings) (name : Text)
    → length (parameters_of (media_file s name (codes ".avi")) (media_file s name (codes ".flv")))
      ≡ room s name
length-parameters_of s name =
    let input = media_file s name (codes ".avi") in
    let output = media_file s name (codes ".flv") in
    let mid : Text = codes "\" -f flv -an -vcodec flv -ar 44100 -s 360x288 \"" in
    let rest : Text =
      codes "\" -f flv -an -vcodec flv -ar 44100 -s 360x288 \"" ++ (output ++ codes "\"") in
    omega (
      arith,
      length-append (codes " -y -i \"") (input ++ rest),
      length-append input rest,
      length-append mid (output ++ codes "\""),
      length-append output (codes "\""),
      length-media_file s name (codes ".avi"),
      length-media_file s name (codes ".flv"),
    )

-- `convert` of a row with a name in its third field: if the text for the name is below the 1024
-- characters of the buffer, ffmpeg is started for it, and otherwise `sprintf` writes past the buffer.
pub convert_lem :
    (s : Settings) (id type name : Text) (fields : List Text)
    → (room s name < 1024
        → convert s (id ∷ type ∷ name ∷ fields)
          ≡ some (
            true,
            execute_process s.ffmpeg_exe_path
                (parameters_of
                  (media_file s name (codes ".avi"))
                  (media_file s name (codes ".flv")))
                s.ffmpeg_dir,
          ))
      × (1024 ≤ room s name → convert s (id ∷ type ∷ name ∷ fields) ≡ none)
unfolding convert
convert_lem s id type name fields =
    let size = length-parameters_of s name in
    let params =
      parameters_of (media_file s name (codes ".avi")) (media_file s name (codes ".flv")) in
    (
      λ fits. rw (let e : ltb (length params) 1024 ≡ true = rw size (ground arith) in e) refl,
      λ long. rw (let e : ltb (length params) 1024 ≡ false = rw size (ground arith) in e) refl,
    )

-- A row that the converter can work on.
pub record IsConvertible (s : Settings) (row : List Text) : Type 0 where
  pub id : Text
  pub type : Text
  pub name : Text
  pub fields : List Text
  pub whole : row ≡ id ∷ type ∷ name ∷ fields
  pub fits : room s name < 1024

-- What a round should do for a row: start ffmpeg for it, then mark it as converted.
abbrev pub effects_of : (s : Settings) {row : List Text} → IsConvertible s row → List Effect
effects_of s r =
    started (
      execute_process s.ffmpeg_exe_path
        (parameters_of (media_file s r.name (codes ".avi")) (media_file s r.name (codes ".flv")))
        s.ffmpeg_dir)
    ∷ executed (codes "UPDATE visuals SET mediasubtype=2 WHERE id=" ++ r.id)
    ∷ []

abbrev pub all_effects :
    (s : Settings) (rows : List (List Text)) → All (IsConvertible s) rows → List Effect
all_effects s [] p = []
all_effects s (row ∷ rows) (p, ps) = effects_of s p ++ all_effects s rows ps

-- A round with a working database and rows that fit ends without a fault; it starts ffmpeg for every
-- row and marks each of them as converted, in order, whatever the process came to.
pub convert_rows_lem :
    (s : Settings) (rows : List (List Text)) (all : All (IsConvertible s) rows)
    → convert_rows s true true true rows ≡ some (all_effects s rows all)
unfolding convert_rows update
convert_rows_lem s [] p = refl
convert_rows_lem s (row ∷ rows) (p, ps) =
    rw (convert_row s row p) (rw p.whole (rw (convert_rows_lem s rows ps) refl))
  where
    convert_row :
        (t : Settings) (r : List Text) (q : IsConvertible t r)
        → convert t r
          ≡ some (
            true,
            execute_process t.ffmpeg_exe_path
                (parameters_of
                  (media_file t q.name (codes ".avi"))
                  (media_file t q.name (codes ".flv")))
                t.ffmpeg_dir,
          )
    convert_row t r q = rw q.whole ((convert_lem t q.id q.type q.name q.fields).0 q.fits)
