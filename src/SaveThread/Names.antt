-- ===== src/SaveThread/Names.antt =====
-- The names of the files that `saveThreadImages` and `saveThreadVideo` write, as
-- `registerOutputFile` takes them apart.
use planetariumfd.Prelude.{
  ℕ, ◌<◌, ◌≡◌, refl, ap, ◌∙◌, Bool, [], ◌++◌, append_assoc, length, length-append, arith, Text,
  codes, decimal, ℤ, if◌then◌else◌,
}
use planetariumfd.SaveThread.{Picture, image_name, video_name}
use planetariumfd.Register.{register_output_file, requested, url_of}
use planetariumfd.Register.Laws.{register_output_file_lem}

-- The names without their extensions.
abbrev pub image_stem : Text → ℕ → ℕ → Text
image_stem base series num = base ++ (codes "__" ++ (decimal series ++ (codes "_" ++ decimal num)))

abbrev pub video_stem : Text → ℕ → Bool → Text
video_stem base series smooth =
    base ++ (codes "__" ++ (decimal series ++ (if smooth then codes "_smoothed" else [])))

marked : (base rest : Text) → 0 < length (base ++ (codes "__" ++ rest))
marked base rest = omega (arith, length-append base (codes "__" ++ rest))

-- Every image and every video that is saved has a name that the server is told, as an image with the
-- extension jpg, or as a video with the extension avi.
pub saved_names_lem :
    (server base : Text) (series num : ℕ) (smooth : Bool) (save : Picture → Bool) (o_path : Text)
    (limit : ℤ)
    → (register_output_file server (image_name save o_path base series limit num)
        ≡ requested (url_of server (image_stem base series num) (codes "image") (codes "jpg")))
      × (register_output_file server (video_name base series smooth)
          ≡ requested (url_of server (video_stem base series smooth) (codes "video") (codes "avi")))
saved_names_lem server base series num smooth save o_path limit = (
  ap (register_output_file server)
        (image_split base (codes "__") (decimal series) (codes "_") (decimal num) (codes ".jpg"))
      ∙ register_output_file_lem server (image_stem base series num) (codes "jpg")
          (marked base (decimal series ++ (codes "_" ++ decimal num))) (refl, (refl, (refl, tt))),
  ap (register_output_file server) (
        video_split base (codes "__") (decimal series) (if smooth then codes "_smoothed" else [])
          (codes ".avi"))
      ∙ register_output_file_lem server (video_stem base series smooth) (codes "avi")
          (marked base (decimal series ++ (if smooth then codes "_smoothed" else [])))
          (refl, (refl, (refl, tt))),
)
  where
    image_split :
        (a b c d e f : Text)
        → a ++ (b ++ (c ++ (d ++ (e ++ f)))) ≡ (a ++ (b ++ (c ++ (d ++ e)))) ++ f
    image_split a b c d e f = simp (append_assoc) refl

    video_split : (a b c d f : Text) → a ++ (b ++ (c ++ (d ++ f))) ≡ (a ++ (b ++ (c ++ d))) ++ f
    video_split a b c d f = simp (append_assoc) refl
