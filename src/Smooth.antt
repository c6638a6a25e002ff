-- ===== src/Smooth.antt =====
-- The smoothing of a thread's rectangles and their statistics: `smoothFaceSeries`, `smoothFaceSeries2`,
-- `faceStats` and the filters of Detector/FaceProcessor.cpp, built without `USE_NEW_SMOOTH`.
use planetariumfd.Prelude.{
  ℕ, zero, suc, ◌+◌, ℤ, pos, negsuc, ◌+ℤ◌, ◌-ℤ◌, ltb_ℤ, leb_ℤ, quotient, Bool, true, false, ◌||◌,
  List, [], ◌∷◌, Option, none, some, ◌>>=◌, length, map, if◌then◌else◌,
}
use planetariumfd.Float.{Float}
use planetariumfd.Geometry.{Rect, Face, my_round}
use planetariumfd.Convolution.{linear_convolution_same}
pub mod Stats
pub mod Laws

-- The loop that writes the smoothed numbers back; `none` is the use of a number that the
-- convolution has not written.
abbrev pub write_back {ℓ} :
    {A : Type ℓ} → (A → Face → Face) → List Face → List A → Option (List Face)
write_back put [] zs = some []
write_back put (f ∷ fs) [] = none
write_back put (f ∷ fs) (z ∷ zs) = do rest ← write_back put fs zs; some (put z f ∷ rest)

-- How a loop that adjusts the faces of a window ends.
pub data Adjusted : Type 0 where
  adjusted : (faces : List Face) → Adjusted
  out_of_bounds_x : Adjusted
  out_of_bounds_y : Adjusted

abbrev pub set_x : ℤ → Face → Face
set_x z f = record f { rect = record f.rect { x = z } }

abbrev pub set_y : ℤ → Face → Face
set_y z f = record f { rect = record f.rect { y = z } }

abbrev pub set_width : ℤ → Face → Face
set_width z f = record f { rect = record f.rect { width = z } }

abbrev pub set_height : ℤ → Face → Face
set_height z f = record f { rect = record f.rect { height = z } }

-- The face in front of the others, unless the rest of the loop threw.
abbrev pub kept_before : Face → Adjusted → Adjusted
kept_before f (adjusted fs) = adjusted (f ∷ fs)
kept_before f out_of_bounds_x = out_of_bounds_x
kept_before f out_of_bounds_y = out_of_bounds_y

-- `sizeof(SIZE_FILT)/sizeof(float)` and `sizeof(LOCATION_FILT)/sizeof(float)`.
abbrev pub size_filt_length : ℕ
size_filt_length = 7

abbrev pub location_filt_length : ℕ
location_filt_length = 3

module _ {F : Type 0} (fl : Float F) where
  open fl use {of_int, literal, add, sub, div}

  abbrev pub size_filt : List F
  size_filt = let one = literal (pos 1) 1 in one ∷ one ∷ one ∷ one ∷ one ∷ one ∷ one ∷ []

  abbrev pub location_filt : List F
  location_filt = let one = literal (pos 1) 1 in one ∷ literal (pos 2) 1 ∷ one ∷ []

  -- One block of `smoothFaceSeries`: a coordinate of all faces is read, convolved and written.
  unfoldable pub smooth_coordinate :
      (Face → ℤ) → (ℤ → Face → Face) → List F → ℕ → List Face → Option (List Face)
  unfolding linear_convolution_same my_round
  smooth_coordinate get put filt leny fs = do
    out ←
        linear_convolution_same ⦃fl = fl⦄ (map (λ (f : Face). of_int (get f)) fs) filt (length fs)
          leny
    write_back (λ z f. put (my_round ⦃fl = fl⦄ z) f) fs out

  unfoldable pub smooth_face_series : List Face → Option (List Face)
  unfolding smooth_coordinate
  smooth_face_series fs = do
    xs ← smooth_coordinate (λ f. f.rect.x) set_x size_filt size_filt_length fs
    ys ← smooth_coordinate (λ f. f.rect.y) set_y size_filt size_filt_length xs
    ws ← smooth_coordinate (λ f. f.rect.width) set_width size_filt size_filt_length ys
    smooth_coordinate (λ f. f.rect.height) set_height size_filt location_filt_length ws

  -- Half of a size, as a float.
  abbrev pub half : ℤ → F
  half z = div (of_int z) (literal (pos 2) 1)

  -- The blocks of `smoothFaceSeries2` for the centers: `*pout - size / 2` becomes the corner.
  unfoldable pub smooth_centers :
      (Face → ℤ) → (Face → ℤ) → (ℤ → Face → Face) → List Face → Option (List Face)
  unfolding linear_convolution_same my_round
  smooth_centers corner size put fs = do
    out ←
        linear_convolution_same ⦃fl = fl⦄
          (map (λ (f : Face). add (of_int (corner f)) (half (size f))) fs) location_filt (length fs)
          size_filt_length
    write_back (λ z f. put (my_round ⦃fl = fl⦄ (sub z (half (size f)))) f) fs out

  -- The corner is moved by half of the difference in size, then the size is set.
  abbrev pub resized :
      (Face → ℤ) → (Face → ℤ) → (ℤ → Face → Face) → (ℤ → Face → Face) → F → Face → Face
  resized corner size put_corner put_size z f = put_size (my_round ⦃fl = fl⦄ z) (
      put_corner
        (corner f -ℤ my_round ⦃fl = fl⦄ (div (sub z (of_int (size f))) (literal (pos 2) 1))) f)

  -- The loops over the smoothed sizes; a window that leaves the frame is an exception.
  abbrev pub adjust_sizes :
      (Face → ℤ)
      → (Face → ℤ)
      → (ℤ → Face → Face)
      → (ℤ → Face → Face)
      → Adjusted
      → ℤ
      → List Face
      → List F
      → Option Adjusted
  adjust_sizes corner size put_corner put_size thrown limit [] zs = some (adjusted [])
  adjust_sizes corner size put_corner put_size thrown limit (f ∷ fs) [] = none
  adjust_sizes corner size put_corner put_size thrown limit (f ∷ fs) (z ∷ zs) =
      let rest = adjust_sizes corner size put_corner put_size thrown limit fs zs in
      let g = resized corner size put_corner put_size z f in
      if ltb_ℤ (corner g) (pos 0) || leb_ℤ limit (corner g +ℤ size g)
      then some thrown
      else (do r ← rest; some (kept_before g r))

  unfoldable pub smooth_widths : ℤ → List Face → Option Adjusted
  unfolding linear_convolution_same my_round
  smooth_widths frame_width fs = do
    out ←
        linear_convolution_same ⦃fl = fl⦄ (map (λ (f : Face). of_int f.rect.width) fs) size_filt
          (length fs) size_filt_length
    adjust_sizes (λ f. f.rect.x) (λ f. f.rect.width) set_x set_width out_of_bounds_x frame_width fs
        out

  unfoldable pub smooth_heights : ℤ → List Face → Option Adjusted
  unfolding linear_convolution_same my_round
  smooth_heights frame_height fs = do
    out ←
        linear_convolution_same ⦃fl = fl⦄ (map (λ (f : Face). of_int f.rect.height) fs) size_filt
          (length fs) location_filt_length
    adjust_sizes (λ f. f.rect.y) (λ f. f.rect.height) set_y set_height out_of_bounds_y frame_height
        fs out

  abbrev pub then_heights : ℤ → Adjusted → Option Adjusted
  unfolding smooth_heights
  then_heights frame_height (adjusted fs) = smooth_heights frame_height fs
  then_heights frame_height out_of_bounds_x = some out_of_bounds_x
  then_heights frame_height out_of_bounds_y = some out_of_bounds_y

  unfoldable pub smooth_face_series2 : List Face → ℤ → ℤ → Option Adjusted
  unfolding smooth_centers smooth_widths smooth_heights
  smooth_face_series2 fs frame_width frame_height = do
    xs ← smooth_centers (λ f. f.rect.x) (λ f. f.rect.width) set_x fs
    ys ← smooth_centers (λ f. f.rect.y) (λ f. f.rect.height) set_y xs
    r ← smooth_widths frame_width ys
    then_heights frame_height r
