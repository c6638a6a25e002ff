-- ===== src/Smooth/Laws.antt =====
-- `smoothFaceSeries` and `smoothFaceSeries2` of Detector/FaceProcessor.cpp: the frames of the faces,
-- and the accesses to the filters.
use planetariumfd.Prelude.{
  ℕ, ◌≤◌, ◌<◌, ◌≡◌, refl, ◌∙◌, ℤ, List, [], ◌∷◌, none, some, length, length-map, map, arith,
}
use planetariumfd.Float.{Float}
use planetariumfd.Geometry.{Face, my_round}
use planetariumfd.Convolution.Laws.{linear_convolution_same_total, linear_convolution_same_beyond}
use planetariumfd.Smooth.{
  write_back, smooth_coordinate, smooth_face_series, smooth_centers, smooth_face_series2, size_filt,
  location_filt, size_filt_length, location_filt_length, set_x, set_y, set_width, set_height,
}

-- The frame numbers of a list of faces.
abbrev pub frame_ids : List Face → List ℤ
frame_ids = map (λ (f : Face). f.frame_id)

write_back_total {ℓ} :
    {A : Type ℓ} (put : A → Face → Face) (fs : List Face) (zs : List A)
    → ((z : A) (f : Face) → (put z f).frame_id ≡ f.frame_id)
    → length zs ≡ length fs
    → (gs : List Face) × (write_back put fs zs ≡ some gs) × (frame_ids gs ≡ frame_ids fs)
write_back_total put [] zs h e = ([], refl, refl)
write_back_total put (f ∷ fs) [] h e = absurd (omega arith)
write_back_total put (f ∷ fs) (z ∷ zs) h e =
    let (gs, run, same) = write_back_total put fs zs h (omega arith) in
    (put z f ∷ gs, rw run, rw (h z f) (rw same))

module _ {F : Type 0} (fl : Float F) where
  smooth_coordinate_total :
      (get : Face → ℤ) (put : ℤ → Face → Face) (filt : List F) (leny : ℕ) (fs : List Face)
      → ((z : ℤ) (f : Face) → (put z f).frame_id ≡ f.frame_id)
      → leny ≤ length filt
      → 0 < leny
      → (gs : List Face) × (smooth_coordinate fl get put filt leny fs ≡ some gs)
        × (frame_ids gs ≡ frame_ids fs)
  unfolding smooth_coordinate
  smooth_coordinate_total get put filt leny fs h a b =
      let values = map (λ (f : Face). fl.of_int (get f)) fs in
      let (zs, run, size) =
        linear_convolution_same_total ⦃fl = fl⦄ values filt (length fs) leny
          (omega (arith, length-map fs (λ (f : Face). fl.of_int (get f)))) a b in
      let (gs, wrote, same) =
        write_back_total (λ (z : F) (f : Face). put (my_round ⦃fl = fl⦄ z) f) fs zs
          (λ z f. h (my_round ⦃fl = fl⦄ z) f) size in
      (gs, rw run wrote, same)

  -- `smoothFaceSeries` reads and writes within its arrays and filters for a list of any length, and
  -- it changes neither the number of faces nor their frames.
  pub smooth_face_series_lem :
      (fs : List Face)
      → (gs : List Face) × (smooth_face_series fl fs ≡ some gs) × (frame_ids gs ≡ frame_ids fs)
  unfolding smooth_face_series
  smooth_face_series_lem fs =
      let (xs, run_x, same_x) =
        smooth_coordinate_total (λ f. f.rect.x) set_x (size_filt fl) size_filt_length fs
          (λ z f. refl) (omega arith) (omega arith) in
      let (ys, run_y, same_y) =
        smooth_coordinate_total (λ f. f.rect.y) set_y (size_filt fl) size_filt_length xs
          (λ z f. refl) (omega arith) (omega arith) in
      let (ws, run_w, same_w) =
        smooth_coordinate_total (λ f. f.rect.width) set_width (size_filt fl) size_filt_length ys
          (λ z f. refl) (omega arith) (omega arith) in
      let (hs, run_h, same_h) =
        smooth_coordinate_total (λ f. f.rect.height) set_height (size_filt fl) location_filt_length
          ws (λ z f. refl) (omega arith) (omega arith) in
      (hs, rw run_x (rw run_y (rw run_w run_h)), same_h ∙ (same_w ∙ (same_y ∙ same_x)))

  -- `smoothFaceSeries2` reads outside LOCATION_FILT for every nonempty list, whatever the size of
  -- the frame: it passes the length of SIZE_FILT for that of LOCATION_FILT.
  pub smooth_face_series2_beyond :
      (f : Face) (fs : List Face) (frame_width frame_height : ℤ)
      → smooth_face_series2 fl (f ∷ fs) frame_width frame_height ≡ none
  unfolding smooth_face_series2 smooth_centers
  smooth_face_series2_beyond f fs frame_width frame_height = rw (
      linear_convolution_same_beyond ⦃fl = fl⦄ _ (location_filt fl) (length (f ∷ fs))
        size_filt_length (omega arith) (omega arith) (omega arith))
