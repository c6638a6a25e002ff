-- ===== src/Missing.antt =====
-- `addMissingFrames` of Detector/FaceProcessor.cpp: faces between those of a thread, so that it has one
-- in every frame of its stretch.
use planetariumfd.Prelude.{
  ℕ, zero, suc, ◌+◌, ◌-◌, ℤ, pos, negsuc, ◌+ℤ◌, ◌-ℤ◌, eqb_ℤ, ltb_ℤ, Bool, true, false, List, [],
  ◌∷◌, ◌++◌, Option, none, some, length, back_from, if◌then◌else◌,
}
use planetariumfd.Float.{Float}
use planetariumfd.Geometry.{Rect, Face, my_round}
pub mod Laws

-- The number of rounds of the loop that inserts faces: none unless the difference is above 1.
abbrev pub gap_rounds : ℤ → ℕ
gap_rounds (pos diff) = diff - 1
gap_rounds (negsuc n) = 0

module _ {F : Type 0} (fl : Float F) where
  open fl use {of_int, sub, mul, div}

  -- One coordinate, `i` frames after `from`, on the way to `to` in `diff` frames.
  abbrev pub step_of : ℤ → ℤ → ℤ → F
  step_of from to diff = div (sub (of_int to) (of_int from)) (of_int diff)

  unfoldable pub interpolate : ℤ → ℤ → ℤ → ℕ → ℤ
  unfolding my_round
  interpolate from to diff i =
      from +ℤ my_round ⦃fl = fl⦄ (mul (of_int (pos i)) (step_of from to diff))

  unfoldable pub face_between : Face → Face → ℕ → Face
  unfolding interpolate
  face_between prev f i =
      let diff = f.frame_id -ℤ prev.frame_id in
      record {
        rect = record {
          x = interpolate prev.rect.x f.rect.x diff i;
          y = interpolate prev.rect.y f.rect.y diff i;
          width = interpolate prev.rect.width f.rect.width diff i;
          height = interpolate prev.rect.height f.rect.height diff i;
        };
        frame_id = prev.frame_id +ℤ pos i;
      }

  -- `for (i = 1; i < diff; ++i)`, from `i` on.
  unfoldable pub faces_between : Face → Face → ℕ → ℕ → List Face
  faces_between prev f zero i = []
  faces_between prev f (suc rounds) i = face_between prev f i ∷ faces_between prev f rounds (suc i)

  -- The loop over the list, with the face in front of it.
  unfoldable pub fill : Face → List Face → List Face
  unfolding faces_between
  fill prev [] = []
  fill prev (f ∷ fs) =
      faces_between prev f (gap_rounds (f.frame_id -ℤ prev.frame_id)) 1 ++ (f ∷ fill f fs)

  -- The flag says whether the list was modified; `none` is `back()` of an empty list.
  unfoldable pub add_missing_frames : List Face → Option (Bool × List Face)
  unfolding fill
  add_missing_frames [] = none
  add_missing_frames (f ∷ fs) =
      if eqb_ℤ ((back_from f fs).frame_id -ℤ f.frame_id +ℤ pos 1) (pos (length (f ∷ fs)))
      then some (false, f ∷ fs)
      else some (true, f ∷ fill f fs)
