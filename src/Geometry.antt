-- ===== src/Geometry.antt =====
-- Rectangles, faces and the float measures on them: Detector/fd_util.h (`NullRect`),
-- Detector/FaceProcessor.h (`Face`) and the first helpers of Detector/FaceProcessor.cpp.
use planetariumfd.Prelude.{
  ℤ, pos, negsuc, ◌+ℤ◌, ◌-ℤ◌, ◌*ℤ◌, quotient, ltb_ℤ, Bool, ◌&&◌, if◌then◌else◌,
}
use planetariumfd.Float.{Float}
pub mod Laws

-- `CvRect`
pub record Rect : Type 0 where
  pub x : ℤ
  pub y : ℤ
  pub width : ℤ
  pub height : ℤ

-- `CvPoint`
pub record Point : Type 0 where
  pub x : ℤ
  pub y : ℤ

abbrev pub null_rect : Rect
null_rect = record { x = negsuc 0; y = negsuc 0; width = negsuc 0; height = negsuc 0 }

abbrev pub default_face_frameid : ℤ
default_face_frameid = negsuc 0

-- `struct Face : public CvRect`
pub record Face : Type 0 where
  pub rect : Rect
  pub frame_id : ℤ

-- The constructor without arguments, and the one from a `CvRect`.
abbrev pub default_face : Face
default_face = record { rect = null_rect; frame_id = default_face_frameid }

abbrev pub face_of_rect : Rect → Face
face_of_rect r = record { rect = r; frame_id = default_face_frameid }

unfoldable pub get_rect_center : Rect → Point
get_rect_center r = record { x = r.x +ℤ quotient r.width 2; y = r.y +ℤ quotient r.height 2 }

module _ {F : Type 0} ⦃fl : Float F⦄ where
  open fl use {of_int, literal, add, sub, mul, div, lt, floor, ceil, abs, sqrt, to_int}

  unfoldable pub my_round : F → ℤ
  my_round f =
      if lt (abs (sub f (floor f))) (abs (sub f (ceil f)))
      then to_int (floor f)
      else to_int (ceil f)

  unfoldable pub get_distance : Point → Point → F
  get_distance p1 p2 =
      let dx = of_int (p2.x -ℤ p1.x) in
      let dy = of_int (p2.y -ℤ p1.y) in sqrt (add (mul dx dx) (mul dy dy))

  -- The area of the second rectangle over that of the first.
  unfoldable pub get_size_diff : Rect → Rect → F
  get_size_diff ref th =
      let ref_area = of_int (ref.height *ℤ ref.width) in
      let th_area = of_int (th.height *ℤ th.width) in div th_area ref_area

  unfoldable pub pow2 : F → F
  pow2 fn = mul fn fn

  unfoldable pub get_overlapping_area : Rect → Rect → F
  get_overlapping_area r1 r2 =
      let left = of_int (if ltb_ℤ r2.x r1.x then r1.x else r2.x) in
      let right1 = of_int (r1.x +ℤ r1.width) in
      let right2 = of_int (r2.x +ℤ r2.width) in
      let right = if lt right1 right2 then right1 else right2 in
      let bottom = of_int (if ltb_ℤ r2.y r1.y then r1.y else r2.y) in
      let top1 = of_int (r1.y +ℤ r1.height) in
      let top2 = of_int (r2.y +ℤ r2.height) in
      let top = if lt top1 top2 then top1 else top2 in
      if lt left right && lt bottom top
      then mul (sub right left) (sub top bottom)
      else literal (pos 0) 1
