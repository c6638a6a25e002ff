-- ===== src/Player.antt =====
-- The main program, Detector/PlanetariumFD.cpp, with Detector/facedet.cpp and Detector/capture.cpp: frames
-- are captured and shown with the faces found, then the history is played back. OpenCV's camera,
-- detector, windows and video files are parameters.
use planetariumfd.Prelude.{
  ℕ, zero, suc, ◌+◌, ◌%◌, ℤ, pos, negsuc, ◌+ℤ◌, ◌-ℤ◌, ltb_ℤ, eqb_ℤ, int_max, quotient, Bool, true,
  false, List, [], ◌∷◌, ◌++◌, Option, none, some, ◌>>=◌, ◌>>◌, assert, front, length, ltb, Text,
  codes, if◌then◌else◌,
}
use planetariumfd.Float.{Float}
use planetariumfd.Geometry.{Rect, Face, Point}
use planetariumfd.Image.{Image}
use planetariumfd.Ini.{Platform, get_ini_string, get_ini_int}
use planetariumfd.State.{HistoryEntry, Fd}
use planetariumfd.Process.{process_faces}
use planetariumfd.System.{System}
pub mod Laws
pub mod Loop
pub mod Program

-- The settings of the main program, global variables.
pub record MainSettings : Type 0 where
  pub cam_id : ℤ
  pub opencv_root : Text
  pub output_playback_videos_dir : Text

-- `CV_CAP_ANY`
abbrev pub cv_cap_any : ℤ
cv_cap_any = pos 0

-- `initConfiguration`: 1, or 0 if one of the two directories is not given.
unfoldable pub init_configuration : {F : Type 0} → Platform F → MainSettings → ℤ × MainSettings
unfolding get_ini_string get_ini_int
init_configuration os c =
    let file = codes "face_detect.ini" in
    let cam = (get_ini_int os file (codes "main") (codes "CAM_ID") cv_cap_any).1 in
    let c1 = record c { cam_id = cam } in
    let (has_root, root) =
      get_ini_string os file (codes "main") (codes "OPENCV_ROOT") (codes "not initialized")
        c.opencv_root in
    let c2 = record c1 { opencv_root = root } in
    if has_root
    then (let (has_dir, dir) =
          get_ini_string os file (codes "main") (codes "OUTPUT_PLAYBACK_VIDEOS_DIR")
            (codes "not initialized") c.output_playback_videos_dir in
        let c3 = record c2 { output_playback_videos_dir = dir } in
        if has_dir then (pos 1, c3) else (pos 0, c3))
    else (pos 0, c2)

-- `initFaceDet`, by whether memory and the cascade could be had.
unfoldable pub init_face_det : (stored loaded : Bool) → ℤ
init_face_det stored loaded = if stored then (if loaded then pos 1 else pos 0) else pos 0

-- `initCapture` with a camera, by whether the camera could be opened.
unfoldable pub init_capture : (opened : Bool) → ℤ
init_capture opened = if opened then pos 1 else pos 0

-- `initAll`, by what the parts report; its first call's result is not looked at. The last value is
-- that of the tracker, Detector/camshift_wrapper.cpp.
unfoldable pub init_all :
    {F : Type 0}
    → Platform F
    → (opened stored loaded tracked : Bool) → MainSettings
    → ℤ × MainSettings
unfolding init_configuration init_face_det init_capture
init_all os opened stored loaded tracked c =
    let c' = (init_configuration os c).1 in
    if eqb_ℤ (init_capture opened) (pos 0)
    then (pos 0, c')
    else if eqb_ℤ (init_face_det stored loaded) (pos 0)
    then (pos 0, c')
    else if tracked
    then (pos 1, c')
    else (pos 0, c')

-- The copy that `captureVideoFrame` leaves in `pfd_pVideoFrameCopy`: a new image, or the old one with
-- new pixels, turned if the camera's image is upside down. `flip` is `cvFlip` on the pixels.
unfoldable pub capture_video_frame :
    (flip : Image → Image) → Option Image → Option Image → Bool × Option Image
capture_video_frame flip none copy = (false, copy)
capture_video_frame flip (some img) copy =
    let target : Image = elim copy [
      | none ↦ record {
        width = img.width;
        height = img.height;
        depth = pos 8;
        channels = pos 3;
        origin = pos 0;
        pixels = [];
      }
      | some c ↦ c
    ] in
    let filled : Image = record target { pixels = img.pixels; origin = img.origin } in
    (
      true,
      some
          (if eqb_ℤ filled.origin (pos 1) then record (flip filled) { origin = pos 0 } else filled),
    )

-- The smallest face that is looked for, a fifth of the width.
abbrev pub min_face_size : Image → ℤ
min_face_size img = quotient img.width 5

-- `detectFaces`: the sequence that it stores, and its length. `haar` is `cvHaarDetectObjects`, given
-- the image and the smallest size; `none` as its result is a null pointer, which is followed.
unfoldable pub detect_faces :
    (haar : Image → ℤ → Option (List Rect)) → Image → Option (List Rect × ℕ)
detect_faces haar img = do seqs ← haar img (min_face_size img); some (seqs, length seqs)

-- `detectFace`: the first face, if there is one.
unfoldable pub detect_face : (haar : Image → ℤ → Option (List Rect)) → Image → Option Rect
detect_face haar img = elim (haar img (min_face_size img)) [ none ↦ none | some seqs ↦ front seqs ]

-- A rectangle on the screen: two corners, one of three colours, and a thickness.
pub record Drawing : Type 0 where
  pub corner : Point
  pub opposite : Point
  pub colour : ℕ
  pub thickness : ℕ

abbrev pub draw_faces : ℕ → ℕ → List Face → List Drawing
draw_faces frame_count i [] = []
draw_faces frame_count i (f ∷ fs) =
    record {
      corner = record { x = f.rect.x; y = f.rect.y };
      opposite = record { x = f.rect.x +ℤ f.rect.width; y = f.rect.y +ℤ f.rect.height };
      colour = i % 3;
      thickness = if eqb_ℤ f.frame_id (pos frame_count) then 3 else 1;
    }
    ∷ draw_faces frame_count (suc i) fs

-- What a round of the input loop depends on: a camera image, if there is another, the time, and
-- whether Esc was pressed.
pub record Input : Type 0 where
  pub escape : Bool
  pub image : Option Image
  pub now : ℤ

-- The input loop of `_tmain`, over the rounds there are: the state of the system, the frame count and
-- what was drawn in each round. `none` is a fault, or the exception if not even one frame could be
-- read. The copy is released in every round; the first one that `initAll` leaves has the size of a new
-- one. `ready` says whether `FdInit` has initialised the locks: `FdProcessFaces` enters one.
-- `meanwhile n` is what the other threads of control do in front of the round `n`, whatever their
-- schedule; what they do within `FdProcessFaces` is in System.antt.
module _ {F : Type 0} ⦃fl : Float F⦄ (flip : Image → Image) (haar : Image → ℤ → Option (List Rect))
    (ready : Bool) (meanwhile : ℕ → System F → System F) where
  unfoldable pub input_round : Image → ℤ → ℕ → System F → Option (System F × List Drawing)
  unfolding detect_faces process_faces
  input_round copy now frame_count s = do
    (seqs, total) ← detect_faces haar copy
    assert ready
    fd' ← process_faces copy seqs now s.fd
    some (record s { fd = fd' }, draw_faces frame_count 0 fd'.faces_in_current_frame)

  -- Behind `captureVideoFrame`.
  abbrev pub captured_or_end :
      Bool × Option Image
      → ℕ
      → (Image → Option (System F × List (List Drawing)))
      → System F
      → Option (System F × List (List Drawing))
  captured_or_end (true, some copy) frame_count go s = go copy
  captured_or_end (true, none) frame_count go s = none
  captured_or_end (false, _) zero go s = none
  captured_or_end (false, _) (suc n) go s = some (s, [])

  unfoldable pub input_loop : List Input → ℕ → System F → Option (System F × List (List Drawing))
  input_loop [] frame_count s = some (s, [])
  input_loop (i ∷ is) frame_count s =
      let next = λ (t : System F). input_loop is (frame_count + 1) t in
      if i.escape
      then some (s, [])
      else captured_or_end (capture_video_frame flip i.image none) frame_count
          (λ copy. do
            (t, drawn) ← input_round copy i.now (frame_count + 1) (meanwhile (frame_count + 1) s)
            (u, rest) ← next t
            some (u, drawn ∷ rest))
          s

-- The loop that looks for the rectangle around the first face of every entry.
pub record Consensus : Type 0 where
  pub found : Bool
  pub min_x : ℤ
  pub max_x : ℤ
  pub min_y : ℤ
  pub max_y : ℤ

abbrev pub no_consensus : Consensus
no_consensus = record {
  found = false;
  min_x = int_max;
  max_x = pos 0;
  min_y = int_max;
  max_y = pos 0;
}

unfoldable pub add_to_consensus : Consensus → Rect → Consensus
add_to_consensus c r = record {
  found = true;
  min_x = if ltb_ℤ r.x c.min_x then r.x else c.min_x;
  max_x = if ltb_ℤ c.max_x (r.x +ℤ r.width) then r.x +ℤ r.width else c.max_x;
  min_y = if ltb_ℤ r.y c.min_y then r.y else c.min_y;
  max_y = if ltb_ℤ c.max_y (r.y +ℤ r.height) then r.y +ℤ r.height else c.max_y;
}

unfoldable pub find_consensus : List HistoryEntry → Consensus → Consensus
unfolding add_to_consensus
find_consensus [] c = c
find_consensus (e ∷ es) c =
    find_consensus es (elim e.faces_seq [ [] ↦ c | r ∷ rs ↦ add_to_consensus c r ])

abbrev pub consensus_rect : Consensus → Rect
consensus_rect c = record {
  x = c.min_x;
  y = c.min_y;
  width = c.max_x -ℤ c.min_x;
  height = c.max_y -ℤ c.min_y;
}

-- The two files that the playback writes: the images of the one, and the images of the other with the
-- region that is copied.
pub record Playback : Type 0 where
  pub played : List Image
  pub cropped : List (Image × Rect)

-- The playback loop; `escapes` says at which entry Esc is pressed. `none` is a released image that is
-- copied, or the assertion that a rectangle was found.
unfoldable pub playback_loop :
    (escapes : ℤ → Bool) → Consensus → List HistoryEntry → Option Playback
playback_loop escapes c [] = some record { played = []; cropped = [] }
playback_loop escapes c (e ∷ es) =
    let more = playback_loop escapes c es in
    let rest = if escapes e.frame_id then some record { played = []; cropped = [] } else more in
    do
      img ← e.frame
      assert (if ltb 0 (length e.faces_seq) then c.found else true)
      r ← rest
      some record {
        played = record img { depth = pos 8; channels = pos 3; origin = pos 0 } ∷ r.played;
        cropped = elim e.faces_seq [
          | [] ↦ r.cropped
          | f ∷ fs ↦
              (record img { depth = pos 8; channels = pos 3; origin = pos 0 }, consensus_rect c)
              ∷ r.cropped
        ];
      }

-- Behind the input loop: the rectangle is found, then the history is played.
unfoldable pub play_history : (escapes : ℤ → Bool) → List HistoryEntry → Option Playback
unfolding find_consensus playback_loop
play_history escapes history = playback_loop escapes (find_consensus history no_consensus) history
