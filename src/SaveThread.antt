-- ===== src/SaveThread.antt =====
-- How a finished thread is saved, Detector/FaceProcessor.cpp: `saveThreadImages`, `saveThreadVideo` and
-- `saveAndDeleteThread`. The files are written by OpenCV, which is a parameter, and so is the server.
-- Here the functions run without a break; Saver.antt has their steps, with other threads between.
use planetariumfd.Prelude.{
  ℕ, zero, suc, ◌+◌, ℤ, pos, ltb_ℤ, leb_ℤ, eqb_ℤ, ltb, Bool, true, false, not, ◌&&◌, List, [], ◌∷◌,
  ◌++◌, Option, none, some, ◌>>=◌, ◌>>◌, assert, length, front, Text, codes, decimal, if◌then◌else◌,
  ◌==◌,
}
use planetariumfd.Float.{Float}
use planetariumfd.Geometry.{Rect, Face}
use planetariumfd.Image.{Image}
use planetariumfd.Config.{Config}
use planetariumfd.Thread.{FaceThread, prune_faces_list}
use planetariumfd.State.{HistoryEntry, Saved, Fd}
use planetariumfd.Missing.{add_missing_frames}
use planetariumfd.Smooth.{smooth_face_series}
use planetariumfd.System.{find_saved, put_saved, delete_being_serialized}
use planetariumfd.Register.{Registered, register_output_file}
pub mod Frames
pub mod Names
pub mod Distinct
pub mod Played
pub mod Whole
pub mod Laws

-- A region of an image that is written to a file, or as a frame of one.
pub record Picture : Type 0 where
  pub path : Text
  pub image : Image
  pub region : Rect

-- OpenCV's `cvSaveImage`, `cvCreateImage`, `cvCreateVideoWriter` and `cvWriteFrame`: whether a call
-- succeeds. `write_frame` has the number of the frame in the file.
pub record Media (F : Type 0) : Type 0 where
  pub save_image : Picture → Bool
  pub create_image : (width height depth channels : ℤ) → Bool
  pub open_video : (path : Text) (fps : F) (width height : ℤ) → Bool
  pub write_frame : ℕ → Picture → Bool

-- `while (history_itr->frame_id < target) ++history_itr`; `none` is a step past the end.
unfoldable pub skip_to : ℤ → List HistoryEntry → Option (List HistoryEntry)
skip_to target [] = none
skip_to target (e ∷ es) =
    let rest = skip_to target es in if ltb_ℤ e.frame_id target then rest else some (e ∷ es)

-- What follows the search: the entry found is of the face's frame.
abbrev pub found_at : ℤ → List HistoryEntry → Option (List HistoryEntry)
found_at target h = do
  h' ← skip_to target h
  e ← front h'
  assert (eqb_ℤ e.frame_id target)
  some h'

-- The result, `outputFilename`, and the pictures that were tried.
pub record Images : Type 0 where
  pub ok : Bool
  pub filename : Text
  pub pictures : List Picture

module _ (save_image : Picture → Bool) (o_path base : Text) (series : ℕ) (limit : ℤ) where
  abbrev pub image_name : ℕ → Text
  image_name num =
      base ++ (codes "__" ++ (decimal series ++ (codes "_" ++ (decimal num ++ codes ".jpg"))))

  abbrev pub picture_of : ℕ → Image → Face → Picture
  picture_of num img f = record {
    path = o_path ++ (codes "\\" ++ image_name num);
    image = img;
    region = f.rect;
  }

  abbrev pub with_picture : Picture → Images → Images
  with_picture p r = record r { pictures = p ∷ r.pictures }

  -- The loop of `saveThreadImages` over the history and the faces, in step.
  unfoldable pub image_loop : List HistoryEntry → List Face → (num saved : ℕ) → Text → Option Images
  image_loop h [] num saved out = some record { ok = ltb 0 saved; filename = out; pictures = [] }
  image_loop [] (f ∷ fs) num saved out = none
  image_loop (e ∷ es) (f ∷ fs) num saved out =
      let skipped = image_loop es (f ∷ fs) (num + 1) saved out in
      let failed = image_loop es fs (num + 1) saved out in
      let name = if saved == 0 then image_name num else out in
      let stored = image_loop es fs (num + 1) (saved + 1) name in
      if ltb_ℤ e.frame_id f.frame_id then skipped else do
        assert (eqb_ℤ e.frame_id f.frame_id)
        img ← e.frame
        let p = picture_of num img f
        (if save_image p
            then (if eqb_ℤ (pos (saved + 1)) limit
                then some record { ok = true; filename = name; pictures = p ∷ [] }
                else (do r ← stored; some (with_picture p r)))
            else (do r ← failed; some (with_picture p r)))

module _ {F : Type 0} (media : Media F) where
  open media use {save_image, create_image, open_video, write_frame}

  -- The new value of `image_series_cnt` comes with the result.
  unfoldable pub save_thread_images : Fd F → FaceThread → Text → Option (ℕ × Images)
  unfolding skip_to image_loop
  save_thread_images s th out = elim th.faces [
    | [] ↦ some (s.image_series_cnt, record { ok = false; filename = out; pictures = [] })
    | f ∷ fs ↦ do
      let series = s.image_series_cnt + 1
      h ← found_at f.frame_id s.history
      r ←
          image_loop save_image s.config.o_path s.base_ofilename series
            s.config.max_jpg_images_saved_per_thread h (f ∷ fs) 0 0 out
      some (series, r)
  ]

  -- The loop of `saveThreadVideo`: a frame for each face, up to the first that fails.
  unfoldable pub frame_loop :
      Text → List HistoryEntry → List Face → ℕ → Option (Bool × List Picture)
  frame_loop path h [] written = some (true, [])
  frame_loop path [] (f ∷ fs) written = none
  frame_loop path (e ∷ es) (f ∷ fs) written =
      let skipped = frame_loop path es (f ∷ fs) written in
      let next = frame_loop path es fs (written + 1) in
      if ltb_ℤ e.frame_id f.frame_id then skipped else do
        assert (eqb_ℤ e.frame_id f.frame_id)
        img ← e.frame
        let p : Picture = record { path = path; image = img; region = f.rect }
        (if write_frame written p
            then (do (ok, ps) ← next; some (ok, p ∷ ps))
            else some (false, p ∷ []))

-- The size of the video if the settings fix none: the largest width and the largest height.
abbrev pub largest : (Face → ℤ) → ℤ → List Face → ℤ
largest size most [] = most
largest size most (f ∷ fs) = largest size (if ltb_ℤ most (size f) then size f else most) fs

abbrev pub video_size : ℤ → Face → List Face → ℤ × ℤ
video_size fixed f fs =
    if eqb_ℤ fixed (pos 0)
    then (
      largest (λ g. g.rect.width) f.rect.width (f ∷ fs),
      largest (λ g. g.rect.height) f.rect.height (f ∷ fs),
    )
    else (fixed, fixed)

abbrev pub video_name : Text → ℕ → Bool → Text
video_name base series smooth =
    base
    ++ (codes "__"
        ++ (decimal series ++ ((if smooth then codes "_smoothed" else []) ++ codes ".avi")))

-- The flag of `saveThreadVideo`, `outputFilename`, and the frames of the file.
pub record Video : Type 0 where
  pub ok : Bool
  pub filename : Text
  pub frames : List Picture

-- A file that was saved is registered with the server; an exception is caught.
abbrev pub registered_if : Text → Bool → Text → List Registered
unfolding register_output_file
registered_if server ok name = if ok then register_output_file server name ∷ [] else []

-- The test in front of the three files.
abbrev pub is_worth_saving : {F : Type 0} → Config F → FaceThread → Bool
is_worth_saving c th =
    leb_ℤ c.min_face_occurences_thresh (pos th.non_missed_count)
    && ltb_ℤ (pos th.missed_count) c.max_allowed_missed_count

module _ {F : Type 0} (fl : Float F) where
  open fl use {mul, lt, literal}

  -- The list of faces that is written: for a smooth video a copy without gaps, smoothed.
  unfoldable pub video_faces : Bool → List Face → Option (List Face)
  unfolding add_missing_frames smooth_face_series
  video_faces false fs = some fs
  video_faces true fs = do
    (modified, filled) ← add_missing_frames fl fs
    smooth_face_series fl filled

  abbrev pub video_fps : Fd F → F
  video_fps s =
      let fps = mul s.estimated_fps s.config.fps_speedup_factor in
      if lt fps (literal (pos 2) 1) then literal (pos 2) 1 else fps

module _ {F : Type 0} (fl : Float F) (media : Media F) where
  open media use {create_image, open_video}

  -- From the first face on: the output is opened, and the frames are written.
  unfoldable pub write_video : Fd F → ℕ → Bool → Text → List Face → Option Video
  unfolding skip_to frame_loop
  write_video s series smooth out [] = none
  write_video s series smooth out (f ∷ fs) =
      let name = video_name s.base_ofilename series smooth in
      let path = s.config.o_path ++ (codes "\\" ++ name) in
      let (width, height) = video_size s.config.face_video_size f fs in
      let failed : Video = record { ok = false; filename = out; frames = [] } in
      do
        h ← found_at f.frame_id s.history
        e ← front h
        img ← e.frame
        (if not (create_image width height img.depth img.channels)
            then some failed
            else if not (open_video path (video_fps fl s) width height)
            then some failed
            else (do
              (ok, ps) ← frame_loop media path h (f ∷ fs) 0
              some record { ok = ok; filename = if ok then name else out; frames = ps }))

  unfoldable pub save_thread_video : Fd F → FaceThread → Text → Bool → Option (ℕ × Video)
  unfolding video_faces write_video
  save_thread_video s th out smooth =
      let failed : Video = record { ok = false; filename = out; frames = [] } in
      let series = s.image_series_cnt + 1 in
      if ltb_ℤ (pos (length th.faces)) s.config.min_frames_for_video
      then some (s.image_series_cnt, failed)
      else elim th.faces [
        | [] ↦ some (series, failed)
        | f ∷ fs ↦ do
          my_faces ← video_faces fl smooth (f ∷ fs)
          v ← write_video s series smooth out my_faces
          some (series, v)
      ]

  -- An image, a video and a smoothed video, each registered if it was saved.
  unfoldable pub save_files : Text → Fd F → FaceThread → Option (Fd F × List Registered)
  unfolding register_output_file
  save_files server s th = do
    (series1, images) ← save_thread_images media s th []
    let s1 = record s { image_series_cnt = series1 }
    (series2, plain) ← save_thread_video s1 th [] false
    let s2 = record s1 { image_series_cnt = series2 }
    (series3, smoothed) ← save_thread_video s2 th [] true
    let s3 = record s2 { image_series_cnt = series3 }
    some (
      s3,
      registered_if server images.ok images.filename
          ++ (registered_if server plain.ok plain.filename
              ++ registered_if server smoothed.ok smoothed.filename),
    )

  -- `saveAndDeleteThread`, without a step of another thread between: the thread is trimmed, saved
  -- and taken out of the list. `none` is also an address that is not in the list.
  unfoldable pub save_and_delete_thread : Text → ℕ → Fd F → Option (ℤ × Fd F × List Registered)
  save_and_delete_thread server address s = do
    given ← find_saved address s.being_serialized
    th ← prune_faces_list s.config.max_thread_history_size given
    let s1 = record s { being_serialized = put_saved address th s.being_serialized }
    (s2, files) ← if is_worth_saving s.config th then save_files server s1 th else some (s1, [])
    (code, rest) ← delete_being_serialized address s2.being_serialized
    some (code, record s2 { being_serialized = rest }, files)
