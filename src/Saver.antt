-- ===== src/Saver.antt =====
-- `saveAndDeleteThread` of Detector/FaceProcessor.cpp in its own steps, between which the other threads
-- of control run: one round of a copying loop is one step, since the lock is given back and the thread
-- sleeps in every round. SaveThread.antt has the same functions without a break.
use planetariumfd.Prelude.{
  ℕ, zero, suc, ◌+◌, ◌-◌, ℤ, pos, ltb_ℤ, eqb_ℤ, ltb, ◌==◌, Bool, true, false, not, List, [], ◌∷◌,
  ◌++◌, Option, none, some, ◌>>=◌, ◌>>◌, assert, length, front, Text, codes, if◌then◌else◌,
}
use planetariumfd.Float.{Float}
use planetariumfd.Geometry.{Face}
use planetariumfd.Thread.{FaceThread, prune_faces_list}
use planetariumfd.State.{HistoryEntry, Saved, Fd}
use planetariumfd.System.{find_saved, put_saved, delete_being_serialized}
use planetariumfd.Register.{drop, Registered}
use planetariumfd.SaveThread.{
  Picture, Media, Images, Video, found_at, picture_of, image_name, video_name, video_size,
  video_faces, video_fps, registered_if, is_worth_saving,
}
pub mod Positions
pub mod Loops
pub mod Rounds
pub mod ImageRounds
pub mod FilmRounds
pub mod Others
pub mod Watched
pub mod Openings
pub mod Invariant
pub mod Advance
pub mod Turns
pub mod Safety
pub mod Refinement

-- An iterator of `gHistory`: at the n-th of all the entries that `addToHistory` has ever appended,
-- counted from 1, or `end()`. The entries are list nodes, which stay where they are until erased.
pub data Itr : Type 0 where
  at_entry : ℕ → Itr
  list_end : Itr

-- At an entry if there is one, else at the end.
abbrev pub itr_at : ℕ → List HistoryEntry → Itr
itr_at n [] = list_end
itr_at n (e ∷ es) = at_entry n

module _ {F : Type 0} where
  -- The number of the first entry that is not erased: one is appended for each frame.
  abbrev pub first_kept : Fd F → ℕ
  first_kept s = s.processed_frame_counter + 1 - length s.history

  -- The entry of a number and those behind it; none if it is erased.
  unfoldable pub entries_from : ℕ → Fd F → List HistoryEntry
  entries_from n s = if ltb n (first_kept s) then [] else drop (n - first_kept s) s.history

  abbrev pub ahead : Itr → Fd F → List HistoryEntry
  ahead (at_entry n) s = entries_from n s
  ahead list_end s = []

  -- `++history_itr`
  abbrev pub next_itr : Itr → Fd F → Itr
  next_itr list_end s = list_end
  next_itr (at_entry n) s = itr_at (suc n) (entries_from (suc n) s)

  -- Where a rest of the history begins.
  abbrev pub itr_of : List HistoryEntry → Fd F → Itr
  itr_of h s = at_entry (s.processed_frame_counter + 1 - length h)

-- What a round of a loop comes to.
pub data Round (A B : Type 0) : Type 0 where
  go_on : A → Round A B
  finished : B → Round A B

-- The locals of `saveThreadImages` in its loop: `left` begins at `faces_itr`, `num` and `saved` are
-- `image_num` and `image_num_saved`, `pictures` are those that were tried.
pub record Imaging : Type 0 where
  pub series : ℕ
  pub itr : Itr
  pub left : List Face
  pub num : ℕ
  pub saved : ℕ
  pub out : Text
  pub pictures : List Picture

-- The locals of `saveThreadVideo` in its loop, with the file that is open.
pub record Filming : Type 0 where
  pub path : Text
  pub name : Text
  pub itr : Itr
  pub left : List Face
  pub written : ℕ
  pub out : Text
  pub pictures : List Picture

-- Where the thread stands: in front of or in each of its stretches.
pub data SaverPc : Type 0 where
  starting : SaverPc
  images_due : SaverPc
  taking_images : Imaging → SaverPc
  video_due : (smooth : Bool) → SaverPc
  filming : (smooth : Bool) → Filming → SaverPc
  closing : SaverPc
  ended : (code : ℤ) → SaverPc

abbrev pub is_ended : SaverPc → Bool
is_ended (ended code) = true
is_ended _ = false

-- The thread with the registrations that it has made.
pub record Saver : Type 0 where
  pub pc : SaverPc
  pub files : List Registered

module _ {F : Type 0} (media : Media F) where
  open media use {save_image, write_frame}

  -- A round of the loop of `saveThreadImages`, or its end.
  unfoldable pub image_round : Fd F → Imaging → Option (Round Imaging Images)
  image_round s st = elim st.left [
    | [] ↦ some (finished record { ok = ltb 0 st.saved; filename = st.out; pictures = st.pictures })
    | f ∷ fs ↦ do
      e ← front (ahead st.itr s)
      let next = record st { itr = next_itr st.itr s; num = st.num + 1 }
      (if ltb_ℤ e.frame_id f.frame_id then some (go_on next) else (do
        assert (eqb_ℤ e.frame_id f.frame_id)
        img ← e.frame
        let limit = s.config.max_jpg_images_saved_per_thread
        let base = s.base_ofilename
        let p = picture_of save_image s.config.o_path base st.series limit st.num img f
        let name =
            if st.saved == 0
            then image_name save_image s.config.o_path base st.series limit st.num
            else st.out
        let tried = st.pictures ++ (p ∷ [])
        (if save_image p
            then (if eqb_ℤ (pos (st.saved + 1)) limit
                then some (finished record { ok = true; filename = name; pictures = tried })
                else some (
                    go_on (record next {
                      left = fs;
                      saved = st.saved + 1;
                      out = name;
                      pictures = tried;
                    })))
            else some (go_on (record next { left = fs; pictures = tried })))))
  ]

  -- A round of the loop of `saveThreadVideo`, or its end.
  unfoldable pub frame_round : Fd F → Filming → Option (Round Filming Video)
  frame_round s st = elim st.left [
    | [] ↦ some (finished record { ok = true; filename = st.name; frames = st.pictures })
    | f ∷ fs ↦ do
      e ← front (ahead st.itr s)
      let next = record st { itr = next_itr st.itr s }
      (if ltb_ℤ e.frame_id f.frame_id then some (go_on next) else (do
        assert (eqb_ℤ e.frame_id f.frame_id)
        img ← e.frame
        let p : Picture = record { path = st.path; image = img; region = f.rect }
        let tried = st.pictures ++ (p ∷ [])
        (if write_frame st.written p
            then some
                (go_on (record next { left = fs; written = st.written + 1; pictures = tried }))
            else some (finished record { ok = false; filename = st.out; frames = tried }))))
  ]

  -- `saveThreadImages` up to its loop.
  unfoldable pub begin_images : Fd F → FaceThread → Option (ℕ × Round Imaging Images)
  begin_images s th = elim th.faces [
    | [] ↦ some (s.image_series_cnt, finished record { ok = false; filename = []; pictures = [] })
    | f ∷ fs ↦ do
      let series = s.image_series_cnt + 1
      h ← found_at f.frame_id s.history
      some (
        series,
        go_on record {
          series = series;
          itr = itr_of h s;
          left = f ∷ fs;
          num = 0;
          saved = 0;
          out = [];
          pictures = [];
        },
      )
  ]

module _ {F : Type 0} (fl : Float F) (media : Media F) where
  open media use {create_image, open_video}

  -- From the first face on: the search, the image and the file.
  unfoldable pub open_film : Fd F → ℕ → Bool → List Face → Option (Round Filming Video)
  open_film s series smooth [] = none
  open_film s series smooth (f ∷ fs) =
      let name = video_name s.base_ofilename series smooth in
      let path = s.config.o_path ++ (codes "\\" ++ name) in
      let (width, height) = video_size s.config.face_video_size f fs in
      let failed : Video = record { ok = false; filename = []; frames = [] } in
      do
        h ← found_at f.frame_id s.history
        e ← front h
        img ← e.frame
        (if not (create_image width height img.depth img.channels)
            then some (finished failed)
            else if not (open_video path (video_fps fl s) width height)
            then some (finished failed)
            else some (
                go_on record {
                  path = path;
                  name = name;
                  itr = itr_of h s;
                  left = f ∷ fs;
                  written = 0;
                  out = [];
                  pictures = [];
                }))

  -- `saveThreadVideo` up to its loop.
  unfoldable pub begin_film : Fd F → FaceThread → Bool → Option (ℕ × Round Filming Video)
  unfolding video_faces open_film
  begin_film s th smooth =
      let failed : Video = record { ok = false; filename = []; frames = [] } in
      let series = s.image_series_cnt + 1 in
      if ltb_ℤ (pos (length th.faces)) s.config.min_frames_for_video
      then some (s.image_series_cnt, finished failed)
      else elim th.faces [
        | [] ↦ some (series, finished failed)
        | f ∷ fs ↦ do
          my_faces ← video_faces fl smooth (f ∷ fs)
          x ← open_film s series smooth my_faces
          some (series, x)
      ]

  module _ (server : Text) (address : ℕ) where
    -- Behind the round or the beginning of a stretch: on in its loop, or to the next stretch.
    abbrev pub after_images : Round Imaging Images → Saver → Saver
    after_images (go_on st) k = record k { pc = taking_images st }
    after_images (finished r) k = record {
      pc = video_due false;
      files = k.files ++ registered_if server r.ok r.filename;
    }

    abbrev pub after_film : Bool → Round Filming Video → Saver → Saver
    after_film smooth (go_on st) k = record k { pc = filming smooth st }
    after_film smooth (finished v) k = record {
      pc = if smooth then closing else video_due true;
      files = k.files ++ registered_if server v.ok v.filename;
    }

    -- The next step of the thread; `none` is a fault, or the thread has ended.
    unfoldable pub advance : Fd F → Saver → Option (Fd F × Saver)
    unfolding image_round frame_round begin_images begin_film
    advance s k = elim k.pc [
      | starting ↦ do
        given ← find_saved address s.being_serialized
        th ← prune_faces_list s.config.max_thread_history_size given
        some (
          record s { being_serialized = put_saved address th s.being_serialized },
          record k { pc = if is_worth_saving s.config th then images_due else closing },
        )
      | images_due ↦ do
        th ← find_saved address s.being_serialized
        (series, x) ← begin_images media s th
        some (record s { image_series_cnt = series }, after_images x k)
      | taking_images st ↦ do x ← image_round media s st; some (s, after_images x k)
      | video_due smooth ↦ do
        th ← find_saved address s.being_serialized
        (series, x) ← begin_film s th smooth
        some (record s { image_series_cnt = series }, after_film smooth x k)
      | filming smooth st ↦ do x ← frame_round media s st; some (s, after_film smooth x k)
      | closing ↦ do
        (code, rest) ← delete_being_serialized address s.being_serialized
        some (record s { being_serialized = rest }, record k { pc = ended code })
      | ended code ↦ none
    ]

    -- The thread's steps up to its end, if no other thread runs; `fuel` is how many there are at most.
    unfoldable pub run_alone : (fuel : ℕ) → Fd F → Saver → Option (Fd F × Saver)
    unfolding advance
    run_alone zero s k = if is_ended k.pc then some (s, k) else none
    run_alone (suc fuel) s k =
        let rest = advance s k >>= λ t. run_alone fuel t.0 t.1 in
        if is_ended k.pc then some (s, k) else rest
