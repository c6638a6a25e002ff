-- ===== src/SaveThread/Laws.antt =====
-- `saveThreadImages` and `saveThreadVideo` of Detector/FaceProcessor.cpp: the files of a thread whose
-- faces the history covers.
use planetariumfd.Prelude.{
  ℕ, suc, ◌+◌, ◌≡◌, refl, sym, subst, inl, inr, pos, ltb_ℤ, eqb_ℤ, Bool, codes, true, false, List,
  [], ◌∷◌, ◌++◌, some, length, All₂, Bool-cases, if◌then◌else◌, Text, front,
}
use planetariumfd.Float.{Float}
use planetariumfd.Geometry.{Face}
use planetariumfd.Thread.{FaceThread}
use planetariumfd.Thread.Laws.{IsTrack}
use planetariumfd.State.{HistoryEntry, Fd}
use planetariumfd.Image.{Image}
use planetariumfd.Register.{Registered}
use planetariumfd.History.Runs.{IsRun}
use planetariumfd.SaveThread.{
  Picture, Media, Images, Video, skip_to, found_at, frame_loop, save_thread_images, video_faces,
  write_video, save_thread_video, save_files, registered_if, video_name, video_size, video_fps,
  save_files, Registered,
}
use planetariumfd.SaveThread.Frames.{
  Shot, Shows, found_at_lem, frame_loop_lem, image_loop_lem, eqb_ℤ_self,
}
use planetariumfd.SaveThread.Played.{Played, as_tracked, smoothed_faces}

pub found_at_total :
    (f : Face) (h : List HistoryEntry) (e : HistoryEntry) (es : List HistoryEntry)
    → skip_to f.frame_id h ≡ some (e ∷ es)
    → e.frame_id ≡ f.frame_id
    → found_at f.frame_id h ≡ some (e ∷ es)
found_at_total f h e es run same =
    let equal : eqb_ℤ e.frame_id f.frame_id ≡ true = rw same (eqb_ℤ_self f.frame_id) in
    rw run (rw equal refl)

Shot-back :
    {h h' : List HistoryEntry} (fs : List Face) (ps : List Picture)
    → ((gs : List Face) (qs : List Picture) → All₂ (Shows h') gs qs → All₂ (Shows h) gs qs)
    → Shot h' fs ps
    → Shot h fs ps
Shot-back fs ps back s = record {
  shot = s.shot;
  left = s.left;
  whole = s.whole;
  shown = back s.shot ps s.shown;
}

-- The thread to save has the faces `f ∷ fs`, all within the frames of the history.
module _ {F : Type 0} (base high : ℕ) (s : Fd F) (th : FaceThread) (f : Face) (fs : List Face)
    (run : IsRun base s.history) (covers : base + length s.history ≡ suc high)
    (faces : th.faces ≡ f ∷ fs) (track : IsTrack base high (f ∷ fs)) where
  -- `saveThreadImages` finds the image of every face that it gets to: its pictures are the regions of
  -- the first faces, in order, in the images of their frames. If it reports failure it has tried all.
  pub save_thread_images_lem :
      (media : Media F) (out : Text)
      → (r : Images) × (save_thread_images media s th out ≡ some (s.image_series_cnt + 1, r))
        × Shot s.history (f ∷ fs) r.pictures
        × (r.ok ≡ false → All₂ (Shows s.history) (f ∷ fs) r.pictures)
  unfolding save_thread_images
  save_thread_images_lem media out =
      let (low, e, es, skip, same, img, rest, size, t, back) =
        found_at_lem base high s.history f fs run covers track in
      let (r, ran, shot, all) =
        image_loop_lem media.save_image s.config.o_path s.base_ofilename (s.image_series_cnt + 1)
          s.config.max_jpg_images_saved_per_thread low high (e ∷ es) (f ∷ fs) 0 0 out rest size t in
      (
        r,
        rw faces (rw (found_at_total f s.history e es skip same) (rw ran refl)),
        Shot-back (f ∷ fs) r.pictures back shot,
        λ q. back (f ∷ fs) r.pictures (all q),
      )

abbrev pub video_path : {F : Type 0} → Fd F → ℕ → Bool → Text
video_path s series smooth =
    s.config.o_path ++ (codes "\\" ++ video_name s.base_ofilename series smooth)

module _ {F : Type 0} (fl : Float F) (media : Media F) (base high : ℕ) (s : Fd F)
    (run : IsRun base s.history) (covers : base + length s.history ≡ suc high) where
  -- The outcome, by what the search found and what the loop over the frames returns.
  write_video_from :
      (series : ℕ) (smooth : Bool) (out : Text) (f : Face) (fs : List Face) (h : List HistoryEntry)
      (e : HistoryEntry) (img : Image) (ok : Bool) (ps : List Picture)
      → found_at f.frame_id s.history ≡ some h
      → front h ≡ some e
      → e.frame ≡ some img
      → frame_loop media (video_path s series smooth) h (f ∷ fs) 0 ≡ some (ok, ps)
      → (v : Video) × (write_video fl media s series smooth out (f ∷ fs) ≡ some v)
        × (v.ok ≡ true
            → (v.filename ≡ video_name s.base_ofilename series smooth)
              × (v.frames ≡ ps)
              × (ok ≡ true))
  unfolding write_video
  write_video_from series smooth out f fs h e img ok ps found first pic ran =
      let name = video_name s.base_ofilename series smooth in
      let (width, height) = video_size s.config.face_video_size f fs in
      let failed : Video = record { ok = false; filename = out; frames = [] } in
      elim (Bool-cases (media.create_image width height img.depth img.channels)) [
        | inr none_left ↦
            (failed, rw found (rw first (rw pic (rw none_left refl))), λ (q : false ≡ true). cc)
        | inl made ↦
            elim (Bool-cases
              (media.open_video (video_path s series smooth) (video_fps fl s) width height)) [
                | inr shut ↦ (
                  failed,
                  rw found (rw first (rw pic (rw made (rw shut refl)))),
                  λ (q : false ≡ true). cc,
                )
                | inl open_file ↦ (
                  record { ok = ok; filename = if ok then name else out; frames = ps },
                  rw found (rw first (rw pic (rw made (rw open_file (rw ran refl))))),
                  λ (q : ok ≡ true). (rw q refl, refl, q),
                )
              ]
      ]

  write_video_lem :
      (series : ℕ) (smooth : Bool) (out : Text) (f : Face) (fs : List Face)
      → IsTrack base high (f ∷ fs)
      → (v : Video) × (write_video fl media s series smooth out (f ∷ fs) ≡ some v)
        × (v.ok ≡ true
            → (v.filename ≡ video_name s.base_ofilename series smooth)
              × All₂ (Shows s.history) (f ∷ fs) v.frames)
  write_video_lem series smooth out f fs track =
      let (low, e, es, skip, same, (img, pic), rest, size, t, back) =
        found_at_lem base high s.history f fs run covers track in
      let (ok, ps, ran, shot, all) =
        frame_loop_lem media (video_path s series smooth) low high (e ∷ es) (f ∷ fs) 0 rest size
          t in
      let (v, made, good) =
        write_video_from series smooth out f fs (e ∷ es) e img ok ps
          (found_at_total f s.history e es skip same) refl pic ran in
      (
        v,
        made,
        λ q.
            let (name, frames, was_ok) = good q in
            (
              name,
              subst (All₂ (Shows s.history) (f ∷ fs)) (sym frames) (back (f ∷ fs) ps (all was_ok)),
            ),
      )

  -- The faces of either video.
  pub faces_to_play :
      (smooth : Bool) (f : Face) (fs : List Face)
      → IsTrack base high (f ∷ fs)
      → (g : Face) × (gs : List Face) × (video_faces fl smooth (f ∷ fs) ≡ some (g ∷ gs))
        × IsTrack base high (g ∷ gs)
        × Played fl f fs smooth (g ∷ gs)
  unfolding video_faces
  faces_to_play false f fs t = (f, fs, refl, t, as_tracked)
  faces_to_play true f fs t = smoothed_faces fl base high f fs t

  -- `saveThreadVideo` of a thread whose faces the history covers ends without a fault, whatever OpenCV
  -- reports. If it is successful, then the file has the documented name and holds, in order, the region
  -- of each of the thread's faces in the image of the face's frame; in a smooth video the faces are those that
  -- `smoothFaceSeries` makes of what `addMissingFrames` makes of the thread's, one for each frame
  -- from the first to the last.
  pub save_thread_video_lem :
      (th : FaceThread) (f : Face) (fs : List Face) (out : Text) (smooth : Bool)
      → th.faces ≡ f ∷ fs
      → IsTrack base high (f ∷ fs)
      → (series : ℕ) × (v : Video) × (save_thread_video fl media s th out smooth ≡ some (series, v))
        × (v.ok ≡ true
            → (v.filename ≡ video_name s.base_ofilename (s.image_series_cnt + 1) smooth)
              × (gs : List Face) × Played fl f fs smooth gs
              × All₂ (Shows s.history) gs v.frames)
  unfolding save_thread_video
  save_thread_video_lem th f fs out smooth e t =
      let (g, gs, played, track, p) = faces_to_play smooth f fs t in
      let (v, ran, all) = write_video_lem (s.image_series_cnt + 1) smooth out g gs track in
      elim (Bool-cases (ltb_ℤ (pos (length th.faces)) s.config.min_frames_for_video)) [
        | inl short ↦ (
          s.image_series_cnt,
          record { ok = false; filename = out; frames = [] },
          rw short refl,
          λ (q : false ≡ true). cc,
        )
        | inr long ↦ (
          s.image_series_cnt + 1,
          v,
          rw long (rw e (rw played (rw ran refl))),
          λ q. let (name, shown) = all q in (name, g ∷ gs, p, shown),
        )
      ]

-- Saving the image and both videos of a thread whose faces the history covers does not fault.
pub save_files_total :
    {F : Type 0} (fl : Float F) (media : Media F) (base high : ℕ) (s : Fd F) (server : Text)
    (th : FaceThread) (f : Face) (fs : List Face)
    → IsRun base s.history
    → base + length s.history ≡ suc high
    → th.faces ≡ f ∷ fs
    → IsTrack base high (f ∷ fs)
    → (n : ℕ) × (files : List Registered) × (save_files fl media server s th
        ≡ some (record s { image_series_cnt = n }, files))
unfolding save_files
save_files_total fl media base high s server th f fs run covers e t =
    let (images, ran, _, _) = save_thread_images_lem base high s th f fs run covers e t media [] in
    let s1 = record s { image_series_cnt = s.image_series_cnt + 1 } in
    let (n2, v2, ran2, _) =
      save_thread_video_lem fl media base high s1 run covers th f fs [] false e t in
    let s2 = record s { image_series_cnt = n2 } in
    let (n3, v3, ran3, _) =
      save_thread_video_lem fl media base high s2 run covers th f fs [] true e t in
    (
      n3,
      registered_if server images.ok images.filename
          ++ (registered_if server v2.ok v2.filename ++ registered_if server v3.ok v3.filename),
      rw ran (rw ran2 (rw ran3 refl)),
    )
