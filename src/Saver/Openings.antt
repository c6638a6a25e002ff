-- ===== src/Saver/Openings.antt =====
-- `saveThreadImages` and `saveThreadVideo` up to their loops, in a state whose history covers the faces.
use planetariumfd.Prelude.{
  ℕ, suc, ◌+◌, ◌≤◌, ◌≡◌, refl, sym, ap, subst, ℤ, pos, Bool, true, false, List, [], ◌∷◌, ◌++◌, some,
  some-injective, pos_part, back_from, length, arith, Bool-cases, inl, inr, if◌then◌else◌, ltb_ℤ,
  front,
}
use planetariumfd.Float.{Float}
use planetariumfd.Geometry.{Face}
use planetariumfd.Image.{Image}
use planetariumfd.Thread.{FaceThread}
use planetariumfd.Thread.Laws.{IsTrack}
use planetariumfd.State.{HistoryEntry, Fd}
use planetariumfd.History.Runs.{IsRun}
use planetariumfd.SaveThread.{
  Picture, Media, Images, Video, skip_to, found_at, frame_loop, save_thread_images, write_video,
  save_thread_video, video_name, video_size, video_fps,
}
use planetariumfd.SaveThread.Frames.{found_at_lem, image_loop_lem, frame_loop_lem}
use planetariumfd.SaveThread.Laws.{found_at_total, faces_to_play, video_path}
use planetariumfd.SaveThread.Played.{Played, as_tracked, smoothed}
use planetariumfd.Saver.{
  ahead, itr_of, Round, go_on, finished, Imaging, Filming, begin_images, open_film, begin_film,
}
use planetariumfd.Saver.Positions.{itr_of_lem}
use planetariumfd.Saver.Rounds.{Placed, to_go}
use planetariumfd.Saver.ImageRounds.{image_result}
use planetariumfd.Saver.FilmRounds.{film_result}

skip_to-suffix :
    (target : ℤ) (h rest : List HistoryEntry)
    → skip_to target h ≡ some rest
    → (before : List HistoryEntry) × (h ≡ before ++ rest)
unfolding skip_to
skip_to-suffix target [] rest e = cc
skip_to-suffix target (d ∷ ds) rest e = elim (Bool-cases (ltb_ℤ d.frame_id target)) [
  | inl earlier ↦
      let (before, whole) = skip_to-suffix target ds rest (rw earlier at e) in
      (d ∷ before, ap (λ l. d ∷ l) whole)
  | inr at ↦ ([], some-injective _ _ (rw at at e))
]

-- Where the search ends.
record Found {F : Type 0} (s : Fd F) (base : ℕ) (f : Face) (fs : List Face) : Type 0 where
  n : ℕ
  e : HistoryEntry
  es : List HistoryEntry
  img : Image
  search : found_at f.frame_id s.history ≡ some (e ∷ es)
  rest : ahead (itr_of (e ∷ es) s) s ≡ e ∷ es
  placed : Placed f.frame_id (itr_of (e ∷ es) s) (f ∷ fs)
  image : e.frame ≡ some img
  run : IsRun n (e ∷ es)
  size : n + length (e ∷ es) ≡ suc s.processed_frame_counter
  track : IsTrack n s.processed_frame_counter (f ∷ fs)

module _ {F : Type 0} (base : ℕ) (s : Fd F) (run : IsRun base s.history)
    (covers : base + length s.history ≡ s.processed_frame_counter + 1) where
  search_lem :
      (f : Face) (fs : List Face)
      → IsTrack base s.processed_frame_counter (f ∷ fs)
      → Found s base f fs
  search_lem f fs track =
      let (low, e, es, skip, same, (img, pic), rest, size, t, back) =
        found_at_lem base s.processed_frame_counter s.history f fs run (omega (arith, covers))
          track in
      let (before, whole) = skip_to-suffix f.frame_id s.history (e ∷ es) skip in
      let (n, at, left, here) = itr_of_lem s base covers before (e ∷ es) whole in
      let same_n : n ≡ low = omega (arith, left, size) in
      record {
        n = n;
        e = e;
        es = es;
        img = img;
        search = found_at_total f s.history e es skip same;
        rest = here;
        placed =
            subst (λ z. Placed f.frame_id z (f ∷ fs)) (sym at)
              (
                rw same_n (rw (← same) (rw rest.0 (omega arith))),
                rw same_n (rw (← same) (rw rest.0 (omega arith))),
                track.1,
              );
        image = pic;
        run = rw same_n rest;
        size = rw same_n size;
        track = rw same_n t;
      }

  -- `saveThreadImages` comes to its loop, and the loop without a break gives its result.
  pub begin_images_lem :
      (media : Media F) (th : FaceThread) (f : Face) (fs : List Face)
      → th.faces ≡ f ∷ fs
      → IsTrack base s.processed_frame_counter (f ∷ fs)
      → (st : Imaging) × (r : Images) × (begin_images media s th
          ≡ some (s.image_series_cnt + 1, go_on st))
        × Placed f.frame_id st.itr st.left
        × (to_go st.itr st.left ≤ suc (pos_part (back_from f fs).frame_id))
        × (image_result media s st ≡ some r)
        × (save_thread_images media s th [] ≡ some (s.image_series_cnt + 1, r))
  unfolding begin_images image_result save_thread_images
  begin_images_lem media th f fs faces track =
      let d = search_lem f fs track in
      let (r, ran, _, _) =
        image_loop_lem media.save_image s.config.o_path s.base_ofilename (s.image_series_cnt + 1)
          s.config.max_jpg_images_saved_per_thread d.n s.processed_frame_counter (d.e ∷ d.es)
          (f ∷ fs) 0 0 [] d.run d.size d.track in
      let st : Imaging = record {
        series = s.image_series_cnt + 1;
        itr = itr_of (d.e ∷ d.es) s;
        left = f ∷ fs;
        num = 0;
        saved = 0;
        out = [];
        pictures = [];
      } in
      (
        st,
        r,
        rw faces (rw d.search refl),
        d.placed,
        omega arith,
        rw d.rest (rw ran refl),
        rw faces (rw d.search (rw ran refl)),
      )

  -- What the beginning of a video comes to: a failure, or a loop which without a break gives `v`.
  abbrev pub FilmOpens : Media F → ℤ → ℤ → Video → Round Filming Video → Type 0
  FilmOpens media low last v (finished v') = v' ≡ v
  FilmOpens media low last v (go_on st) =
      (film_result media s st ≡ some v)
      × Placed low st.itr st.left
      × (to_go st.itr st.left ≤ suc (pos_part last))

  -- By what the search found and what the loop without a break returns.
  open_film_from :
      (fl : Float F) (media : Media F) (series : ℕ) (smooth : Bool) (f : Face) (fs : List Face)
      (h : List HistoryEntry) (e : HistoryEntry) (img : Image) (q : Bool × List Picture)
      → found_at f.frame_id s.history ≡ some h
      → front h ≡ some e
      → e.frame ≡ some img
      → frame_loop media (video_path s series smooth) h (f ∷ fs) 0 ≡ some q
      → ahead (itr_of h s) s ≡ h
      → Placed f.frame_id (itr_of h s) (f ∷ fs)
      → (x : Round Filming Video) × (v : Video) × (open_film fl media s series smooth (f ∷ fs)
          ≡ some x)
        × (write_video fl media s series smooth [] (f ∷ fs) ≡ some v)
        × FilmOpens media f.frame_id (back_from f fs).frame_id v x
  unfolding open_film film_result write_video
  open_film_from fl media series smooth f fs h e img q found first pic ran rest placed =
      let path = video_path s series smooth in
      let name = video_name s.base_ofilename series smooth in
      let (width, height) = video_size s.config.face_video_size f fs in
      let failed : Video = record { ok = false; filename = []; frames = [] } in
      let st : Filming = record {
        path = path;
        name = name;
        itr = itr_of h s;
        left = f ∷ fs;
        written = 0;
        out = [];
        pictures = [];
      } in
      elim (Bool-cases (media.create_image width height img.depth img.channels)) [
        | inr none_left ↦ (
          finished failed,
          failed,
          rw found (rw first (rw pic (rw none_left refl))),
          rw found (rw first (rw pic (rw none_left refl))),
          refl,
        )
        | inl made ↦ elim (Bool-cases (media.open_video path (video_fps fl s) width height)) [
          | inr shut ↦ (
            finished failed,
            failed,
            rw found (rw first (rw pic (rw made (rw shut refl)))),
            rw found (rw first (rw pic (rw made (rw shut refl)))),
            refl,
          )
          | inl open_file ↦ (
            go_on st,
            record { ok = q.0; filename = if q.0 then name else []; frames = q.1 },
            rw found (rw first (rw pic (rw made (rw open_file refl)))),
            rw found (rw first (rw pic (rw made (rw open_file (rw ran refl))))),
            (rw rest (rw ran refl), placed, omega arith),
          )
        ]
      ]

  open_film_lem :
      (fl : Float F) (media : Media F) (series : ℕ) (smooth : Bool) (f : Face) (fs : List Face)
      → IsTrack base s.processed_frame_counter (f ∷ fs)
      → (x : Round Filming Video) × (v : Video) × (open_film fl media s series smooth (f ∷ fs)
          ≡ some x)
        × (write_video fl media s series smooth [] (f ∷ fs) ≡ some v)
        × FilmOpens media f.frame_id (back_from f fs).frame_id v x
  open_film_lem fl media series smooth f fs track =
      let d = search_lem f fs track in
      let (ok, ps, ran, _, _) =
        frame_loop_lem media (video_path s series smooth) d.n s.processed_frame_counter (d.e ∷ d.es)
          (f ∷ fs) 0 d.run d.size d.track in
      open_film_from fl media series smooth f fs (d.e ∷ d.es) d.e d.img (ok, ps) d.search refl
        d.image ran d.rest d.placed

  -- `saveThreadVideo` fails or comes to its loop, and the loop without a break gives its result.
  pub begin_film_lem :
      (fl : Float F) (media : Media F) (smooth : Bool) (th : FaceThread) (f : Face) (fs : List Face)
      → th.faces ≡ f ∷ fs
      → IsTrack base s.processed_frame_counter (f ∷ fs)
      → (series : ℕ) × (x : Round Filming Video) × (v : Video) × (begin_film fl media s th smooth
          ≡ some (series, x))
        × (save_thread_video fl media s th [] smooth ≡ some (series, v))
        × FilmOpens media f.frame_id (back_from f fs).frame_id v x
  unfolding begin_film save_thread_video
  begin_film_lem fl media smooth th f fs faces track =
      let (g, gs, played, track', p) =
        faces_to_play fl media base s.processed_frame_counter s run (omega (arith, covers)) smooth f
          fs track in
      let (x, v, begun, ran, opens) =
        open_film_lem fl media (s.image_series_cnt + 1) smooth g gs track' in
      let failed : Video = record { ok = false; filename = []; frames = [] } in
      elim (Bool-cases (ltb_ℤ (pos (length th.faces)) s.config.min_frames_for_video)) [
        | inl short ↦
            (s.image_series_cnt, finished failed, failed, rw short refl, rw short refl, refl)
        | inr long ↦ (
          s.image_series_cnt + 1,
          x,
          v,
          rw long (rw faces (rw played (rw begun refl))),
          rw long (rw faces (rw played (rw ran refl))),
          subst (λ z. FilmOpens media z (back_from f fs).frame_id v x) (same_first smooth g gs p)
              (subst (λ z. FilmOpens media g.frame_id z v x) (same_last smooth g gs p) opens),
        )
      ]
    where
      same_first :
          (smooth : Bool) (g : Face) (gs : List Face)
          → Played fl f fs smooth (g ∷ gs)
          → g.frame_id ≡ f.frame_id
      same_first false g gs as_tracked = refl
      same_first true g gs (smoothed _ _ e c l) = e

      same_last :
          (smooth : Bool) (g : Face) (gs : List Face)
          → Played fl f fs smooth (g ∷ gs)
          → (back_from g gs).frame_id ≡ (back_from f fs).frame_id
      same_last false g gs as_tracked = refl
      same_last true g gs (smoothed _ _ e c l) = l
