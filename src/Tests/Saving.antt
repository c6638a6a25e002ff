-- ===== src/Tests/Saving.antt =====
-- The theorems on saving, filling and smoothing, on concrete inputs.
use planetariumfd.Prelude.{
  inl, ℕ, ◌≡◌, refl, pos, Bool, true, List, [], ◌∷◌, none, some, codes, arith, All, length,
}
use planetariumfd.Float.Fixed.{Fixed, fixed}
use planetariumfd.Geometry.{Face}
use planetariumfd.Convolution.{linear_convolution, linear_convolution_same}
use planetariumfd.Convolution.Laws.{linear_convolution_total}
use planetariumfd.Convolution.Same.{linear_convolution_same_lem}
use planetariumfd.Missing.{add_missing_frames}
use planetariumfd.Missing.Laws.{IsConsecutive, Within, add_missing_frames_lem}
use planetariumfd.Smooth.{smooth_face_series, smooth_face_series2}
use planetariumfd.Smooth.Laws.{frame_ids, smooth_face_series_lem, smooth_face_series2_beyond}
use planetariumfd.Smooth.Stats.{FaceStats, Covers, face_stats, face_stats_lem}
use planetariumfd.SaveThread.{
  Images, Video, save_thread_images, save_thread_video, save_and_delete_thread,
}
use planetariumfd.SaveThread.Frames.{Shot}
use planetariumfd.SaveThread.Laws.{save_thread_images_lem, save_thread_video_lem}
use planetariumfd.Register.{Registered}
use planetariumfd.Invariant.{Inv}
use planetariumfd.SaveThread.Whole.{save_and_delete_thread_lem}
use planetariumfd.Tests.{
  startup-IsSane, third_frame-Inv, face_in, thread_with, gappy, gappy-IsTrack, third_frame,
  entries-IsRun, working, Fd,
}

save_thread_images_lem_example :
    (r : Images) × (save_thread_images working third_frame (thread_with gappy) [] ≡ some (1, r))
    × Shot third_frame.history gappy r.pictures
save_thread_images_lem_example =
    let (r, run, shot, _) =
      save_thread_images_lem 1 3 third_frame (thread_with gappy) (face_in 1) (face_in 3 ∷ [])
        entries-IsRun refl refl gappy-IsTrack working [] in
    (r, run, shot)

save_thread_video_lem_example :
    (series : ℕ) × (v : Video) × (save_thread_video fixed working third_frame
        (thread_with gappy)
        []
        true
      ≡ some (series, v))
save_thread_video_lem_example =
    let (series, v, run, _) =
      save_thread_video_lem fixed working 1 3 third_frame entries-IsRun refl (thread_with gappy)
        (face_in 1) (face_in 3 ∷ []) [] true refl gappy-IsTrack in
    (series, v, run)

add_missing_frames_lem_example :
    (modified : Bool) × (gs : List Face) × (add_missing_frames fixed gappy
      ≡ some (modified, face_in 1 ∷ gs))
    × IsConsecutive (pos 1) gs
    × Within (face_in 3 ∷ []) gs
add_missing_frames_lem_example =
    let (modified, gs, run, con, within, _, _) =
      add_missing_frames_lem fixed (face_in 1) (face_in 3 ∷ []) (omega arith, tt) in
    (modified, gs, run, con, within)

smooth_face_series_lem_example :
    (gs : List Face) × (smooth_face_series fixed gappy ≡ some gs) × (frame_ids gs ≡ frame_ids gappy)
smooth_face_series_lem_example = smooth_face_series_lem fixed gappy

smooth_face_series2_beyond_example : smooth_face_series2 fixed gappy (pos 640) (pos 480) ≡ none
smooth_face_series2_beyond_example =
    smooth_face_series2_beyond fixed (face_in 1) (face_in 3 ∷ []) (pos 640) (pos 480)

face_stats_lem_example :
    (t : FaceStats) × (face_stats gappy ≡ some t) × All (λ (g : Face). Covers t g.rect) gappy
face_stats_lem_example =
    let (t, run, covers, _, _) = face_stats_lem (face_in 1) (face_in 3 ∷ []) in (t, run, covers)

abbrev samples : List Fixed
samples = pos 100 ∷ pos 300 ∷ pos 200 ∷ []

abbrev weights : List Fixed
weights = pos 100 ∷ pos 200 ∷ []

linear_convolution_total_example :
    (z : List Fixed) × (linear_convolution ⦃fl = fixed⦄ samples weights 3 2 ≡ some z)
    × (length z ≡ 4)
linear_convolution_total_example =
    linear_convolution_total samples weights 3 2 (omega arith) (omega arith) (omega arith)

linear_convolution_same_lem_example :
    (full out : List Fixed) × (linear_convolution ⦃fl = fixed⦄ samples weights 3 2 ≡ some full)
    × (linear_convolution_same ⦃fl = fixed⦄ samples weights 3 2 ≡ some out)
    × (length out ≡ 3)
linear_convolution_same_lem_example =
    let (full, out, _, _, ran, same, size, _, _, _) =
      linear_convolution_same_lem ⦃fl = fixed⦄ samples weights 3 2 (omega arith) (omega arith)
        (omega arith) 1 (omega arith) in
    (full, out, ran, same, size)

save_and_delete_thread_lem_example :
    (t : Fd Fixed) × (files : List Registered) × (save_and_delete_thread fixed working
        (codes "http://server")
        0
        third_frame
      ≡ some (pos 0, t, files))
    × Inv 1 1 3 t
save_and_delete_thread_lem_example =
    let (t, files, th, run, inv, _) =
      save_and_delete_thread_lem fixed working (codes "http://server") 0 third_frame startup-IsSane
        third_frame-Inv (omega arith) (omega arith) (inl refl) in
    (t, files, run, inv)
