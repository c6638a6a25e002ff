-- ===== src/Tests/Tracking.antt =====
-- The theorems on threads, matching and the history, on concrete inputs.
use planetariumfd.Prelude.{◌≡◌, refl, ℤ, pos, List, [], ◌∷◌, some, arith, All, All₂}
use planetariumfd.Float.Fixed.{Fixed, fixed}
use planetariumfd.Geometry.{Face}
use planetariumfd.Thread.{FaceThread, prune_faces_list}
use planetariumfd.Thread.Laws.{IsTrack, Popped, prune_faces_list_lem}
use planetariumfd.State.{Fd}
use planetariumfd.Tracker.{process_threads, update_threads, delete_threads, is_lost}
use planetariumfd.Tracker.Match.{Matching, match_faces, new_matches}
use planetariumfd.Tracker.Match.Laws.{Claimed, far_faces, match_faces_lem}
use planetariumfd.Tracker.Update.{Advances, update_threads_lem}
use planetariumfd.Tracker.Deletion.{Deleted, delete_threads_lem}
use planetariumfd.Tracker.Laws.{Processed, process_threads_lem}
use planetariumfd.History.{get_min_frame_to_keep}
use planetariumfd.History.Laws.{get_min_frame_to_keep_lem}
use planetariumfd.System.{delete_being_serialized}
use planetariumfd.System.Savers.{Without, delete_being_serialized-Without}
use planetariumfd.Tests.{
  settings, square, face_in, thread_with, track, lost_thread, third_frame, track-IsTrack,
  gappy-IsTrack, startup-IsSane, third_frame-Inv,
}

process_threads_lem_example :
    (s' : Fd Fixed) × (process_threads (square 12 ∷ square 300 ∷ []) (pos 4) (pos 9) third_frame
      ≡ some s')
    × Processed 1 4 (square 12 ∷ square 300 ∷ []) third_frame s'
process_threads_lem_example =
    process_threads_lem 1 3 4 (square 12 ∷ square 300 ∷ []) (pos 9) third_frame startup-IsSane
      (omega arith) (omega arith) third_frame-Inv.tracks third_frame-Inv.saved
      third_frame-Inv.ascending

abbrev InFourth : Face → Type 0
InFourth f = f.frame_id ≡ pos 4

abbrev tracked_one : List FaceThread
tracked_one = thread_with track ∷ []

match_faces_lem_example :
    (ms : List (Matching Fixed)) × (match_faces settings tracked_one
        (face_in 4 ∷ [])
        (new_matches tracked_one)
      ≡ some (ms, far_faces {F = Fixed} settings tracked_one (face_in 4 ∷ [])))
    × All₂ (Claimed settings InFourth) tracked_one ms
match_faces_lem_example =
    match_faces_lem settings InFourth tracked_one (face_in 4 ∷ []) ((_, refl), tt) (refl, tt)

abbrev unmatched : List (Matching Fixed)
unmatched = new_matches tracked_one

update_threads_lem_example :
    (us : List FaceThread) × (update_threads tracked_one unmatched ≡ some us)
    × All (λ (t : FaceThread). IsTrack 1 4 t.faces) us
    × All₂ (Advances settings 4) tracked_one us
update_threads_lem_example =
    update_threads_lem settings 1 3 4 tracked_one unmatched (omega arith) (track-IsTrack, tt)
      ((λ e. cc), tt)

delete_threads_lem_example :
    Deleted settings
      (thread_with track ∷ [])
      (lost_thread ∷ [])
      (thread_with track ∷ [])
      (lost_thread ∷ [])
      1
unfolding delete_threads is_lost
delete_threads_lem_example =
    delete_threads_lem settings (thread_with track ∷ []) (lost_thread ∷ []) 1
      (omega arith, omega arith)

prune_faces_list_lem_example :
    (rest : List Face) × (prune_faces_list (pos 1) (thread_with track)
      ≡ some (record (thread_with track) { faces = rest }))
    × IsTrack 1 3 rest
    × Popped track 1 rest
prune_faces_list_lem_example =
    prune_faces_list_lem 1 3 1 (thread_with track) track-IsTrack (omega arith)

get_min_frame_to_keep_lem_example :
    (m : ℤ) × (get_min_frame_to_keep (thread_with track ∷ []) (lost_thread ∷ []) ≡ some m)
get_min_frame_to_keep_lem_example =
    let (m, run, _, _) =
      get_min_frame_to_keep_lem 1 3 (thread_with track ∷ []) (lost_thread ∷ []) (omega arith)
        (track-IsTrack, tt) (gappy-IsTrack, tt) in
    (m, run)

saved_one_removed : delete_being_serialized 0 (lost_thread ∷ []) ≡ some (pos 0, [])
unfolding delete_being_serialized
saved_one_removed = refl

delete_being_serialized-Without_example : (pos 0 ≡ pos 0) × Without 0 (lost_thread ∷ []) []
delete_being_serialized-Without_example =
    delete_being_serialized-Without 0 (lost_thread ∷ []) saved_one_removed
