-- ===== src/Process.antt =====
-- `FdProcessFaces` of Detector/FaceProcessor.cpp, in the three stretches between which the pruning
-- thread matters: the frame joins the history, the threads are updated, the result is collected.
use planetariumfd.Prelude.{
  ℕ, zero, suc, ◌+◌, ℤ, pos, ltb_ℤ, Bool, true, false, List, [], ◌∷◌, ◌++◌, Option, none, some,
  ◌>>=◌, back, if◌then◌else◌,
}
use planetariumfd.Float.{Float}
use planetariumfd.Geometry.{Rect, Face}
use planetariumfd.Image.{Image}
use planetariumfd.Config.{Config}
use planetariumfd.Thread.{FaceThread, prune_faces_list}
use planetariumfd.State.{HistoryEntry, Saved, Fd}
use planetariumfd.Tracker.{divides, match_and_update, process_threads}
use planetariumfd.History.{add_to_history}
pub mod Laws

-- The sequence of the newest entry, which is handed to `processThreads2` and emptied there.
abbrev pub newest_seq : List HistoryEntry → Option (List Rect)
newest_seq h = do e ← back h; some e.faces_seq

abbrev pub empty_newest : List HistoryEntry → List HistoryEntry
empty_newest [] = []
empty_newest (e ∷ []) = record e { faces_seq = [] } ∷ []
empty_newest (e ∷ d ∷ es) = e ∷ empty_newest (d ∷ es)

abbrev pub prune_threads : ℤ → List FaceThread → Option (List FaceThread)
prune_threads size [] = some []
prune_threads size (t ∷ ts) = do
  u ← prune_faces_list size t
  us ← prune_threads size ts
  some (u ∷ us)

-- The threads are pruned if it is their turn.
abbrev pub due_threads : Bool → ℤ → List FaceThread → Option (List FaceThread)
due_threads true size ts = prune_threads size ts
due_threads false size ts = some ts

-- The last faces of the threads whose counter is above the threshold.
abbrev pub current_faces : ℤ → List FaceThread → Option (List Face)
current_faces thresh [] = some []
current_faces thresh (t ∷ ts) =
    let rest = current_faces thresh ts in
    if ltb_ℤ thresh (pos t.non_missed_count)
    then (do f ← back t.faces; fs ← rest; some (f ∷ fs))
    else rest

module _ {F : Type 0} where
  unfoldable pub frame_arrives : Image → List Rect → Fd F → Fd F
  unfolding add_to_history
  frame_arrives img seq_in s =
      let next = s.processed_frame_counter + 1 in
      add_to_history img seq_in (pos next) (record s { processed_frame_counter = next })

  -- Trim the threads in every `PRUNE_FACES_INTERVAL`-th frame, then collect the faces to show.
  unfoldable pub collect_faces : Fd F → Option (Fd F)
  unfolding prune_faces_list
  collect_faces s = do
    now ← divides s.config.prune_faces_interval (pos s.processed_frame_counter)
    threads ← due_threads now s.config.max_thread_history_size s.threads
    faces ← current_faces s.config.min_face_occurences_thresh threads
    some (record s { threads = threads; faces_in_current_frame = faces })

module _ {F : Type 0} ⦃fl : Float F⦄ where
  -- The second stretch up to the deletions of threads, with the faces that are left over.
  unfoldable pub match_frame : ℤ → Fd F → Option (Fd F × List Face)
  unfolding match_and_update
  match_frame new_time s = do
    rects ← newest_seq s.history
    (s', left) ← match_and_update rects (pos s.processed_frame_counter) new_time s
    some (record s' { history = empty_newest s'.history }, left)

  -- The whole second stretch, while no other thread of control takes a step.
  unfoldable pub track_faces : ℤ → Fd F → Option (Fd F)
  unfolding process_threads
  track_faces new_time s = do
    rects ← newest_seq s.history
    s' ← process_threads rects (pos s.processed_frame_counter) new_time s
    some (record s' { history = empty_newest s'.history })

  unfoldable pub process_faces : Image → List Rect → ℤ → Fd F → Option (Fd F)
  unfolding frame_arrives track_faces collect_faces
  process_faces img seq_in new_time s = do
    s' ← track_faces new_time (frame_arrives img seq_in s)
    collect_faces s'
