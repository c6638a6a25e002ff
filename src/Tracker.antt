-- ===== src/Tracker.antt =====
-- `processThreads2` of Detector/FaceProcessor.cpp, and the helpers that it calls: `addNewThread`,
-- `addNewFaceToThread`, `deleteThread`. Part 1 of the function is Tracker/Match.antt.
use planetariumfd.Prelude.{
  ℕ, zero, suc, ◌+◌, ◌-◌, ◌%◌, ℤ, pos, ◌-ℤ◌, ltb_ℤ, eqb_ℤ, magnitude, Bool, true, false, ◌||◌, ◌==◌,
  List, [], ◌∷◌, ◌++◌, Option, none, some, ◌>>=◌, if◌then◌else◌, ltb,
}
use planetariumfd.Float.{Float}
use planetariumfd.Geometry.{Rect, Face}
use planetariumfd.Config.{Config}
use planetariumfd.Thread.{FaceThread, new_thread, add_new_face_to_thread}
use planetariumfd.State.{Saved, Fd}
use planetariumfd.Tracker.Match.{Matching, input_faces, new_matches, match_faces}
pub mod Match
pub mod Laws
pub mod Deletion
pub mod Update

-- `n % d == 0` for `int`s; `none` is the division by zero.
abbrev pub divides : ℤ → ℤ → Option Bool
divides d n = if magnitude d == 0 then none else some (magnitude n % magnitude d == 0)

-- `addNewFaceToThread(addNewThread(), face)` for each face that is left over.
abbrev pub add_new_threads : List FaceThread → List Face → List FaceThread
add_new_threads ts [] = ts
add_new_threads ts (f ∷ fs) = add_new_threads (ts ++ (add_new_face_to_thread new_thread f ∷ [])) fs

-- `deleteThread`: the thread becomes the last of those that are being serialized, at a new address.
abbrev pub delete_thread : FaceThread → List Saved → ℕ → List Saved × ℕ
delete_thread th saved next = (saved ++ (record { address = next; thread = th } ∷ []), next + 1)

module _ {F : Type 0} where
  -- The body of the loop of part 2.
  unfoldable pub update_thread : FaceThread → Matching F → FaceThread
  update_thread th m =
      if m.found
      then add_new_face_to_thread
          (record th {
            total_count = th.total_count + 1;
            non_missed_count = th.non_missed_count + 1;
            consecutive_missed_count = 0;
            missed_count = if ltb 0 th.missed_count then th.missed_count - 1 else th.missed_count;
          })
          m.face
      else record th {
        total_count = th.total_count + 1;
        consecutive_missed_count = th.consecutive_missed_count + 1;
        missed_count = th.missed_count + 1;
      }

  unfoldable pub update_threads : List FaceThread → List (Matching F) → Option (List FaceThread)
  update_threads [] ms = some []
  update_threads (t ∷ ts) [] = none
  update_threads (t ∷ ts) (m ∷ ms) = do us ← update_threads ts ms; some (update_thread t m ∷ us)

  module _ (cfg : Config F) where
    unfoldable pub is_lost : FaceThread → Bool
    is_lost th =
        ltb_ℤ cfg.max_allowed_missed_count (pos th.missed_count)
        || ltb_ℤ cfg.max_allowed_consecutive_misses (pos th.consecutive_missed_count)

    -- The loop that deletes threads: what stays, what is being serialized, the next address.
    unfoldable pub delete_threads :
        List FaceThread → List Saved → ℕ → List FaceThread × List Saved × ℕ
    delete_threads [] saved next = ([], saved, next)
    delete_threads (t ∷ ts) saved next =
        let moved = delete_thread t saved next in
        let without = delete_threads ts moved.0 moved.1 in
        let kept = delete_threads ts saved next in
        if is_lost t then without else (t ∷ kept.0, kept.1, kept.2)

    -- The loop up to the next thread that it deletes: that thread, and the list without it.
    unfoldable pub first_lost : List FaceThread → Option (FaceThread × List FaceThread)
    first_lost [] = none
    first_lost (t ∷ ts) =
        let later = first_lost ts in
        if is_lost t
        then some (t, ts)
        else elim later [ none ↦ none | some found ↦ some (found.0, t ∷ found.1) ]

module _ {F : Type 0} ⦃fl : Float F⦄ where
  open fl use {of_int, literal, div, lt}

  -- The estimate of the frame rate, made in every `SAMPLE_TIME_EVERY_X_FRAMES`-th frame.
  abbrev pub sampled_fps : ℤ → Fd F → Fd F
  sampled_fps new_time s =
      let rate =
        if eqb_ℤ new_time s.fd_time_seconds
        then s.estimated_fps
        else div (of_int s.config.sample_time_every_x_frames)
            (of_int (new_time -ℤ s.fd_time_seconds)) in
      record s {
        fd_time_seconds = new_time;
        estimated_fps = if lt rate (literal (pos 1) 1) then literal (pos 11) 10 else rate;
      }

  unfoldable pub estimate_fps : ℤ → ℤ → Fd F → Option (Fd F)
  estimate_fps frame_id new_time s = do
    sampled ← divides s.config.sample_time_every_x_frames frame_id
    some (if sampled then sampled_fps new_time s else s)

  -- The rest of part 2, and part 3: threads are deleted, and the unmatched faces begin new ones.
  abbrev pub replace_threads : List FaceThread → List Face → Fd F → Fd F
  replace_threads updated left s =
      let deleted = delete_threads s.config updated s.being_serialized s.next_address in
      record s {
        threads = add_new_threads deleted.0 left;
        being_serialized = deleted.1;
        next_address = deleted.2;
      }

  -- `processThreads2` up to the deletions: the state, and the faces that are left over. `rects` are
  -- the faces of the frame; the caller's sequence is empty afterwards.
  unfoldable pub match_and_update : List Rect → ℤ → ℤ → Fd F → Option (Fd F × List Face)
  unfolding estimate_fps match_faces update_threads
  match_and_update rects frame_id new_time s = do
    s1 ← estimate_fps frame_id new_time s
    (ms, left) ←
        match_faces s1.config s1.threads (input_faces rects frame_id) (new_matches s1.threads)
    updated ← update_threads s1.threads ms
    some (record s1 { threads = updated }, left)

  -- The whole function, while no other thread of control takes a step.
  unfoldable pub process_threads : List Rect → ℤ → ℤ → Fd F → Option (Fd F)
  unfolding match_and_update delete_threads
  process_threads rects frame_id new_time s = do
    (s', left) ← match_and_update rects frame_id new_time s
    some (replace_threads s'.threads left s')
