-- ===== src/Tracker/Update.antt =====
-- Part 2 of `processThreads2`: the counters, and the face that a matched thread is given.
use planetariumfd.Prelude.{
  ℕ, ◌+◌, ◌-◌, ◌<◌, ◌≡◌, ◌⊎◌, inl, inr, refl, pos, true, List, [], ◌∷◌, ◌++◌, some, arith, All,
  All₂, back, Bool-cases,
}
use planetariumfd.Float.{Float}
use planetariumfd.Geometry.{Face}
use planetariumfd.Config.{Config}
use planetariumfd.Thread.{FaceThread, add_new_face_to_thread}
use planetariumfd.Thread.Laws.{IsTrack, IsTrack-append, IsTrack-mono}
use planetariumfd.Tracker.{update_thread, update_threads}
use planetariumfd.Tracker.Match.{Matching, face_gap}
use planetariumfd.Tracker.Match.Laws.{Claimed, HasFace}

abbrev pub Tracked : ℕ → ℕ → FaceThread → Type 0
Tracked low high t = IsTrack low high t.faces

pub Tracked-HasFace :
    (low high : ℕ) (fs : List Face) → IsTrack low high fs → (l : Face) × (back fs ≡ some l)
Tracked-HasFace low high [] t = absurd t
Tracked-HasFace low high (f ∷ fs) t = (_, refl)

pub All-HasFace : (low high : ℕ) (ts : List FaceThread) → All (Tracked low high) ts → All HasFace ts
All-HasFace low high [] p = tt
All-HasFace low high (t ∷ ts) (p, ps) =
    (Tracked-HasFace low high t.faces p, All-HasFace low high ts ps)

-- A face of the frame `new`.
abbrev pub IsOfFrame : ℕ → Face → Type 0
IsOfFrame new f = f.frame_id ≡ pos new

-- How a thread changes in a frame: it misses the frame, or it gets one face of it, within the
-- distance threshold of its last face. `missed_count` goes down by one (not below zero) where
-- `non_missed_count` goes up.
module _ {F : Type 0} ⦃fl : Float F⦄ (cfg : Config F) where
  abbrev pub Missed : FaceThread → FaceThread → Type 0
  Missed t u =
      (u.faces ≡ t.faces)
      × (u.missed_count ≡ t.missed_count + 1)
      × (u.consecutive_missed_count ≡ t.consecutive_missed_count + 1)
      × (u.non_missed_count ≡ t.non_missed_count)

  abbrev pub Extended : ℕ → FaceThread → FaceThread → Type 0
  Extended new t u =
      (f : Face) × (l : Face) × (u.faces ≡ t.faces ++ (f ∷ []))
      × (f.frame_id ≡ pos new)
      × (back t.faces ≡ some l)
      × (fl.le (face_gap f l) cfg.dist_thresh ≡ true)
      × (u.missed_count ≡ t.missed_count - 1)
      × (u.consecutive_missed_count ≡ 0)
      × (u.non_missed_count ≡ t.non_missed_count + 1)

  abbrev pub Advances : ℕ → FaceThread → FaceThread → Type 0
  Advances new t u = (u.total_count ≡ t.total_count + 1) × (Missed t u ⊎ Extended new t u)

  update_thread-Advances :
      (new : ℕ) (t : FaceThread) (m : Matching F)
      → Claimed cfg (IsOfFrame new) t m
      → Advances new t (update_thread t m)
  unfolding update_thread add_new_face_to_thread
  update_thread-Advances new t m c = elim (Bool-cases m.found) [
    | inl found ↦
        let (l, last, gap, near, frame) = c found in
        rw found
          (refl, inr (m.face, l, refl, frame, last, rw (← gap) near, ground arith, refl, refl))
    | inr lost ↦ rw lost (refl, inl (refl, refl, refl, refl))
  ]

  Advances-Tracked :
      (low high new : ℕ) (t u : FaceThread)
      → high < new
      → Tracked low high t
      → Advances new t u
      → Tracked low new u
  Advances-Tracked low high new t u h p (total, inl missed) =
      rw (missed.0) (IsTrack-mono low high low new t.faces (omega arith) (omega arith) p)
  Advances-Tracked low high new t u h p (total, inr ext) =
      rw (ext.2) (IsTrack-append low high new t.faces ext.0 p h ext.3)

  -- If every thread has faces of frames up to `high`, and the matches are those of part 1 in a later
  -- frame `new`, part 2 of `processThreads2` ends without a fault: every thread misses the frame or
  -- gains one face of it that is near its last face, and the frames of its faces still rise.
  pub update_threads_lem :
      (low high new : ℕ) (ts : List FaceThread) (ms : List (Matching F))
      → high < new
      → All (Tracked low high) ts
      → All₂ (Claimed cfg (IsOfFrame new)) ts ms
      → (us : List FaceThread) × (update_threads ts ms ≡ some us)
        × All (Tracked low new) us
        × All₂ (Advances new) ts us
  unfolding update_threads
  update_threads_lem low high new [] ms h p c = ([], refl, tt, tt)
  update_threads_lem low high new (t ∷ ts) [] h p c = absurd c
  update_threads_lem low high new (t ∷ ts) (m ∷ ms) h (p, ps) (c, cs) =
      let (us, run, tracked, advances) = update_threads_lem low high new ts ms h ps cs in
      let one = update_thread-Advances new t m c in
      (
        update_thread t m ∷ us,
        rw run,
        (Advances-Tracked low high new t (update_thread t m) h p one, tracked),
        (one, advances),
      )
