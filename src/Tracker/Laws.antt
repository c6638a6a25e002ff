-- ===== src/Tracker/Laws.antt =====
-- `processThreads2` of Detector/FaceProcessor.cpp as a whole.
use planetariumfd.Prelude.{
  ℕ, ◌%◌, All₂, ◌≤◌, ◌<◌, ◌≡◌, ◌≢◌, refl, inl, inr, ℤ, pos, magnitude, Bool, false, List, [], ◌∷◌,
  ◌++◌, map, reverse, some, arith, All, All-append, All-map, Bool-cases, ◌==◌,
}
use planetariumfd.Float.{Float}
use planetariumfd.Geometry.{Rect, Face}
use planetariumfd.Config.{Config}
use planetariumfd.Thread.{FaceThread}
use planetariumfd.Thread.Laws.{IsTrack-mono}
use planetariumfd.State.{Saved, Fd}
use planetariumfd.Tracker.{
  divides, estimate_fps, sampled_fps, match_and_update, process_threads, replace_threads,
  delete_threads,
}
use planetariumfd.Tracker.Match.{input_faces}
use planetariumfd.Tracker.Match.Laws.{far_faces, near_any, match_faces_lem}
use planetariumfd.Tracker.Update.{Tracked, All-HasFace, IsOfFrame, Advances, update_threads_lem}
use planetariumfd.Tracker.Deletion.{
  IsAscending, Deleted, delete_threads_lem, Split-All, seeded, add_new_threads_lem,
}

-- Settings under which the code divides by no zero and leaves every thread a face.
pub record IsSane {F : Type 0} (cfg : Config F) : Type 0 where
  pub samples : magnitude cfg.sample_time_every_x_frames ≢ 0
  pub prunes : magnitude cfg.prune_faces_interval ≢ 0
  pub limit : ℕ
  pub limited : cfg.max_thread_history_size ≡ pos limit
  pub positive : 0 < limit

pub divides_total :
    (d n : ℤ) → magnitude d ≢ 0 → divides d n ≡ some (magnitude n % magnitude d == 0)
divides_total d n h = rw (let e : (magnitude d == 0) ≡ false = ground arith in e)

input_faces-IsOfFrame :
    (rects : List Rect) (new : ℕ)
    → All (IsOfFrame new) (map (λ (r : Rect). record { rect = r; frame_id = pos new }) rects)
input_faces-IsOfFrame [] new = tt
input_faces-IsOfFrame (r ∷ rs) new = (refl, input_faces-IsOfFrame rs new)

pub seeded-Tracked :
    (new : ℕ) (fs : List Face) → All (IsOfFrame new) fs → All (Tracked new new) (map seeded fs)
seeded-Tracked new [] p = tt
seeded-Tracked new (f ∷ fs) (p, ps) = (rw p (omega arith), seeded-Tracked new fs ps)

far_faces-All :
    {F : Type 0} ⦃fl : Float F⦄ (cfg : Config F) (P : Face → Type 0) (ts : List FaceThread)
    (fs : List Face)
    → All P fs
    → All P (far_faces cfg ts fs)
far_faces-All cfg P ts [] p = tt
far_faces-All cfg P ts (f ∷ fs) (p, ps) = elim (Bool-cases (near_any cfg f ts)) [
  | inl near ↦ rw near (far_faces-All cfg P ts fs ps)
  | inr far ↦ rw far (p, far_faces-All cfg P ts fs ps)
]

module _ {F : Type 0} ⦃fl : Float F⦄ where
  pub estimate_fps_lem :
      (id now : ℤ) (s : Fd F)
      → magnitude s.config.sample_time_every_x_frames ≢ 0
      → (time : ℤ) × (fps : F) × (estimate_fps id now s
          ≡ some (record s { fd_time_seconds = time; estimated_fps = fps }))
  unfolding estimate_fps
  estimate_fps_lem id now s h =
      let hit : Bool = magnitude id % magnitude s.config.sample_time_every_x_frames == 0 in
      rw (divides_total s.config.sample_time_every_x_frames id h) (elim (Bool-cases hit) [
        | inl yes_hit ↦
            ((sampled_fps now s).fd_time_seconds, (sampled_fps now s).estimated_fps, rw yes_hit)
        | inr no_hit ↦ (s.fd_time_seconds, s.estimated_fps, rw no_hit)
      ])

  -- Up to the deletions, `processThreads2` ends without a fault: the threads still have rising
  -- frames, the faces left over are of the new frame, and but for the threads, the frame rate and its clock
  -- the state is as before.
  pub match_and_update_lem :
      (low high new : ℕ) (rects : List Rect) (now : ℤ) (s : Fd F)
      → IsSane s.config
      → high < new
      → All (Tracked low high) s.threads
      → (ts : List FaceThread) × (time : ℤ) × (fps : F) × (left : List Face) × (match_and_update
            rects
            (pos new)
            now
            s
          ≡ some (record s { threads = ts; fd_time_seconds = time; estimated_fps = fps }, left))
        × All (Tracked low new) ts
        × All (IsOfFrame new) left
  unfolding match_and_update input_faces
  match_and_update_lem low high new rects now s sane lt tracked =
      let (time, fps, timed) = estimate_fps_lem (pos new) now s sane.samples in
      let (ms, matched, claimed) =
        match_faces_lem s.config (IsOfFrame new) s.threads (input_faces rects (pos new))
          (All-HasFace low high s.threads tracked) (input_faces-IsOfFrame (reverse rects) new) in
      let (updated, counted, tracks, advanced) =
        update_threads_lem s.config low high new s.threads ms lt tracked claimed in
      (
        updated,
        time,
        fps,
        far_faces s.config s.threads (input_faces rects (pos new)),
        rw timed (rw matched (rw counted)),
        tracks,
        far_faces-All s.config (IsOfFrame new) s.threads (input_faces rects (pos new))
            (input_faces-IsOfFrame (reverse rects) new),
      )

  -- What `processThreads2` makes of the threads of `s` in the frame `new` with the faces `rects`.
  pub record Processed (low new : ℕ) (rects : List Rect) (s s' : Fd F) : Type 0 where
    pub updated : List FaceThread
    pub alive : List FaceThread
    -- Every thread misses the frame or gains one face that is near.
    pub advanced : All₂ (Advances s.config new) s.threads updated
    -- The lost threads, and only those, leave for the list of threads being serialized.
    pub deleted :
        Deleted s.config updated s.being_serialized alive s'.being_serialized s'.next_address
    -- A new thread begins with each face that is near to no thread.
    pub threads :
        s'.threads
        ≡ alive ++ map seeded (far_faces s.config s.threads (input_faces rects (pos new)))
    pub tracks : All (Tracked low new) s'.threads
    pub saved_tracks : All (λ (r : Saved). Tracked low new r.thread) s'.being_serialized
    -- The rest of the state, but for the frame rate and its clock, is as before.
    pub same_history : s'.history ≡ s.history
    pub same_counter : s'.processed_frame_counter ≡ s.processed_frame_counter
    pub same_config : s'.config ≡ s.config

  replace_threads-Processed :
      (low high new : ℕ) (rects : List Rect) (s : Fd F) (time : ℤ) (fps : F)
      (updated : List FaceThread)
      → low ≤ new
      → high < new
      → IsAscending 0 s.next_address s.being_serialized
      → All (λ (r : Saved). Tracked low high r.thread) s.being_serialized
      → All (Tracked low new) updated
      → All₂ (Advances s.config new) s.threads updated
      → Processed low new rects s (
          replace_threads updated
            (far_faces s.config s.threads (input_faces rects (pos new)))
            (record s { fd_time_seconds = time; estimated_fps = fps }))
  unfolding input_faces
  replace_threads-Processed low high new rects s time fps updated le lt asc saved tracked adv =
      let left = far_faces s.config s.threads (input_faces rects (pos new)) in
      let d = delete_threads_lem s.config updated s.being_serialized s.next_address asc in
      let (stay, go) = Split-All (Tracked low new) d.split tracked in
      let new_ones : All (Tracked low new) (map seeded left) =
        All-map (Tracked new new) (Tracked low new)
          (λ (t : FaceThread) (p : Tracked new new t).
            IsTrack-mono new new low new t.faces le (omega arith) p)
          (map seeded left)
          (seeded-Tracked new left (
            far_faces-All s.config (IsOfFrame new) s.threads (input_faces rects (pos new))
              (input_faces-IsOfFrame (reverse rects) new))) in
      let older : All (λ (r : Saved). Tracked low new r.thread) s.being_serialized =
        All-map (λ (r : Saved). Tracked low high r.thread) (λ (r : Saved). Tracked low new r.thread)
          (λ (r : Saved) (p : Tracked low high r.thread).
            IsTrack-mono low high low new r.thread.faces (omega arith) (omega arith) p)
          s.being_serialized saved in
      record {
        updated = updated;
        alive = (delete_threads s.config updated s.being_serialized s.next_address).0;
        advanced = adv;
        deleted = d;
        threads = add_new_threads_lem _ left;
        tracks = rw (add_new_threads_lem _ left) (All-append (Tracked low new) _ _ stay new_ones);
        saved_tracks =
            rw d.appended (All-append (λ (r : Saved). Tracked low new r.thread) _ _ older go);
        same_history = refl;
        same_counter = refl;
        same_config = refl;
      }

  -- With sane settings, threads that all have faces of frames up to `high`, and distinct addresses,
  -- `processThreads2` in a later frame `new` ends without a fault. Every thread then misses the
  -- frame or gains one face of it that is near its last face; exactly the threads with too many
  -- misses are appended to those being serialized; each face near to no thread begins a new
  -- thread; frames still rise within every thread; and history, frame counter and settings
  -- are as before.
  pub process_threads_lem :
      (low high new : ℕ) (rects : List Rect) (now : ℤ) (s : Fd F)
      → IsSane s.config
      → low ≤ new
      → high < new
      → All (Tracked low high) s.threads
      → All (λ (r : Saved). Tracked low high r.thread) s.being_serialized
      → IsAscending 0 s.next_address s.being_serialized
      → (s' : Fd F) × (process_threads rects (pos new) now s ≡ some s')
        × Processed low new rects s s'
  unfolding process_threads match_and_update input_faces
  process_threads_lem low high new rects now s sane le lt tracked saved asc =
      let (time, fps, timed) = estimate_fps_lem (pos new) now s sane.samples in
      let (ms, matched, claimed) =
        match_faces_lem s.config (IsOfFrame new) s.threads (input_faces rects (pos new))
          (All-HasFace low high s.threads tracked) (input_faces-IsOfFrame (reverse rects) new) in
      let (updated, counted, tracks, advanced) =
        update_threads_lem s.config low high new s.threads ms lt tracked claimed in
      (
        _,
        rw timed (rw matched (rw counted)),
        replace_threads-Processed low high new rects s time fps updated le lt asc saved tracks
            advanced,
      )
