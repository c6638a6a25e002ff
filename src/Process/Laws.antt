-- ===== src/Process/Laws.antt =====
-- The three stretches of `FdProcessFaces`, and the invariant of Invariant.antt.
use planetariumfd.Prelude.{
  ℕ, suc, ◌+◌, ◌≤◌, ◌<◌, ◌≡◌, refl, sym, ap, subst, ◌∙◌, ℤ, pos, magnitude, Bool, true, false, List,
  [], ◌∷◌, ◌++◌, none, some, length, length-append, arith, All, All-map, back, if◌then◌else◌, ltb_ℤ,
  ◌==◌, ◌%◌,
}
use planetariumfd.Float.{Float}
use planetariumfd.Geometry.{Rect, Face}
use planetariumfd.Image.{Image}
use planetariumfd.Config.{Config}
use planetariumfd.Thread.{FaceThread}
use planetariumfd.Thread.Laws.{prune_faces_list_lem, IsTrack-mono}
use planetariumfd.State.{HistoryEntry, Saved, Fd}
use planetariumfd.Tracker.Update.{Tracked, Tracked-HasFace, IsOfFrame}
use planetariumfd.Tracker.Laws.{IsSane, match_and_update_lem, process_threads_lem, divides_total}
use planetariumfd.History.Runs.{IsRun, IsRun-append}
use planetariumfd.Invariant.{Inv}
use planetariumfd.Process.{
  newest_seq, empty_newest, prune_threads, due_threads, current_faces, frame_arrives, collect_faces,
  match_frame, track_faces, process_faces,
}

-- Emptying the newest sequence changes no frame.
empty_newest-IsRun : (low : ℕ) (h : List HistoryEntry) → IsRun low h → IsRun low (empty_newest h)
empty_newest-IsRun low [] r = tt
empty_newest-IsRun low (e ∷ []) (id, img, r) = (id, img, tt)
empty_newest-IsRun low (e ∷ d ∷ es) (id, img, r) =
    (id, img, empty_newest-IsRun (suc low) (d ∷ es) r)

pub length-empty_newest : (h : List HistoryEntry) → length (empty_newest h) ≡ length h
length-empty_newest [] = refl
length-empty_newest (e ∷ []) = refl
length-empty_newest (e ∷ d ∷ es) = ap suc (length-empty_newest (d ∷ es))

newest_seq_total :
    (h : List HistoryEntry) → 0 < length h → (rects : List Rect) × (newest_seq h ≡ some rects)
newest_seq_total [] p = absurd (omega arith)
newest_seq_total (e ∷ es) p = (_, refl)

prune_threads_lem :
    (low high limit : ℕ) (ts : List FaceThread)
    → 0 < limit
    → All (Tracked low high) ts
    → (us : List FaceThread) × (prune_threads (pos limit) ts ≡ some us) × All (Tracked low high) us
prune_threads_lem low high limit [] h p = ([], refl, tt)
prune_threads_lem low high limit (t ∷ ts) h (p, ps) =
    let (rest, one, track, popped) = prune_faces_list_lem low high limit t p h in
    let (us, run, tracks) = prune_threads_lem low high limit ts h ps in
    (record t { faces = rest } ∷ us, rw one (rw run), (track, tracks))

due_threads_lem :
    (low high limit : ℕ) (now : Bool) (ts : List FaceThread)
    → 0 < limit
    → All (Tracked low high) ts
    → (us : List FaceThread) × (due_threads now (pos limit) ts ≡ some us)
      × All (Tracked low high) us
due_threads_lem low high limit true ts h p = prune_threads_lem low high limit ts h p
due_threads_lem low high limit false ts h p = (ts, refl, p)

-- The faces that are shown: the last faces of the threads that are above the threshold.
abbrev pub shown : ℤ → List FaceThread → List Face
shown thresh [] = []
shown thresh (t ∷ ts) =
    let rest = shown thresh ts in
    if ltb_ℤ thresh (pos t.non_missed_count)
    then elim (back t.faces) [ none ↦ rest | some f ↦ f ∷ rest ]
    else rest

current_faces_lem :
    (low high : ℕ) (thresh : ℤ) (ts : List FaceThread)
    → All (Tracked low high) ts
    → current_faces thresh ts ≡ some (shown thresh ts)
current_faces_lem low high thresh [] p = refl
current_faces_lem low high thresh (t ∷ ts) (p, ps) =
    let (l, last) = Tracked-HasFace low high t.faces p in
    ground (arith, current_faces_lem low high thresh ts ps)

module _ {F : Type 0} where
  -- A frame that arrives becomes the newest entry of the history, with a copy of its image.
  pub frame_arrives-Inv :
      {base low high : ℕ} {s : Fd F} (img : Image) (rects : List Rect)
      → Inv base low high s
      → Inv base low high (frame_arrives img rects s)
  unfolding frame_arrives
  frame_arrives-Inv {base} {low} {high} {s} img rects inv =
      let next = s.processed_frame_counter + 1 in
      let new : HistoryEntry = record { frame_id = pos next; frame = some _; faces_seq = rects } in
      record {
        run = IsRun-append base next s.history new inv.run inv.covers refl (_, refl);
        covers = omega (arith, length-append s.history (new ∷ []), inv.covers);
        tracks = inv.tracks;
        saved = inv.saved;
        ascending = inv.ascending;
      }

  -- With sane settings the result is collected without a fault, and the invariant is kept: threads
  -- are trimmed, if the frame's number is a multiple of the interval, and the result is the last
  -- faces of those that have been seen in more than `MIN_FACE_OCCURENCES_THRESH` further frames.
  pub collect_faces-Inv :
      {base low high : ℕ} (s : Fd F)
      → IsSane s.config
      → Inv base low high s
      → (s' : Fd F) × (collect_faces s ≡ some s')
        × Inv base low high s'
        × (s'.faces_in_current_frame ≡ shown s.config.min_face_occurences_thresh s'.threads)
        × (s'.processed_frame_counter ≡ s.processed_frame_counter)
        × (s'.config ≡ s.config)
        × (s'.history ≡ s.history)
  unfolding collect_faces
  collect_faces-Inv {base} {low} {high} s sane inv =
      let id = pos s.processed_frame_counter in
      let hit : Bool = magnitude id % magnitude s.config.prune_faces_interval == 0 in
      let (us, pruned, tracks) =
        due_threads_lem low high sane.limit hit s.threads sane.positive inv.tracks in
      (
        record s {
          threads = us;
          faces_in_current_frame = shown s.config.min_face_occurences_thresh us;
        },
        rw (
          divides_total s.config.prune_faces_interval id sane.prunes,
          sane.limited,
          pruned,
          current_faces_lem low high s.config.min_face_occurences_thresh us tracks,
        ),
        record {
          run = inv.run;
          covers = inv.covers;
          tracks = tracks;
          saved = inv.saved;
          ascending = inv.ascending;
        },
        refl,
        refl,
        refl,
        refl,
      )

module _ {F : Type 0} ⦃fl : Float F⦄ where
  pub track_faces-Inv :
      {base low high : ℕ} (now : ℤ) (s : Fd F)
      → IsSane s.config
      → Inv base low high s
      → 0 < length s.history
      → low ≤ s.processed_frame_counter
      → high < s.processed_frame_counter
      → (s' : Fd F) × (track_faces now s ≡ some s')
        × Inv base low s.processed_frame_counter s'
        × (s'.processed_frame_counter ≡ s.processed_frame_counter)
        × (s'.config ≡ s.config)
        × (s'.history ≡ empty_newest s.history)
  unfolding track_faces
  track_faces-Inv {base} {low} {high} now s sane inv some_frame le lt =
      let (rects, seq) = newest_seq_total s.history some_frame in
      let (s1, run, p) =
        process_threads_lem low high s.processed_frame_counter rects now s sane le lt inv.tracks
          inv.saved inv.ascending in
      (
        record s1 { history = empty_newest s1.history },
        rw seq (rw run),
        record {
          run = rw p.same_history (empty_newest-IsRun base s.history inv.run);
          covers = omega (
            arith,
            length-empty_newest s1.history,
            ap length p.same_history,
            p.same_counter,
            inv.covers,
          );
          tracks = p.tracks;
          saved = p.saved_tracks;
          ascending = p.deleted.ascending;
        },
        p.same_counter,
        p.same_config,
        ap empty_newest p.same_history,
      )

  -- The second stretch up to the deletions.
  pub match_frame-Inv :
      {base low high : ℕ} (now : ℤ) (s : Fd F)
      → IsSane s.config
      → Inv base low high s
      → 0 < length s.history
      → low ≤ s.processed_frame_counter
      → high < s.processed_frame_counter
      → (s' : Fd F) × (left : List Face) × (match_frame now s ≡ some (s', left))
        × Inv base low s.processed_frame_counter s'
        × All (IsOfFrame s.processed_frame_counter) left
        × (s'.processed_frame_counter ≡ s.processed_frame_counter)
        × (s'.config ≡ s.config)
        × (s'.history ≡ empty_newest s.history)
  unfolding match_frame
  match_frame-Inv {base} {low} {high} now s sane inv some_frame le lt =
      let (rects, seq) = newest_seq_total s.history some_frame in
      let new = s.processed_frame_counter in
      let (ts, time, fps, left, run, tracks, fresh) =
        match_and_update_lem low high new rects now s sane lt inv.tracks in
      (
        record s {
          threads = ts;
          fd_time_seconds = time;
          estimated_fps = fps;
          history = empty_newest s.history;
        },
        left,
        rw seq (rw run),
        record {
          run = empty_newest-IsRun base s.history inv.run;
          covers = omega (arith, length-empty_newest s.history, inv.covers);
          tracks = tracks;
          saved =
              All-map (λ (r : Saved). Tracked low high r.thread)
                (λ (r : Saved). Tracked low new r.thread)
                (λ (r : Saved) (p : Tracked low high r.thread).
                  IsTrack-mono low high low new r.thread.faces (omega arith) (omega arith) p)
                s.being_serialized inv.saved;
          ascending = inv.ascending;
        },
        fresh,
        refl,
        refl,
        refl,
      )

  -- With sane settings and a valid state, `FdProcessFaces` ends without a fault, whatever the image,
  -- the faces and the time. The next state is valid for the next frame number, its history begins
  -- with the same frame, and the faces returned are the last ones of the threads above the threshold.
  pub process_faces-Inv :
      {base low : ℕ} (img : Image) (rects : List Rect) (now : ℤ) (s : Fd F)
      → IsSane s.config
      → Inv base low s.processed_frame_counter s
      → low ≤ s.processed_frame_counter + 1
      → (s' : Fd F) × (process_faces img rects now s ≡ some s')
        × Inv base low s'.processed_frame_counter s'
        × (s'.processed_frame_counter ≡ s.processed_frame_counter + 1)
        × (s'.faces_in_current_frame ≡ shown s.config.min_face_occurences_thresh s'.threads)
        × (s'.config ≡ s.config)
        × (s'.history ≡ empty_newest (frame_arrives img rects s).history)
  unfolding process_faces
  process_faces-Inv {base} {low} img rects now s sane inv le =
      let a = frame_arrives img rects s in
      let (s1, tracked, inv1, same1, cfg1, emptied) =
        track_faces-Inv now a sane (frame_arrives-Inv img rects inv)
          (omega (arith, length-append s.history)) le (omega arith) in
      let (s2, collected, inv2, faces, same2, cfg2, history) =
        collect_faces-Inv s1 (subst IsSane (sym cfg1) sane) inv1 in
      (
        s2,
        rw tracked collected,
        subst (λ n. Inv base low n s2) (sym (same2 ∙ same1)) inv2,
        same2 ∙ same1,
        faces ∙ ap (λ (c : Config F). shown c.min_face_occurences_thresh s2.threads) cfg1,
        cfg2 ∙ cfg1,
        history ∙ emptied,
      )

-- An entry without faces.
abbrev pub IsEmpty : HistoryEntry → Type 0
IsEmpty e = e.faces_seq ≡ []

empty_newest-IsEmpty :
    (h : List HistoryEntry) (e : HistoryEntry)
    → All IsEmpty h
    → All IsEmpty (empty_newest (h ++ (e ∷ [])))
empty_newest-IsEmpty [] e p = (refl, tt)
empty_newest-IsEmpty (d ∷ []) e (p, ps) = (p, (refl, tt))
empty_newest-IsEmpty (c ∷ d ∷ ds) e (p, ps) = (p, empty_newest-IsEmpty (d ∷ ds) e ps)

-- After `FdProcessFaces` no entry of the history holds a face, if none did before: the loop that reads
-- the faces of the new frame takes them out of the sequence that the history keeps.
pub process_faces-IsEmpty :
    {F : Type 0} ⦃fl : Float F⦄ {base low : ℕ} (img : Image) (rects : List Rect) (now : ℤ)
    (s : Fd F)
    → IsSane s.config
    → Inv base low s.processed_frame_counter s
    → low ≤ s.processed_frame_counter + 1
    → All IsEmpty s.history
    → (s' : Fd F) × (process_faces img rects now s ≡ some s') × All IsEmpty s'.history
unfolding frame_arrives
process_faces-IsEmpty img rects now s sane inv le empty =
    let (s', run, inv', counter, faces, config, history) =
      process_faces-Inv img rects now s sane inv le in
    (s', run, subst (All IsEmpty) (sym history) (empty_newest-IsEmpty s.history _ empty))
