-- ===== src/System/Counters/Steps.antt =====
-- Every step of System.antt keeps the counters of the threads as Counters.antt describes them.
use planetariumfd.Prelude.{
  ℕ, suc, ◌<◌, ◌≤◌, ◌≡◌, refl, subst, ◌∙◌, ℤ, pos, true, false, List, some, some-injective,
  >>=-eq-some, Text, arith, All, All-map, All-append, sym, inl,
}
use planetariumfd.Float.{Float}
use planetariumfd.Ini.{Platform}
use planetariumfd.Thread.{FaceThread}
use planetariumfd.State.{Saved, Fd}
use planetariumfd.Geometry.{Face}
use planetariumfd.Config.{Config}
use planetariumfd.Tracker.{divides, is_lost, match_and_update}
use planetariumfd.Tracker.Deletion.{first_lost-All, first_lost-none}
use planetariumfd.Process.{
  match_frame, collect_faces, frame_arrives, due_threads, current_faces, newest_seq,
}
use planetariumfd.System.{
  System, MainPc, idle, arrived, deleting, tracked, Step, arrive, track, delete_lost, begin_threads,
  collect, wait_for_list, begin_pruning, find_min_frame, erase, stop_erasing, wake_up, trim_saved,
  finish_saved,
}
use planetariumfd.System.Savers.{
  find_saved-All, put_saved-All, delete_being_serialized-Without, Without-All,
}
use planetariumfd.System.Invariant.{Reach, here, next}
use planetariumfd.System.Safety.{boot}
use planetariumfd.System.Counters.{
  Counted, IsKept, AllCounted, match_and_update-AllCounted, add_new_threads-All, new_thread-Counted,
  new_thread-IsKept,
}
use planetariumfd.System.Counters.Trim.{prune_faces_list-Counted, due_threads-Counted}

-- How many frames have been tracked, by where the main thread stands.
abbrev pub IsTracked : MainPc → ℕ → ℕ → Type 0
IsTracked idle counter now = counter ≡ now
IsTracked arrived counter now = counter ≡ suc now
IsTracked (deleting left) counter now = (counter ≡ now) × (0 < now)
IsTracked tracked counter now = counter ≡ now

-- Outside the loop that deletes threads, those in `gThreads` are new or within the limits.
abbrev pub Deleted : {F : Type 0} → Config F → MainPc → List FaceThread → Type 0
Deleted cfg idle ts = All (IsKept cfg) ts
Deleted cfg arrived ts = All (IsKept cfg) ts
Deleted cfg (deleting left) ts = Unit
Deleted cfg tracked ts = All (IsKept cfg) ts

IsTracked-le : (p : MainPc) (counter now : ℕ) → IsTracked p counter now → now ≤ counter
IsTracked-le idle counter now e = omega arith
IsTracked-le arrived counter now e = omega arith
IsTracked-le (deleting left) counter now (e, p) = omega arith
IsTracked-le tracked counter now e = omega arith

Counted-mono :
    (now counter : ℕ) (t : FaceThread) → now ≤ counter → Counted now t → Counted counter t
Counted-mono now counter t le c = record {
  counts = c.counts;
  covers = c.covers;
  recent = c.recent;
  seen = c.seen;
  age = omega (arith, c.age, le);
}

module _ {F : Type 0} ⦃fl : Float F⦄ where
  match_frame-AllCounted :
      (now : ℕ) (new : ℤ) (s : Fd F) {r : Fd F × List Face}
      → AllCounted now s
      → match_frame new s ≡ some r
      → AllCounted (suc now) r.0 × (r.0.processed_frame_counter ≡ s.processed_frame_counter)
  unfolding match_frame
  match_frame-AllCounted now new s c e =
      let (rects, _, e1) = >>=-eq-some (newest_seq s.history) _ e in
      let (r1, run, same) =
        >>=-eq-some (match_and_update rects (pos s.processed_frame_counter) new s) _ e1 in
      let (counted, counter, config) =
        match_and_update-AllCounted now rects (pos s.processed_frame_counter) new s c run in
      subst
        (λ u. AllCounted (suc now) u.0 × (u.0.processed_frame_counter ≡ s.processed_frame_counter))
        (some-injective _ _ same)
        (record { threads = counted.threads; saved = counted.saved }, counter)

  collect_faces-AllCounted :
      (now : ℕ) (s : Fd F) {s' : Fd F}
      → AllCounted now s
      → All (IsKept s.config) s.threads
      → collect_faces s ≡ some s'
      → AllCounted now s'
        × All (IsKept s'.config) s'.threads
        × (s'.processed_frame_counter ≡ s.processed_frame_counter)
  unfolding collect_faces
  collect_faces-AllCounted now s c k e =
      let (due, _, e1) =
        >>=-eq-some (divides s.config.prune_faces_interval (pos s.processed_frame_counter)) _ e in
      let (us, run, e2) =
        >>=-eq-some (due_threads due s.config.max_thread_history_size s.threads) _ e1 in
      let (fs, _, same) = >>=-eq-some (current_faces s.config.min_face_occurences_thresh us) _ e2 in
      let (counted, kept) =
        due_threads-Counted s.config now due s.config.max_thread_history_size s.threads us run
          c.threads k in
      subst
        (λ u.
          AllCounted now u
          × All (IsKept u.config) u.threads
          × (u.processed_frame_counter ≡ s.processed_frame_counter))
        (some-injective _ _ same) (record { threads = counted; saved = c.saved }, kept, refl)

  pub record CountedSystem (s : System F) : Type 0 where
    pub now : ℕ
    pub frames : IsTracked s.main s.fd.processed_frame_counter now
    pub all : AllCounted now s.fd
    pub kept : Deleted s.fd.config s.main s.fd.threads

  with_saved :
      {s : System F} (c : CountedSystem s) (rs : List Saved)
      → All (λ (r : Saved). Counted c.now r.thread × (is_lost s.fd.config r.thread ≡ true)) rs
      → CountedSystem (record s { fd = record s.fd { being_serialized = rs } })
  with_saved c rs p = record {
    now = c.now;
    frames = c.frames;
    all = record { threads = c.all.threads; saved = p };
    kept = c.kept;
  }

  Step-CountedSystem : {s t : System F} → Step s t → CountedSystem s → CountedSystem t
  unfolding frame_arrives
  Step-CountedSystem {s} (arrive img rects e) c = record {
    now = c.now;
    frames =
        (let at : s.fd.processed_frame_counter ≡ c.now =
            subst (λ p. IsTracked p s.fd.processed_frame_counter c.now) e c.frames in
          omega (arith, at));
    all = record { threads = c.all.threads; saved = c.all.saved };
    kept = subst (λ p. Deleted s.fd.config p s.fd.threads) e c.kept;
  }
  Step-CountedSystem {s} (track new e run) c =
      let at : s.fd.processed_frame_counter ≡ suc c.now =
        subst (λ p. IsTracked p s.fd.processed_frame_counter c.now) e c.frames in
      let (all, counter) = match_frame-AllCounted c.now new s.fd c.all run in
      record { now = suc c.now; frames = (counter ∙ at, omega arith); all = all; kept = tt }
  Step-CountedSystem {s} (delete_lost {left} {th} {rest} e run) c =
      let (lost, one, others) =
        first_lost-All s.fd.config (Counted c.now) s.fd.threads run c.all.threads in
      record {
        now = c.now;
        frames = c.frames;
        all = record {
          threads = others;
          saved =
              All-append
                (λ (r : Saved). Counted c.now r.thread × (is_lost s.fd.config r.thread ≡ true))
                s.fd.being_serialized _ c.all.saved ((one, lost), tt);
        };
        kept = subst (λ p. Deleted s.fd.config p rest) (sym e) tt;
      }
  Step-CountedSystem {s} (begin_threads {left} e none_lost) c =
      let (at, some_frame) =
        subst (λ p. IsTracked p s.fd.processed_frame_counter c.now) e c.frames in
      record {
        now = c.now;
        frames = at;
        all = record {
          threads =
              add_new_threads-All (Counted c.now) s.fd.threads left
                (λ f. new_thread-Counted c.now f some_frame) c.all.threads;
          saved = c.all.saved;
        };
        kept =
            add_new_threads-All (IsKept s.fd.config) s.fd.threads left
              (new_thread-IsKept s.fd.config)
              (All-map (λ t. is_lost s.fd.config t ≡ false) (IsKept s.fd.config) (λ t p. inl p)
                s.fd.threads (first_lost-none s.fd.config s.fd.threads none_lost));
      }
  Step-CountedSystem {s} (collect e run) c =
      let at : s.fd.processed_frame_counter ≡ c.now =
        subst (λ p. IsTracked p s.fd.processed_frame_counter c.now) e c.frames in
      let kept = subst (λ p. Deleted s.fd.config p s.fd.threads) e c.kept in
      let (all, keeps, counter) = collect_faces-AllCounted c.now s.fd c.all kept run in
      record { now = c.now; frames = counter ∙ at; all = all; kept = keeps }
  Step-CountedSystem (wait_for_list e p) c = c
  Step-CountedSystem (begin_pruning e p) c = record {
    now = c.now;
    frames = c.frames;
    all = c.all;
    kept = c.kept;
  }
  Step-CountedSystem (find_min_frame e p) c = record {
    now = c.now;
    frames = c.frames;
    all = c.all;
    kept = c.kept;
  }
  Step-CountedSystem (erase e p) c = record {
    now = c.now;
    frames = c.frames;
    all = record { threads = c.all.threads; saved = c.all.saved };
    kept = c.kept;
  }
  Step-CountedSystem (stop_erasing e p) c = record {
    now = c.now;
    frames = c.frames;
    all = c.all;
    kept = c.kept;
  }
  Step-CountedSystem (wake_up e) c = record {
    now = c.now;
    frames = c.frames;
    all = c.all;
    kept = c.kept;
  }
  Step-CountedSystem {s} (trim_saved a {th} {th'} found run) c =
      let P : FaceThread → Type 0 = λ t. Counted c.now t × (is_lost s.fd.config t ≡ true) in
      let (counted, lost) = find_saved-All P a s.fd.being_serialized th c.all.saved found in
      let (trimmed, same, _) =
        prune_faces_list-Counted s.fd.config c.now s.fd.config.max_thread_history_size th th' run
          counted in
      with_saved c _
        (put_saved-All P a th' s.fd.being_serialized (trimmed, same ∙ lost) c.all.saved)
  Step-CountedSystem {s} (finish_saved a {code} {rest} run) c =
      let (_, w) = delete_being_serialized-Without a s.fd.being_serialized run in
      with_saved c rest (
        Without-All (λ (r : Saved). Counted c.now r.thread × (is_lost s.fd.config r.thread ≡ true))
          w c.all.saved)

  Reach-CountedSystem : {s t : System F} → CountedSystem s → Reach s t → CountedSystem t
  Reach-CountedSystem c here = c
  Reach-CountedSystem c (next r st timely) = Step-CountedSystem st (Reach-CountedSystem c r)

  boot-CountedSystem :
      (os : Platform F) (now : ℤ) (stamp : Text) → CountedSystem (boot os now stamp)
  unfolding boot
  boot-CountedSystem os now stamp = record {
    now = 0;
    frames = refl;
    all = record { threads = tt; saved = tt };
    kept = tt;
  }

  -- In whatever state the steps of the threads of control lead to from a `FdInit` that returns 1, as
  -- long as frame numbers stay below `INT_MAX` and fewer than `MIN_LIST_SIZE` frames arrive between a
  -- call of `getMinFrameToKeep` and an erasure that relies on it: in
  -- every thread of faces, also in those that are being serialized, `nonMissedCount + missedCount`
  -- is at most `totalCount`, which is at most `missedCount + 2 nonMissedCount` and below the number
  -- of frames; `consecutiveMissedCount` is at most `missedCount`, and there are at most
  -- `nonMissedCount + 1` faces. One that is being serialized is above one of the limits of the
  -- settings, and, unless the main thread is in the loop that deletes threads, one in `gThreads` is
  -- new or within both.
  pub boot-AllCounted :
      (os : Platform F) (now : ℤ) (stamp : Text) {s : System F}
      → Reach (boot os now stamp) s
      → AllCounted s.fd.processed_frame_counter s.fd × Deleted s.fd.config s.main s.fd.threads
  boot-AllCounted os now stamp {s} r =
      let c = Reach-CountedSystem (boot-CountedSystem os now stamp) r in
      let counter = s.fd.processed_frame_counter in
      let le = IsTracked-le s.main counter c.now c.frames in
      (
        record {
          threads =
              All-map (Counted c.now) (Counted counter) (λ t p. Counted-mono c.now counter t le p)
                s.fd.threads c.all.threads;
          saved =
              All-map
                (λ (r : Saved). Counted c.now r.thread × (is_lost s.fd.config r.thread ≡ true))
                (λ (r : Saved). Counted counter r.thread × (is_lost s.fd.config r.thread ≡ true))
                (λ r p. (Counted-mono c.now counter r.thread le p.0, p.1)) s.fd.being_serialized
                c.all.saved;
        },
        c.kept,
      )
