-- ===== src/System/Deleting.antt =====
-- `processThreads2` of Detector/FaceProcessor.cpp in one piece, and in the steps of System.antt.
use planetariumfd.Prelude.{
  ℕ, ◌≡◌, refl, ap, subst, ◌∙◌, ℤ, pos, true, false, List, [], ◌∷◌, ◌++◌, append_assoc, some, none,
  some-injective, >>=-eq-some, All, All-append, Bool-cases, inl, inr,
}
use planetariumfd.Float.{Float}
use planetariumfd.Geometry.{Rect, Face}
use planetariumfd.Config.{Config}
use planetariumfd.Thread.{FaceThread}
use planetariumfd.State.{Saved, Fd}
use planetariumfd.Tracker.{
  is_lost, first_lost, delete_thread, delete_threads, add_new_threads, match_and_update,
  process_threads, replace_threads,
}
use planetariumfd.Process.{newest_seq, empty_newest, match_frame, track_faces}
use planetariumfd.System.{
  System, arrived, deleting, tracked, PrunerPc, Step, track, delete_lost, begin_threads,
}
use planetariumfd.System.Invariant.{Reach, here, next, Timely}

module _ {F : Type 0} (cfg : Config F) where
  abbrev Stays : FaceThread → Type 0
  Stays t = is_lost cfg t ≡ false

  first_lost-Stays : (ts : List FaceThread) → All Stays ts → first_lost cfg ts ≡ none
  unfolding first_lost
  first_lost-Stays [] p = refl
  first_lost-Stays (t ∷ ts) (p, ps) = rw p (rw (first_lost-Stays ts ps) refl)

  first_lost-append :
      (kept ts : List FaceThread) (t : FaceThread)
      → All Stays kept
      → is_lost cfg t ≡ true
      → first_lost cfg (kept ++ (t ∷ ts)) ≡ some (t, kept ++ ts)
  unfolding first_lost
  first_lost-append [] ts t p lost = rw lost refl
  first_lost-append (k ∷ ks) ts t (p, ps) lost = rw p (rw (first_lost-append ks ts t ps lost) refl)

module _ {F : Type 0} ⦃fl : Float F⦄ where
  Reach-from : {s t u : System F} (st : Step s t) → Timely st → Reach t u → Reach s u
  Reach-from st timely here = next here st timely
  Reach-from st timely (next r last late) = next (Reach-from st timely r) last late

  module _ (fd : Fd F) (left : List Face) (pruner : PrunerPc) where
    abbrev with_threads : List FaceThread → List Saved → ℕ → Fd F
    with_threads ts saved address = record fd {
      threads = ts;
      being_serialized = saved;
      next_address = address;
    }

    abbrev in_loop : List FaceThread → List Saved → ℕ → System F
    in_loop ts saved address = record {
      fd = with_threads ts saved address;
      main = deleting left;
      pruner = pruner;
    }

    abbrev behind_loop : List FaceThread → List Saved → ℕ → System F
    behind_loop ts saved address = record {
      fd = with_threads (add_new_threads ts left) saved address;
      main = tracked;
      pruner = pruner;
    }

    delete_threads-Reach :
        (kept ts : List FaceThread) (saved : List Saved) (address : ℕ)
        → All (Stays fd.config) kept
        → let d = delete_threads fd.config ts saved address in
          Reach (in_loop (kept ++ ts) saved address) (behind_loop (kept ++ d.0) d.1 d.2)
    unfolding delete_threads
    delete_threads-Reach kept [] saved address p =
        next here
          (begin_threads refl
            (first_lost-Stays fd.config (kept ++ []) (All-append (Stays fd.config) kept [] p tt)))
          tt
    delete_threads-Reach kept (t ∷ ts) saved address p = elim (Bool-cases (is_lost fd.config t)) [
      | inl lost ↦
          let moved = delete_thread t saved address in
          rw lost (
            Reach-from (delete_lost refl (first_lost-append fd.config kept ts t p lost)) tt
              (delete_threads-Reach kept ts moved.0 moved.1 p))
      | inr alive ↦
          let d = delete_threads fd.config ts saved address in
          let more =
            delete_threads-Reach (kept ++ (t ∷ [])) ts saved address
              (All-append (Stays fd.config) kept (t ∷ []) p (alive, tt)) in
          rw alive (
            subst (λ z. Reach (in_loop z saved address) (behind_loop (kept ++ (t ∷ d.0)) d.1 d.2))
              (append_assoc kept (t ∷ []) ts)
              (subst
                (λ z.
                  Reach (in_loop ((kept ++ (t ∷ [])) ++ ts) saved address) (behind_loop z d.1 d.2))
                (append_assoc kept (t ∷ []) d.0) more))
    ]

  match_frame_from :
      (now : ℤ) (s : Fd F) (rects : List Rect) (m : Fd F × List Face)
      → newest_seq s.history ≡ some rects
      → match_and_update rects (pos s.processed_frame_counter) now s ≡ some m
      → match_frame now s ≡ some (record m.0 { history = empty_newest m.0.history }, m.1)
  unfolding match_frame
  match_frame_from now s rects m seq matched = rw seq (rw matched refl)

  -- What `processThreads2` makes of a state when no other thread of control takes a step is also what
  -- its steps come to, one for each thread that it deletes, when they follow on each other.
  pub track_faces-Reach :
      (now : ℤ) (s : System F) {d : Fd F}
      → s.main ≡ arrived
      → track_faces now s.fd ≡ some d
      → Reach s (record s { fd = d; main = tracked })
  unfolding track_faces process_threads
  track_faces-Reach now s {d} e run =
      let id = pos s.fd.processed_frame_counter in
      let (rects, seq, run1) = >>=-eq-some (newest_seq s.fd.history) _ run in
      let (s1, run2, ends) = >>=-eq-some (process_threads rects id now s.fd) _ run1 in
      let (m, matched, run3) = >>=-eq-some (match_and_update rects id now s.fd) _ run2 in
      let fd' = record m.0 { history = empty_newest m.0.history } in
      let ran : match_frame now s.fd ≡ some (fd', m.1) =
        match_frame_from now s.fd rects m seq matched in
      let same : replace_threads m.0.threads m.1 m.0 ≡ s1 = some-injective _ _ run3 in
      let whole =
        ap (λ (z : Fd F). record z { history = empty_newest z.history }) same
        ∙ some-injective _ _ ends in
      subst (λ (z : Fd F). Reach s (record s { fd = z; main = tracked })) whole
        (Reach-from (track now e ran) tt (
          delete_threads-Reach fd' m.1 s.pruner [] fd'.threads fd'.being_serialized fd'.next_address
            tt))
