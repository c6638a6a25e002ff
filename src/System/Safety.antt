-- ===== src/System/Safety.antt =====
-- The system from its start in `FdInit`: images that are needed, and faults.
use planetariumfd.Prelude.{
  ℕ, ◌≤◌, ◌≡◌, refl, subst, ℤ, Bool, Text, true, List, [], ◌∷◌, some, length, arith, All,
}
use planetariumfd.Float.{Float}
use planetariumfd.Geometry.{Face}
use planetariumfd.Ini.{Platform}
use planetariumfd.Thread.{FaceThread}
use planetariumfd.State.{HistoryEntry, Saved, Fd, fd_init, startup}
use planetariumfd.Tracker.Update.{Tracked}
use planetariumfd.Tracker.Laws.{IsSane}
use planetariumfd.Process.{match_frame, collect_faces}
use planetariumfd.Process.Laws.{match_frame-Inv, collect_faces-Inv}
use planetariumfd.History.{may_erase, get_min_frame_to_keep}
use planetariumfd.History.Laws.{get_min_frame_to_keep_lem}
use planetariumfd.Invariant.{Inv, InHistory, Tracked-InHistory, startup-Inv}
use planetariumfd.System.{System, idle, arrived, tracked, waiting, erasing}
use planetariumfd.System.Invariant.{Valid, Reach, MainOk, PrunerOk, saved_threads}
use planetariumfd.System.Bounds.{main_high}
use planetariumfd.System.Preservation.{Reach-Valid}

may_erase_total :
    (m : ℤ) (size : ℕ) (h : List HistoryEntry)
    → 20 ≤ length h
    → (b : Bool) × (may_erase m size h ≡ some b)
unfolding may_erase
may_erase_total m size [] p = absurd (omega arith)
may_erase_total m size (e ∷ es) p = (_, refl)

module _ {F : Type 0} ⦃fl : Float F⦄ where
  -- The system behind a `FdInit` that returns 1, with the locks initialised and the pruning thread
  -- started. Where it returns 0 it has done neither.
  unfoldable pub boot : Platform F → ℤ → Text → System F
  unfolding fd_init
  boot os now stamp = record {
    fd = (fd_init os now true stamp startup).1;
    main = idle;
    pruner = waiting;
  }

  boot-Inv : (os : Platform F) (now : ℤ) (stamp : Text) → Inv 1 1 0 (boot os now stamp).fd
  unfolding boot
  boot-Inv os now stamp = startup-Inv _ refl refl refl refl refl

  -- With sane settings the program starts in a valid state.
  pub boot-Valid :
      (os : Platform F) (now : ℤ) (stamp : Text)
      → IsSane (boot os now stamp).fd.config
      → Valid (boot os now stamp)
  unfolding boot
  boot-Valid os now stamp sane = record {
    base = 1;
    low = 1;
    high = 0;
    within = omega arith;
    sane = sane;
    small = omega arith;
    inv = boot-Inv os now stamp;
    main_ok = (refl, omega arith);
    pruner_ok = tt;
  }

  -- In a valid state the history has the images of all faces of all threads.
  thread_images :
      {s : System F} (v : Valid s) (ts : List FaceThread)
      → All (Tracked v.low v.high) ts
      → All (λ (t : FaceThread). All (InHistory s.fd.history) t.faces) ts
  thread_images v [] p = tt
  thread_images {s} v (t ∷ ts) (p, ps) = (
    Tracked-InHistory v.inv v.within
        (main_high s.main v.low v.high s.fd.processed_frame_counter (length s.fd.history) v.main_ok)
        t.faces p,
    thread_images v ts ps,
  )

  -- If `FdInit` returns 1, the settings are sane, frame numbers stay below `INT_MAX` and fewer than
  -- `MIN_LIST_SIZE` frames arrive between a call of `getMinFrameToKeep` and an erasure that relies on
  -- it, then, in any order of the steps of the main thread, the pruning thread and the saving
  -- threads, the history has an entry, with its image, for the frame of every face of every thread,
  -- also of those that are being serialized.
  pub boot-InHistory :
      (os : Platform F) (now : ℤ) (stamp : Text) {s : System F}
      → IsSane (boot os now stamp).fd.config
      → Reach (boot os now stamp) s
      → All (λ (t : FaceThread). All (InHistory s.fd.history) t.faces) s.fd.threads
        × All (λ (r : Saved). All (InHistory s.fd.history) r.thread.faces) s.fd.being_serialized
  boot-InHistory os now stamp {s} sane r =
      let v = Reach-Valid (boot-Valid os now stamp sane) r in
      (thread_images v s.fd.threads v.inv.tracks, saved v s.fd.being_serialized v.inv.saved)
    where
      saved :
          (v : Valid s) (rs : List Saved)
          → All (λ (r : Saved). Tracked v.low v.high r.thread) rs
          → All (λ (r : Saved). All (InHistory s.fd.history) r.thread.faces) rs
      saved v [] p = tt
      saved v (r ∷ rs) (p, ps) = (
        Tracked-InHistory v.inv v.within
            (main_high s.main v.low v.high s.fd.processed_frame_counter (length s.fd.history)
              v.main_ok)
            r.thread.faces p,
        saved v rs ps,
      )

  -- If `FdInit` returns 1, the settings are sane, frame numbers stay below `INT_MAX` and fewer than
  -- `MIN_LIST_SIZE` frames arrive between a call of `getMinFrameToKeep` and an erasure that relies on
  -- it, then, in any order of the steps of the threads of control, what the main thread runs of
  -- `FdProcessFaces` up to the deletions and behind `processThreads2`, the pruning thread's
  -- `getMinFrameToKeep` and the test of its erasing loop come to an end without a fault where the
  -- program calls them.
  pub boot-total :
      (os : Platform F) (now : ℤ) (stamp : Text) {s : System F}
      → IsSane (boot os now stamp).fd.config
      → Reach (boot os now stamp) s
      → ((time : ℤ) → s.main ≡ arrived → (t : Fd F × List Face) × (match_frame time s.fd ≡ some t))
        × (s.main ≡ tracked → (t : Fd F) × (collect_faces s.fd ≡ some t))
        × ((m : ℤ) × (get_min_frame_to_keep s.fd.threads s.fd.being_serialized ≡ some m))
        × ((m : ℤ) (at size : ℕ)
            → s.pruner ≡ erasing m at size
            → (b : Bool) × (may_erase m size s.fd.history ≡ some b))
  boot-total os now stamp {s} sane r =
      let v = Reach-Valid (boot-Valid os now stamp sane) r in
      let c = s.fd.processed_frame_counter in
      let le = main_high s.main v.low v.high c (length s.fd.history) v.main_ok in
      (
        λ time e.
            let (same, low, some_frame) =
              subst (λ p. MainOk p v.low v.high c (length s.fd.history)) e v.main_ok in
            let (t, left, run, _, _, _, _, _) =
              match_frame-Inv time s.fd v.sane v.inv some_frame low (omega arith) in
            ((t, left), run),
        λ e. let (t, run, _, _, _, _, _) = collect_faces-Inv s.fd v.sane v.inv in (t, run),
        (let (m, run, _, _) =
              get_min_frame_to_keep_lem v.low v.high s.fd.threads s.fd.being_serialized
                (omega (arith, v.small)) v.inv.tracks
                (saved_threads (Tracked v.low v.high) s.fd.being_serialized v.inv.saved) in
            (m, run)),
        λ m at size e.
            let (_, long, _, _) =
              subst (λ p. PrunerOk p v.low c (length s.fd.history)) e v.pruner_ok in
            may_erase_total m size s.fd.history long,
      )
