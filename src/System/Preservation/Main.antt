-- ===== src/System/Preservation/Main.antt =====
-- The steps of the main thread in System.antt, and the invariant of System/Invariant.antt.
use planetariumfd.Prelude.{
  ◌+◌, ◌<◌, ◌≡◌, sym, ap, subst, ◌∙◌, ℤ, List, some, some-injective, length, length-append, arith,
  All, All-append, All-map, map,
}
use planetariumfd.Float.{Float}
use planetariumfd.Geometry.{Rect, Face}
use planetariumfd.Image.{Image}
use planetariumfd.Thread.{FaceThread}
use planetariumfd.Thread.Laws.{IsTrack-mono}
use planetariumfd.State.{Saved, Fd}
use planetariumfd.Tracker.Update.{Tracked, IsOfFrame}
use planetariumfd.Tracker.Laws.{IsSane, seeded-Tracked}
use planetariumfd.Tracker.{first_lost, delete_thread, add_new_threads}
use planetariumfd.Tracker.Deletion.{first_lost-All, IsAscending-append, seeded, add_new_threads_lem}
use planetariumfd.Process.{frame_arrives, match_frame, collect_faces}
use planetariumfd.Process.Laws.{
  frame_arrives-Inv, match_frame-Inv, collect_faces-Inv, length-empty_newest,
}
use planetariumfd.System.{System, idle, arrived, deleting, tracked}
use planetariumfd.System.Invariant.{MainOk, Valid, PrunerOk-mono}

module _ {F : Type 0} ⦃fl : Float F⦄ {s : System F} (v : Valid s) where
  open v use {base, low, high, within, sane, small, inv, main_ok, pruner_ok}

  pub arrive-Valid :
      (img : Image) (rects : List Rect)
      → s.main ≡ idle
      → s.fd.processed_frame_counter + 1 < 2147483647
      → Valid (record s { fd = frame_arrives img rects s.fd; main = arrived })
  unfolding frame_arrives
  arrive-Valid img rects e early =
      let (same, le) =
        subst (λ p. MainOk p low high s.fd.processed_frame_counter (length s.fd.history)) e
          main_ok in
      record {
        base = base;
        low = low;
        high = high;
        within = within;
        sane = sane;
        small = early;
        inv = frame_arrives-Inv img rects inv;
        main_ok = (omega arith, omega arith, omega (arith, length-append s.fd.history));
        pruner_ok =
            PrunerOk-mono s.pruner low low s.fd.processed_frame_counter _ (length s.fd.history) _
              (omega arith) (omega arith) (omega (arith, length-append s.fd.history)) pruner_ok;
      }

  pub track-Valid :
      (now : ℤ) (fd' : Fd F) (left : List Face)
      → s.main ≡ arrived
      → match_frame now s.fd ≡ some (fd', left)
      → Valid (record s { fd = fd'; main = deleting left })
  track-Valid now fd' left e run =
      let (same, le, some_frame) =
        subst (λ p. MainOk p low high s.fd.processed_frame_counter (length s.fd.history)) e
          main_ok in
      let (fd1, left1, run1, inv1, fresh1, counter1, config1, history1) =
        match_frame-Inv now s.fd sane inv some_frame le (omega arith) in
      let found : (fd1, left1) ≡ (fd', left) =
        some-injective (fd1, left1) (fd', left) (sym run1 ∙ run) in
      subst (λ d. Valid (record s { fd = d.0; main = deleting d.1 })) found
        (record {
          base = base;
          low = low;
          high = s.fd.processed_frame_counter;
          within = within;
          sane = subst IsSane (sym config1) sane;
          small = omega (arith, counter1);
          inv = inv1;
          main_ok = (
            sym counter1,
            omega (arith, counter1),
            subst (λ n. All (IsOfFrame n) left1) (sym counter1) fresh1,
          );
          pruner_ok =
              PrunerOk-mono s.pruner low low s.fd.processed_frame_counter _ (length s.fd.history) _
                (omega arith) (omega (arith, counter1))
                (omega (arith, ap length history1, length-empty_newest s.fd.history)) pruner_ok;
        })

  pub delete_lost-Valid :
      (th : FaceThread) (rest : List FaceThread)
      → first_lost s.fd.config s.fd.threads ≡ some (th, rest)
      → Valid (record s {
        fd = record s.fd {
          threads = rest;
          being_serialized = (delete_thread th s.fd.being_serialized s.fd.next_address).0;
          next_address = (delete_thread th s.fd.being_serialized s.fd.next_address).1;
        };
      })
  delete_lost-Valid th rest run =
      let (lost, one, tracks) =
        first_lost-All s.fd.config (Tracked low high) s.fd.threads run inv.tracks in
      record {
        base = base;
        low = low;
        high = high;
        within = within;
        sane = sane;
        small = small;
        inv = record {
          run = inv.run;
          covers = inv.covers;
          tracks = tracks;
          saved =
              All-append (λ (r : Saved). Tracked low high r.thread) s.fd.being_serialized _
                inv.saved (one, tt);
          ascending = IsAscending-append 0 s.fd.next_address s.fd.being_serialized th inv.ascending;
        };
        main_ok = main_ok;
        pruner_ok = pruner_ok;
      }

  pub begin_threads-Valid :
      (left : List Face)
      → s.main ≡ deleting left
      → Valid (record s {
        fd = record s.fd { threads = add_new_threads s.fd.threads left };
        main = tracked;
      })
  begin_threads-Valid left e =
      let (same, le, fresh) =
        subst (λ p. MainOk p low high s.fd.processed_frame_counter (length s.fd.history)) e
          main_ok in
      let n = s.fd.processed_frame_counter in
      let begun : All (Tracked low high) (map seeded left) =
        All-map (Tracked n n) (Tracked low high)
          (λ (t : FaceThread) (p : Tracked n n t).
            IsTrack-mono n n low high t.faces le (omega arith) p)
          (map seeded left) (seeded-Tracked n left fresh) in
      record {
        base = base;
        low = low;
        high = high;
        within = within;
        sane = sane;
        small = small;
        inv = record {
          run = inv.run;
          covers = inv.covers;
          tracks =
              rw (add_new_threads_lem s.fd.threads left)
                (All-append (Tracked low high) s.fd.threads (map seeded left) inv.tracks begun);
          saved = inv.saved;
          ascending = inv.ascending;
        };
        main_ok = (same, omega arith);
        pruner_ok = pruner_ok;
      }

  pub collect-Valid :
      (fd' : Fd F)
      → s.main ≡ tracked
      → collect_faces s.fd ≡ some fd'
      → Valid (record s { fd = fd'; main = idle })
  collect-Valid fd' e run =
      let (same, le) =
        subst (λ p. MainOk p low high s.fd.processed_frame_counter (length s.fd.history)) e
          main_ok in
      let (fd1, run1, inv1, faces1, counter1, config1, history1) =
        collect_faces-Inv s.fd sane inv in
      let found : fd1 ≡ fd' = some-injective _ _ (sym run1 ∙ run) in
      subst (λ d. Valid (record s { fd = d; main = idle })) found
        (record {
          base = base;
          low = low;
          high = high;
          within = within;
          sane = subst IsSane (sym config1) sane;
          small = omega (arith, counter1);
          inv = inv1;
          main_ok = (omega (arith, counter1), omega (arith, counter1));
          pruner_ok =
              PrunerOk-mono s.pruner low low s.fd.processed_frame_counter _ (length s.fd.history) _
                (omega arith) (omega (arith, counter1)) (omega (arith, ap length history1))
                pruner_ok;
        })
