-- ===== src/System/Preservation/Pruner.antt =====
-- The steps of the pruning thread in System.antt, and the invariant of System/Invariant.antt.
use planetariumfd.Prelude.{
  ℕ, suc, ◌+◌, ◌≤◌, ◌<◌, ◌≡◌, ◌⊎◌, sym, subst, ◌∙◌, inl, inr, ℤ, pos, ◌≤ℤ◌, true, some,
  some-injective, length, arith,
}
use planetariumfd.Float.{Float}
use planetariumfd.Tracker.Update.{Tracked}
use planetariumfd.History.{may_erase, erase_front, bound_of, get_min_frame_to_keep}
use planetariumfd.History.Laws.{get_min_frame_to_keep_lem}
use planetariumfd.System.{System, waiting, awake, erasing, asleep}
use planetariumfd.System.Invariant.{PrunerOk, Valid, erase_lem, saved_threads}
use planetariumfd.System.Bounds.{main_high, main_low, main_size, new_low}

module _ {F : Type 0} ⦃fl : Float F⦄ {s : System F} (v : Valid s) where
  open v use {base, low, high, within, sane, small, inv, main_ok, pruner_ok}

  high-le : high ≤ s.fd.processed_frame_counter
  high-le = main_high s.main low high s.fd.processed_frame_counter (length s.fd.history) main_ok

  pub begin_pruning-Valid :
      s.pruner ≡ waiting
      → 20 < length s.fd.history
      → Valid (record s { pruner = awake (length s.fd.history) })
  begin_pruning-Valid e long = record {
    base = base;
    low = low;
    high = high;
    within = within;
    sane = sane;
    small = small;
    inv = inv;
    main_ok = main_ok;
    pruner_ok = omega arith;
  }

  -- The threads may be taken to begin at the frame that `getMinFrameToKeep` finds, or, if there are
  -- none, at the newest frame.
  pub find_min_frame-Valid :
      (n : ℕ) (m : ℤ)
      → s.pruner ≡ awake n
      → get_min_frame_to_keep s.fd.threads s.fd.being_serialized ≡ some m
      → Valid (record s { pruner = erasing (bound_of m) s.fd.processed_frame_counter n })
  find_min_frame-Valid n m e run =
      let (le, long) =
        subst (λ p. PrunerOk p low s.fd.processed_frame_counter (length s.fd.history)) e
          pruner_ok in
      let saved = saved_threads (Tracked low high) s.fd.being_serialized inv.saved in
      let (m1, run1, bounds, keeps) =
        get_min_frame_to_keep_lem low high s.fd.threads s.fd.being_serialized
          (omega (arith, high-le)) inv.tracks saved in
      let found : m1 ≡ m = some-injective _ _ (sym run1 ∙ run) in
      let (low', lower, upper, bound, ts, rs) =
        new_low low high s.fd.processed_frame_counter s.fd.threads s.fd.being_serialized m1 high-le
          inv.tracks inv.saved bounds keeps in
      record {
        base = base;
        low = low';
        high = high;
        within = elim lower [ inl above ↦ omega arith | inr top ↦ omega (arith, inv.covers) ];
        sane = sane;
        small = small;
        inv = record {
          run = inv.run;
          covers = inv.covers;
          tracks = ts;
          saved = rs;
          ascending = inv.ascending;
        };
        main_ok =
            main_low s.main low low' high s.fd.processed_frame_counter (length s.fd.history) upper
              main_ok;
        pruner_ok = (
          le,
          long,
          omega arith,
          subst (λ z. (bound_of z ≤ℤ pos low') ⊎ (s.fd.processed_frame_counter ≤ low')) found bound,
        );
      }

  pub erase-Valid :
      (m : ℤ) (computed_at n : ℕ)
      → s.pruner ≡ erasing m computed_at n
      → may_erase m n s.fd.history ≡ some true
      → s.fd.processed_frame_counter < computed_at + 20
      → Valid (record s {
        fd = record s.fd { history = erase_front s.fd.history };
        pruner = erasing m computed_at (length (erase_front s.fd.history));
      })
  erase-Valid m computed_at n e run timely =
      let (le, long, before, bound) =
        subst (λ p. PrunerOk p low s.fd.processed_frame_counter (length s.fd.history)) e
          pruner_ok in
      let (first, above, rest, shorter) = erase_lem base m n s.fd.history inv.run run in
      record {
        base = suc base;
        low = low;
        high = high;
        within = elim bound [ inl near ↦ omega arith | inr recent ↦ omega (arith, inv.covers) ];
        sane = sane;
        small = small;
        inv = record {
          run = rest;
          covers = omega (arith, inv.covers);
          tracks = inv.tracks;
          saved = inv.saved;
          ascending = inv.ascending;
        };
        main_ok =
            main_size s.main low high s.fd.processed_frame_counter (length s.fd.history) _
              (omega arith) main_ok;
        pruner_ok = (omega arith, omega arith, before, bound);
      }

  pub stop_erasing-Valid :
      (m : ℤ) (computed_at n : ℕ)
      → s.pruner ≡ erasing m computed_at n
      → Valid (record s { pruner = asleep })
  stop_erasing-Valid m computed_at n e =
      let (le, long, before, bound) =
        subst (λ p. PrunerOk p low s.fd.processed_frame_counter (length s.fd.history)) e
          pruner_ok in
      record {
        base = base;
        low = low;
        high = high;
        within = within;
        sane = sane;
        small = small;
        inv = inv;
        main_ok = main_ok;
        pruner_ok = long;
      }

  pub wake_up-Valid : s.pruner ≡ asleep → Valid (record s { pruner = awake (length s.fd.history) })
  wake_up-Valid e =
      let long =
        subst (λ p. PrunerOk p low s.fd.processed_frame_counter (length s.fd.history)) e
          pruner_ok in
      record {
        base = base;
        low = low;
        high = high;
        within = within;
        sane = sane;
        small = small;
        inv = inv;
        main_ok = main_ok;
        pruner_ok = (omega arith, long);
      }
