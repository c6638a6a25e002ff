-- ===== src/Invariant.antt =====
-- The well-formedness of the globals of Detector/FaceProcessor.cpp: the history as a run of frames, and
-- the frames of the threads.
use planetariumfd.Prelude.{
  ℕ, ◌+◌, ◌-◌, ◌≤◌, ◌≡◌, sym, ap, ◌∙◌, ℤ, pos, ◌≤ℤ◌, List, [], ◌∷◌, some, length, arith, All,
  get_elem?,
}
use planetariumfd.Geometry.{Face}
use planetariumfd.Thread.Laws.{IsTrack, IsRising, IsUpTo}
use planetariumfd.State.{HistoryEntry, Saved, Fd}
use planetariumfd.Tracker.Update.{Tracked}
use planetariumfd.Tracker.Deletion.{IsAscending}
use planetariumfd.History.Runs.{IsRun, IsRun-get_elem?, HasImage}

-- The history begins with the frame `base`; the threads have faces of the frames from `low` to `high`.
pub record Inv {F : Type 0} (base low high : ℕ) (s : Fd F) : Type 0 where
  pub run : IsRun base s.history
  pub covers : base + length s.history ≡ s.processed_frame_counter + 1
  pub tracks : All (Tracked low high) s.threads
  pub saved : All (λ (r : Saved). Tracked low high r.thread) s.being_serialized
  pub ascending : IsAscending 0 s.next_address s.being_serialized

-- The state that the program starts with, whatever its settings.
pub startup-Inv :
    {F : Type 0} (s : Fd F)
    → s.history ≡ []
    → s.threads ≡ []
    → s.being_serialized ≡ []
    → s.processed_frame_counter ≡ 0
    → s.next_address ≡ 0
    → Inv 1 1 0 s
startup-Inv s h t b c n = record {
  run = rw h tt;
  covers = rw (h, c) (omega arith);
  tracks = rw t tt;
  saved = rw b tt;
  ascending = rw (b, n) (omega arith);
}

IsRising-All :
    (low : ℕ) (fs : List Face) (a : ℤ)
    → pos low ≤ℤ a
    → IsRising a fs
    → All (λ (f : Face). pos low ≤ℤ f.frame_id) fs
IsRising-All low [] a h r = tt
IsRising-All low (f ∷ fs) a h (lt, r) =
    (omega arith, IsRising-All low fs f.frame_id (omega arith) r)

-- A frame between two bounds, as a number.
frame_number :
    (low high : ℕ) (z : ℤ)
    → pos low ≤ℤ z
    → z ≤ℤ pos high
    → (k : ℕ) × (z ≡ pos (low + k)) × (low + k ≤ high)
frame_number low high (ℤ.pos n) p q = (n - low, ap pos (omega arith), omega arith)
frame_number low high (ℤ.negsuc n) p q = absurd (omega arith)

-- The history has the image of a face's frame.
abbrev pub InHistory : List HistoryEntry → Face → Type 0
InHistory h f =
    (k : ℕ) × (e : HistoryEntry) × (get_elem? h k ≡ some e) × (e.frame_id ≡ f.frame_id) × HasImage e

module _ {F : Type 0} {base low high : ℕ} {s : Fd F} (inv : Inv base low high s) (from : base ≤ low)
    (le : high ≤ s.processed_frame_counter) where
  open inv use {run, covers}

  face-InHistory :
      (f : Face) → pos low ≤ℤ f.frame_id → f.frame_id ≤ℤ pos high → InHistory s.history f
  face-InHistory f p q =
      let (k, number, up) = frame_number base high f.frame_id (omega arith) q in
      let (e, at, id, img) = IsRun-get_elem? base k s.history run (omega (arith, covers)) in
      (k, e, at, id ∙ sym number, img)

  -- Every face of a thread within the bounds has the image of its frame in the history.
  pub Tracked-InHistory : (fs : List Face) → IsTrack low high fs → All (InHistory s.history) fs
  Tracked-InHistory [] t = absurd t
  Tracked-InHistory (f ∷ fs) (l, r, us) = both (f ∷ fs) (l, IsRising-All low fs f.frame_id l r) us
    where
      both :
          (gs : List Face)
          → All (λ (g : Face). pos low ≤ℤ g.frame_id) gs
          → All (IsUpTo high) gs
          → All (InHistory s.history) gs
      both [] p q = tt
      both (g ∷ gs) (p, ps) (q, qs) = (face-InHistory g p q, both gs ps qs)
