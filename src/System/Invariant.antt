-- ===== src/System/Invariant.antt =====
-- The invariant of the three kinds of threads of control together.
use planetariumfd.Prelude.{
  ℕ, suc, ◌+◌, ◌≤◌, ◌<◌, ◌≡◌, ◌⊎◌, refl, inl, inr, ℤ, pos, ◌≤ℤ◌, ◌<ℤ◌, true, List, [], ◌∷◌, some,
  length, arith, All, ltb_ℤ, ltb, ◌&&◌,
}
use planetariumfd.Float.{Float}
use planetariumfd.Geometry.{Face}
use planetariumfd.Thread.{FaceThread}
use planetariumfd.Thread.Laws.{IsTrack, IsTrack-raise}
use planetariumfd.State.{HistoryEntry, Saved}
use planetariumfd.Tracker.Update.{Tracked, IsOfFrame}
use planetariumfd.Tracker.Laws.{IsSane}
use planetariumfd.History.{may_erase, erase_front, min_list_size, bound_of}
use planetariumfd.History.Runs.{IsRun}
use planetariumfd.History.Laws.{
  ThreadFrom, threads_of, KeepsFrom, nothing, from, get_min_frame_to_keep_lem,
}
use planetariumfd.Invariant.{Inv}
use planetariumfd.System.{
  System, MainPc, idle, arrived, deleting, tracked, PrunerPc, waiting, awake, erasing, asleep, Step,
  arrive, erase,
}

-- How far the faces of the threads have come, by where the main thread stands.
abbrev pub MainOk : MainPc → ℕ → ℕ → ℕ → ℕ → Type 0
MainOk idle low high counter size = (high ≡ counter) × (low ≤ counter + 1)
MainOk arrived low high counter size = (suc high ≡ counter) × (low ≤ counter) × (0 < size)
MainOk (deleting left) low high counter size =
    (high ≡ counter) × (low ≤ counter) × All (IsOfFrame counter) left
MainOk tracked low high counter size = (high ≡ counter) × (low ≤ counter + 1)

-- What the locals of the pruning thread say about the shared lists. Its bound is at most the first
-- frame `low` of the threads, or else every thread began when it was computed or later.
abbrev pub PrunerOk : PrunerPc → ℕ → ℕ → ℕ → Type 0
PrunerOk waiting low counter size = Unit
PrunerOk (awake n) low counter size = (n ≤ size) × (20 ≤ size)
PrunerOk (erasing m computed_at n) low counter size =
    (n ≤ size) × (20 ≤ size) × (computed_at ≤ counter) × ((m ≤ℤ pos low) ⊎ (computed_at ≤ low))
PrunerOk asleep low counter size = 20 ≤ size

pub record Valid {F : Type 0} (s : System F) : Type 0 where
  pub base : ℕ
  pub low : ℕ
  pub high : ℕ
  pub within : base ≤ low
  pub sane : IsSane s.fd.config
  pub small : s.fd.processed_frame_counter < 2147483647
  pub inv : Inv base low high s.fd
  pub main_ok : MainOk s.main low high s.fd.processed_frame_counter (length s.fd.history)
  pub pruner_ok : PrunerOk s.pruner low s.fd.processed_frame_counter (length s.fd.history)

module _ {F : Type 0} ⦃fl : Float F⦄ where
  -- What is assumed of the schedule: frame numbers stay below `INT_MAX`, and an entry is erased only
  -- while fewer than `MIN_LIST_SIZE` frames have arrived since `getMinFrameToKeep` was called.
  abbrev pub Timely : {s t : System F} → Step s t → Type 0
  Timely {s} (arrive img rects e) = s.fd.processed_frame_counter + 1 < 2147483647
  Timely {s} (erase {computed_at} e run) =
      s.fd.processed_frame_counter < computed_at + min_list_size
  Timely _ = Unit

  pub data Reach (s : System F) : System F → Type 0 where
    here : Reach s s
    next : {t u : System F} → Reach s t → (st : Step t u) → Timely st → Reach s u

-- A larger history and a later frame leave what the pruning thread knows true.
pub PrunerOk-mono :
    (p : PrunerPc) (low low' counter counter' size size' : ℕ)
    → low ≤ low'
    → counter ≤ counter'
    → size ≤ size'
    → PrunerOk p low counter size
    → PrunerOk p low' counter' size'
PrunerOk-mono waiting low low' counter counter' size size' l c z p = tt
PrunerOk-mono (awake n) low low' counter counter' size size' l c z p = omega arith
PrunerOk-mono (erasing m at n) low low' counter counter' size size' l c z (a, b, d, inl e) =
    (omega arith, omega arith, omega arith, inl (omega arith))
PrunerOk-mono (erasing m at n) low low' counter counter' size size' l c z (a, b, d, inr e) =
    (omega arith, omega arith, omega arith, inr (omega arith))
PrunerOk-mono asleep low low' counter counter' size size' l c z p = omega arith

-- The first entry may go: its frame is before the bound, and the local size is above the minimum.
pub erase_lem :
    (base : ℕ) (m : ℤ) (n : ℕ) (h : List HistoryEntry)
    → IsRun base h
    → may_erase m n h ≡ some true
    → (pos base <ℤ m)
      × (20 < n)
      × IsRun (suc base) (erase_front h)
      × (length h ≡ suc (length (erase_front h)))
unfolding may_erase erase_front
erase_lem base m n [] r e = cc
erase_lem base m n (d ∷ ds) (id, img, r) e =
    let both : (ltb_ℤ d.frame_id m && ltb min_list_size n) ≡ true = ground arith in
    let first : d.frame_id <ℤ m = ground arith in (rw id at first, ground arith, r, refl)

pub raise_all :
    (low high low' : ℕ) (ts : List FaceThread)
    → All (Tracked low high) ts
    → All (ThreadFrom (pos low')) ts
    → All (Tracked low' high) ts
raise_all low high low' [] p q = tt
raise_all low high low' (t ∷ ts) (p, ps) (q, qs) =
    (raise t.faces p q, raise_all low high low' ts ps qs)
  where
    raise :
        (fs : List Face)
        → IsTrack low high fs
        → planetariumfd.History.Laws.StartsFrom (pos low') fs
        → IsTrack low' high fs
    raise [] p q = absurd p
    raise (f ∷ fs) p q = IsTrack-raise low high low' f fs p q

pub saved_threads :
    (P : FaceThread → Type 0) (rs : List Saved)
    → All (λ (r : Saved). P r.thread) rs
    → All P (threads_of rs)
saved_threads P [] p = tt
saved_threads P (r ∷ rs) (p, ps) = (p, saved_threads P rs ps)

pub threads_saved :
    (P : FaceThread → Type 0) (rs : List Saved)
    → All P (threads_of rs)
    → All (λ (r : Saved). P r.thread) rs
threads_saved P [] p = tt
threads_saved P (r ∷ rs) (p, ps) = (p, threads_saved P rs ps)
