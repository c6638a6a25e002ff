-- ===== src/System/Bounds.antt =====
-- The bounds that the invariant has on frame numbers, under the steps.
use planetariumfd.Prelude.{
  ℕ, ◌≤◌, ◌<◌, ◌≡◌, ◌⊎◌, refl, subst, inl, inr, ℤ, pos, ◌≤ℤ◌, List, [], ◌∷◌, ◌++◌, arith, All,
  All-split,
}
use planetariumfd.Thread.{FaceThread}
use planetariumfd.State.{Saved}
use planetariumfd.Tracker.Update.{Tracked}
use planetariumfd.History.{bound_of}
use planetariumfd.History.Laws.{ThreadFrom, threads_of, KeepsFrom, nothing, from, bound_of-pos}
use planetariumfd.System.{MainPc, idle, arrived, deleting, tracked}
use planetariumfd.System.Invariant.{MainOk, raise_all, saved_threads, threads_saved}

pub main_high :
    (p : MainPc) (low high counter size : ℕ) → MainOk p low high counter size → high ≤ counter
main_high idle low high counter size m = omega arith
main_high arrived low high counter size m = omega arith
main_high (deleting left) low high counter size (e, le, p) = omega arith
main_high tracked low high counter size m = omega arith

pub main_low :
    (p : MainPc) (low low' high counter size : ℕ)
    → low' ≤ counter
    → MainOk p low high counter size
    → MainOk p low' high counter size
main_low idle low low' high counter size h m = omega arith
main_low arrived low low' high counter size h m = omega arith
main_low (deleting left) low low' high counter size h (e, le, p) = (e, h, p)
main_low tracked low low' high counter size h m = omega arith

pub main_size :
    (p : MainPc) (low high counter size size' : ℕ)
    → 0 < size'
    → MainOk p low high counter size
    → MainOk p low high counter size'
main_size idle low high counter size size' h m = omega arith
main_size arrived low high counter size size' h m = omega arith
main_size (deleting left) low high counter size size' h m = m
main_size tracked low high counter size size' h m = omega arith

-- A new lower bound for the frames of the threads, from what `getMinFrameToKeep` returned.
pub new_low :
    (low high counter : ℕ) (ts : List FaceThread) (rs : List Saved) (m : ℤ)
    → high ≤ counter
    → All (Tracked low high) ts
    → All (λ (r : Saved). Tracked low high r.thread) rs
    → All (ThreadFrom (bound_of m)) (ts ++ threads_of rs)
    → KeepsFrom low high (ts ++ threads_of rs) m
    → (low' : ℕ) × ((low ≤ low') ⊎ (low' ≡ counter))
      × (low' ≤ counter)
      × ((bound_of m ≤ℤ pos low') ⊎ (counter ≤ low'))
      × All (Tracked low' high) ts
      × All (λ (r : Saved). Tracked low' high r.thread) rs
new_low low high counter [] [] m le p q b k =
    (counter, inr refl, omega arith, inr (omega arith), tt, tt)
new_low low high counter (t ∷ ts) rs m le p q b (nothing none_there e) = cc
new_low low high counter [] (r ∷ rs) m le p q b (nothing none_there e) = cc
new_low low high counter ts rs (ℤ.negsuc k) le p q b (from lo hi most) = absurd (omega arith)
new_low low high counter ts rs (ℤ.pos k) le p q b (from lo hi most) =
    let same = bound_of-pos low (pos k) lo in
    let (bt, br) =
      All-split (ThreadFrom (pos k)) ts (threads_of rs)
        (subst (λ z. All (ThreadFrom z) (ts ++ threads_of rs)) same b) in
    (
      k,
      inl (omega arith),
      omega arith,
      inl (rw same (omega arith)),
      raise_all low high k ts p bt,
      threads_saved (Tracked k high) rs
          (raise_all low high k (threads_of rs) (saved_threads (Tracked low high) rs q) br),
    )
