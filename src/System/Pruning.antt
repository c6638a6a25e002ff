-- ===== src/System/Pruning.antt =====
-- The erasing loop of `pruneHistory`, run without a break, against its steps in System.antt.
use planetariumfd.Prelude.{
  ℕ, ◌+◌, ◌≤◌, ◌<◌, ◌≡◌, ◌⊎◌, refl, subst, ap, ℤ, ◌≤ℤ◌, ◌<ℤ◌, ltb_ℤ, ltb, ◌&&◌, List, [], ◌∷◌, ◌++◌,
  some, length, arith, All, Bool-cases, inl, inr,
}
use planetariumfd.Float.{Float}
use planetariumfd.State.{HistoryEntry}
use planetariumfd.History.{prune_loop, may_erase, erase_front, min_list_size}
use planetariumfd.System.{System, PrunerPc, erasing, asleep, Step, erase, stop_erasing}
use planetariumfd.System.Invariant.{Reach, here, next}

-- Why the loop stops in front of the entry `e` of what is left.
abbrev pub Stops : ℤ → ℕ → List HistoryEntry → List HistoryEntry → HistoryEntry → Type 0
Stops m size gone rest e =
    (m ≤ℤ e.frame_id) ⊎ ((length rest ≡ min_list_size) ⊎ ((gone ≡ []) × (size ≤ min_list_size)))

-- What the loop leaves of the history.
pub record Pruned (m : ℤ) (size : ℕ) (h : List HistoryEntry) : Type 0 where
  pub gone : List HistoryEntry
  pub first : HistoryEntry
  pub others : List HistoryEntry
  pub run : prune_loop m size h ≡ some (first ∷ others)
  pub whole : h ≡ gone ++ (first ∷ others)
  pub early : All (λ (e : HistoryEntry). e.frame_id <ℤ m) gone
  pub long : min_list_size ≤ length (first ∷ others)
  pub stops : Stops m size gone (first ∷ others) first

Stops-later :
    (m : ℤ) (d : HistoryEntry) (size size' : ℕ) (gone rest : List HistoryEntry) (e : HistoryEntry)
    → min_list_size ≤ length rest
    → size ≡ length (gone ++ rest)
    → Stops m size gone rest e
    → Stops m size' (d ∷ gone) rest e
Stops-later m d size size' gone rest e long same (inl late) = inl late
Stops-later m d size size' gone rest e long same (inr (inl short)) = inr (inl short)
Stops-later m d size size' gone rest e long same (inr (inr (none_gone, few))) =
    inr (inl (omega (arith, ap (λ g. length (g ++ rest)) none_gone)))

module _ {F : Type 0} ⦃fl : Float F⦄ (m : ℤ) (at : ℕ) (s0 : System F) where
  -- The state in the loop, or behind it, with the history that is left.
  abbrev pub with_history : System F → List HistoryEntry → PrunerPc → System F
  with_history s h pc = record s { fd = record s.fd { history = h }; pruner = pc }

  loop_from :
      (s : System F) (size : ℕ) (h : List HistoryEntry)
      → size ≤ length h
      → min_list_size ≤ length h
      → s.fd.processed_frame_counter < at + min_list_size
      → Reach s0 (with_history s h (erasing m at size))
      → (p : Pruned m size h) × Reach s0 (with_history s (p.first ∷ p.others) asleep)
  unfolding prune_loop may_erase erase_front
  loop_from s size [] le long timely r = absurd (omega arith)
  loop_from s size (e ∷ es) le long timely r =
      elim (Bool-cases (ltb_ℤ e.frame_id m && ltb min_list_size size)) [
        | inl goes ↦
            let before : e.frame_id <ℤ m = ground arith in
            let above : min_list_size < size = ground arith in
            let step : Step (with_history s (e ∷ es) (erasing m at size))
                (with_history s es (erasing m at (length es))) =
              erase refl (rw goes refl) in
            let (p, reached) =
              loop_from s (length es) es (omega arith) (omega arith) timely (next r step timely) in
            (
              record {
                gone = e ∷ p.gone;
                first = p.first;
                others = p.others;
                run = rw goes p.run;
                whole = ap (λ l. e ∷ l) p.whole;
                early = (before, p.early);
                long = p.long;
                stops =
                    Stops-later m e (length es) size p.gone (p.first ∷ p.others) p.first p.long
                      (ap length p.whole) p.stops;
              },
              reached,
            )
        | inr stays ↦
            let step : Step (with_history s (e ∷ es) (erasing m at size))
                (with_history s (e ∷ es) asleep) =
              stop_erasing refl (rw stays refl) in
            (
              record {
                gone = [];
                first = e;
                others = es;
                run = rw stays refl;
                whole = refl;
                early = tt;
                long = long;
                stops = elim (Bool-cases (ltb_ℤ e.frame_id m)) [
                  | inr late ↦ inl (ground arith)
                  | inl soon ↦ inr (inr (refl, ground arith))
                ];
              },
              next r step tt,
            )
      ]

  -- Where the history is longer than its minimum or as long, and fewer than `MIN_LIST_SIZE` frames have
  -- arrived since the bound `m` was found, the erasing loop of `pruneHistory`, run without a break, ends
  -- without a fault. It erases entries of frames before `m` from the front and stops at an entry of `m`
  -- or later, or where only `MIN_LIST_SIZE` entries are left, or at once, if the size that it knows is
  -- no larger than that; and the same state is reached by the steps of the pruning thread.
  pub prune_loop_refine :
      (size : ℕ)
      → s0.pruner ≡ erasing m at size
      → size ≤ length s0.fd.history
      → min_list_size ≤ length s0.fd.history
      → s0.fd.processed_frame_counter < at + min_list_size
      → (p : Pruned m size s0.fd.history) × Reach s0 (with_history s0 (p.first ∷ p.others) asleep)
  prune_loop_refine size e le long timely =
      loop_from s0 size s0.fd.history le long timely
        (subst (λ pc. Reach s0 (record s0 { pruner = pc })) e here)
