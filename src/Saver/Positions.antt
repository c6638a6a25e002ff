-- ===== src/Saver/Positions.antt =====
-- Iterators of the history while it grows and shrinks, for the saving threads.
use planetariumfd.Prelude.{
  ℕ, zero, suc, ◌+◌, ◌-◌, ◌≤◌, ◌≡◌, refl, sym, ap, subst, ◌∙◌, false, List, [], ◌∷◌, ◌++◌, length,
  length-append, arith, Bool-cases, ltb, inl, inr, nil-ne-cons,
}
use planetariumfd.State.{HistoryEntry, Fd}
use planetariumfd.Register.{drop}
use planetariumfd.Process.{empty_newest}
use planetariumfd.Saver.{
  Itr, at_entry, list_end, first_kept, entries_from, ahead, next_itr, itr_at, itr_of,
}

-- The same frames with the same images, and perhaps more behind them.
abbrev pub Extends : List HistoryEntry → List HistoryEntry → Type 0
Extends [] ds = Unit
Extends (e ∷ es) [] = ⊥
Extends (e ∷ es) (d ∷ ds) = (d.frame_id ≡ e.frame_id) × (d.frame ≡ e.frame) × Extends es ds

pub Extends-refl : (h : List HistoryEntry) → Extends h h
Extends-refl [] = tt
Extends-refl (e ∷ es) = (refl, refl, Extends-refl es)

pub Extends-append : (h more : List HistoryEntry) → Extends h (h ++ more)
Extends-append [] more = tt
Extends-append (e ∷ es) more = (refl, refl, Extends-append es more)

pub Extends-empty_newest : (h : List HistoryEntry) → Extends h (empty_newest h)
Extends-empty_newest [] = tt
Extends-empty_newest (e ∷ []) = (refl, refl, tt)
Extends-empty_newest (e ∷ d ∷ es) = (refl, refl, Extends-empty_newest (d ∷ es))

pub Extends-drop :
    (k : ℕ) (h h' : List HistoryEntry) → Extends h h' → Extends (drop k h) (drop k h')
Extends-drop zero h h' p = p
Extends-drop (suc k) [] h' p = tt
Extends-drop (suc k) (e ∷ es) [] p = absurd p
Extends-drop (suc k) (e ∷ es) (d ∷ ds) (a, b, p) = Extends-drop k es ds p

-- What is left behind the first entry of a rest.
drop-next :
    {A : Type 0} (k : ℕ) (h : List A) (e : A) (es : List A)
    → drop k h ≡ e ∷ es
    → drop (suc k) h ≡ es
drop-next zero [] e es q = cc
drop-next zero (x ∷ xs) e es q = let p : xs ≡ es = cc in p
drop-next (suc k) [] e es q = cc
drop-next (suc k) (x ∷ xs) e es q = drop-next k xs e es q

drop-append-length : {A : Type 0} (xs ys : List A) → drop (length xs) (xs ++ ys) ≡ ys
drop-append-length [] ys = refl
drop-append-length (x ∷ xs) ys = drop-append-length xs ys

module _ {F : Type 0} (s : Fd F) where
  pub entries_from-next :
      (n : ℕ) (e : HistoryEntry) (es : List HistoryEntry)
      → entries_from n s ≡ e ∷ es
      → entries_from (suc n) s ≡ es
  unfolding entries_from
  entries_from-next n e es q = elim (Bool-cases (ltb n (first_kept s))) [
    | inl gone ↦ absurd (nil-ne-cons (rw gone at q))
    | inr kept ↦
        let later : ltb (suc n) (first_kept s) ≡ false = ground arith in
        let index : suc n - first_kept s ≡ suc (n - first_kept s) = ground arith in
        rw (later, index) (drop-next (n - first_kept s) s.history e es (rw kept at q))
  ]

  -- `++history_itr` goes to what is left behind an entry.
  pub ahead-next_itr :
      (itr : Itr) (e : HistoryEntry) (es : List HistoryEntry)
      → ahead itr s ≡ e ∷ es
      → ahead (next_itr itr s) s ≡ es
  ahead-next_itr list_end e es q = absurd (nil-ne-cons q)
  ahead-next_itr (at_entry n) e es q = to (entries_from (suc n) s) refl (entries_from-next n e es q)
    where
      to :
          (h : List HistoryEntry)
          → entries_from (suc n) s ≡ h
          → h ≡ es
          → ahead (next_itr (at_entry n) s) s ≡ es
      to [] p r = subst (λ h. ahead (itr_at (suc n) h) s ≡ es) (sym p) r
      to (x ∷ xs) p r = subst (λ h. ahead (itr_at (suc n) h) s ≡ es) (sym p) (p ∙ r)

  -- The search ends at an entry with the number of its frame.
  pub itr_of_lem :
      (base : ℕ)
      → base + length s.history ≡ s.processed_frame_counter + 1
      → (front rest : List HistoryEntry) → s.history ≡ front ++ rest
      → (n : ℕ) × (itr_of rest s ≡ at_entry n)
        × (n + length rest ≡ s.processed_frame_counter + 1)
        × (ahead (itr_of rest s) s ≡ rest)
  unfolding entries_from
  itr_of_lem base c front rest whole =
      let size : length s.history ≡ length front + length rest =
        ap length whole ∙ length-append front rest in
      let kept : ltb (s.processed_frame_counter + 1 - length rest) (first_kept s) ≡ false =
        ground arith in
      let index : s.processed_frame_counter + 1 - length rest - first_kept s ≡ length front =
        ground arith in
      (_, refl, omega arith, rw (kept, index, whole) (drop-append-length front rest))

  -- While an entry is kept, what is left from it on is extended by every change of the history that
  -- extends it ...
  pub entries_from-Extends :
      (t : Fd F) (n : ℕ)
      → first_kept t ≡ first_kept s
      → Extends s.history t.history
      → Extends (entries_from n s) (entries_from n t)
  unfolding entries_from
  entries_from-Extends t n same p = elim (Bool-cases (ltb n (first_kept s))) [
    | inl gone ↦ rw (same, gone) tt
    | inr kept ↦ rw (same, kept) (Extends-drop (n - first_kept s) s.history t.history p)
  ]

  -- ... and is as before when entries in front of it are erased.
  pub entries_from-erased :
      (t : Fd F) (n : ℕ) (e : HistoryEntry)
      → first_kept t ≡ suc (first_kept s)
      → s.history ≡ e ∷ t.history
      → first_kept t ≤ n
      → entries_from n t ≡ entries_from n s
  unfolding entries_from
  entries_from-erased t n e one whole le =
      let kept : ltb n (first_kept t) ≡ false = ground arith in
      let kept' : ltb n (first_kept s) ≡ false = ground arith in
      let index : n - first_kept s ≡ suc (n - first_kept t) = ground arith in
      rw (kept, kept', index, whole) refl
