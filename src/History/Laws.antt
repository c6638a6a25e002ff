-- ===== src/History/Laws.antt =====
-- `getMinFrameToKeep` of Detector/FaceProcessor.cpp, and the bound that `pruneHistory` makes of it.
use planetariumfd.Prelude.{
  ℕ, ◌<◌, ◌≡◌, ◌⊎◌, refl, sym, subst, ◌∙◌, inl, inr, ℤ, pos, negsuc, ◌≤ℤ◌, ltb_ℤ, eqb_ℤ, int_max,
  true, not, List, [], ◌∷◌, ◌++◌, map, some, arith, All, All-append, All-split, All-map, Bool-cases,
  if◌then◌else◌,
}
use planetariumfd.Geometry.{Face}
use planetariumfd.Thread.{FaceThread}
use planetariumfd.Thread.Laws.{IsTrack}
use planetariumfd.Tracker.Update.{Tracked}
use planetariumfd.State.{Saved}
use planetariumfd.History.{min_front, get_min_frame_to_keep, bound_of}

-- The first face of a thread is of the frame `least` or later.
abbrev pub StartsFrom : ℤ → List Face → Type 0
StartsFrom least [] = ⊥
StartsFrom least (f ∷ fs) = least ≤ℤ f.frame_id

abbrev pub ThreadFrom : ℤ → FaceThread → Type 0
ThreadFrom least t = StartsFrom least t.faces

abbrev pub threads_of : List Saved → List FaceThread
threads_of = map (λ (r : Saved). r.thread)

StartsFrom-mono : (a b : ℤ) (fs : List Face) → a ≤ℤ b → StartsFrom b fs → StartsFrom a fs
StartsFrom-mono a b [] h p = absurd p
StartsFrom-mono a b (f ∷ fs) h p = omega arith

-- What a loop of `getMinFrameToKeep` makes of the minimum `least` that it starts with.
record Least (low high : ℕ) (ts : List FaceThread) (least m : ℤ) : Type 0 where
  below : m ≤ℤ least
  bounds : All (ThreadFrom m) ts
  attained : (m ≡ least) ⊎ ((pos low ≤ℤ m) × (m ≤ℤ pos high))
  greatest : (b : ℤ) → b ≤ℤ least → All (ThreadFrom b) ts → b ≤ℤ m

abbrev next_least : ℤ → Face → ℤ
next_least least f = if ltb_ℤ f.frame_id least then f.frame_id else least

next_least_lem :
    (least : ℤ) (f : Face)
    → (next_least least f ≤ℤ least)
      × (next_least least f ≤ℤ f.frame_id)
      × ((next_least least f ≡ least) ⊎ (next_least least f ≡ f.frame_id))
      × ((b : ℤ) → b ≤ℤ least → b ≤ℤ f.frame_id → b ≤ℤ next_least least f)
next_least_lem least f = elim (Bool-cases (ltb_ℤ f.frame_id least)) [
  | inl less ↦ rw less (ground arith, ground arith, inr refl, λ b p q. q)
  | inr more ↦ rw more (ground arith, ground arith, inl refl, λ b p q. p)
]

first_face :
    (low high : ℕ) (faces : List Face)
    → IsTrack low high faces
    → (f : Face) × (fs : List Face) × (faces ≡ f ∷ fs)
first_face low high [] p = absurd p
first_face low high (f ∷ fs) p = (f, fs, refl)

Least-cons :
    (low high : ℕ) (t : FaceThread) (f : Face) (fs : List Face) (ts : List FaceThread) (least m : ℤ)
    → t.faces ≡ f ∷ fs
    → Tracked low high t
    → Least low high ts (next_least least f) m
    → Least low high (t ∷ ts) least m
Least-cons low high t f fs ts least m e tr l =
    let (at_least, at_f, which, most) = next_least_lem least f in
    let (lo, rising, (hi, his)) = subst (IsTrack low high) e tr in
    record {
      below = omega (arith, l.below);
      bounds = (subst (StartsFrom m) (sym e) (omega (arith, l.below)), l.bounds);
      attained = elim l.attained [
        | inr within ↦ inr within
        | inl same ↦ elim which [
          | inl old ↦ inl (same ∙ old)
          | inr new ↦ inr (rw (same ∙ new) (lo, hi))
        ]
      ];
      greatest = λ b p q. l.greatest b (most b p (subst (StartsFrom b) e q.0)) q.1;
    }

min_front_lem :
    (low high : ℕ) (ts : List FaceThread) (least : ℤ)
    → All (Tracked low high) ts
    → (m : ℤ) × (min_front ts least ≡ some m) × Least low high ts least m
min_front_lem low high [] least p = (
  least,
  refl,
  record { below = omega arith; bounds = tt; attained = inl refl; greatest = λ b p q. p },
)
min_front_lem low high (t ∷ ts) least (p, ps) =
    let (f, fs, e) = first_face low high t.faces p in
    let (m, run, l) = min_front_lem low high ts (next_least least f) ps in
    (m, rw e run, Least-cons low high t f fs ts least m e p l)

-- What `getMinFrameToKeep` returns: -1 if there are no threads at all; otherwise a frame of the
-- threads' range, no later than any thread's first frame, and the greatest such number.
pub data KeepsFrom (low high : ℕ) (all : List FaceThread) (m : ℤ) : Type 0 where
  nothing : all ≡ [] → m ≡ negsuc 0 → KeepsFrom low high all m
  from :
      pos low ≤ℤ m
      → m ≤ℤ pos high
      → ((b : ℤ) → All (ThreadFrom b) all → b ≤ℤ m)
      → KeepsFrom low high all m

starts_below :
    (low high : ℕ) (t : FaceThread) (b : ℤ)
    → high < 2147483647
    → Tracked low high t
    → ThreadFrom b t
    → b ≤ℤ int_max
starts_below low high t b small p q =
    let (f, fs, e) = first_face low high t.faces p in
    let (lo, rising, (hi, his)) = subst (IsTrack low high) e p in
    let q' = subst (StartsFrom b) e q in omega arith

starts_up_to :
    (low high : ℕ) (t : FaceThread) (m : ℤ) → Tracked low high t → ThreadFrom m t → m ≤ℤ pos high
starts_up_to low high t m p q =
    let (f, fs, e) = first_face low high t.faces p in
    let (lo, rising, (hi, his)) = subst (IsTrack low high) e p in
    let q' = subst (StartsFrom m) e q in omega arith

-- A minimum that does not exceed a thread's frame is not the value that the loops start with.
in_range :
    (low high : ℕ) (m1 m2 : ℤ)
    → high < 2147483647
    → m2 ≤ℤ pos high
    → (m1 ≡ int_max) ⊎ ((pos low ≤ℤ m1) × (m1 ≤ℤ pos high))
    → (m2 ≡ m1) ⊎ ((pos low ≤ℤ m2) × (m2 ≤ℤ pos high))
    → pos low ≤ℤ m2
in_range low high m1 m2 small le a (inr within) = within.0
in_range low high m1 m2 small le (inr within) (inl same) = rw same within.0
in_range low high m1 m2 small le (inl top) (inl same) =
    absurd
      (let le' : int_max ≤ℤ pos high = subst (λ z. z ≤ℤ pos high) (same ∙ top) le in omega arith)

pub bound_of-pos : (low : ℕ) (m : ℤ) → pos low ≤ℤ m → bound_of m ≡ m
bound_of-pos low m h = ground arith

not_top : (high : ℕ) (m : ℤ) → high < 2147483647 → m ≤ℤ pos high → not (eqb_ℤ m int_max) ≡ true
not_top high m small h = ground arith

-- The two loops and the assertion, where there is some thread.
least_of_both :
    (low high : ℕ) (x : FaceThread) (xs : List FaceThread) (threads : List FaceThread)
    (saved : List Saved)
    → high < 2147483647
    → threads ++ threads_of saved ≡ x ∷ xs
    → All (Tracked low high) threads
    → All (Tracked low high) (threads_of saved)
    → (m : ℤ) × (get_min_frame_to_keep threads saved ≡ some m)
      × All (ThreadFrom (bound_of m)) (threads ++ threads_of saved)
      × KeepsFrom low high (threads ++ threads_of saved) m
unfolding get_min_frame_to_keep
least_of_both low high x xs threads saved small e p q =
    let (m1, run1, l1) = min_front_lem low high threads int_max p in
    let (m2, run2, l2) = min_front_lem low high (threads_of saved) m1 q in
    let tracked : All (Tracked low high) (x ∷ xs) =
      subst (All (Tracked low high)) e
        (All-append (Tracked low high) threads (threads_of saved) p q) in
    let bounds : All (ThreadFrom m2) (threads ++ threads_of saved) =
      All-append (ThreadFrom m2) threads (threads_of saved)
        (All-map (ThreadFrom m1) (ThreadFrom m2)
          (λ (t : FaceThread) (h : ThreadFrom m1 t). StartsFrom-mono m2 m1 t.faces l2.below h)
          threads l1.bounds)
        l2.bounds in
    let le : m2 ≤ℤ pos high =
      starts_up_to low high x m2 tracked.0 (subst (All (ThreadFrom m2)) e bounds).0 in
    let ge : pos low ≤ℤ m2 = in_range low high m1 m2 small le l1.attained l2.attained in
    let greatest : (b : ℤ) → All (ThreadFrom b) (threads ++ threads_of saved) → b ≤ℤ m2 = λ b h.
      let (us, vs) = All-split (ThreadFrom b) threads (threads_of saved) h in
      let top = starts_below low high x b small tracked.0 (subst (All (ThreadFrom b)) e h).0 in
      l2.greatest b (l1.greatest b top us) vs in
    (
      m2,
      rw (e, get_min_frame_to_keep) (rw (run1, run2, not_top high m2 small le)),
      subst (λ b. All (ThreadFrom b) (threads ++ threads_of saved)) (sym (bound_of-pos low m2 ge))
          bounds,
      from ge le greatest,
    )

-- On threads that have faces, of frames below `INT_MAX`, the function returns without a fault. The
-- bound that `pruneHistory` derives from its result is at most the first frame of every thread,
-- of those being serialized too; it is the greatest such number unless there are no
-- threads, for which the result is -1.
pub get_min_frame_to_keep_lem :
    (low high : ℕ) (threads : List FaceThread) (saved : List Saved)
    → high < 2147483647
    → All (Tracked low high) threads
    → All (Tracked low high) (threads_of saved)
    → (m : ℤ) × (get_min_frame_to_keep threads saved ≡ some m)
      × All (ThreadFrom (bound_of m)) (threads ++ threads_of saved)
      × KeepsFrom low high (threads ++ threads_of saved) m
unfolding get_min_frame_to_keep
get_min_frame_to_keep_lem low high [] [] small p q = (negsuc 0, refl, tt, nothing refl refl)
get_min_frame_to_keep_lem low high [] (r ∷ rs) small p q =
    least_of_both low high r.thread (threads_of rs) [] (r ∷ rs) small refl p q
get_min_frame_to_keep_lem low high (t ∷ ts) saved small p q =
    least_of_both low high t (ts ++ threads_of saved) (t ∷ ts) saved small refl p q
