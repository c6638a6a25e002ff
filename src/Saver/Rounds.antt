-- ===== src/Saver/Rounds.antt =====
-- Where a copying loop stands: its iterator, and how much it has left to do.
use planetariumfd.Prelude.{
  ℕ, suc, ◌-◌, ◌≤◌, ◌<◌, ◌≡◌, subst, ℤ, pos, ◌≤ℤ◌, ◌<ℤ◌, true, List, [], ◌∷◌, arith, ltb_ℤ,
  pos_part, back_from,
}
use planetariumfd.Geometry.{Face}
use planetariumfd.Thread.Laws.{IsRising}
use planetariumfd.State.{HistoryEntry, Fd}
use planetariumfd.Saver.{Itr, at_entry, list_end, entries_from, itr_at}

-- With faces left, the iterator is at an entry behind `low`, and not past the next face's frame.
abbrev pub PlacedAt : ℤ → ℕ → List Face → Type 0
PlacedAt low n [] = Unit
PlacedAt low n (f ∷ fs) = (low ≤ℤ pos n) × (pos n ≤ℤ f.frame_id) × IsRising f.frame_id fs

abbrev pub Placed : ℤ → Itr → List Face → Type 0
Placed low itr [] = Unit
Placed low list_end (f ∷ fs) = ⊥
Placed low (at_entry n) (f ∷ fs) = PlacedAt low n (f ∷ fs)

-- There is an entry if there is a face.
abbrev pub Covered : List HistoryEntry → List Face → Type 0
Covered h [] = Unit
Covered [] (f ∷ fs) = ⊥
Covered (e ∷ es) (f ∷ fs) = Unit

pub Placed-itr_at :
    (low : ℤ) (n : ℕ) (h : List HistoryEntry) (left : List Face)
    → Covered h left
    → PlacedAt low n left
    → Placed low (itr_at n h) left
Placed-itr_at low n h [] c p = tt
Placed-itr_at low n [] (f ∷ fs) c p = absurd c
Placed-itr_at low n (e ∷ es) (f ∷ fs) c p = p

pub PlacedAt-skip :
    (low : ℤ) (n : ℕ) (f : Face) (fs : List Face)
    → PlacedAt low n (f ∷ fs)
    → pos n <ℤ f.frame_id
    → PlacedAt low (suc n) (f ∷ fs)
PlacedAt-skip low n f fs (a, b, r) h = (omega arith, omega arith, r)

pub PlacedAt-take :
    (low : ℤ) (n : ℕ) (f : Face) (fs : List Face)
    → PlacedAt low n (f ∷ fs)
    → f.frame_id ≡ pos n
    → PlacedAt low (suc n) fs
PlacedAt-take low n f [] (a, b, r) h = tt
PlacedAt-take low n f (g ∷ gs) (a, b, (lt, r)) h =
    let lt' : pos n <ℤ g.frame_id = subst (λ z. z <ℤ g.frame_id) h lt in
    (omega arith, omega arith, r)

-- How many entries there are at most from the iterator to the frame of the last face.
abbrev pub to_go_at : ℕ → List Face → ℕ
to_go_at n [] = 0
to_go_at n (f ∷ fs) = suc (pos_part (back_from f fs).frame_id) - n

abbrev pub to_go : Itr → List Face → ℕ
to_go list_end left = 0
to_go (at_entry n) left = to_go_at n left

to_go-itr_at :
    (n : ℕ) (h : List HistoryEntry) (left : List Face) → to_go (itr_at n h) left ≤ to_go_at n left
to_go-itr_at n [] left = omega arith
to_go-itr_at n (e ∷ es) left = omega arith

first-le-last :
    (f : Face) (fs : List Face) → IsRising f.frame_id fs → f.frame_id ≤ℤ (back_from f fs).frame_id
first-le-last f [] r = omega arith
first-le-last f (g ∷ gs) (lt, r) = let le = first-le-last g gs r in omega arith

pub to_go-skip :
    (low : ℤ) (n : ℕ) (h : List HistoryEntry) (f : Face) (fs : List Face)
    → PlacedAt low n (f ∷ fs)
    → to_go (itr_at (suc n) h) (f ∷ fs) < to_go_at n (f ∷ fs)
to_go-skip low n h f fs (a, b, r) =
    omega (arith, to_go-itr_at (suc n) h (f ∷ fs), first-le-last f fs r)

pub to_go-take :
    (low : ℤ) (n : ℕ) (h : List HistoryEntry) (f : Face) (fs : List Face)
    → PlacedAt low n (f ∷ fs)
    → to_go (itr_at (suc n) h) fs < to_go_at n (f ∷ fs)
to_go-take low n h f [] (a, b, r) = omega (arith, to_go-itr_at (suc n) h [], first-le-last f [] r)
to_go-take low n h f (g ∷ gs) (a, b, r) =
    omega (arith, to_go-itr_at (suc n) h (g ∷ gs), first-le-last f (g ∷ gs) r)

pub is_behind : (n : ℕ) (e f : ℤ) → e ≡ pos n → ltb_ℤ e f ≡ true → pos n <ℤ f
is_behind n e f p h = let h' : ltb_ℤ (pos n) f ≡ true = rw p at h in ground arith

-- What the entries say: an entry found at a number is of that frame.
abbrev pub IsNumbered : {F : Type 0} → Fd F → Type 0
IsNumbered s =
    (n : ℕ) (e : HistoryEntry) (es : List HistoryEntry)
    → entries_from n s ≡ e ∷ es
    → e.frame_id ≡ pos n
