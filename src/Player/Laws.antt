-- ===== src/Player/Laws.antt =====
-- The rectangle of the playback, and the playback, of Detector/PlanetariumFD.cpp.
use planetariumfd.Prelude.{
  ℕ, suc, ◌≤◌, ◌<◌, length, ◌≡◌, inl, inr, refl, ℤ, pos, ◌+ℤ◌, ◌≤ℤ◌, ltb_ℤ, ltb, Bool, true, false,
  List, [], ◌∷◌, some, arith, All, Bool-cases, if◌then◌else◌,
}
use planetariumfd.Geometry.{Rect}
use planetariumfd.Image.{Image}
use planetariumfd.State.{HistoryEntry}
use planetariumfd.History.Runs.{IsRun}
use planetariumfd.Process.Laws.{IsEmpty}
use planetariumfd.Player.{
  Consensus, no_consensus, consensus_rect, add_to_consensus, find_consensus, Playback,
  playback_loop, play_history,
}

-- A rectangle lies within the corners that were found.
pub record Holds (c : Consensus) (r : Rect) : Type 0 where
  pub found : c.found ≡ true
  pub left : c.min_x ≤ℤ r.x
  pub right : (r.x +ℤ r.width) ≤ℤ c.max_x
  pub top : c.min_y ≤ℤ r.y
  pub bottom : (r.y +ℤ r.height) ≤ℤ c.max_y

smaller_lem : (a b : ℤ) → ((if ltb_ℤ a b then a else b) ≤ℤ a) × ((if ltb_ℤ a b then a else b) ≤ℤ b)
smaller_lem a b = (ground arith, ground arith)

larger_lem : (a b : ℤ) → (a ≤ℤ (if ltb_ℤ b a then a else b)) × (b ≤ℤ (if ltb_ℤ b a then a else b))
larger_lem a b = (ground arith, ground arith)

add_to_consensus-new : (c : Consensus) (r : Rect) → Holds (add_to_consensus c r) r
unfolding add_to_consensus
add_to_consensus-new c r = record {
  found = refl;
  left = (smaller_lem r.x c.min_x).0;
  right = (larger_lem (r.x +ℤ r.width) c.max_x).0;
  top = (smaller_lem r.y c.min_y).0;
  bottom = (larger_lem (r.y +ℤ r.height) c.max_y).0;
}

add_to_consensus-old : (c : Consensus) (r q : Rect) → Holds c q → Holds (add_to_consensus c r) q
unfolding add_to_consensus
add_to_consensus-old c r q h = record {
  found = refl;
  left = omega (arith, h.left, (smaller_lem r.x c.min_x).1);
  right = omega (arith, h.right, (larger_lem (r.x +ℤ r.width) c.max_x).1);
  top = omega (arith, h.top, (smaller_lem r.y c.min_y).1);
  bottom = omega (arith, h.bottom, (larger_lem (r.y +ℤ r.height) c.max_y).1);
}

seen_old :
    (seq : List Rect) (c : Consensus) (q : Rect)
    → Holds c q
    → Holds (elim seq [ [] ↦ c | r ∷ rs ↦ add_to_consensus c r ]) q
seen_old [] c q p = p
seen_old (r ∷ rs) c q p = add_to_consensus-old c r q p

find_consensus-old :
    (h : List HistoryEntry) (c : Consensus) (q : Rect) → Holds c q → Holds (find_consensus h c) q
unfolding find_consensus
find_consensus-old [] c q p = p
find_consensus-old (e ∷ es) c q p =
    find_consensus-old es (elim e.faces_seq [ [] ↦ c | r ∷ rs ↦ add_to_consensus c r ]) q
      (seen_old e.faces_seq c q p)

-- The first face of an entry, if it has one, lies within the corners.
abbrev pub FirstHeld : Consensus → HistoryEntry → Type 0
FirstHeld c e = (r : Rect) (rs : List Rect) → e.faces_seq ≡ r ∷ rs → Holds c r

-- The rectangle that the playback crops to holds the first face of every entry of the history.
pub find_consensus_lem :
    (h : List HistoryEntry) (c : Consensus) → All (FirstHeld (find_consensus h c)) h
unfolding find_consensus
find_consensus_lem [] c = tt
find_consensus_lem (e ∷ es) c = (
  λ r rs q. rw q (find_consensus-old es (add_to_consensus c r) r (add_to_consensus-new c r)),
  find_consensus_lem es (elim e.faces_seq [ [] ↦ c | r ∷ rs ↦ add_to_consensus c r ]),
)

-- The playback of a history that no thread changes any more, with the images of its frames and
-- without faces, ends without a fault and writes no frame of the cropped video.
pub playback-IsEmpty :
    (escapes : ℤ → Bool) (c : Consensus) (base : ℕ) (h : List HistoryEntry)
    → IsRun base h
    → All IsEmpty h
    → (p : Playback) × (playback_loop escapes c h ≡ some p) × (p.cropped ≡ [])
unfolding playback_loop
playback-IsEmpty escapes c base [] r p = (_, refl, refl)
playback-IsEmpty escapes c base (e ∷ es) (id, (img, pic), r) (none_seen, p) =
    let (more, run, no_crop) = playback-IsEmpty escapes c (suc base) es r p in
    let shown : Image = record img { depth = pos 8; channels = pos 3; origin = pos 0 } in
    elim (Bool-cases (escapes e.frame_id)) [
      | inl stops ↦ (
        record { played = shown ∷ []; cropped = [] },
        rw pic (rw none_seen (rw stops refl)),
        refl,
      )
      | inr goes ↦ (
        record { played = shown ∷ more.played; cropped = more.cropped },
        rw pic (rw none_seen (rw goes (rw run refl))),
        no_crop,
      )
    ]

either_way : (b : Bool) → (if b then true else true) ≡ true
either_way true = refl
either_way false = refl

playback_total :
    (escapes : ℤ → Bool) (c : Consensus) (base : ℕ) (h : List HistoryEntry)
    → IsRun base h
    → All (FirstHeld c) h
    → (p : Playback) × (playback_loop escapes c h ≡ some p)
      × (length p.played ≤ length h)
      × (0 < length h → 0 < length p.played)
unfolding playback_loop
playback_total escapes c base [] r p =
    (record { played = []; cropped = [] }, refl, omega arith, λ (q : 0 < 0). q)
playback_total escapes c base (e ∷ es) (id, (img, pic), r) (held, p) =
    let (more, run, few, _) = playback_total escapes c (suc base) es r p in
    let shown : Image = record img { depth = pos 8; channels = pos 3; origin = pos 0 } in
    let fine : (if ltb 0 (length e.faces_seq) then c.found else true) ≡ true =
      found_if e.faces_seq held in
    let crop : List (Image × Rect) → List (Image × Rect) =
      λ rest. elim e.faces_seq [ [] ↦ rest | f ∷ fs ↦ (shown, consensus_rect c) ∷ rest ] in
    elim (Bool-cases (escapes e.frame_id)) [
      | inl stops ↦ (
        record { played = shown ∷ []; cropped = crop [] },
        rw pic (rw fine (rw stops refl)),
        omega arith,
        λ (q : 0 < length (e ∷ es)). omega arith,
      )
      | inr goes ↦ (
        record { played = shown ∷ more.played; cropped = crop more.cropped },
        rw pic (rw fine (rw goes (rw run refl))),
        omega arith,
        λ (q : 0 < length (e ∷ es)). omega arith,
      )
    ]
  where
    found_if :
        (seq : List Rect)
        → ((r : Rect) (rs : List Rect) → seq ≡ r ∷ rs → Holds c r)
        → (if ltb 0 (length seq) then c.found else true) ≡ true
    found_if [] held = refl
    found_if (r ∷ rs) held = rw ((held r rs refl).found) (either_way (ltb 0 (length (r ∷ rs))))

-- The playback of a history with the images of its frames ends without a fault, if no other thread
-- changes the history meanwhile: where an entry has a face, a rectangle has been found. It plays no
-- more frames than there are, and at least one if there is one.
pub play_history_lem :
    (escapes : ℤ → Bool) (base : ℕ) (h : List HistoryEntry)
    → IsRun base h
    → (p : Playback) × (play_history escapes h ≡ some p)
      × (length p.played ≤ length h)
      × (0 < length h → 0 < length p.played)
unfolding play_history
play_history_lem escapes base h r =
    playback_total escapes (find_consensus h no_consensus) base h r
      (find_consensus_lem h no_consensus)
