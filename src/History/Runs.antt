-- ===== src/History/Runs.antt =====
-- The order of the history: consecutive frames, each with its image.
use planetariumfd.Prelude.{
  ℕ, zero, suc, ◌+◌, ◌<◌, ◌≡◌, refl, sym, ap, pos, List, [], ◌∷◌, ◌++◌, some, length, arith,
  get_elem?,
}
use planetariumfd.Image.{Image}
use planetariumfd.State.{HistoryEntry}

abbrev pub HasImage : HistoryEntry → Type 0
HasImage e = (img : Image) × (e.frame ≡ some img)

-- Entries of the frames `low`, `low + 1`, and so on.
abbrev pub IsRun : ℕ → List HistoryEntry → Type 0
IsRun low [] = Unit
IsRun low (e ∷ es) = (e.frame_id ≡ pos low) × HasImage e × IsRun (suc low) es

pub IsRun-append :
    (low next : ℕ) (h : List HistoryEntry) (e : HistoryEntry)
    → IsRun low h
    → low + length h ≡ next
    → e.frame_id ≡ pos next
    → HasImage e
    → IsRun low (h ++ (e ∷ []))
IsRun-append low next [] e r n id img =
    (rw id (ap pos (sym (let q : low ≡ next = omega arith in q))), img, tt)
IsRun-append low next (d ∷ ds) e (id', img', r) n id img =
    (id', img', IsRun-append (suc low) next ds e r (omega arith) id img)

-- The entry of a frame of the run stands as far in as the frame is past the first.
pub IsRun-get_elem? :
    (low k : ℕ) (h : List HistoryEntry)
    → IsRun low h
    → k < length h
    → (e : HistoryEntry) × (get_elem? h k ≡ some e) × (e.frame_id ≡ pos (low + k)) × HasImage e
IsRun-get_elem? low k [] r lt = absurd (omega arith)
IsRun-get_elem? low zero (e ∷ es) (id, img, r) lt =
    (e, refl, rw id (ap pos (let q : low ≡ low + 0 = omega arith in q)), img)
IsRun-get_elem? low (suc k) (e ∷ es) (id, img, r) lt =
    let (d, at, id', img') = IsRun-get_elem? (suc low) k es r (omega arith) in
    (d, at, rw id' (ap pos (let q : suc low + k ≡ low + suc k = omega arith in q)), img')
