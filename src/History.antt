-- ===== src/History.antt =====
-- The history of frames, Detector/FaceProcessor.cpp: `addToHistory`, `getMinFrameToKeep`,
-- `deallocHistoryEntry` and one round of the loop in `pruneHistory`.
use planetariumfd.Prelude.{
  ℕ, zero, suc, ◌+◌, ℤ, pos, negsuc, ltb_ℤ, eqb_ℤ, int_max, Bool, true, false, not, ◌&&◌, List, [],
  ◌∷◌, ◌++◌, Option, none, some, ◌>>=◌, ◌>>◌, assert, length, front, ltb, if◌then◌else◌, map,
}
use planetariumfd.Geometry.{Rect, Face}
use planetariumfd.Image.{Image, create_frame_copy}
use planetariumfd.Thread.{FaceThread}
use planetariumfd.State.{HistoryEntry, Saved, Fd}
pub mod Runs
pub mod Laws

abbrev pub min_list_size : ℕ
min_list_size = 20

module _ {F : Type 0} where
  unfoldable pub add_to_history : Image → List Rect → ℤ → Fd F → Fd F
  unfolding create_frame_copy
  add_to_history img seq_in frame_id s =
      let copy = create_frame_copy img in
      let to_add : HistoryEntry = record {
        frame_id = frame_id;
        frame = some copy;
        faces_seq = seq_in;
      } in
      record s {
        history = s.history ++ (to_add ∷ []);
        frame_width = elim s.history [ [] ↦ copy.width | e ∷ es ↦ s.frame_width ];
        frame_height = elim s.history [ [] ↦ copy.height | e ∷ es ↦ s.frame_height ];
      }

-- The loops of `getMinFrameToKeep`; `none` is the assertion that the thread has a face.
abbrev pub min_front : List FaceThread → ℤ → Option ℤ
min_front [] least = some least
min_front (t ∷ ts) least = do
  f ← front t.faces
  min_front ts (if ltb_ℤ f.frame_id least then f.frame_id else least)

unfoldable pub get_min_frame_to_keep : List FaceThread → List Saved → Option ℤ
get_min_frame_to_keep threads saved = elim (threads ++ map (λ (r : Saved). r.thread) saved) [
  | [] ↦ some (negsuc 0)
  | t ∷ ts ↦ do
    least ← min_front threads int_max
    min_frame_id ← min_front (map (λ (r : Saved). r.thread) saved) least
    assert (not (eqb_ℤ min_frame_id int_max))
    some min_frame_id
]

-- -1, the answer when there are no threads, lets everything be erased.
abbrev pub bound_of : ℤ → ℤ
bound_of min_frame = if eqb_ℤ min_frame (negsuc 0) then int_max else min_frame

unfoldable pub dealloc_history_entry : HistoryEntry → HistoryEntry
dealloc_history_entry h = record h { frame = none }

-- The test of the inner loop, at the first entry: `none` where there is none.
unfoldable pub may_erase : ℤ → ℕ → List HistoryEntry → Option Bool
may_erase min_frame_to_keep list_size history = do
  e ← front history
  some (ltb_ℤ e.frame_id min_frame_to_keep && ltb min_list_size list_size)

-- The body of the inner loop: the first entry goes.
unfoldable pub erase_front : List HistoryEntry → List HistoryEntry
erase_front [] = []
erase_front (e ∷ es) = es

-- The inner loop, run to its end while the main thread waits. `list_size` is the local variable.
unfoldable pub prune_loop : ℤ → ℕ → List HistoryEntry → Option (List HistoryEntry)
prune_loop min_frame list_size [] = none
prune_loop min_frame list_size (e ∷ es) =
    let rest = prune_loop min_frame (length es) es in
    if ltb_ℤ e.frame_id min_frame && ltb min_list_size list_size then rest else some (e ∷ es)
