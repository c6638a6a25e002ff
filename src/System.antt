-- ===== src/System.antt =====
-- The threads of control of the detector, interleaved: the main thread in `FdProcessFaces`, the thread
-- that runs `pruneHistory`, and one `saveAndDeleteThread` for each face thread that is being
-- serialized. A step is what its thread does between two points at which it takes or leaves a lock, or sleeps: what it
-- does without a lock is taken as one step.
use planetariumfd.Prelude.{
  ℕ, zero, suc, ◌+◌, ◌-◌, ◌≤◌, ◌<◌, ◌≡◌, ◌≢◌, ℤ, pos, Bool, true, false, List, [], ◌∷◌, ◌++◌,
  Option, none, some, ◌>>=◌, length, ◌==◌, if◌then◌else◌,
}
use planetariumfd.Float.{Float}
use planetariumfd.Geometry.{Rect, Face}
use planetariumfd.Image.{Image}
use planetariumfd.Thread.{FaceThread, prune_faces_list}
use planetariumfd.State.{HistoryEntry, Saved, Fd}
use planetariumfd.History.{get_min_frame_to_keep, bound_of, may_erase, erase_front, min_list_size}
use planetariumfd.Process.{frame_arrives, match_frame, collect_faces}
use planetariumfd.Tracker.{first_lost, delete_thread, add_new_threads}
pub mod Savers
pub mod Invariant
pub mod Bounds
pub mod Preservation
pub mod Safety
pub mod Pruning
pub mod Counters
pub mod Deleting

-- Where the main thread stands: outside `FdProcessFaces`, behind its first stretch, in the loop of
-- `processThreads2` that deletes threads, with the faces that are left over, or behind that function.
pub data MainPc : Type 0 where
  idle : MainPc
  arrived : MainPc
  deleting : (left : List Face) → MainPc
  tracked : MainPc

-- Where `pruneHistory` stands, with the locals that are live: in its first loop, in front of
-- `getMinFrameToKeep`, in the inner loop, or in the sleep behind it. In the inner loop
-- `computed_at` records the frame counter at the call of `getMinFrameToKeep`; the code has no such
-- variable, and no step depends on it.
pub data PrunerPc : Type 0 where
  waiting : PrunerPc
  awake : (list_size : ℕ) → PrunerPc
  erasing : (min_frame_to_keep : ℤ) (computed_at list_size : ℕ) → PrunerPc
  asleep : PrunerPc

pub record System (F : Type 0) : Type 0 where
  pub fd : Fd F
  pub main : MainPc
  pub pruner : PrunerPc

-- The element of the list at an address.
abbrev pub find_saved : ℕ → List Saved → Option FaceThread
find_saved address [] = none
find_saved address (r ∷ rs) =
    let rest = find_saved address rs in if r.address == address then some r.thread else rest

abbrev pub put_saved : ℕ → FaceThread → List Saved → List Saved
put_saved address th [] = []
put_saved address th (r ∷ rs) =
    let rest = put_saved address th rs in
    if r.address == address then record r { thread = th } ∷ rs else r ∷ rest

abbrev pub kept_in_front : Saved → Option (ℤ × List Saved) → Option (ℤ × List Saved)
kept_in_front r none = none
kept_in_front r (some (code, rs)) = some (code, r ∷ rs)

-- `deleteThreadFromgThreads_beingSerialized`: the element goes and 0 is returned; `none` is the
-- failing assertion that there is one.
unfoldable pub delete_being_serialized : ℕ → List Saved → Option (ℤ × List Saved)
delete_being_serialized address [] = none
delete_being_serialized address (r ∷ rs) =
    let rest = delete_being_serialized address rs in
    if r.address == address then some (pos 0, rs) else kept_in_front r rest

module _ {F : Type 0} ⦃fl : Float F⦄ where
  pub data Step (s : System F) : System F → Type 0 where
    arrive :
        (img : Image) (rects : List Rect)
        → s.main ≡ idle
        → Step s (record s { fd = frame_arrives img rects s.fd; main = arrived })
    track :
        (now : ℤ) {fd' : Fd F} {left : List Face}
        → s.main ≡ arrived
        → match_frame now s.fd ≡ some (fd', left)
        → Step s (record s { fd = fd'; main = deleting left })
    -- `deleteThread` has the lock for one thread, and starts the thread that saves it ...
    delete_lost :
        {left : List Face} {th : FaceThread} {rest : List FaceThread}
        → s.main ≡ deleting left
        → first_lost s.fd.config s.fd.threads ≡ some (th, rest)
        → Step s (record s {
          fd = record s.fd {
            threads = rest;
            being_serialized = (delete_thread th s.fd.being_serialized s.fd.next_address).0;
            next_address = (delete_thread th s.fd.being_serialized s.fd.next_address).1;
          };
        })
    -- ... and part 3 has it again.
    begin_threads :
        {left : List Face}
        → s.main ≡ deleting left
        → first_lost s.fd.config s.fd.threads ≡ none
        → Step s (record s {
          fd = record s.fd { threads = add_new_threads s.fd.threads left };
          main = tracked;
        })
    collect :
        {fd' : Fd F}
        → s.main ≡ tracked
        → collect_faces s.fd ≡ some fd'
        → Step s (record s { fd = fd'; main = idle })
    wait_for_list : s.pruner ≡ waiting → length s.fd.history ≤ min_list_size → Step s s
    begin_pruning :
        s.pruner ≡ waiting
        → min_list_size < length s.fd.history
        → Step s (record s { pruner = awake (length s.fd.history) })
    find_min_frame :
        {list_size : ℕ} {m : ℤ}
        → s.pruner ≡ awake list_size
        → get_min_frame_to_keep s.fd.threads s.fd.being_serialized ≡ some m
        → Step s (record s { pruner = erasing (bound_of m) s.fd.processed_frame_counter list_size })
    erase :
        {m : ℤ} {computed_at list_size : ℕ}
        → s.pruner ≡ erasing m computed_at list_size
        → may_erase m list_size s.fd.history ≡ some true
        → Step s (record s {
          fd = record s.fd { history = erase_front s.fd.history };
          pruner = erasing m computed_at (length (erase_front s.fd.history));
        })
    stop_erasing :
        {m : ℤ} {computed_at list_size : ℕ}
        → s.pruner ≡ erasing m computed_at list_size
        → may_erase m list_size s.fd.history ≡ some false
        → Step s (record s { pruner = asleep })
    wake_up : s.pruner ≡ asleep → Step s (record s { pruner = awake (length s.fd.history) })
    -- `saveAndDeleteThread` trims its thread under the lock ...
    trim_saved :
        (address : ℕ) {th th' : FaceThread}
        → find_saved address s.fd.being_serialized ≡ some th
        → prune_faces_list s.fd.config.max_thread_history_size th ≡ some th'
        → Step s (record s {
          fd = record s.fd { being_serialized = put_saved address th' s.fd.being_serialized };
        })
    -- ... and removes it when the files are written (SaveThread.antt).
    finish_saved :
        (address : ℕ) {code : ℤ} {rest : List Saved}
        → delete_being_serialized address s.fd.being_serialized ≡ some (code, rest)
        → Step s (record s { fd = record s.fd { being_serialized = rest } })
