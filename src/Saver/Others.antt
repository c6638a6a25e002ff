-- ===== src/Saver/Others.antt =====
-- What the steps of the other threads of control leave alone, for a thread that is being saved.
use planetariumfd.Prelude.{
  ℕ, ◌+◌, ◌≤◌, ◌≡◌, ◌≢◌, refl, ap, subst, ◌∙◌, ℤ, pos, false, List, [], ◌∷◌, ◌++◌, some,
  some-injective, >>=-eq-some, Option, ◌>>=◌, length, length-append, arith, Bool-cases, inl, inr,
  ◌==◌,
}
use planetariumfd.Float.{Float}
use planetariumfd.Geometry.{Rect, Face}
use planetariumfd.Image.{Image}
use planetariumfd.Thread.{FaceThread}
use planetariumfd.State.{HistoryEntry, Saved, Fd}
use planetariumfd.Tracker.{match_and_update, delete_thread, divides, update_threads}
use planetariumfd.Tracker.Match.{match_faces, input_faces, new_matches}
use planetariumfd.Tracker.Laws.{IsSane, estimate_fps_lem}
use planetariumfd.Process.{
  frame_arrives, match_frame, collect_faces, newest_seq, due_threads, current_faces, empty_newest,
}
use planetariumfd.Process.Laws.{length-empty_newest}
use planetariumfd.System.{find_saved, put_saved}
use planetariumfd.System.Savers.{Without, here, there}
use planetariumfd.Saver.{first_kept, entries_from}
use planetariumfd.Saver.Positions.{
  Extends, Extends-refl, Extends-append, Extends-empty_newest, entries_from-Extends,
  entries_from-erased,
}

-- What a thread that saves the element at an address relies on.
pub record Kept {F : Type 0} (address : ℕ) (s t : Fd F) : Type 0 where
  pub config : t.config ≡ s.config
  pub name : t.base_ofilename ≡ s.base_ofilename
  pub saved :
      (th : FaceThread)
      → find_saved address s.being_serialized ≡ some th
      → find_saved address t.being_serialized ≡ some th
  pub entries : (n : ℕ) → first_kept t ≤ n → Extends (entries_from n s) (entries_from n t)

-- The fields that hold nothing of it may change.
pub Kept-same :
    {F : Type 0} (a : ℕ) (s t : Fd F)
    → t.config ≡ s.config
    → t.base_ofilename ≡ s.base_ofilename
    → ((th : FaceThread)
        → find_saved a s.being_serialized ≡ some th
        → find_saved a t.being_serialized ≡ some th)
    → t.history ≡ s.history
    → t.processed_frame_counter ≡ s.processed_frame_counter
    → Kept a s t
Kept-same a s t c b w h n = record {
  config = c;
  name = b;
  saved = w;
  entries = λ k le.
      entries_from-Extends s t k (omega (arith, n, ap length h)) (rw h (Extends-refl s.history));
}

find_saved-append :
    (a : ℕ) (rs more : List Saved) (th : FaceThread)
    → find_saved a rs ≡ some th
    → find_saved a (rs ++ more) ≡ some th
find_saved-append a [] more th e = cc
find_saved-append a (r ∷ rs) more th e = elim (Bool-cases (r.address == a)) [
  | inl same ↦ rw same (rw same at e)
  | inr other ↦ rw other (find_saved-append a rs more th (rw other at e))
]

pub find_saved-put_other :
    (a b : ℕ) (other : FaceThread) (rs : List Saved)
    → b ≢ a
    → find_saved a (put_saved b other rs) ≡ find_saved a rs
find_saved-put_other a b other [] ne = refl
find_saved-put_other a b other (r ∷ rs) ne = elim (Bool-cases (r.address == b)) [
  | inl same ↦ let differs : (r.address == a) ≡ false = ground arith in rw same (rw differs refl)
  | inr differs ↦ rw differs (rw (find_saved-put_other a b other rs ne) refl)
]

pub find_saved-Without :
    (a b : ℕ) {rs others : List Saved}
    → b ≢ a
    → Without b rs others
    → find_saved a others ≡ find_saved a rs
find_saved-Without a b ne (here {r} {rs} e) =
    let differs : (r.address == a) ≡ false = ground arith in rw differs refl
find_saved-Without a b ne (there {r} e w) = rw (find_saved-Without a b ne w) refl

module _ {F : Type 0} (a : ℕ) (s : Fd F) where
  pub frame_arrives-Kept :
      (img : Image) (rects : List Rect)
      → length s.history ≤ s.processed_frame_counter + 1
      → Kept a s (frame_arrives img rects s)
  unfolding frame_arrives
  frame_arrives-Kept img rects le = record {
    config = refl;
    name = refl;
    saved = λ th e. e;
    entries = λ n _.
        entries_from-Extends s (frame_arrives img rects s) n
          (omega (arith, length-append s.history)) (Extends-append s.history _);
  }

  -- What collects the faces of the threads `ts`.
  abbrev collected : List FaceThread → List Face → Option (Fd F)
  collected ts faces = some (record s { threads = ts; faces_in_current_frame = faces })

  abbrev collects : List FaceThread → Option (Fd F)
  collects ts = current_faces s.config.min_face_occurences_thresh ts >>= collected ts

  pub collect_faces-Kept : (t : Fd F) → collect_faces s ≡ some t → Kept a s t
  unfolding collect_faces
  collect_faces-Kept t run =
      let size = s.config.max_thread_history_size in
      let (now, _, run1) =
        >>=-eq-some (divides s.config.prune_faces_interval (pos s.processed_frame_counter))
          (λ now. due_threads now size s.threads >>= collects) run in
      let (ts, _, run2) = >>=-eq-some (due_threads now size s.threads) collects run1 in
      let (faces, _, run3) =
        >>=-eq-some (current_faces s.config.min_face_occurences_thresh ts) (collected ts) run2 in
      subst (Kept a s) (some-injective _ _ run3) (
        Kept-same a s (record s { threads = ts; faces_in_current_frame = faces }) refl refl
          (λ th e. e) refl refl)

  pub erase_front-Kept :
      (e : HistoryEntry) (es : List HistoryEntry)
      → length s.history ≤ s.processed_frame_counter + 1
      → s.history ≡ e ∷ es
      → Kept a s (record s { history = es })
  erase_front-Kept e es le h = record {
    config = refl;
    name = refl;
    saved = λ th q. q;
    entries = λ n kept.
        rw
          (entries_from-erased s (record s { history = es }) n e (omega (arith, ap length h)) h
            kept)
          (Extends-refl _);
  }

module _ {F : Type 0} ⦃fl : Float F⦄ (a : ℕ) where
  -- Up to the deletions the thread's element stays, and the newest entry is emptied.
  matched :
      (s : Fd F) (time : ℤ) (fps : F) (updated : List FaceThread)
      → Kept a s (record s {
        threads = updated;
        fd_time_seconds = time;
        estimated_fps = fps;
        history = empty_newest s.history;
      })
  matched s time fps updated = record {
    config = refl;
    name = refl;
    saved = λ th e. e;
    entries = λ n _.
        entries_from-Extends s _ n (omega (arith, length-empty_newest s.history))
          (Extends-empty_newest s.history);
  }

  pub match_frame-Kept :
      (now : ℤ) (s : Fd F) {r : Fd F × List Face}
      → IsSane s.config
      → match_frame now s ≡ some r
      → Kept a s r.0
  unfolding match_frame match_and_update
  match_frame-Kept now s sane run =
      let id = pos s.processed_frame_counter in
      let (time, fps, timed) = estimate_fps_lem id now s sane.samples in
      let s1 = record s { fd_time_seconds = time; estimated_fps = fps } in
      let (rects, _, run1) = >>=-eq-some (newest_seq s.history) _ run in
      let (r1, run2, ends) = >>=-eq-some (match_and_update rects id now s) _ run1 in
      let (m, _, run3) =
        >>=-eq-some (match_faces s.config s.threads (input_faces rects id) (new_matches s.threads))
          (λ m.
            update_threads s.threads m.0 >>= λ updated. some (record s1 { threads = updated }, m.1))
          (rw timed at run2) in
      let (updated, _, run4) =
        >>=-eq-some (update_threads s.threads m.0)
          (λ updated. some (record s1 { threads = updated }, m.1)) run3 in
      let same : (record s1 { threads = updated }, m.1) ≡ r1 =
        some-injective (record s1 { threads = updated }, m.1) r1 run4 in
      subst (λ (z : Fd F × List Face). Kept a s z.0)
        (ap (λ (z : Fd F × List Face). (record z.0 { history = empty_newest z.0.history }, z.1))
            same
          ∙ some-injective _ _ ends)
        (matched s time fps updated)

  -- A deletion appends to the threads being serialized.
  pub delete_lost-Kept :
      (s : Fd F) (th : FaceThread) (rest : List FaceThread)
      → Kept a s (record s {
        threads = rest;
        being_serialized = (delete_thread th s.being_serialized s.next_address).0;
        next_address = (delete_thread th s.being_serialized s.next_address).1;
      })
  delete_lost-Kept s th rest =
      Kept-same a s _ refl refl (λ t e. find_saved-append a s.being_serialized _ t e) refl refl
