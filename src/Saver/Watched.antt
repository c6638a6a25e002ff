-- ===== src/Saver/Watched.antt =====
-- A saving thread among the other threads of control.
use planetariumfd.Prelude.{
  ℕ, ◌+◌, ◌≤◌, ◌≡◌, ◌≢◌, refl, ◌∙◌, ℤ, List, [], ◌∷◌, some, length, arith, true, Text,
}
use planetariumfd.Float.{Float}
use planetariumfd.State.{HistoryEntry, Fd}
use planetariumfd.History.{may_erase, erase_front}
use planetariumfd.System.{
  System, Step, arrive, track, delete_lost, begin_threads, collect, wait_for_list, begin_pruning,
  find_min_frame, erase, stop_erasing, wake_up, trim_saved, finish_saved,
}
use planetariumfd.System.Savers.{delete_being_serialized-Without}
use planetariumfd.System.Invariant.{Valid, Timely}
use planetariumfd.SaveThread.{Media}
use planetariumfd.Saver.{Saver, advance}
use planetariumfd.Saver.Others.{
  Kept, Kept-same, frame_arrives-Kept, match_frame-Kept, delete_lost-Kept, collect_faces-Kept,
  erase_front-Kept, find_saved-put_other, find_saved-Without,
}

-- The detector with the thread that saves the element at an address.
pub record Watched (F : Type 0) : Type 0 where
  pub system : System F
  pub saver : Saver

module _ {F : Type 0} ⦃fl : Float F⦄ where
  -- Another saving thread trims or removes another element.
  abbrev pub Spares : ℕ → {s t : System F} → Step s t → Type 0
  Spares a (trim_saved b found run) = b ≢ a
  Spares a (finish_saved b run) = b ≢ a
  Spares a _ = Unit

  -- A step of the thread itself, of the main or the pruning thread or of another saving thread; the
  -- count of series is what else the saving threads share.
  pub data Turn (media : Media F) (server : Text) (address : ℕ) (w : Watched F)
      : Watched F → Type 0 where
    own :
        {fd' : Fd F} {saver' : Saver}
        → advance fl media server address w.system.fd w.saver ≡ some (fd', saver')
        → Turn media server address w
            (record { system = record w.system { fd = fd' }; saver = saver' })
    other :
        {t : System F} (st : Step w.system t)
        → Timely st
        → Spares address st
        → Turn media server address w (record w { system = t })
    another_series : Turn media server address w (record w {
      system = record w.system {
        fd = record w.system.fd { image_series_cnt = w.system.fd.image_series_cnt + 1 };
      };
    })

  -- Any number of turns.
  pub data Turns (media : Media F) (server : Text) (address : ℕ) (w : Watched F)
      : Watched F → Type 0 where
    none_yet : Turns media server address w w
    and_then :
        {v u : Watched F}
        → Turns media server address w v
        → Turn media server address v u
        → Turns media server address w u

  erase-Kept :
      (a : ℕ) (s : Fd F) (m : ℤ) (size : ℕ)
      → length s.history ≤ s.processed_frame_counter + 1
      → (h : List HistoryEntry) → s.history ≡ h
      → may_erase m size h ≡ some true
      → Kept a s (record s { history = erase_front h })
  unfolding may_erase erase_front
  erase-Kept a s m size le [] e run = cc
  erase-Kept a s m size le (d ∷ ds) e run = erase_front-Kept a s d ds le e

  -- The steps of the others leave alone what the thread relies on.
  pub Step-Kept :
      (a : ℕ) {s t : System F} (st : Step s t) → Spares a st → Valid s → Kept a s.fd t.fd
  Step-Kept a {s} (arrive img rects e) sp v =
      frame_arrives-Kept a s.fd img rects (omega (arith, v.inv.covers))
  Step-Kept a {s} (track now e run) sp v = match_frame-Kept a now s.fd v.sane run
  Step-Kept a {s} (delete_lost {left} {th} {rest} e run) sp v = delete_lost-Kept a s.fd th rest
  Step-Kept a {s} (begin_threads e none_lost) sp v =
      Kept-same a s.fd _ refl refl (λ th q. q) refl refl
  Step-Kept a {s} (collect {fd'} e run) sp v = collect_faces-Kept a s.fd fd' run
  Step-Kept a {s} (wait_for_list e short) sp v =
      Kept-same a s.fd s.fd refl refl (λ th q. q) refl refl
  Step-Kept a {s} (begin_pruning e long) sp v =
      Kept-same a s.fd s.fd refl refl (λ th q. q) refl refl
  Step-Kept a {s} (find_min_frame e run) sp v =
      Kept-same a s.fd s.fd refl refl (λ th q. q) refl refl
  Step-Kept a {s} (erase {m} {computed_at} {list_size} e run) sp v =
      erase-Kept a s.fd m list_size (omega (arith, v.inv.covers)) s.fd.history refl run
  Step-Kept a {s} (stop_erasing e run) sp v = Kept-same a s.fd s.fd refl refl (λ th q. q) refl refl
  Step-Kept a {s} (wake_up e) sp v = Kept-same a s.fd s.fd refl refl (λ th q. q) refl refl
  Step-Kept a {s} (trim_saved b {th} {th'} found run) sp v =
      Kept-same a s.fd _ refl refl
        (λ t e. find_saved-put_other a b th' s.fd.being_serialized sp ∙ e) refl refl
  Step-Kept a {s} (finish_saved b {code} {rest} run) sp v =
      let (zero_code, w) = delete_being_serialized-Without b s.fd.being_serialized run in
      Kept-same a s.fd _ refl refl (λ t e. find_saved-Without a b sp w ∙ e) refl refl
