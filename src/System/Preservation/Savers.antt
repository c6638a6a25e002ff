-- ===== src/System/Preservation/Savers.antt =====
-- The steps of the saving threads in System.antt, and the invariant of System/Invariant.antt.
use planetariumfd.Prelude.{ℕ, ◌≡◌, sym, subst, ◌∙◌, ℤ, List, some, some-injective, All}
use planetariumfd.Float.{Float}
use planetariumfd.Thread.{FaceThread, prune_faces_list}
use planetariumfd.Thread.Laws.{prune_faces_list_lem}
use planetariumfd.State.{Saved}
use planetariumfd.Tracker.Update.{Tracked}
use planetariumfd.Tracker.{first_lost, delete_thread, add_new_threads}
use planetariumfd.Tracker.Deletion.{first_lost-All, IsAscending-append, seeded, add_new_threads_lem}
use planetariumfd.System.{System, find_saved, put_saved, delete_being_serialized}
use planetariumfd.System.Savers.{
  find_saved-All, put_saved-All, put_saved-IsAscending, delete_being_serialized-Without,
  Without-All, Without-IsAscending,
}
use planetariumfd.System.Invariant.{Valid}

module _ {F : Type 0} ⦃fl : Float F⦄ {s : System F} (v : Valid s) where
  open v use {base, low, high, within, sane, small, inv, main_ok, pruner_ok}

  -- A change of the threads being serialized that keeps each of them a track.
  pub saved-Valid :
      (rs : List Saved)
      → All (λ (r : Saved). Tracked low high r.thread) rs
      → planetariumfd.Tracker.Deletion.IsAscending 0 s.fd.next_address rs
      → Valid (record s { fd = record s.fd { being_serialized = rs } })
  saved-Valid rs p a = record {
    base = base;
    low = low;
    high = high;
    within = within;
    sane = sane;
    small = small;
    inv = record {
      run = inv.run;
      covers = inv.covers;
      tracks = inv.tracks;
      saved = p;
      ascending = a;
    };
    main_ok = main_ok;
    pruner_ok = pruner_ok;
  }

  pub trim_saved-Valid :
      (a : ℕ) (th th' : FaceThread)
      → find_saved a s.fd.being_serialized ≡ some th
      → prune_faces_list s.fd.config.max_thread_history_size th ≡ some th'
      → Valid (record s {
        fd = record s.fd { being_serialized = put_saved a th' s.fd.being_serialized };
      })
  trim_saved-Valid a th th' found run =
      let track = find_saved-All (Tracked low high) a s.fd.being_serialized th inv.saved found in
      let (rest, run1, track1, popped) =
        prune_faces_list_lem low high sane.limit th track sane.positive in
      let same : record th { faces = rest } ≡ th' =
        some-injective _ _
          (sym run1 ∙ subst (λ z. prune_faces_list z th ≡ some th') sane.limited run) in
      saved-Valid (put_saved a th' s.fd.being_serialized)
        (put_saved-All (Tracked low high) a th' s.fd.being_serialized
          (subst (Tracked low high) same track1) inv.saved)
        (put_saved-IsAscending a 0 s.fd.next_address th' s.fd.being_serialized inv.ascending)

  pub finish_saved-Valid :
      (a : ℕ) (code : ℤ) (rest : List Saved)
      → delete_being_serialized a s.fd.being_serialized ≡ some (code, rest)
      → Valid (record s { fd = record s.fd { being_serialized = rest } })
  finish_saved-Valid a code rest run =
      let (ok_code, w) = delete_being_serialized-Without a s.fd.being_serialized run in
      saved-Valid rest (Without-All (λ (r : Saved). Tracked low high r.thread) w inv.saved)
        (Without-IsAscending 0 s.fd.next_address w inv.ascending)
