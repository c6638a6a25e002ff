-- ===== src/System/Preservation.antt =====
-- The steps of System.antt, one by one, and the invariant of System/Invariant.antt.
use planetariumfd.Prelude.{
  ℕ, suc, ◌+◌, ◌≤◌, ◌<◌, ◌≡◌, ◌⊎◌, sym, ap, subst, ◌∙◌, inl, inr, ℤ, pos, ◌≤ℤ◌, true, List, some,
  some-injective, length, length-append, arith, All, All-append, All-map, map,
}
use planetariumfd.Float.{Float}
use planetariumfd.Geometry.{Rect, Face}
use planetariumfd.Image.{Image}
use planetariumfd.Thread.{FaceThread, prune_faces_list}
use planetariumfd.Thread.Laws.{prune_faces_list_lem, IsTrack-mono}
use planetariumfd.State.{Saved, Fd}
use planetariumfd.Tracker.Update.{Tracked, IsOfFrame}
use planetariumfd.Tracker.Laws.{IsSane, seeded-Tracked}
use planetariumfd.Tracker.{first_lost, delete_thread, add_new_threads}
use planetariumfd.Tracker.Deletion.{first_lost-All, IsAscending-append, seeded, add_new_threads_lem}
use planetariumfd.Process.{frame_arrives, match_frame, collect_faces}
use planetariumfd.History.{may_erase, erase_front, bound_of, get_min_frame_to_keep}
use planetariumfd.History.Laws.{get_min_frame_to_keep_lem}
use planetariumfd.Process.Laws.{
  frame_arrives-Inv, match_frame-Inv, collect_faces-Inv, length-empty_newest,
}
use planetariumfd.System.{
  System, idle, arrived, deleting, tracked, waiting, awake, erasing, asleep, Step, arrive, track,
  delete_lost, begin_threads, collect, wait_for_list, begin_pruning, find_min_frame, erase,
  stop_erasing, wake_up, trim_saved, finish_saved, find_saved, put_saved, delete_being_serialized,
}
use planetariumfd.System.Savers.{
  find_saved-All, put_saved-All, put_saved-IsAscending, delete_being_serialized-Without,
  Without-All, Without-IsAscending,
}
use planetariumfd.System.Invariant.{
  MainOk, PrunerOk, Valid, Timely, Reach, here, next, PrunerOk-mono, erase_lem, saved_threads,
}
use planetariumfd.System.Bounds.{main_high, main_low, main_size, new_low}
use planetariumfd.System.Preservation.Main.{
  arrive-Valid, track-Valid, delete_lost-Valid, begin_threads-Valid, collect-Valid,
}
use planetariumfd.System.Preservation.Pruner.{
  wake_up-Valid, begin_pruning-Valid, find_min_frame-Valid, erase-Valid, stop_erasing-Valid,
}
use planetariumfd.System.Preservation.Savers.{saved-Valid, trim_saved-Valid, finish_saved-Valid}
pub mod Main
pub mod Pruner
pub mod Savers

module _ {F : Type 0} ⦃fl : Float F⦄ where
  -- Every step of the main, the pruning or a saving thread keeps the invariant, if frame numbers stay
  -- below `INT_MAX` and an entry is erased only while fewer than `MIN_LIST_SIZE` frames have arrived
  -- since `getMinFrameToKeep` was called.
  pub Step-Valid : {s t : System F} (st : Step s t) → Timely st → Valid s → Valid t
  Step-Valid (arrive img rects e) early v = arrive-Valid v img rects e early
  Step-Valid (track now {fd'} {left} e run) _ v = track-Valid v now fd' left e run
  Step-Valid (delete_lost {left} {th} {rest} e run) _ v = delete_lost-Valid v th rest run
  Step-Valid (begin_threads {left} e none_lost) _ v = begin_threads-Valid v left e
  Step-Valid (collect {fd'} e run) _ v = collect-Valid v fd' e run
  Step-Valid (wait_for_list e short) _ v = v
  Step-Valid (begin_pruning e long) _ v = begin_pruning-Valid v e long
  Step-Valid (find_min_frame {list_size = n} {m} e run) _ v = find_min_frame-Valid v n m e run
  Step-Valid (erase {m} {computed_at = at} {list_size = n} e run) timely v =
      erase-Valid v m at n e run timely
  Step-Valid (stop_erasing {m} {computed_at = at} {list_size = n} e run) _ v =
      stop_erasing-Valid v m at n e
  Step-Valid (wake_up e) _ v = wake_up-Valid v e
  Step-Valid (trim_saved a {th} {th'} found run) _ v = trim_saved-Valid v a th th' found run
  Step-Valid (finish_saved a {code} {rest} run) _ v = finish_saved-Valid v a code rest run

  -- In a timely run from a valid state every state is valid.
  pub Reach-Valid : {s t : System F} → Valid s → Reach s t → Valid t
  Reach-Valid v here = v
  Reach-Valid v (next r st timely) = Step-Valid st timely (Reach-Valid v r)
