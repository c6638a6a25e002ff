-- ===== src/Tests/Running.antt =====
-- The theorems on the running detector, on concrete inputs.
use planetariumfd.Prelude.{◌≡◌, refl, ℤ, pos, [], ◌∷◌, some, codes, arith, All}
use planetariumfd.Float.Fixed.{Fixed, fixed}
use planetariumfd.Ini.{get_ini_int, get_ini_string}
use planetariumfd.Config.{init_config}
use planetariumfd.Thread.{FaceThread}
use planetariumfd.State.{HistoryEntry, Saved, Fd, fd_init}
use planetariumfd.Tracker.Laws.{IsSane}
use planetariumfd.Invariant.{Inv, InHistory}
use planetariumfd.Process.{process_faces, frame_arrives, collect_faces}
use planetariumfd.Process.Laws.{IsEmpty, process_faces-Inv, process_faces-IsEmpty}
use planetariumfd.History.{get_min_frame_to_keep}
use planetariumfd.System.{System, idle, arrived, waiting, arrive}
use planetariumfd.System.Invariant.{Valid}
use planetariumfd.System.Preservation.{Step-Valid}
use planetariumfd.System.Safety.{boot, boot-InHistory, boot-total}
use planetariumfd.Player.{find_consensus, no_consensus}
use planetariumfd.Player.Laws.{FirstHeld, find_consensus_lem}
use planetariumfd.Tests.Counting.{booted, with_thread, thread_reached}
use planetariumfd.Tests.{
  no_settings, square, picture, entry, third_frame, third_frame-Inv, startup-IsSane,
}

pub booted-IsSane : IsSane booted.fd.config
unfolding boot fd_init init_config get_ini_int get_ini_string
booted-IsSane = record {
  samples = λ e. absurd (omega arith);
  prunes = λ e. absurd (omega arith);
  limit = 200;
  limited = refl;
  positive = omega arith;
}

boot-InHistory_example :
    All (λ (t : FaceThread). All (InHistory with_thread.fd.history) t.faces) with_thread.fd.threads
    × All
        (λ (r : Saved). All (InHistory with_thread.fd.history) r.thread.faces)
        with_thread.fd.being_serialized
boot-InHistory_example =
    boot-InHistory no_settings (pos 5) (codes "now") booted-IsSane thread_reached

boot-total_example :
    ((t : Fd Fixed) × (collect_faces with_thread.fd ≡ some t))
    × ((m : ℤ) × (get_min_frame_to_keep with_thread.fd.threads with_thread.fd.being_serialized
          ≡ some m))
boot-total_example =
    let (tracks, collects, least, erases) =
      boot-total no_settings (pos 5) (codes "now") booted-IsSane thread_reached in
    (collects refl, least)

abbrev pub third_state : System Fixed
third_state = record { fd = third_frame; main = idle; pruner = waiting }

pub third_state-Valid : Valid third_state
third_state-Valid = record {
  base = 1;
  low = 1;
  high = 3;
  within = omega arith;
  sane = startup-IsSane;
  small = omega arith;
  inv = third_frame-Inv;
  main_ok = (refl, omega arith);
  pruner_ok = tt;
}

abbrev fourth_state : System Fixed
fourth_state = record third_state { fd = frame_arrives picture [] third_frame; main = arrived }

Step-Valid_example : Valid fourth_state
Step-Valid_example = Step-Valid (arrive picture [] refl) (omega arith) third_state-Valid

process_faces-Inv_example :
    (s' : Fd Fixed) × (process_faces picture (square 12 ∷ []) (pos 9) third_frame ≡ some s')
    × Inv 1 1 s'.processed_frame_counter s'
process_faces-Inv_example =
    let (s', run, inv, _, _, _, _) =
      process_faces-Inv {base = 1} {low = 1} picture (square 12 ∷ []) (pos 9) third_frame
        startup-IsSane third_frame-Inv (omega arith) in
    (s', run, inv)

process_faces-IsEmpty_example :
    (s' : Fd Fixed) × (process_faces picture (square 12 ∷ []) (pos 9) third_frame ≡ some s')
    × All IsEmpty s'.history
process_faces-IsEmpty_example =
    process_faces-IsEmpty {base = 1} {low = 1} picture (square 12 ∷ []) (pos 9) third_frame
      startup-IsSane third_frame-Inv (omega arith) (refl, (refl, (refl, tt)))

abbrev seen : HistoryEntry
seen = record (entry 4) { faces_seq = square 40 ∷ [] }

find_consensus_lem_example :
    All (FirstHeld (find_consensus (entry 3 ∷ seen ∷ []) no_consensus)) (entry 3 ∷ seen ∷ [])
find_consensus_lem_example = find_consensus_lem (entry 3 ∷ seen ∷ []) no_consensus
