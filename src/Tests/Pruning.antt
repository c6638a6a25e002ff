-- ===== src/Tests/Pruning.antt =====
-- The theorem on the erasing loop, on a concrete history.
use planetariumfd.Prelude.{ℕ, zero, suc, refl, pos, List, [], ◌∷◌, arith}
use planetariumfd.Float.Fixed.{Fixed, fixed}
use planetariumfd.State.{HistoryEntry}
use planetariumfd.System.{System, idle, erasing, asleep}
use planetariumfd.System.Invariant.{Reach}
use planetariumfd.System.Pruning.{Pruned, with_history, prune_loop_refine}
use planetariumfd.Tests.{entry, third_frame}

abbrev entries_from_on : ℕ → ℕ → List HistoryEntry
entries_from_on n zero = []
entries_from_on n (suc k) = entry n ∷ entries_from_on (suc n) k

abbrev long_history : List HistoryEntry
long_history = entries_from_on 1 25

abbrev pruning : System Fixed
pruning = record {
  fd = record third_frame { processed_frame_counter = 25; history = long_history };
  main = idle;
  pruner = erasing (pos 3) 25 25;
}

prune_loop_refine_example :
    (p : Pruned (pos 3) 25 long_history) × Reach pruning
      (with_history (pos 3) 25 pruning pruning (p.first ∷ p.others) asleep)
prune_loop_refine_example =
    prune_loop_refine (pos 3) 25 pruning 25 refl (omega arith) (omega arith) (omega arith)
