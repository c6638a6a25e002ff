-- ===== src/Tests/Counting.antt =====
-- A run of the detector through its first frame, and the counters of its thread.
use planetariumfd.Prelude.{◌≡◌, refl, pos, [], ◌∷◌, some, codes, arith}
use planetariumfd.Float.Fixed.{Fixed, fixed}
use planetariumfd.Geometry.{Face}
use planetariumfd.Thread.{new_thread, add_new_face_to_thread}
use planetariumfd.State.{fd_init}
use planetariumfd.Ini.{get_ini_int, get_ini_string}
use planetariumfd.Config.{init_config}
use planetariumfd.Tracker.{first_lost}
use planetariumfd.Tracker.Match.{input_faces}
use planetariumfd.Process.{frame_arrives, match_frame}
use planetariumfd.System.{System, arrived, deleting, tracked, Step, arrive, track, begin_threads}
use planetariumfd.System.Invariant.{Reach, here, next, Timely}
use planetariumfd.System.Safety.{boot}
use planetariumfd.System.Counters.{AllCounted}
use planetariumfd.System.Counters.Steps.{Deleted, boot-AllCounted}
use planetariumfd.Tests.{no_settings, square, picture}

abbrev pub booted : System Fixed
booted = boot no_settings (pos 5) (codes "now")

abbrev pub with_frame : System Fixed
with_frame = record booted { fd = frame_arrives picture (square 10 ∷ []) booted.fd; main = arrived }

abbrev seen : Face
seen = record { rect = square 10; frame_id = pos 1 }

abbrev matched : System Fixed
matched = record with_frame {
  fd = record with_frame.fd {
    history = record { frame_id = pos 1; frame = some picture; faces_seq = [] } ∷ [];
  };
  main = deleting (seen ∷ []);
}

abbrev pub with_thread : System Fixed
with_thread = record matched {
  fd = record matched.fd { threads = record new_thread { faces = seen ∷ [] } ∷ [] };
  main = tracked;
}

face_matched : match_frame (pos 5) with_frame.fd ≡ some (matched.fd, seen ∷ [])
unfolding boot fd_init init_config get_ini_int get_ini_string frame_arrives match_frame input_faces
face_matched = refl

first_arrives : Step booted with_frame
unfolding boot
first_arrives = arrive picture (square 10 ∷ []) refl

first_arrives-Timely : Timely first_arrives
unfolding boot fd_init first_arrives
first_arrives-Timely = omega arith

frame_reached : Reach booted with_frame
frame_reached = next here first_arrives first_arrives-Timely

first_matched : Step with_frame matched
first_matched = track (pos 5) refl face_matched

first_matched-Timely : Timely first_matched
unfolding first_matched
first_matched-Timely = tt

first_begins : Step matched with_thread
unfolding boot fd_init first_lost add_new_face_to_thread frame_arrives
first_begins = begin_threads refl refl

first_begins-Timely : Timely first_begins
unfolding first_begins
first_begins-Timely = tt

pub thread_reached : Reach booted with_thread
thread_reached =
    next (next frame_reached first_matched first_matched-Timely) first_begins first_begins-Timely

boot-AllCounted_example :
    AllCounted with_thread.fd.processed_frame_counter with_thread.fd
    × Deleted with_thread.fd.config tracked with_thread.fd.threads
boot-AllCounted_example = boot-AllCounted no_settings (pos 5) (codes "now") thread_reached
