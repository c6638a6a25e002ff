-- ===== src/Tests/Interleaved.antt =====
-- The theorems on a saving thread among the other threads of control, on concrete inputs.
use planetariumfd.Prelude.{
  ◌≡◌, refl, ℕ, pos, ◌+◌, ◌*◌, ◌≤◌, false, List, [], ◌∷◌, some, arith, ◌⊎◌, codes, Text, decimal,
}
use planetariumfd.Float.Fixed.{Fixed, fixed}
use planetariumfd.Thread.{prune_faces_list}
use planetariumfd.State.{Fd}
use planetariumfd.Register.{Registered, register_output_file}
use planetariumfd.Process.{frame_arrives}
use planetariumfd.System.{System, idle, arrived, waiting, arrive}
use planetariumfd.System.Invariant.{Valid}
use planetariumfd.SaveThread.{
  Images, Video, save_thread_images, save_thread_video, skip_to, video_faces,
}
use planetariumfd.Saver.{
  Saver, SaverPc, ended, advance, run_alone, image_round, frame_round, begin_images, begin_film,
  open_film, entries_from,
}
use planetariumfd.Saver.Watched.{Watched, own, other, Turns, none_yet, and_then}
use planetariumfd.Saver.Turns.{own_turns}
use planetariumfd.Saver.Safety.{new_saver, saver_total, saver_finishes}
use planetariumfd.Saver.Refinement.{images_refine, video_refine}
use planetariumfd.Tests.{settings, picture, third_frame, third_frame-Inv, lost_thread, working}

-- Two frames are enough for a video.
abbrev short_videos : Fd Fixed
short_videos = record third_frame { config = record settings { min_frames_for_video = pos 2 } }

abbrev saving : System Fixed
saving = record { fd = short_videos; main = idle; pruner = waiting }

saving-Valid : Valid saving
saving-Valid = record {
  base = 1;
  low = 1;
  high = 3;
  within = omega arith;
  sane = record {
    samples = λ e. absurd (omega arith);
    prunes = λ e. absurd (omega arith);
    limit = 200;
    limited = refl;
    positive = omega arith;
  };
  small = omega arith;
  inv = record {
    run = third_frame-Inv.run;
    covers = third_frame-Inv.covers;
    tracks = third_frame-Inv.tracks;
    saved = third_frame-Inv.saved;
    ascending = third_frame-Inv.ascending;
  };
  main_ok = (refl, omega arith);
  pruner_ok = tt;
}

abbrev server : Text
server = codes "http://localhost/"

abbrev at_start : Watched Fixed
at_start = record { system = saving; saver = new_saver }

-- The thread is trimmed, and a frame arrives.
abbrev trimmed : Watched Fixed
trimmed = record at_start { saver = record { pc = planetariumfd.Saver.images_due; files = [] } }

first_turn : Turns working server 0 at_start trimmed
unfolding advance prune_faces_list
first_turn = and_then none_yet (own refl)

abbrev joined : Watched Fixed
joined = record trimmed {
  system = record saving { fd = frame_arrives picture [] short_videos; main = arrived };
}

two_turns : Turns working server 0 at_start joined
two_turns = and_then first_turn (other (arrive picture [] refl) (omega arith) tt)

saver_total_example :
    (own_turns working server 0 3 two_turns ≤ 5 + 3 * (3 + 2))
    × ((joined.saver.pc ≡ ended (pos 0))
        ⊎ ((t : Fd Fixed × Saver) × (advance fixed working server 0 joined.system.fd joined.saver
              ≡ some t)))
saver_total_example =
    saver_total working server 0 3 saving-Valid lost_thread.thread refl
      (omega arith, (omega arith, tt)) two_turns

saver_finishes_example :
    (t : Fd Fixed) × (files : List Registered) × (run_alone fixed working server 0
        (5 + 3 * (3 + 2))
        joined.system.fd
        joined.saver
      ≡ some (t, record { pc = ended (pos 0); files = files }))
saver_finishes_example =
    saver_finishes working server 0 3 saving-Valid lost_thread.thread refl
      (omega arith, (omega arith, tt)) two_turns

images_refine_example :
    (images : Images) × (save_thread_images working joined.system.fd lost_thread.thread []
      ≡ some (1, images))
unfolding advance image_round begin_images skip_to entries_from frame_arrives
images_refine_example = (
  _,
  images_refine working server 0 saving-Valid lost_thread.thread refl two_turns lost_thread.thread
      refl _ _ refl none_yet _ _ refl refl refl,
)

abbrev number : ℕ → Fd Fixed → Fd Fixed
number n s = record s { image_series_cnt = n }

-- The image is saved and registered, the next stretch is the first video.
abbrev first_video : Watched Fixed
unfolding register_output_file
first_video = record {
  system = record joined.system { fd = number 1 joined.system.fd };
  saver = record {
    pc = planetariumfd.Saver.video_due false;
    files = register_output_file server (codes "__1_0.jpg") ∷ [];
  };
}

four_turns : Turns working server 0 at_start first_video
unfolding advance image_round begin_images skip_to entries_from register_output_file frame_arrives
    decimal first_video
four_turns = and_then (and_then two_turns (own refl)) (own refl)

video_refine_example :
    (video : Video) × (save_thread_video fixed working first_video.system.fd lost_thread.thread []
        false
      ≡ some (2, video))
unfolding advance frame_round begin_film open_film video_faces skip_to entries_from first_video
    frame_arrives
video_refine_example = (
  _,
  video_refine working server 0 saving-Valid lost_thread.thread refl four_turns lost_thread.thread
      refl _ _ refl (and_then (and_then (and_then none_yet (own refl)) (own refl)) (own refl)) false
      _ _ refl refl refl,
)
