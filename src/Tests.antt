-- ===== src/Tests.antt =====
-- Concrete inputs for the tests: a machine, settings, frames, faces and a state of the detector.
use planetariumfd.Prelude.{
  ℕ, zero, suc, ◌+◌, ◌≤◌, ◌<◌, ◌≡◌, refl, ℤ, pos, negsuc, Bool, true, false, List, [], ◌∷◌, Option,
  none, some, Text, codes, arith, All,
}
use planetariumfd.Float.{Float}
use planetariumfd.Float.Fixed.{Fixed, fixed}
use planetariumfd.Geometry.{Rect, Face}
use planetariumfd.Image.{Image}
use planetariumfd.Ini.{Platform, get_ini_string, get_ini_int, get_ini_float}
use planetariumfd.Config.{Config, startup_config, init_config}
use planetariumfd.Thread.{FaceThread}
use planetariumfd.Thread.Laws.{IsTrack}
use planetariumfd.State.{HistoryEntry, Saved, Fd, fd_init, startup}
use planetariumfd.Tracker.Laws.{IsSane}
use planetariumfd.History.Runs.{IsRun}
use planetariumfd.Invariant.{Inv}
use planetariumfd.SaveThread.{Media}
mod Tracking
mod Running
mod Saving
mod Files
mod Interleaved
mod Program
mod Pruning
mod Counting
mod Names

-- A machine whose files give no setting, so that all have their defaults.
abbrev pub no_settings : Platform Fixed
no_settings = record {
  current_directory = codes "C:";
  profile_string = λ section key default_value path. default_value;
  scan_float = λ text. none;
  beyond_int = λ n. pos 0;
}

abbrev pub settings : Config Fixed
settings = startup_config

abbrev pub square : ℕ → Rect
square n = record { x = pos n; y = pos 20; width = pos 30; height = pos 30 }

abbrev pub face_in : ℕ → Face
face_in n = record { rect = square 10; frame_id = pos n }

abbrev pub thread_with : List Face → FaceThread
thread_with fs = record {
  faces = fs;
  total_count = 5;
  missed_count = 1;
  non_missed_count = 4;
  consecutive_missed_count = 0;
}

abbrev pub picture : Image
picture = record {
  width = pos 640;
  height = pos 480;
  depth = pos 8;
  channels = pos 3;
  origin = pos 0;
  pixels = 1 ∷ 2 ∷ [];
}

abbrev pub entry : ℕ → HistoryEntry
entry n = record { frame_id = pos n; frame = some picture; faces_seq = [] }

abbrev pub track : List Face
track = face_in 1 ∷ face_in 2 ∷ []

abbrev pub gappy : List Face
gappy = face_in 1 ∷ face_in 3 ∷ []

abbrev pub entries : List HistoryEntry
entries = entry 1 ∷ entry 2 ∷ entry 3 ∷ []

abbrev pub lost_thread : Saved
lost_thread = record { address = 0; thread = thread_with gappy }

-- Behind the third frame: one thread is tracked, another is being saved.
abbrev pub third_frame : Fd Fixed
third_frame = record startup {
  processed_frame_counter = 3;
  history = entries;
  threads = thread_with track ∷ [];
  being_serialized = lost_thread ∷ [];
  next_address = 1;
}

pub track-IsTrack : IsTrack 1 3 track
track-IsTrack = (omega arith, (omega arith, tt), (omega arith, (omega arith, tt)))

pub gappy-IsTrack : IsTrack 1 3 gappy
gappy-IsTrack = (omega arith, (omega arith, tt), (omega arith, (omega arith, tt)))

pub entries-IsRun : IsRun 1 entries
entries-IsRun = (refl, (picture, refl), (refl, (picture, refl), (refl, (picture, refl), tt)))

pub startup-IsSane : IsSane settings
startup-IsSane = record {
  samples = λ e. absurd (omega arith);
  prunes = λ e. absurd (omega arith);
  limit = 200;
  limited = refl;
  positive = omega arith;
}

pub third_frame-Inv : Inv 1 1 3 third_frame
third_frame-Inv = record {
  run = entries-IsRun;
  covers = refl;
  tracks = (track-IsTrack, tt);
  saved = (gappy-IsTrack, tt);
  ascending = (omega arith, omega arith);
}

-- OpenCV without a failure.
abbrev pub working : Media Fixed
working = record {
  save_image = λ p. true;
  create_image = λ width height depth channels. true;
  open_video = λ path fps width height. true;
  write_frame = λ n p. true;
}
