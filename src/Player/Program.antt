-- ===== src/Player/Program.antt =====
-- `_tmain` of Detector/PlanetariumFD.cpp from `initAll` to its exits, with the steps of the threads that it
-- starts between its rounds.
use planetariumfd.Prelude.{
  ℕ, ◌≤◌, length, ◌≡◌, ◌≢◌, ℤ, pos, negsuc, eqb_ℤ, Bool, true, false, not, List, ◌++◌, Option, none,
  some, ◌>>=◌, Text, codes, if◌then◌else◌,
}
use planetariumfd.Float.{Float}
use planetariumfd.Geometry.{Rect}
use planetariumfd.Image.{Image}
use planetariumfd.Ini.{Platform}
use planetariumfd.State.{Fd, fd_init, startup}
use planetariumfd.System.{System, idle, waiting}
use planetariumfd.System.Invariant.{Valid}
use planetariumfd.Player.{
  MainSettings, init_all, capture_video_frame, Input, Drawing, input_loop, Playback, play_history,
}

-- What the program asks of the machine at its start: whether the camera, memory and the cascade could
-- be had, `createTracker`, the first image and the time; `fd_stored` and `stamp` are for `FdInit`.
pub record Machine (F : Type 0) : Type 0 where
  pub os : Platform F
  pub opened : Bool
  pub stored : Bool
  pub loaded : Bool
  pub create_tracker : Option Image → Bool
  pub first : Option Image
  pub now : ℤ
  pub fd_stored : Bool
  pub stamp : Text
  -- `cvFlip`, and `cvHaarDetectObjects` with the smallest size.
  pub flip : Image → Image
  pub haar : Image → ℤ → Option (List Rect)
  -- `cvCreateVideoWriter` for the playback, and the entries at which Esc is pressed.
  pub open_playback : Text → Bool
  pub escapes : ℤ → Bool
  -- What the other threads of control do in front of a round, and up to the playback. While the
  -- history is played, behind a `Sleep` of three seconds, it is taken as it then is.
  pub meanwhile : ℕ → System F → System F
  pub pause : System F → System F

-- How the program ends.
pub data Outcome (F : Type 0) : Type 0 where
  refused : Outcome F
  unplayed : System F → List (List Drawing) → Outcome F
  finished : System F → List (List Drawing) → Playback → Outcome F

-- The argument of `exitProgram`.
abbrev pub exit_code : {F : Type 0} → Outcome F → ℤ
exit_code refused = negsuc 0
exit_code (unplayed t drawn) = negsuc 0
exit_code (finished t drawn p) = pos 0

module _ {F : Type 0} ⦃fl : Float F⦄ (m : Machine F) where
  -- The globals behind `FdInit`.
  unfoldable pub started : Fd F
  unfolding fd_init
  started = (fd_init m.os m.now m.fd_stored m.stamp startup).1

  -- `FdInit` runs only if all that comes before it went well.
  abbrev pub behind_trackers : ℤ × MainSettings → ℤ × MainSettings × Fd F
  behind_trackers r = if eqb_ℤ r.0 (pos 0) then (r.0, r.1, startup) else (r.0, r.1, started)

  -- `initAll`: a first image is captured for the tracker, and the detector is started at the end.
  unfoldable pub start_up : MainSettings → ℤ × MainSettings × Fd F
  unfolding init_all capture_video_frame
  start_up c =
      let copy = (capture_video_frame m.flip m.first none).1 in
      behind_trackers (init_all m.os m.opened m.stored m.loaded (m.create_tracker copy) c)

  abbrev pub playback_path : MainSettings → Text
  playback_path c = c.output_playback_videos_dir ++ codes "\\playback.avi"

  unfoldable pub main_program : MainSettings → List Input → Option (Outcome F)
  main_program c inputs =
      let (code, c', d) = start_up c in
      let s : System F = record { fd = d; main = idle; pruner = waiting } in
      if eqb_ℤ code (pos 0) then some refused else (do
        (t, drawn) ← input_loop m.flip m.haar m.fd_stored m.meanwhile inputs 0 s
        (if not (m.open_playback (playback_path c')) then some (unplayed t drawn) else (do
          p ← play_history m.escapes (m.pause t).fd.history
          some (finished (m.pause t) drawn p))))

  -- Which way out was taken, and what the program leaves.
  abbrev pub EndsWith : MainSettings → Outcome F → Type 0
  EndsWith c refused = (start_up c).0 ≡ pos 0
  EndsWith c (unplayed t drawn) =
      ((start_up c).0 ≢ pos 0) × (m.open_playback (playback_path (start_up c).1) ≡ false) × Valid t
  EndsWith c (finished t drawn p) =
      ((start_up c).0 ≢ pos 0)
      × (m.open_playback (playback_path (start_up c).1) ≡ true)
      × Valid t
      × (length p.played ≤ length t.fd.history)
