-- ===== src/Tests/Program.antt =====
-- The theorems on the main program, on a concrete machine and camera, while the pruning thread looks at the
-- length of the history between the rounds.
use planetariumfd.Prelude.{
  ℕ, ◌≡◌, refl, subst, inr, inl, pos, true, false, ℤ, Option, Bool-cases, ltb, length, List, [],
  ◌∷◌, some, codes, arith, if◌then◌else◌,
}
use planetariumfd.Float.Fixed.{Fixed, fixed}
use planetariumfd.Geometry.{Rect}
use planetariumfd.Image.{Image}
use planetariumfd.System.{
  System, PrunerPc, idle, waiting, awake, erasing, asleep, begin_pruning, wake_up,
}
use planetariumfd.System.Invariant.{Reach, here, next, Valid}
use planetariumfd.Player.{Input, MainSettings, Drawing, input_loop}
use planetariumfd.Player.Loop.{Meanwhile, input_loop_lem}
use planetariumfd.Player.Program.{Machine}
use planetariumfd.Tests.{no_settings, picture, square}
use planetariumfd.Tests.Running.{third_state, third_state-Valid}

-- The pruning thread leaves its first loop when the list is long, and wakes up.
abbrev looked : PrunerPc → ℕ → PrunerPc
looked waiting size = if ltb 20 size then awake size else waiting
looked (awake n) size = awake n
looked (erasing m at n) size = erasing m at n
looked asleep size = awake size

abbrev looks : System Fixed → System Fixed
looks s = record s { pruner = looked s.pruner (length s.fd.history) }

unmoved : (s : System Fixed) (p : PrunerPc) → s.pruner ≡ p → Reach s (record s { pruner = p })
unmoved s p e = subst (λ q. Reach s (record s { pruner = q })) e here

looks_steps :
    (s : System Fixed) (p : PrunerPc)
    → s.pruner ≡ p
    → Reach s (record s { pruner = looked p (length s.fd.history) })
looks_steps s waiting e = elim (Bool-cases (ltb 20 (length s.fd.history))) [
  | inl long ↦ rw long (next here (begin_pruning e (ground arith)) tt)
  | inr short ↦ rw short (unmoved s waiting e)
]
looks_steps s (awake n) e = unmoved s (awake n) e
looks_steps s (erasing m at n) e = unmoved s (erasing m at n) e
looks_steps s asleep e = next here (wake_up e) tt

looks-Meanwhile : (s : System Fixed) → s.main ≡ idle → Meanwhile s (looks s)
looks-Meanwhile s e = record {
  steps = looks_steps s s.pruner refl;
  same_main = refl;
  same_frames = refl;
}

abbrev desk : Machine Fixed
desk = record {
  os = no_settings;
  opened = true;
  stored = true;
  loaded = true;
  create_tracker = λ copy. true;
  first = some picture;
  now = pos 5;
  fd_stored = true;
  stamp = codes "now";
  flip = λ img. img;
  haar = λ img size. some (square 10 ∷ []);
  open_playback = λ path. true;
  escapes = λ frame. false;
  meanwhile = λ n s. looks s;
  pause = looks;
}

-- Memory for the detector's history cannot be had.
abbrev small_desk : Machine Fixed
small_desk = record desk { fd_stored = false }

abbrev unset : MainSettings
unset = record { cam_id = pos 0; opencv_root = []; output_playback_videos_dir = [] }

abbrev two_rounds : List Input
two_rounds =
    record { escape = false; image = some picture; now = pos 9 }
    ∷ record { escape = true; image = some picture; now = pos 10 }
    ∷ []

abbrev one_face : Image → ℤ → Option (List Rect)
one_face img size = some (square 10 ∷ [])

input_loop_lem_example :
    (t : System Fixed) × (drawn : List (List Drawing)) × (input_loop
        (λ img. img)
        one_face
        true
        (λ n s. looks s)
        two_rounds
        3
        third_state
      ≡ some (t, drawn))
    × Valid t
input_loop_lem_example =
    let (t, drawn, run, valid, _, _) =
      input_loop_lem (λ img. img) one_face (λ img size. (square 10 ∷ [], refl)) (λ n s. looks s)
        (λ n s e. looks-Meanwhile s e) two_rounds 3 third_state third_state-Valid refl (omega arith)
        tt in
    (t, drawn, run, valid)
