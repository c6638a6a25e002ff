-- ===== src/Player/Loop.antt =====
-- The input loop of Detector/PlanetariumFD.cpp, with steps of the other threads of control between its rounds.
use planetariumfd.Prelude.{
  ℕ, zero, suc, ◌+◌, ◌≤◌, ◌<◌, length, length-append, ap, ◌≡◌, ◌⊎◌, inl, inr, refl, sym, subst, ◌∙◌,
  ℤ, true, false, List, [], ◌∷◌, Option, none, some, arith, Bool-cases, Option-cases, ◌≢◌,
}
use planetariumfd.Float.{Float}
use planetariumfd.Geometry.{Rect}
use planetariumfd.Image.{Image}
use planetariumfd.State.{Fd}
use planetariumfd.Tracker.Laws.{IsSane}
use planetariumfd.Invariant.{Inv}
use planetariumfd.Process.{process_faces, frame_arrives}
use planetariumfd.Process.Laws.{process_faces-Inv, length-empty_newest}
use planetariumfd.System.{System, idle}
use planetariumfd.System.Invariant.{Valid, Reach, MainOk, PrunerOk-mono}
use planetariumfd.System.Preservation.{Reach-Valid}
use planetariumfd.Player.{
  Input, input_loop, input_round, captured_or_end, detect_faces, capture_video_frame, min_face_size,
  Drawing, draw_faces,
}

-- The first round reads an image or ends; later rounds may find the end of the video.
abbrev pub Reads : ℕ → List Input → Type 0
Reads zero (i ∷ is) = (i.escape ≡ true) ⊎ ((img : Image) × (i.image ≡ some img))
Reads n is = Unit

captures :
    (flip : Image → Image) (img : Image)
    → (copy : Image) × (capture_video_frame flip (some img) none ≡ (true, some copy))
unfolding capture_video_frame
captures flip img = (_, refl)

captures_none : (flip : Image → Image) → capture_video_frame flip none none ≡ (false, none)
unfolding capture_video_frame
captures_none flip = refl

not_first :
    (n : ℕ) (i : Input) (is : List Input)
    → Reads n (i ∷ is)
    → i.escape ≡ false
    → i.image ≡ none
    → n ≢ 0
not_first zero i is (inl e) on over = cc
not_first zero i is (inr (img, e)) on over = cc
not_first (suc n) i is r on over = λ e. absurd (omega arith)

Reads-later : (n : ℕ) (is : List Input) → Reads (n + 1) is
Reads-later n is = subst (λ k. Reads k is) (let q : suc n ≡ n + 1 = omega arith in q) (later is)
  where
    later : (js : List Input) → Reads (suc n) js
    later [] = tt
    later (j ∷ js) = tt

module _ {F : Type 0} ⦃fl : Float F⦄ where
  -- What the other threads of control do while the main thread is outside `FdProcessFaces`: steps of
  -- System.antt, none of them of the main thread.
  pub record Meanwhile (s t : System F) : Type 0 where
    pub steps : Reach s t
    pub same_main : t.main ≡ s.main
    pub same_frames : t.fd.processed_frame_counter ≡ s.fd.processed_frame_counter

  -- `FdProcessFaces` in a valid state of the system.
  process_faces-Valid :
      (img : Image) (rects : List Rect) (now : ℤ) (s : System F)
      → Valid s
      → s.main ≡ idle
      → s.fd.processed_frame_counter + 1 < 2147483647
      → (d : Fd F) × (process_faces img rects now s.fd ≡ some d)
        × Valid (record s { fd = d })
        × (d.processed_frame_counter ≡ s.fd.processed_frame_counter + 1)
  unfolding frame_arrives
  process_faces-Valid img rects now s v outside small =
      let counter = s.fd.processed_frame_counter in
      let (same, le) =
        subst (λ p. MainOk p v.low v.high counter (length s.fd.history)) outside v.main_ok in
      let (d, run, inv, next, shown, config, history) =
        process_faces-Inv img rects now s.fd v.sane
          (subst (λ h. Inv v.base v.low h s.fd) same v.inv) le in
      let longer : length d.history ≡ length s.fd.history + 1 = omega (
        arith,
        ap length history,
        length-empty_newest (frame_arrives img rects s.fd).history,
        length-append s.fd.history,
      ) in
      let ok : MainOk idle v.low d.processed_frame_counter d.processed_frame_counter
          (length d.history) =
        (refl, omega (arith, next)) in
      (
        d,
        run,
        record {
          base = v.base;
          low = v.low;
          high = d.processed_frame_counter;
          within = v.within;
          sane = subst IsSane (sym config) v.sane;
          small = omega (arith, next);
          inv = inv;
          main_ok =
              subst
                (λ p.
                  MainOk p v.low d.processed_frame_counter d.processed_frame_counter
                    (length d.history))
                (sym outside) ok;
          pruner_ok =
              PrunerOk-mono s.pruner v.low v.low counter d.processed_frame_counter
                (length s.fd.history) (length d.history) (omega arith) (omega (arith, next))
                (omega (arith, longer)) v.pruner_ok;
        },
        next,
      )

module _ {F : Type 0} ⦃fl : Float F⦄ (flip : Image → Image) (haar : Image → ℤ → Option (List Rect))
    (detects : (img : Image) (size : ℤ) → (seqs : List Rect) × (haar img size ≡ some seqs))
    (meanwhile : ℕ → System F → System F)
    (others : (n : ℕ) (s : System F) → s.main ≡ idle → Meanwhile s (meanwhile n s)) where
  input_round_lem :
      (copy : Image) (now : ℤ) (n : ℕ) (s : System F)
      → Valid s
      → s.main ≡ idle
      → s.fd.processed_frame_counter + 1 < 2147483647
      → (t : System F) × (drawn : List Drawing) × (input_round flip haar true meanwhile copy now n s
          ≡ some (t, drawn))
        × Valid t
        × (t.main ≡ idle)
        × (t.fd.processed_frame_counter ≡ s.fd.processed_frame_counter + 1)
  unfolding input_round detect_faces
  input_round_lem copy now n s v outside small =
      let (seqs, found) = detects copy (min_face_size copy) in
      let (d, run, valid, next) = process_faces-Valid copy seqs now s v outside small in
      (
        record s { fd = d },
        draw_faces n 0 d.faces_in_current_frame,
        rw found (rw run refl),
        valid,
        outside,
        next,
      )

  after_end :
      (go : Image → Option (System F × List (List Drawing))) (n : ℕ) (s : System F)
      → n ≢ 0
      → captured_or_end flip haar true meanwhile (false, none) n go s ≡ some (s, [])
  after_end go zero s h = absurd (h refl)
  after_end go (suc n) s h = refl

  -- If `FdInit` has initialised the locks, the detector always returns a sequence, the camera delivers
  -- a first frame, the state is valid, frame numbers stay below `INT_MAX`, and the other threads of
  -- control make, between any two rounds, any of their steps that keep the time limit for an erasure:
  -- then the input loop ends without a fault, in a valid state, whatever is read and detected.
  pub input_loop_lem :
      (is : List Input) (n : ℕ) (s : System F)
      → Valid s
      → s.main ≡ idle
      → s.fd.processed_frame_counter + length is < 2147483647
      → Reads n is
      → (t : System F) × (drawn : List (List Drawing)) × (input_loop flip haar true meanwhile is n s
          ≡ some (t, drawn))
        × Valid t
        × (t.main ≡ idle)
        × (length drawn ≤ length is)
  unfolding input_loop
  input_loop_lem [] n s v outside small reads = (s, [], refl, v, outside, omega arith)
  input_loop_lem (i ∷ is) n s v outside small reads = elim (Bool-cases i.escape) [
    | inl pressed ↦ (s, [], rw pressed refl, v, outside, omega arith)
    | inr on ↦ elim (Option-cases i.image) [
      | inl over ↦ (
        s,
        [],
        rw on
            (rw over (rw (captures_none flip) (after_end _ n s (not_first n i is reads on over)))),
        v,
        outside,
        omega arith,
      )
      | inr (img, read) ↦
          let (copy, cap) = captures flip img in
          let m = others (n + 1) s outside in
          let (t, drawn, ran, valid, outside', next) =
            input_round_lem copy i.now (n + 1) (meanwhile (n + 1) s) (Reach-Valid v m.steps)
              (m.same_main ∙ outside) (omega (arith, m.same_frames)) in
          let (u, rest, looped, valid', outside'', few) =
            input_loop_lem is (n + 1) t valid outside' (omega (arith, next, m.same_frames))
              (Reads-later n is) in
          (
            u,
            drawn ∷ rest,
            rw on (rw read (rw cap (rw ran (rw looped refl)))),
            valid',
            outside'',
            omega arith,
          )
    ]
  ]

-- Where `FdInit` has not initialised the locks, a round does not get past the first one.
pub input_loop-unready :
    {F : Type 0} ⦃fl : Float F⦄ (flip : Image → Image) (haar : Image → ℤ → Option (List Rect))
    (meanwhile : ℕ → System F → System F) (i : Input) (is : List Input) (n : ℕ) (s : System F)
    (img : Image) (seqs : Image → List Rect)
    → i.escape ≡ false
    → i.image ≡ some img
    → ((copy : Image) (size : ℤ) → haar copy size ≡ some (seqs copy))
    → input_loop flip haar false meanwhile (i ∷ is) n s ≡ none
unfolding input_loop input_round detect_faces
input_loop-unready flip haar meanwhile i is n s img seqs on read detects =
    let (copy, cap) = captures flip img in
    rw on (rw read (rw cap (rw (detects copy (min_face_size copy)) refl)))
