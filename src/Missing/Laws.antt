-- ===== src/Missing/Laws.antt =====
-- `addMissingFrames` of Detector/FaceProcessor.cpp: gaps in the frames of a list.
use planetariumfd.Prelude.{
  ℕ, zero, suc, ◌+◌, ◌-◌, ◌≡◌, refl, sym, ap, subst, ◌∙◌, inl, inr, ℤ, pos, negsuc, ◌+ℤ◌, ◌-ℤ◌,
  ◌≤ℤ◌, ◌<ℤ◌, eqb_ℤ, eqb_ℤ→eq, int_laws, Bool, true, false, List, [], ◌∷◌, ◌++◌, some, length,
  back_from, arith, Bool-cases, pos_part, neg_part,
}
use planetariumfd.Float.{Float}
use planetariumfd.Geometry.{Face}
use planetariumfd.Thread.Laws.{IsRising}
use planetariumfd.Missing.{face_between, faces_between, gap_rounds, fill, add_missing_frames}

-- One face in each frame after `low`.
abbrev pub IsConsecutive : ℤ → List Face → Type 0
IsConsecutive low [] = Unit
IsConsecutive low (f ∷ fs) = (f.frame_id ≡ low +ℤ pos 1) × IsConsecutive f.frame_id fs

-- A list with further faces between its elements.
pub data Within : List Face → List Face → Type 0 where
  done : Within [] []
  given : {f : Face} {fs gs : List Face} → Within fs gs → Within (f ∷ fs) (f ∷ gs)
  added : {g : Face} {fs gs : List Face} → Within fs gs → Within fs (g ∷ gs)

pub Within-self : (fs : List Face) → Within fs fs
Within-self [] = done
Within-self (f ∷ fs) = given (Within-self fs)

Within-append : (new fs gs : List Face) → Within fs gs → Within fs (new ++ gs)
Within-append [] fs gs w = w
Within-append (n ∷ new) fs gs w = added (Within-append new fs gs w)

-- In the loop over a gap the frames go up one by one, to the frame of the face behind it.
gap_rounds_lem :
    (low high d : ℤ) → low +ℤ d ≡ high → low <ℤ high → low +ℤ pos (1 + gap_rounds d) ≡ high
gap_rounds_lem low high (pos zero) e h = absurd (
    let p : pos_part (low +ℤ pos 0) + neg_part low ≡ neg_part (low +ℤ pos 0) + pos_part low =
      omega int_laws in
    let h' : low <ℤ (low +ℤ pos 0) = subst (λ z. low <ℤ z) (sym e) h in omega arith)
gap_rounds_lem low high (pos (suc n)) e h =
    ap (λ k. low +ℤ pos k) (let q : 1 + (suc n - 1) ≡ suc n = omega arith in q) ∙ e
gap_rounds_lem low high (negsuc n) e h =
    absurd (let h' : low <ℤ (low +ℤ negsuc n) = subst (λ z. low <ℤ z) (sym e) h in omega int_laws)

diff_lem : (a b : ℤ) → a +ℤ (b -ℤ a) ≡ b
diff_lem a b = omega int_laws

module _ {F : Type 0} (fl : Float F) where
  faces_between-IsConsecutive :
      (prev f : Face) (rounds i : ℕ) (low : ℤ) (rest : List Face)
      → low +ℤ pos 1 ≡ prev.frame_id +ℤ pos i
      → ((last : ℤ) → last +ℤ pos 1 ≡ prev.frame_id +ℤ pos (i + rounds) → IsConsecutive last rest)
      → IsConsecutive low (faces_between fl prev f rounds i ++ rest)
  unfolding faces_between face_between
  faces_between-IsConsecutive prev f zero i low rest e h =
      h low (e ∙ ap (λ n. prev.frame_id +ℤ pos n) (let q : i ≡ i + 0 = omega arith in q))
  faces_between-IsConsecutive prev f (suc rounds) i low rest e h = (
    sym e,
    faces_between-IsConsecutive prev f rounds (suc i) (prev.frame_id +ℤ pos i) rest (omega int_laws)
        λ last q. h last (
          q
          ∙ ap (λ n. prev.frame_id +ℤ pos n)
              (let q' : suc i + rounds ≡ i + suc rounds = omega arith in q')),
  )

  fill-IsConsecutive :
      (prev : Face) (fs : List Face)
      → IsRising prev.frame_id fs
      → IsConsecutive prev.frame_id (fill fl prev fs)
  unfolding fill
  fill-IsConsecutive prev [] r = tt
  fill-IsConsecutive prev (f ∷ fs) (lt, r) =
      let d = f.frame_id -ℤ prev.frame_id in
      let up = gap_rounds_lem prev.frame_id f.frame_id d (diff_lem prev.frame_id f.frame_id) lt in
      faces_between-IsConsecutive prev f (gap_rounds d) 1 prev.frame_id (f ∷ fill fl f fs) refl
        λ last q. (sym (q ∙ up), fill-IsConsecutive f fs r)

  fill-Within : (prev : Face) (fs : List Face) → Within fs (fill fl prev fs)
  unfolding fill
  fill-Within prev [] = done
  fill-Within prev (f ∷ fs) = Within-append _ (f ∷ fs) (f ∷ fill fl f fs) (given (fill-Within f fs))

  -- The last face is the same.
  back_from-between :
      (f : Face) (new : List Face) (g : Face) (gs : List Face)
      → back_from f (new ++ (g ∷ gs)) ≡ back_from g gs
  back_from-between f [] g gs = refl
  back_from-between f (n ∷ new) g gs = back_from-between n new g gs

  back_from-fill :
      (prev : Face) (fs : List Face) → back_from prev (fill fl prev fs) ≡ back_from prev fs
  unfolding fill
  back_from-fill prev [] = refl
  back_from-fill prev (f ∷ fs) =
      back_from-between prev (faces_between fl prev f (gap_rounds (f.frame_id -ℤ prev.frame_id)) 1)
        f (fill fl f fs)
      ∙ back_from-fill f fs

-- A rising list is at least as long in frames as in elements; if it is no longer, no frame is missing.
rising_bound :
    (f : Face) (fs : List Face)
    → IsRising f.frame_id fs
    → (f.frame_id +ℤ pos (length fs)) ≤ℤ (back_from f fs).frame_id
rising_bound f [] r = omega int_laws
rising_bound f (g ∷ gs) (lt, r) = omega (int_laws, rising_bound g gs r)

tight-IsConsecutive :
    (f : Face) (fs : List Face)
    → IsRising f.frame_id fs
    → (back_from f fs).frame_id ≤ℤ (f.frame_id +ℤ pos (length fs))
    → IsConsecutive f.frame_id fs
tight-IsConsecutive f [] r e = tt
tight-IsConsecutive f (g ∷ gs) (lt, r) e =
    (omega (int_laws, rising_bound g gs r), tight-IsConsecutive g gs r (omega int_laws))

-- A list with one face in each frame has as many faces as frames.
IsConsecutive-stretch :
    (f : Face) (fs : List Face)
    → IsConsecutive f.frame_id fs
    → (back_from f fs).frame_id ≡ f.frame_id +ℤ pos (length fs)
IsConsecutive-stretch f [] c = omega int_laws
IsConsecutive-stretch f (g ∷ gs) (e, c) =
    let q = IsConsecutive-stretch g gs c in
    omega (int_laws, ap pos_part q, ap neg_part q, ap pos_part e, ap neg_part e)

module _ {F : Type 0} (fl : Float F) where
  -- If the frames of a nonempty list rise, `addMissingFrames` ends and leaves one face in each frame
  -- from the first to the last. The given faces are among them in their order, the first and the
  -- last ones are the same, and if the result `false` says that nothing was modified, nothing was.
  pub add_missing_frames_lem :
      (f : Face) (fs : List Face)
      → IsRising f.frame_id fs
      → (modified : Bool) × (gs : List Face) × (add_missing_frames fl (f ∷ fs)
          ≡ some (modified, f ∷ gs))
        × IsConsecutive f.frame_id gs
        × Within fs gs
        × (back_from f gs ≡ back_from f fs)
        × (modified ≡ false → gs ≡ fs)
  unfolding add_missing_frames
  add_missing_frames_lem f fs r =
      elim (Bool-cases
        (eqb_ℤ ((back_from f fs).frame_id -ℤ f.frame_id +ℤ pos 1) (pos (length (f ∷ fs))))) [
          | inl same ↦
              let e : (back_from f fs).frame_id -ℤ f.frame_id +ℤ pos 1 ≡ pos (length (f ∷ fs)) =
                eqb_ℤ→eq _ _ same in
              (
                false,
                fs,
                rw same,
                tight-IsConsecutive f fs r (omega (int_laws, ap pos_part e, ap neg_part e)),
                Within-self fs,
                refl,
                λ q. refl,
              )
          | inr less ↦ (
            true,
            fill fl f fs,
            rw less,
            fill-IsConsecutive fl f fs r,
            fill-Within fl f fs,
            back_from-fill fl f fs,
            λ q. cc,
          )
        ]
