-- ===== src/SaveThread/Played.antt =====
-- The faces that `saveThreadVideo` writes: a thread's own, or, filled and smoothed, one for each frame.
use planetariumfd.Prelude.{
  ℕ, ◌≡◌, sym, ap, subst, ◌∙◌, ℤ, pos, ◌≤ℤ◌, ◌<ℤ◌, Bool, true, false, List, [], ◌∷◌, some, arith,
  int_laws, All, All₂, back_from, pos_part, neg_part,
}
use planetariumfd.Float.{Float}
use planetariumfd.Geometry.{Face}
use planetariumfd.Thread.Laws.{IsRising, IsUpTo, IsTrack}
use planetariumfd.Missing.Laws.{IsConsecutive, add_missing_frames_lem}
use planetariumfd.Smooth.Laws.{frame_ids, smooth_face_series_lem}
use planetariumfd.Missing.{add_missing_frames}
use planetariumfd.Smooth.{smooth_face_series}
use planetariumfd.SaveThread.{video_faces}

-- Two lists with the same frames.
abbrev SameFrames : List Face → List Face → Type 0
SameFrames = All₂ (λ (g f : Face). g.frame_id ≡ f.frame_id)

frame_ids-SameFrames : (gs fs : List Face) → frame_ids gs ≡ frame_ids fs → SameFrames gs fs
frame_ids-SameFrames [] [] e = tt
frame_ids-SameFrames [] (f ∷ fs) e = cc
frame_ids-SameFrames (g ∷ gs) [] e = cc
frame_ids-SameFrames (g ∷ gs) (f ∷ fs) e = (
  (let q : g.frame_id ≡ f.frame_id = cc in q),
  frame_ids-SameFrames gs fs (let q : frame_ids gs ≡ frame_ids fs = cc in q),
)

IsRising-same : (a : ℤ) (gs fs : List Face) → SameFrames gs fs → IsRising a fs → IsRising a gs
IsRising-same a [] [] e r = tt
IsRising-same a [] (f ∷ fs) e r = absurd e
IsRising-same a (g ∷ gs) [] e r = absurd e
IsRising-same a (g ∷ gs) (f ∷ fs) (e, es) (lt, r) = (
  subst (λ z. a <ℤ z) (sym e) lt,
  subst (λ z. IsRising z gs) (sym e) (IsRising-same f.frame_id gs fs es r),
)

upto_same :
    (high : ℕ) (gs fs : List Face) → SameFrames gs fs → All (IsUpTo high) fs → All (IsUpTo high) gs
upto_same high [] [] e u = tt
upto_same high [] (f ∷ fs) e u = absurd e
upto_same high (g ∷ gs) [] e u = absurd e
upto_same high (g ∷ gs) (f ∷ fs) (e, es) (u, us) =
    (subst (λ z. z ≤ℤ pos high) (sym e) u, upto_same high gs fs es us)

IsConsecutive-same :
    (a : ℤ) (gs fs : List Face) → SameFrames gs fs → IsConsecutive a fs → IsConsecutive a gs
IsConsecutive-same a [] [] e c = tt
IsConsecutive-same a [] (f ∷ fs) e c = absurd e
IsConsecutive-same a (g ∷ gs) [] e c = absurd e
IsConsecutive-same a (g ∷ gs) (f ∷ fs) (e, es) (c, cs) =
    (e ∙ c, subst (λ z. IsConsecutive z gs) (sym e) (IsConsecutive-same f.frame_id gs fs es cs))

back_same :
    (g f : Face) (gs fs : List Face)
    → g.frame_id ≡ f.frame_id
    → SameFrames gs fs
    → (back_from g gs).frame_id ≡ (back_from f fs).frame_id
back_same g f [] [] e es = e
back_same g f [] (x ∷ fs) e es = absurd es
back_same g f (x ∷ gs) [] e es = absurd es
back_same g f (x ∷ gs) (y ∷ fs) e (d, ds) = back_same x y gs fs d ds

-- A list with one face in each frame rises, up to its last frame.
consecutive-IsRising : (a : ℤ) (fs : List Face) → IsConsecutive a fs → IsRising a fs
consecutive-IsRising a [] c = tt
consecutive-IsRising a (f ∷ fs) (e, c) =
    (omega (int_laws, ap pos_part e, ap neg_part e), consecutive-IsRising f.frame_id fs c)

rising_last :
    (high : ℕ) (f : Face) (fs : List Face)
    → IsRising f.frame_id fs
    → (back_from f fs).frame_id ≤ℤ pos high
    → All (IsUpTo high) (f ∷ fs)
rising_last high f [] r b = (b, tt)
rising_last high f (g ∷ gs) (lt, r) b =
    let (u, us) = rising_last high g gs r b in (omega arith, (u, us))

pub last-IsUpTo :
    (high : ℕ) (f : Face) (fs : List Face)
    → All (IsUpTo high) (f ∷ fs)
    → (back_from f fs).frame_id ≤ℤ pos high
last-IsUpTo high f [] (u, us) = u
last-IsUpTo high f (g ∷ gs) (u, us) = last-IsUpTo high g gs us

-- The faces of the video of a thread: its own, or, if it is smooth, what `smoothFaceSeries` makes of
-- what `addMissingFrames` makes of them, one for each frame from the thread's first to its last.
pub data Played {F : Type 0} (fl : Float F) (f : Face) (fs : List Face)
    : Bool → List Face → Type 0 where
  as_tracked : Played fl f fs false (f ∷ fs)
  smoothed :
      {g : Face} {gs filled : List Face} {modified : Bool}
      → add_missing_frames fl (f ∷ fs) ≡ some (modified, filled)
      → smooth_face_series fl filled ≡ some (g ∷ gs)
      → g.frame_id ≡ f.frame_id
      → IsConsecutive g.frame_id gs
      → (back_from g gs).frame_id ≡ (back_from f fs).frame_id
      → Played fl f fs true (g ∷ gs)

module _ {F : Type 0} (fl : Float F) where
  pub smoothed_faces :
      (low high : ℕ) (f : Face) (fs : List Face)
      → IsTrack low high (f ∷ fs)
      → (g : Face) × (gs : List Face) × (video_faces fl true (f ∷ fs) ≡ some (g ∷ gs))
        × IsTrack low high (g ∷ gs)
        × Played fl f fs true (g ∷ gs)
  unfolding video_faces
  smoothed_faces low high f fs (l, r, us) =
      let (modified, filled, run, con, within, last, kept) = add_missing_frames_lem fl f fs r in
      let (out, run', same) = smooth_face_series_lem fl (f ∷ filled) in
      shape out (rw run run') filled run run' (frame_ids-SameFrames out (f ∷ filled) same) con last
    where
      shape :
          (out : List Face)
          → video_faces fl true (f ∷ fs) ≡ some out
          → (filled : List Face) {modified : Bool}
          → add_missing_frames fl (f ∷ fs) ≡ some (modified, f ∷ filled)
          → smooth_face_series fl (f ∷ filled) ≡ some out
          → SameFrames out (f ∷ filled)
          → IsConsecutive f.frame_id filled
          → back_from f filled ≡ back_from f fs
          → (g : Face) × (gs : List Face) × (video_faces fl true (f ∷ fs) ≡ some (g ∷ gs))
            × IsTrack low high (g ∷ gs)
            × Played fl f fs true (g ∷ gs)
      shape [] e filled fills smooths s c b = absurd s
      shape (g ∷ gs) e filled fills smooths (s, ss) c b =
          let con : IsConsecutive g.frame_id gs =
            subst (λ z. IsConsecutive z gs) (sym s)
              (IsConsecutive-same f.frame_id gs filled ss c) in
          let last = back_same g f gs filled s ss ∙ ap (λ (x : Face). x.frame_id) b in
          let rising = consecutive-IsRising g.frame_id gs con in
          (
            g,
            gs,
            e,
            (
              subst (λ z. pos low ≤ℤ z) (sym s) l,
              rising,
              rising_last high g gs rising
                  (subst (λ z. z ≤ℤ pos high) (sym last) (last-IsUpTo high f fs us)),
            ),
            smoothed fills smooths s con last,
          )
