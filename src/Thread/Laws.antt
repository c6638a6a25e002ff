-- ===== src/Thread/Laws.antt =====
-- The order of a thread's frames, pruning a thread, and the two frame counts.
use planetariumfd.Prelude.{
  ℕ, ◌≤◌, ◌<◌, ◌≡◌, refl, ℤ, pos, ◌+ℤ◌, ◌-ℤ◌, ◌≤ℤ◌, ◌<ℤ◌, ltb_ℤ, List, [], ◌∷◌, ◌++◌, some, length,
  arith, int_laws, All, All-append, All-map, back_from, min, Bool-cases, inl, inr, some-injective,
  sym, ◌∙◌, subst,
}
use planetariumfd.Geometry.{Face}
use planetariumfd.Thread.{FaceThread, pop_faces, prune_faces_list, num_required_frames}

-- The frame numbers of the faces rise strictly, from above `low`.
abbrev pub IsRising : ℤ → List Face → Type 0
IsRising low [] = Unit
IsRising low (f ∷ fs) = (low <ℤ f.frame_id) × IsRising f.frame_id fs

abbrev pub IsUpTo : ℕ → Face → Type 0
IsUpTo high g = g.frame_id ≤ℤ pos high

-- The faces of a thread: at least one, in rising frames, all within `[low, high]`.
abbrev pub IsTrack : ℕ → ℕ → List Face → Type 0
IsTrack low high [] = ⊥
IsTrack low high (f ∷ fs) =
    (pos low ≤ℤ f.frame_id) × IsRising f.frame_id fs × All (IsUpTo high) (f ∷ fs)

IsRising-append :
    (low : ℤ) (high : ℕ) (fs : List Face) (g : Face)
    → IsRising low fs
    → All (IsUpTo high) fs
    → low ≤ℤ pos high
    → pos high <ℤ g.frame_id
    → IsRising low (fs ++ (g ∷ []))
IsRising-append low high [] g r u l h = (omega arith, tt)
IsRising-append low high (f ∷ fs) g (lt, r) (u, us) l h =
    (lt, IsRising-append f.frame_id high fs g r us u h)

-- A face of a later frame may be added.
pub IsTrack-append :
    (low high new : ℕ) (fs : List Face) (g : Face)
    → IsTrack low high fs
    → high < new
    → g.frame_id ≡ pos new
    → IsTrack low new (fs ++ (g ∷ []))
IsTrack-append low high new [] g t h e = absurd t
IsTrack-append low high new (f ∷ fs) g (l, r, (u, us)) h e = (
  l,
  IsRising-append f.frame_id high fs g r us u (rw e (omega arith)),
  All-append (IsUpTo new) (f ∷ fs) (g ∷ [])
      (All-map (IsUpTo high) (IsUpTo new) (λ (x : Face) (p : IsUpTo high x). omega arith) (f ∷ fs)
        (u, us))
      (rw e (omega arith), tt),
)

-- The bounds may be widened.
pub IsTrack-mono :
    (low high low' high' : ℕ) (fs : List Face)
    → low' ≤ low
    → high ≤ high'
    → IsTrack low high fs
    → IsTrack low' high' fs
IsTrack-mono low high low' high' [] p q t = t
IsTrack-mono low high low' high' (f ∷ fs) p q (l, r, us) = (
  omega arith,
  r,
  All-map (IsUpTo high) (IsUpTo high') (λ (x : Face) (u : IsUpTo high x). omega arith) (f ∷ fs) us,
)

-- The lower bound may be raised up to the first frame.
pub IsTrack-raise :
    (low high low' : ℕ) (f : Face) (fs : List Face)
    → IsTrack low high (f ∷ fs)
    → pos low' ≤ℤ f.frame_id
    → IsTrack low' high (f ∷ fs)
IsTrack-raise low high low' f fs (l, r, us) h = (h, r, us)

-- What `while (size > limit) pop_front()` leaves: the newest faces, `limit` at most.
pub record Popped (fs : List Face) (limit : ℕ) (rest : List Face) : Type 0 where
  pub dropped : List Face
  pub whole : fs ≡ dropped ++ rest
  pub size : length rest ≡ min (length fs) limit

pub pop_faces_lem :
    (fs : List Face) (limit : ℕ)
    → (rest : List Face) × (pop_faces fs (pos limit) ≡ some rest) × Popped fs limit rest
pop_faces_lem [] limit =
    ([], ground arith, record { dropped = []; whole = refl; size = omega arith })
pop_faces_lem (f ∷ fs) limit =
    let (rest, run, p) = pop_faces_lem fs limit in
    elim (Bool-cases (ltb_ℤ (pos limit) (pos (length (f ∷ fs))))) [
      | inl long ↦ (
        rest,
        rw long run,
        record { dropped = f ∷ p.dropped; whole = rw (← p.whole); size = ground (arith, p.size) },
      )
      | inr short ↦ (f ∷ fs, rw short, record { dropped = []; whole = refl; size = ground arith })
    ]

-- Pruning keeps a thread's faces a track, as long as the limit is not zero.
IsTrack-pop_faces :
    (low high : ℕ) (fs : List Face) (limit : ℕ)
    → IsTrack low high fs
    → 0 < limit
    → (rest : List Face) × (pop_faces fs (pos limit) ≡ some rest) × IsTrack low high rest
IsTrack-pop_faces low high [] limit t h = absurd t
IsTrack-pop_faces low high (f ∷ []) limit t h = (f ∷ [], ground arith, t)
IsTrack-pop_faces low high (f ∷ g ∷ fs) limit (l, (lt, r), (u, us)) h =
    let (rest, run, t) = IsTrack-pop_faces low high (g ∷ fs) limit (omega arith, r, us) h in
    elim (Bool-cases (ltb_ℤ (pos limit) (pos (length (f ∷ g ∷ fs))))) [
      | inl long ↦ (rest, rw long run, t)
      | inr short ↦ (f ∷ g ∷ fs, rw short, (l, (lt, r), (u, us)))
    ]

-- `pruneFacesList` under a positive limit: the thread keeps its counters and its newest faces, as
-- many as the limit allows, and their frames still rise within the same bounds.
pub prune_faces_list_lem :
    (low high limit : ℕ) (th : FaceThread)
    → IsTrack low high th.faces
    → 0 < limit
    → (rest : List Face) × (prune_faces_list (pos limit) th ≡ some (record th { faces = rest }))
      × IsTrack low high rest
      × Popped th.faces limit rest
unfolding prune_faces_list
prune_faces_list_lem low high limit th t h =
    let (rest, run, t') = IsTrack-pop_faces low high th.faces limit t h in
    let (rest', run', p) = pop_faces_lem th.faces limit in
    let same : rest' ≡ rest = some-injective _ _ (sym run' ∙ run) in
    (rest, rw (run, prune_faces_list), t', subst (Popped th.faces limit) same p)

-- The frames from the first to the last face of a thread.
abbrev pub frame_stretch : FaceThread → ℤ
frame_stretch th = elim th.faces [
  | [] ↦ pos 0
  | f ∷ fs ↦ (back_from f fs).frame_id -ℤ f.frame_id +ℤ pos 1
]

IsRising-back_from :
    (f : Face) (fs : List Face) → IsRising f.frame_id fs → f.frame_id ≤ℤ (back_from f fs).frame_id
IsRising-back_from f [] r = omega arith
IsRising-back_from f (g ∷ gs) (lt, r) = omega (arith, IsRising-back_from g gs r)

num_required_frames_of :
    (low high : ℕ) (th : FaceThread) (fs : List Face)
    → th.faces ≡ fs
    → IsTrack low high fs
    → (num_required_frames th ≡ pos 1)
      × (2 ≤ length fs → num_required_frames th <ℤ frame_stretch th)
unfolding num_required_frames
num_required_frames_of low high th [] e t = absurd t
num_required_frames_of low high th (f ∷ []) e t =
    (rw (e, num_required_frames) (omega int_laws), λ two. absurd (omega arith))
num_required_frames_of low high th (f ∷ g ∷ fs) e (l, (lt, r), us) = (
  rw (e, num_required_frames) (omega int_laws),
  λ two. rw (e, num_required_frames, frame_stretch) (omega (int_laws, IsRising-back_from g fs r)),
)

-- If the frames of its faces rise, `numRequiredFrames` is 1 for every thread that has a face, however many frames lie between its
-- first and its last face; if there are two faces or more, that is less than the stretch of frames.
pub num_required_frames_lem :
    (low high : ℕ) (th : FaceThread)
    → IsTrack low high th.faces
    → (num_required_frames th ≡ pos 1)
      × (2 ≤ length th.faces → num_required_frames th <ℤ frame_stretch th)
num_required_frames_lem low high th t = num_required_frames_of low high th th.faces refl t
