-- ===== src/Tracker/Match/Laws.antt =====
-- The matching loop of `processThreads2`, Detector/FaceProcessor.cpp: distances, claims and leftovers.
use planetariumfd.Prelude.{
  ℕ, suc, ◌+◌, ◌≡◌, refl, sym, ap, subst, some-injective, ◌∙◌, Bool, true, false, ◌||◌, List, [],
  ◌∷◌, none, some, get_elem?, set, back, All, All₂, All₂-set, All₂-get_elem?, Bool-cases,
  Option-cases, inl, inr, arith, if◌then◌else◌, ◌⊎◌,
}
use planetariumfd.Float.{Float}
use planetariumfd.Geometry.{Face}
use planetariumfd.Config.{Config}
use planetariumfd.Thread.{FaceThread}
use planetariumfd.Tracker.Match.{
  Matching, Nearest, new_matches, nothing_near, face_gap, consider, nearest_thread,
  is_better_candidate, claim, match_face, match_faces,
}

-- A thread with a last face.
abbrev pub HasFace : FaceThread → Type 0
HasFace t = (l : Face) × (back t.faces ≡ some l)

module _ {F : Type 0} ⦃fl : Float F⦄ (cfg : Config F) where
  -- Whether the last face of a thread lies within the distance threshold of a face.
  abbrev pub is_near : Face → FaceThread → Bool
  is_near f t = elim (back t.faces) [ none ↦ false | some l ↦ fl.le (face_gap f l) cfg.dist_thresh ]

  abbrev pub near_any : Face → List FaceThread → Bool
  near_any f [] = false
  near_any f (t ∷ ts) = is_near f t || near_any f ts

  -- The faces that are near to no thread.
  abbrev pub far_faces : List FaceThread → List Face → List Face
  far_faces ts [] = []
  far_faces ts (f ∷ fs) = let rest = far_faces ts fs in if near_any f ts then rest else f ∷ rest

  -- A face that a thread has claimed: it has the property `P`, its distance from the thread's
  -- last face is the recorded one, and that is within the threshold.
  abbrev pub Claimed : (Face → Type 0) → FaceThread → Matching F → Type 0
  Claimed P t m =
      m.found ≡ true
      → (l : Face) × (back t.faces ≡ some l)
        × (m.face_distance ≡ face_gap m.face l)
        × (fl.le m.face_distance cfg.dist_thresh ≡ true)
        × P m.face

  -- What the loop over the threads has found so far among the threads `all`.
  Sound : Face → List FaceThread → Nearest F → Type 0
  Sound f all s =
      (j : ℕ)
      → s.th_ind ≡ some j
      → (t : FaceThread) × (l : Face) × (get_elem? all j ≡ some t)
        × (back t.faces ≡ some l)
        × (s.min_dist ≡ face_gap f l)
        × (fl.le s.min_dist cfg.dist_thresh ≡ true)

  -- Whether a thread has been found.
  abbrev some_thread : Nearest F → Bool
  some_thread s = elim s.th_ind [ none ↦ false | some _ ↦ true ]

  consider_cases :
      (f : Face) (i : ℕ) (l : Face) (m : Matching F) (s : Nearest F)
      → (consider cfg f i l m s ≡ s)
        ⊎ ((consider cfg f i l m s ≡ record { min_dist = face_gap f l; th_ind = some i })
            × (fl.le (face_gap f l) cfg.dist_thresh ≡ true))
  unfolding consider
  consider_cases f i l m s = ground arith

  some_thread-consider :
      (f : Face) (i : ℕ) (l : Face) (m : Matching F) (s : Nearest F)
      → some_thread (consider cfg f i l m s)
        ≡ (some_thread s || fl.le (face_gap f l) cfg.dist_thresh)
  unfolding consider
  some_thread-consider f i l m s = ground arith

  consider-Sound :
      (f : Face) (all : List FaceThread) (i : ℕ) (t : FaceThread) (l : Face) (m : Matching F)
      (s : Nearest F)
      → get_elem? all i ≡ some t
      → back t.faces ≡ some l
      → Sound f all s
      → Sound f all (consider cfg f i l m s)
  unfolding Sound
  consider-Sound f all i t l m s e b h = elim (consider_cases f i l m s) [
    | inl same ↦ subst (Sound f all) (sym same) h
    | inr (new, near) ↦
        subst (Sound f all) (sym new)
          λ j q. (t, l, (ap (get_elem? all) (sym (some-injective _ _ q)) ∙ e), b, refl, near)
  ]

  -- With faces in every thread the loop over the threads ends; it finds a thread exactly if one is
  -- near (or one was found before), and what it finds is near at the recorded distance.
  nearest_thread_lem :
      (f : Face) (all : List FaceThread) (i : ℕ) (ts : List FaceThread) (ms : List (Matching F))
      (s : Nearest F)
      → ((k : ℕ) → get_elem? all (k + i) ≡ get_elem? ts k)
      → All HasFace ts
      → (R : FaceThread → Matching F → Type 0) → All₂ R ts ms
      → Sound f all s
      → (s' : Nearest F) × (nearest_thread cfg f i ts ms s ≡ some s')
        × (some_thread s' ≡ (some_thread s || near_any f ts))
        × Sound f all s'
  unfolding nearest_thread
  nearest_thread_lem f all i [] ms s at has R fit h = (s, refl, ground arith, h)
  nearest_thread_lem f all i (t ∷ ts) [] s at has R fit h = absurd fit
  nearest_thread_lem f all i (t ∷ ts) (m ∷ ms) s at ((l, last), has) R (_, fit) h =
      let next = consider cfg f i l m s in
      let at' : (k : ℕ) → get_elem? all (k + suc i) ≡ get_elem? ts k =
        λ k. ap (get_elem? all) (let e : k + suc i ≡ suc k + i = omega arith in e) ∙ at (suc k) in
      let here : get_elem? all i ≡ some t =
        ap (get_elem? all) (let e : i ≡ 0 + i = omega arith in e) ∙ at 0 in
      let (s', run, found, sound) =
        nearest_thread_lem f all (suc i) ts ms next at' has R fit
          (consider-Sound f all i t l m s here last h) in
      (s', rw last run, found ∙ ground (arith, some_thread-consider f i l m s), sound)

  module _ (P : Face → Type 0) (ts : List FaceThread) (has : All HasFace ts) where
    start-Sound : (f : Face) → Sound f ts nothing_near
    unfolding Sound
    start-Sound f j q = cc

    claim-Claimed :
        (f : Face) (d : F) (l : Face) (t : FaceThread) (m : Matching F)
        → back t.faces ≡ some l
        → d ≡ face_gap f l
        → fl.le d cfg.dist_thresh ≡ true
        → P f
        → Claimed P t m
        → Claimed P t (claim cfg f d l m)
    unfolding claim
    claim-Claimed f d l t m b e near p old = elim (Bool-cases (is_better_candidate cfg f d l m)) [
      | inl better ↦ rw better λ _. (l, b, e, near, p)
      | inr worse ↦ rw worse old
    ]

    -- The part of the loop's body behind the search.
    match_face_of_nearest :
        (f : Face) (ms : List (Matching F)) (s : Nearest F)
        → P f
        → All₂ (Claimed P) ts ms
        → nearest_thread cfg f 0 ts ms nothing_near ≡ some s
        → some_thread s ≡ near_any f ts
        → Sound f ts s
        → (ms' : List (Matching F)) × (match_face cfg ts f ms ≡ some (near_any f ts, ms'))
          × All₂ (Claimed P) ts ms'
    unfolding match_face Sound
    match_face_of_nearest f ms s p fit run found sound = elim (Option-cases s.th_ind) [
      | inl nowhere ↦ (ms, rw run (ground arith), fit)
      | inr (i, there) ↦
          let (t, l, at, last, gap, near) = sound i there in
          let (m, has_m, old) = All₂-get_elem? (Claimed P) ts ms i t fit at in
          (
            set ms i (claim cfg f s.min_dist l m),
            rw run (ground arith),
            All₂-set (Claimed P) ts ms i t _ fit at
                (claim-Claimed f s.min_dist l t m last gap near p old),
          )
    ]

    -- One face: no fault, the claims stay valid, and it is matched exactly if a thread is near.
    match_face_lem :
        (f : Face) (ms : List (Matching F))
        → P f
        → All₂ (Claimed P) ts ms
        → (ms' : List (Matching F)) × (match_face cfg ts f ms ≡ some (near_any f ts, ms'))
          × All₂ (Claimed P) ts ms'
    match_face_lem f ms p fit =
        let same : (k : ℕ) → get_elem? ts (k + 0) ≡ get_elem? ts k =
          λ k. ap (get_elem? ts) (let e : k + 0 ≡ k = omega arith in e) in
        let (s, run, found, sound) =
          nearest_thread_lem f ts 0 ts ms nothing_near same has (Claimed P) fit (start-Sound f) in
        match_face_of_nearest f ms s p fit run found sound

    match_faces_from :
        (fs : List Face) (ms : List (Matching F))
        → All P fs
        → All₂ (Claimed P) ts ms
        → (ms' : List (Matching F)) × (match_faces cfg ts fs ms ≡ some (ms', far_faces ts fs))
          × All₂ (Claimed P) ts ms'
    unfolding match_faces
    match_faces_from [] ms p fit = (ms, refl, fit)
    match_faces_from (f ∷ fs) ms (p, ps) fit =
        let (one, run, fit') = match_face_lem f ms p fit in
        let (final, runs, fits) = match_faces_from fs one ps fit' in (final, rw run (rw runs), fits)

  -- No thread has claimed a face before the loop.
  new_matches-Claimed :
      (P : Face → Type 0) (ts : List FaceThread) → All₂ (Claimed P) ts (new_matches ts)
  new_matches-Claimed P [] = tt
  new_matches-Claimed P (t ∷ ts) = ((λ e. cc), new_matches-Claimed P ts)

  -- If every thread has a face, part 1 ends without a fault. A thread's match is then one of the
  -- input faces (it has every property that all of these have), its recorded distance is that of
  -- its centre from the centre of the thread's last face, and this passes the test against the
  -- threshold. The faces that are left over are exactly those that pass it for no thread.
  pub match_faces_lem :
      (P : Face → Type 0) (ts : List FaceThread) (fs : List Face)
      → All HasFace ts
      → All P fs
      → (ms : List (Matching F)) × (match_faces cfg ts fs (new_matches ts)
          ≡ some (ms, far_faces ts fs))
        × All₂ (Claimed P) ts ms
  match_faces_lem P ts fs has p =
      match_faces_from P ts has fs (new_matches ts) p (new_matches-Claimed P ts)
