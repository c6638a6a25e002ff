-- ===== src/Tracker/Match.antt =====
-- Part 1 of `processThreads2`: each input face goes to at most one of the existing threads.
use planetariumfd.Prelude.{
  ℕ, zero, suc, ◌+◌, ℤ, pos, negsuc, Bool, true, false, not, ◌&&◌, ◌||◌, List, [], ◌∷◌, map,
  reverse, Option, none, some, ◌>>=◌, get_elem?, set, back, length, if◌then◌else◌,
}
use planetariumfd.Float.{Float}
use planetariumfd.Geometry.{Rect, Face, default_face, get_rect_center, get_distance, get_size_diff}
use planetariumfd.Config.{Config}
use planetariumfd.Thread.{FaceThread}
pub mod Laws

-- `struct Matching`, without the pointer to its thread: the matching at position `i` belongs to the
-- thread at position `i`. The distance has no value before `found` is set, and is not read.
pub record Matching (F : Type 0) : Type 0 where
  pub found : Bool
  pub face_distance : F
  pub face : Face

-- The locals `min_dist` and `thInd` of the loop over the threads; `none` stands for -1.
pub record Nearest (F : Type 0) : Type 0 where
  pub min_dist : F
  pub th_ind : Option ℕ

-- Part 0: the sequence is emptied from its end into a list of faces of this frame.
unfoldable pub input_faces : List Rect → ℤ → List Face
input_faces rects frame_id =
    map (λ (r : Rect). record { rect = r; frame_id = frame_id }) (reverse rects)

module _ {F : Type 0} ⦃fl : Float F⦄ where
  open fl use {lt, le, literal}

  abbrev pub new_matching : Matching F
  new_matching = record { found = false; face_distance = literal (pos 0) 1; face = default_face }

  abbrev pub new_matches : List FaceThread → List (Matching F)
  new_matches [] = []
  new_matches (t ∷ ts) = new_matching ∷ new_matches ts

  abbrev pub nothing_near : Nearest F
  nothing_near = record { min_dist = literal (negsuc 0) 1; th_ind = none }

  -- The distance between the centres of two faces.
  abbrev pub face_gap : Face → Face → F
  face_gap f g = get_distance (get_rect_center f.rect) (get_rect_center g.rect)

  module _ (cfg : Config F) where
    open cfg use {dist_thresh, very_close_dist_thresh}

    -- The body of the loop over the threads: thread `i` has the last face `last`.
    unfoldable pub consider : Face → ℕ → Face → Matching F → Nearest F → Nearest F
    consider face i last m s =
        let dist = face_gap face last in
        let better : Nearest F = record { min_dist = dist; th_ind = some i } in
        if le dist dist_thresh
        then elim s.th_ind [
          | none ↦ better
          | some _ ↦
              if lt dist s.min_dist
                && (lt s.min_dist very_close_dist_thresh
                    && lt (get_size_diff face.rect last.rect) (get_size_diff face.rect m.face.rect))
              then better
              else s
        ]
        else s

    -- `none` is `back()` of a thread without faces, or a vector of matches that is too short.
    unfoldable pub nearest_thread :
        Face → ℕ → List FaceThread → List (Matching F) → Nearest F → Option (Nearest F)
    nearest_thread face i [] ms s = some s
    nearest_thread face i (t ∷ ts) [] s = none
    nearest_thread face i (t ∷ ts) (m ∷ ms) s = do
      last ← back t.faces
      nearest_thread face (suc i) ts ms (consider face i last m s)

    -- Whether the face takes the place of what the thread, with the last face `last`, has so far.
    unfoldable pub is_better_candidate : Face → F → Face → Matching F → Bool
    is_better_candidate face min_dist last m =
        not m.found
        || ((lt min_dist m.face_distance && lt very_close_dist_thresh m.face_distance)
            || (lt m.face_distance very_close_dist_thresh
                && (lt min_dist very_close_dist_thresh
                    && lt (get_size_diff face.rect last.rect)
                        (get_size_diff m.face.rect last.rect))))

    unfoldable pub claim : Face → F → Face → Matching F → Matching F
    unfolding is_better_candidate
    claim face min_dist last m =
        if is_better_candidate face min_dist last m
        then record { found = true; face_distance = min_dist; face = face }
        else m

    -- One round of the loop over the input faces: the new matches, and whether the face was matched.
    unfoldable pub match_face :
        List FaceThread → Face → List (Matching F) → Option (Bool × List (Matching F))
    unfolding nearest_thread claim
    match_face ts face ms = do
      s ← nearest_thread face 0 ts ms nothing_near
      elim s.th_ind [
        | none ↦ some (false, ms)
        | some i ↦ do
          m ← get_elem? ms i
          t ← get_elem? ts i
          last ← back t.faces
          some (true, set ms i (claim face s.min_dist last m))
      ]

    -- The whole loop: the matches, and the input faces that stay unmatched.
    unfoldable pub match_faces :
        List FaceThread → List Face → List (Matching F) → Option (List (Matching F) × List Face)
    unfolding match_face
    match_faces ts [] ms = some (ms, [])
    match_faces ts (f ∷ fs) ms = do
      (matched, ms') ← match_face ts f ms
      (final, left) ← match_faces ts fs ms'
      some (final, if matched then left else f ∷ left)
