-- ===== src/Thread.antt =====
-- `struct FDFaceThread` of Detector/FaceProcessor.h: the faces of one person over time, with the
-- counters, and its methods from Detector/FaceProcessor.cpp.
use planetariumfd.Prelude.{
  ℕ, zero, suc, ◌+◌, ◌-◌, ℤ, pos, ◌+ℤ◌, ◌-ℤ◌, ltb_ℤ, int_max, Bool, List, [], ◌∷◌, ◌++◌, Option,
  none, some, length, front, back, back_from, if◌then◌else◌, Text, codes, decimal, decimal_ℤ,
}
use planetariumfd.Geometry.{Face}
pub mod Laws

pub record FaceThread : Type 0 where
  pub faces : List Face
  pub total_count : ℕ
  pub missed_count : ℕ
  pub non_missed_count : ℕ
  pub consecutive_missed_count : ℕ

-- The constructor.
abbrev pub new_thread : FaceThread
new_thread = record {
  faces = [];
  total_count = 0;
  missed_count = 0;
  non_missed_count = 0;
  consecutive_missed_count = 0;
}

unfoldable pub add_new_face_to_thread : FaceThread → Face → FaceThread
add_new_face_to_thread th face = record th { faces = th.faces ++ (face ∷ []) }

unfoldable pub min_required_frame : FaceThread → ℤ
min_required_frame th = elim th.faces [ [] ↦ int_max | f ∷ fs ↦ f.frame_id ]

-- `_pFaces.back().frame_id - _pFaces.back().frame_id + 1`
unfoldable pub num_required_frames : FaceThread → ℤ
num_required_frames th = elim th.faces [
  | [] ↦ pos 0
  | f ∷ fs ↦ (back_from f fs).frame_id -ℤ (back_from f fs).frame_id +ℤ pos 1
]

-- `while (size > limit) pop_front()`; `none` is a `pop_front` of the empty list.
abbrev pub pop_faces : List Face → ℤ → Option (List Face)
pop_faces [] limit = if ltb_ℤ limit (pos 0) then none else some []
pop_faces (f ∷ fs) limit =
    let shorter = pop_faces fs limit in
    if ltb_ℤ limit (pos (length (f ∷ fs))) then shorter else some (f ∷ fs)

unfoldable pub prune_faces_list : ℤ → FaceThread → Option FaceThread
prune_faces_list max_thread_history_size th = elim (pop_faces th.faces max_thread_history_size) [
  | none ↦ none
  | some faces ↦ some (record th { faces = faces })
]

-- The list of frame numbers that `serializeToLog` prints.
abbrev pub frames_to_log : List Face → Text
frames_to_log [] = []
frames_to_log (f ∷ fs) = codes "<" ++ (decimal_ℤ f.frame_id ++ (codes ">," ++ frames_to_log fs))

pub serialize_to_log : FaceThread → Text
serialize_to_log th =
    codes "\tFDFaceThread::serializeToLog "
    ++ (decimal (length th.faces)
        ++ (codes " detections in a "
            ++ (decimal_ℤ (num_required_frames th)
                ++ (codes " frame stretch tot:"
                    ++ (decimal th.total_count
                        ++ (codes ",cm:"
                            ++ (decimal th.consecutive_missed_count
                                ++ (codes ",m:"
                                    ++ (decimal th.missed_count
                                        ++ (codes ",nm:"
                                            ++ (decimal th.non_missed_count
                                                ++ (codes "\n\t"
                                                    ++ (frames_to_log th.faces
                                                        ++ codes "\n\n")))))))))))))
