-- ===== src/SaveThread/Whole.antt =====
-- `saveAndDeleteThread` of Detector/FaceProcessor.cpp as a whole.
use planetariumfd.Prelude.{
  ℕ, ◌≤◌, ◌≡◌, refl, sym, subst, inl, inr, pos, List, [], ◌∷◌, some, arith, Bool-cases,
  if◌then◌else◌, Text, ◌==◌, ◌≢◌,
}
use planetariumfd.Float.{Float}
use planetariumfd.Geometry.{Face}
use planetariumfd.Thread.{FaceThread, prune_faces_list}
use planetariumfd.Thread.Laws.{IsTrack, IsTrack-mono, prune_faces_list_lem}
use planetariumfd.State.{Saved, Fd}
use planetariumfd.Tracker.Update.{Tracked}
use planetariumfd.Tracker.Laws.{IsSane}
use planetariumfd.Invariant.{Inv}
use planetariumfd.Register.{Registered}
use planetariumfd.System.{find_saved, put_saved}
use planetariumfd.System.Savers.{
  find_saved-All, put_saved-All, put_saved-IsAscending, Without, Without-All, Without-IsAscending,
  HasAddress, delete_being_serialized-Without, delete_being_serialized_total,
}
use planetariumfd.SaveThread.{Media, is_worth_saving, save_files, save_and_delete_thread}
use planetariumfd.SaveThread.Laws.{save_files_total}

find_saved_total :
    (a : ℕ) (rs : List Saved) → HasAddress a rs → (th : FaceThread) × (find_saved a rs ≡ some th)
find_saved_total a [] h = absurd h
find_saved_total a (r ∷ rs) h = elim (Bool-cases (r.address == a)) [
  | inl same ↦ (r.thread, rw same refl)
  | inr other ↦ elim h [
    | inl e ↦ absurd (let q : r.address ≢ a = ground arith in q e)
    | inr later ↦ let (th, run) = find_saved_total a rs later in (th, rw other run)
  ]
]

put_saved-HasAddress :
    (a : ℕ) (th : FaceThread) (rs : List Saved) → HasAddress a rs → HasAddress a (put_saved a th rs)
put_saved-HasAddress a th [] h = h
put_saved-HasAddress a th (r ∷ rs) h = elim (Bool-cases (r.address == a)) [
  | inl same ↦ rw same (inl (let q : r.address ≡ a = ground arith in q))
  | inr other ↦ elim h [
    | inl e ↦ absurd (let q : r.address ≢ a = ground arith in q e)
    | inr later ↦ rw other (inr (put_saved-HasAddress a th rs later))
  ]
]

pub first_of :
    (low high : ℕ) (faces : List Face)
    → IsTrack low high faces
    → (f : Face) × (fs : List Face) × (faces ≡ f ∷ fs)
first_of low high [] p = absurd p
first_of low high (f ∷ fs) p = (f, fs, refl)

-- The files are saved or not, and only the count of series may change.
files_total :
    {F : Type 0} (fl : Float F) (media : Media F) (server : Text) (base high : ℕ) (s : Fd F)
    (th : FaceThread) {low up : ℕ}
    → Inv base low up s
    → base ≤ low
    → up ≤ high
    → high ≡ s.processed_frame_counter
    → Tracked low up th
    → (n : ℕ) × (files : List Registered) × ((if is_worth_saving s.config th
          then save_files fl media server s th
          else some (s, []))
        ≡ some (record s { image_series_cnt = n }, files))
files_total fl media server base high s th {low} {up} inv below above same t =
    let (f, fs, e) = first_of low up th.faces t in
    let wide = subst (IsTrack base high) e (IsTrack-mono low up base high th.faces below above t) in
    let (n, files, run) =
      save_files_total fl media base high s server th f fs inv.run (omega (arith, inv.covers)) e
        wide in
    elim (Bool-cases (is_worth_saving s.config th)) [
      | inl worth ↦ (n, files, rw worth run)
      | inr poor ↦ (s.image_series_cnt, [], rw poor refl)
    ]

module _ {F : Type 0} (fl : Float F) (media : Media F) (server : Text) where
  -- With sane settings, in a valid state whose frame counter is at or past the threads' frames,
  -- `saveAndDeleteThread` of a thread in the list ends without a fault and returns 0, whatever OpenCV
  -- reports. The next state is valid too, and the thread, trimmed, is gone from the list, no other.
  pub save_and_delete_thread_lem :
      {base low high : ℕ} (address : ℕ) (s : Fd F)
      → IsSane s.config
      → Inv base low high s
      → base ≤ low
      → high ≤ s.processed_frame_counter
      → HasAddress address s.being_serialized
      → (t : Fd F) × (files : List Registered) × (th : FaceThread) × (save_and_delete_thread fl
            media server address s
          ≡ some (pos 0, t, files))
        × Inv base low high t
        × Without address (put_saved address th s.being_serialized) t.being_serialized
  unfolding save_and_delete_thread
  save_and_delete_thread_lem {base} {low} {high} a s sane inv below above has =
      let (given, found) = find_saved_total a s.being_serialized has in
      let track = find_saved-All (Tracked low high) a s.being_serialized given inv.saved found in
      let (faces, pruned, track', popped) =
        prune_faces_list_lem low high sane.limit given track sane.positive in
      let th : FaceThread = record given { faces = faces } in
      let trimmed : prune_faces_list s.config.max_thread_history_size given ≡ some th =
        subst (λ z. prune_faces_list z given ≡ some th) (sym sane.limited) pruned in
      let rs = put_saved a th s.being_serialized in
      let s1 = record s { being_serialized = rs } in
      let saved = put_saved-All (Tracked low high) a th s.being_serialized track' inv.saved in
      let ascending =
        put_saved-IsAscending a 0 s.next_address th s.being_serialized inv.ascending in
      let inv1 : Inv base low high s1 = record {
        run = inv.run;
        covers = inv.covers;
        tracks = inv.tracks;
        saved = saved;
        ascending = ascending;
      } in
      let (n, files, written) =
        files_total fl media server base s.processed_frame_counter s1 th inv1 below above refl
          track' in
      let (others, removed) =
        delete_being_serialized_total a rs (put_saved-HasAddress a th s.being_serialized has) in
      let (code, w) = delete_being_serialized-Without a rs removed in
      (
        record s1 { image_series_cnt = n; being_serialized = others },
        files,
        th,
        rw found (rw trimmed (rw written (rw removed refl))),
        record {
          run = inv.run;
          covers = inv.covers;
          tracks = inv.tracks;
          saved = Without-All (λ (r : Saved). Tracked low high r.thread) w saved;
          ascending = Without-IsAscending 0 s.next_address w ascending;
        },
        w,
      )
