-- ===== src/System/Counters.antt =====
-- The counters of the threads of faces (Detector/FaceProcessor.h) over all steps of System.antt.
use planetariumfd.Prelude.{
  ℕ, zero, suc, ◌+◌, ◌-◌, ◌*◌, ◌≤◌, ◌<◌, ◌≡◌, ◌⊎◌, refl, sym, subst, ◌∙◌, inl, inr, ℤ, pos, Bool,
  true, false, List, [], ◌∷◌, ◌++◌, Option, none, some, some-injective, ◌>>=◌, >>=-eq-some,
  none-ne-some, All-append, All-map, if◌then◌else◌, length, length-append, arith, All, Bool-cases,
}
use planetariumfd.Float.{Float}
use planetariumfd.Geometry.{Face, Rect}
use planetariumfd.Config.{Config}
use planetariumfd.Thread.{FaceThread, new_thread, add_new_face_to_thread}
use planetariumfd.State.{Saved, Fd}
use planetariumfd.Tracker.{
  update_thread, update_threads, is_lost, delete_threads, add_new_threads, divides, sampled_fps,
  estimate_fps, match_and_update,
}
use planetariumfd.Tracker.Match.{Matching, match_faces, input_faces, new_matches}
pub mod Trim
pub mod Steps

-- The counters of a thread, when `now` frames have been tracked.
pub record Counted (now : ℕ) (t : FaceThread) : Type 0 where
  pub counts : t.non_missed_count + t.missed_count ≤ t.total_count
  pub covers : t.total_count ≤ t.missed_count + 2 * t.non_missed_count
  pub recent : t.consecutive_missed_count ≤ t.missed_count
  pub seen : length t.faces ≤ t.non_missed_count + 1
  pub age : t.total_count < now

-- The counters are within the limits of the settings, or the thread is new.
abbrev pub IsKept : {F : Type 0} → Config F → FaceThread → Type 0
IsKept cfg t = (is_lost cfg t ≡ false) ⊎ (t.total_count ≡ 0)

module _ {F : Type 0} where
  update_thread-Counted :
      (now : ℕ) (t : FaceThread) (m : Matching F)
      → Counted now t
      → Counted (suc now) (update_thread t m)
  unfolding update_thread add_new_face_to_thread
  update_thread-Counted now t m c = elim (Bool-cases m.found) [
    | inl found ↦ rw found (record {
      counts = ground (arith, c.counts);
      covers = ground (arith, c.covers);
      recent = omega arith;
      seen = omega (arith, c.seen, length-append t.faces (m.face ∷ []));
      age = omega (arith, c.age);
    })
    | inr lost ↦ rw lost (record {
      counts = omega (arith, c.counts);
      covers = omega (arith, c.covers);
      recent = omega (arith, c.recent);
      seen = c.seen;
      age = omega (arith, c.age);
    })
  ]

  update_threads-Counted :
      (now : ℕ) (ts : List FaceThread) (ms : List (Matching F)) (us : List FaceThread)
      → All (Counted now) ts
      → update_threads ts ms ≡ some us
      → All (Counted (suc now)) us
  unfolding update_threads
  update_threads-Counted now [] ms us p e =
      subst (All (Counted (suc now))) (some-injective _ _ e) tt
  update_threads-Counted now (t ∷ ts) [] us p e = absurd (none-ne-some e)
  update_threads-Counted now (t ∷ ts) (m ∷ ms) us (p, ps) e =
      let (vs, run, same) = >>=-eq-some (update_threads ts ms) _ e in
      subst (All (Counted (suc now))) (some-injective _ _ same)
        (update_thread-Counted now t m p, update_threads-Counted now ts ms vs ps run)

pub add_new_threads-All :
    (P : FaceThread → Type 0) (ts : List FaceThread) (fs : List Face)
    → ((f : Face) → P (add_new_face_to_thread new_thread f))
    → All P ts
    → All P (add_new_threads ts fs)
add_new_threads-All P ts [] new p = p
add_new_threads-All P ts (f ∷ fs) new p =
    add_new_threads-All P (ts ++ (add_new_face_to_thread new_thread f ∷ [])) fs new
      (All-append P ts (add_new_face_to_thread new_thread f ∷ []) p (new f, tt))

pub new_thread-IsKept :
    {F : Type 0} (cfg : Config F) (f : Face) → IsKept cfg (add_new_face_to_thread new_thread f)
unfolding add_new_face_to_thread
new_thread-IsKept cfg f = inr refl

Counted-later : {now : ℕ} {t : FaceThread} → Counted now t → Counted (suc now) t
Counted-later c = record {
  counts = c.counts;
  covers = c.covers;
  recent = c.recent;
  seen = c.seen;
  age = omega (arith, c.age);
}

pub new_thread-Counted :
    (now : ℕ) (f : Face) → 0 < now → Counted now (add_new_face_to_thread new_thread f)
unfolding add_new_face_to_thread
new_thread-Counted now f some_frame = record {
  counts = omega arith;
  covers = omega arith;
  recent = omega arith;
  seen = omega arith;
  age = omega arith;
}

module _ {F : Type 0} ⦃fl : Float F⦄ where
  -- What the threads of a state are like, when `now` frames have been tracked.
  pub record AllCounted (now : ℕ) (s : Fd F) : Type 0 where
    pub threads : All (Counted now) s.threads
    pub saved :
        All
          (λ (r : Saved). Counted now r.thread × (is_lost s.config r.thread ≡ true))
          s.being_serialized

  abbrev pub SameThreads : Fd F → Fd F → Type 0
  SameThreads s u =
      (u.threads ≡ s.threads)
      × (u.being_serialized ≡ s.being_serialized)
      × (u.config ≡ s.config)
      × (u.processed_frame_counter ≡ s.processed_frame_counter)

  sampled_fps-SameThreads :
      (new : ℤ) (s : Fd F) (b : Bool) → SameThreads s (if b then sampled_fps new s else s)
  sampled_fps-SameThreads new s true = (refl, refl, refl, refl)
  sampled_fps-SameThreads new s false = (refl, refl, refl, refl)

  estimate_fps-SameThreads :
      (id new : ℤ) (s : Fd F) {s' : Fd F} → estimate_fps id new s ≡ some s' → SameThreads s s'
  unfolding estimate_fps
  estimate_fps-SameThreads id new s e =
      let (b, _, same) = >>=-eq-some (divides s.config.sample_time_every_x_frames id) _ e in
      subst (SameThreads s) (some-injective _ _ same) (sampled_fps-SameThreads new s b)

  pub match_and_update-AllCounted :
      (now : ℕ) (rects : List Rect) (id new : ℤ) (s : Fd F) {r : Fd F × List Face}
      → AllCounted now s
      → match_and_update rects id new s ≡ some r
      → AllCounted (suc now) r.0
        × (r.0.processed_frame_counter ≡ s.processed_frame_counter)
        × (r.0.config ≡ s.config)
  unfolding match_and_update
  match_and_update-AllCounted now rects id new s c e =
      let (s1, est, e1) = >>=-eq-some (estimate_fps id new s) _ e in
      let (same_threads, same_saved, same_config, same_counter) =
        estimate_fps-SameThreads id new s est in
      let (m, matched, e2) =
        >>=-eq-some
          (match_faces s1.config s1.threads (input_faces rects id) (new_matches s1.threads)) _ e1 in
      let (us, updated, e3) = >>=-eq-some (update_threads s1.threads m.0) _ e2 in
      let counted =
        update_threads-Counted now s1.threads m.0 us (rw same_threads c.threads) updated in
      let later =
        All-map (λ (r : Saved). Counted now r.thread × (is_lost s1.config r.thread ≡ true))
          (λ (r : Saved). Counted (suc now) r.thread × (is_lost s1.config r.thread ≡ true))
          (λ r p. (Counted-later p.0, p.1)) s1.being_serialized
          (rw (same_saved, same_config) c.saved) in
      let result : AllCounted (suc now) (record s1 { threads = us }) = record {
        threads = counted;
        saved = later;
      } in
      subst
        (λ u.
          AllCounted (suc now) u.0
          × (u.0.processed_frame_counter ≡ s.processed_frame_counter)
          × (u.0.config ≡ s.config))
        (some-injective _ _ e3) (result, same_counter, same_config)
