-- ===== src/System/Counters/Trim.antt =====
-- Trimming (`pruneFacesList`) keeps the counters of a thread as Counters.antt describes them.
use planetariumfd.Prelude.{
  ℕ, ◌≤◌, ◌≡◌, refl, subst, ◌∙◌, inl, inr, ℤ, pos, ltb_ℤ, Bool, true, false, List, [], ◌∷◌, some,
  some-injective, >>=-eq-some, none-ne-some, Option-cases, length, arith, All, Bool-cases,
}
use planetariumfd.Geometry.{Face}
use planetariumfd.Config.{Config}
use planetariumfd.Thread.{FaceThread, prune_faces_list, pop_faces}
use planetariumfd.Tracker.{is_lost}
use planetariumfd.Process.{prune_threads, due_threads}
use planetariumfd.System.Counters.{Counted, IsKept}

pop_faces-le :
    (fs : List Face) (limit : ℤ) (rest : List Face)
    → pop_faces fs limit ≡ some rest
    → length rest ≤ length fs
pop_faces-le [] limit rest e = elim (Bool-cases (ltb_ℤ limit (pos 0))) [
  | inl negative ↦ absurd (none-ne-some (rw negative at e))
  | inr enough ↦ subst (λ z. length z ≤ 0) (some-injective _ _ (rw enough at e)) (omega arith)
]
pop_faces-le (f ∷ fs) limit rest e = elim (Bool-cases (ltb_ℤ limit (pos (length (f ∷ fs))))) [
  | inl long ↦ omega (arith, pop_faces-le fs limit rest (rw long at e))
  | inr short ↦
      subst (λ z. length z ≤ length (f ∷ fs)) (some-injective _ _ (rw short at e)) (omega arith)
]

-- Trimming a thread leaves its counters and does not make it longer.
prune_faces_list-shorter :
    (limit : ℤ) (t u : FaceThread)
    → prune_faces_list limit t ≡ some u
    → (rest : List Face) × (record t { faces = rest } ≡ u) × (length rest ≤ length t.faces)
unfolding prune_faces_list
prune_faces_list-shorter limit t u e = elim (Option-cases (pop_faces t.faces limit)) [
  | inl none_left ↦ absurd (none-ne-some (rw (none_left, prune_faces_list) at e))
  | inr (rest, some_left) ↦ (
    rest,
    some-injective _ _ (rw (some_left, prune_faces_list) at e),
    pop_faces-le t.faces limit rest some_left,
  )
]

module _ {F : Type 0} (cfg : Config F) (now : ℕ) where
  -- What trimming leaves true of a thread.
  pub prune_faces_list-Counted :
      (limit : ℤ) (t u : FaceThread)
      → prune_faces_list limit t ≡ some u
      → Counted now t
      → Counted now u × (is_lost cfg u ≡ is_lost cfg t) × (u.total_count ≡ t.total_count)
  unfolding is_lost
  prune_faces_list-Counted limit t u e c =
      let (rest, same, le) = prune_faces_list-shorter limit t u e in
      subst (λ v. Counted now v × (is_lost cfg v ≡ is_lost cfg t) × (v.total_count ≡ t.total_count))
        same
        (
          record {
            counts = c.counts;
            covers = c.covers;
            recent = c.recent;
            seen = omega (arith, c.seen, le);
            age = c.age;
          },
          refl,
          refl,
        )

  prune_threads-Counted :
      (limit : ℤ) (ts us : List FaceThread)
      → prune_threads limit ts ≡ some us
      → All (Counted now) ts
      → All (IsKept cfg) ts
      → All (Counted now) us × All (IsKept cfg) us
  prune_threads-Counted limit [] us e c k =
      subst (λ z. All (Counted now) z × All (IsKept cfg) z) (some-injective _ _ e) (tt, tt)
  prune_threads-Counted limit (t ∷ ts) us e (c, cs) (k, ks) =
      let (u, one, e1) = >>=-eq-some (prune_faces_list limit t) _ e in
      let (vs, run, same) = >>=-eq-some (prune_threads limit ts) _ e1 in
      let (counted, lost, total) = prune_faces_list-Counted limit t u one c in
      let (a, b) = prune_threads-Counted limit ts vs run cs ks in
      let kept : IsKept cfg u = elim k [ inl p ↦ inl (lost ∙ p) | inr p ↦ inr (total ∙ p) ] in
      subst (λ z. All (Counted now) z × All (IsKept cfg) z) (some-injective _ _ same)
        ((counted, a), (kept, b))

  pub due_threads-Counted :
      (due : Bool) (limit : ℤ) (ts us : List FaceThread)
      → due_threads due limit ts ≡ some us
      → All (Counted now) ts
      → All (IsKept cfg) ts
      → All (Counted now) us × All (IsKept cfg) us
  due_threads-Counted true limit ts us e c k = prune_threads-Counted limit ts us e c k
  due_threads-Counted false limit ts us e c k =
      subst (λ z. All (Counted now) z × All (IsKept cfg) z) (some-injective _ _ e) (c, k)
