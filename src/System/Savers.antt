-- ===== src/System/Savers.antt =====
-- The list of threads that are being serialized, under the two steps of `saveAndDeleteThread`.
use planetariumfd.Prelude.{
  ℕ, suc, ◌≤◌, ◌≡◌, ◌≢◌, refl, subst, ◌∙◌, inl, inr, ℤ, pos, List, [], ◌∷◌, Option, none, some,
  some-injective, arith, All, Bool-cases, ◌==◌, ◌⊎◌,
}
use planetariumfd.Thread.{FaceThread}
use planetariumfd.State.{Saved}
use planetariumfd.Tracker.Deletion.{IsAscending}
use planetariumfd.System.{find_saved, put_saved, delete_being_serialized, kept_in_front}

module _ (P : FaceThread → Type 0) where
  abbrev Holds : Saved → Type 0
  Holds r = P r.thread

  pub find_saved-All :
      (a : ℕ) (rs : List Saved) (th : FaceThread) → All Holds rs → find_saved a rs ≡ some th → P th
  find_saved-All a [] th p e = cc
  find_saved-All a (r ∷ rs) th (p, ps) e = elim (Bool-cases (r.address == a)) [
    | inl here ↦ subst P (some-injective _ _ (rw here at e)) p
    | inr there ↦ find_saved-All a rs th ps (rw there at e)
  ]

  pub put_saved-All :
      (a : ℕ) (th : FaceThread) (rs : List Saved)
      → P th
      → All Holds rs
      → All Holds (put_saved a th rs)
  put_saved-All a th [] q p = tt
  put_saved-All a th (r ∷ rs) q (p, ps) = elim (Bool-cases (r.address == a)) [
    | inl here ↦ rw here (q, ps)
    | inr there ↦ rw there (p, put_saved-All a th rs q ps)
  ]

pub put_saved-IsAscending :
    (a low next : ℕ) (th : FaceThread) (rs : List Saved)
    → IsAscending low next rs
    → IsAscending low next (put_saved a th rs)
put_saved-IsAscending a low next th [] p = p
put_saved-IsAscending a low next th (r ∷ rs) (p, ps) = elim (Bool-cases (r.address == a)) [
  | inl here ↦ rw here (p, ps)
  | inr there ↦ rw there (p, put_saved-IsAscending a (suc r.address) next th rs ps)
]

IsAscending-lower :
    (low low' next : ℕ) (rs : List Saved)
    → low' ≤ low
    → IsAscending low next rs
    → IsAscending low' next rs
IsAscending-lower low low' next [] h p = omega arith
IsAscending-lower low low' next (r ∷ rs) h (p, ps) = (omega arith, ps)

-- A list with one element less, in the same order.
pub data Without (a : ℕ) : List Saved → List Saved → Type 0 where
  here : {r : Saved} {rs : List Saved} → r.address ≡ a → Without a (r ∷ rs) rs
  there :
      {r : Saved} {rs others : List Saved}
      → r.address ≢ a
      → Without a rs others
      → Without a (r ∷ rs) (r ∷ others)

pub Without-All :
    (P : Saved → Type 0) {a : ℕ} {rs others : List Saved}
    → Without a rs others
    → All P rs
    → All P others
Without-All P (here e) (p, ps) = ps
Without-All P (there e w) (p, ps) = (p, Without-All P w ps)

pub Without-IsAscending :
    {a : ℕ} (low next : ℕ) {rs others : List Saved}
    → Without a rs others
    → IsAscending low next rs
    → IsAscending low next others
Without-IsAscending low next (here {r} {rs} e) (p, ps) =
    IsAscending-lower (suc r.address) low next rs (omega arith) ps
Without-IsAscending low next (there {r} e w) (p, ps) =
    (p, Without-IsAscending (suc r.address) next w ps)

kept_in_front-Without :
    (a : ℕ) (r : Saved) (rs : List Saved) (o : Option (ℤ × List Saved)) {code : ℤ}
    {others : List Saved}
    → r.address ≢ a
    → ((c : ℤ) (found : List Saved) → o ≡ some (c, found) → (c ≡ pos 0) × Without a rs found)
    → kept_in_front r o ≡ some (code, others)
    → (code ≡ pos 0) × Without a (r ∷ rs) others
kept_in_front-Without a r rs none ne rec e = cc
kept_in_front-Without a r rs (some (c, found)) {code} {others} ne rec e =
    let (zero_code, w) = rec c found refl in
    (
      (let q : code ≡ c = ground arith in q) ∙ zero_code,
      subst (Without a (r ∷ rs)) (let q : r ∷ found ≡ others = ground arith in q) (there ne w),
    )

-- If `deleteThreadFromgThreads_beingSerialized` ends without failing its assertion, it returns 0 and
-- has taken out the first element with the address, and no other.
pub delete_being_serialized-Without :
    (a : ℕ) (rs : List Saved) {code : ℤ} {others : List Saved}
    → delete_being_serialized a rs ≡ some (code, others)
    → (code ≡ pos 0) × Without a rs others
unfolding delete_being_serialized
delete_being_serialized-Without a [] e = cc
delete_being_serialized-Without a (r ∷ rs) {code} {others} e = elim (Bool-cases (r.address == a)) [
  | inl same ↦ (
    ground arith,
    subst (Without a (r ∷ rs)) (let q : rs ≡ others = ground arith in q)
        (here (let q : r.address ≡ a = ground arith in q)),
  )
  | inr other ↦
      kept_in_front-Without a r rs (delete_being_serialized a rs)
        (let q : r.address ≢ a = ground arith in q)
        (λ c found run. delete_being_serialized-Without a rs run) (rw other at e)
]

-- Whether an address is in use.
abbrev pub HasAddress : ℕ → List Saved → Type 0
HasAddress a [] = ⊥
HasAddress a (r ∷ rs) = (r.address ≡ a) ⊎ HasAddress a rs

-- For a thread that is in the list, `deleteThreadFromgThreads_beingSerialized` returns 0 and its
-- assertion does not fail.
pub delete_being_serialized_total :
    (a : ℕ) (rs : List Saved)
    → HasAddress a rs
    → (others : List Saved) × (delete_being_serialized a rs ≡ some (pos 0, others))
unfolding delete_being_serialized
delete_being_serialized_total a [] h = absurd h
delete_being_serialized_total a (r ∷ rs) h = elim (Bool-cases (r.address == a)) [
  | inl same ↦ (rs, rw same)
  | inr other ↦ elim h [
    | inl e ↦ absurd (let q : r.address ≢ a = ground arith in q e)
    | inr later ↦
        let (others, run) = delete_being_serialized_total a rs later in
        (r ∷ others, rw (other, run))
  ]
]
