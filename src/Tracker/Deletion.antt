-- ===== src/Tracker/Deletion.antt =====
-- The loop of `processThreads2` that deletes threads, and part 3, which makes new ones.
use planetariumfd.Prelude.{
  ℕ, suc, ◌+◌, ◌≤◌, ◌≡◌, sym, subst, none, ◌∙◌, inl, inr, true, false, List, [], ◌∷◌, ◌++◌,
  append-nil, append_assoc, map, length, arith, All, Bool-cases, Option-cases, none-ne-some, some,
  some-injective,
}
use planetariumfd.Geometry.{Face}
use planetariumfd.Config.{Config}
use planetariumfd.Thread.{FaceThread, new_thread, add_new_face_to_thread}
use planetariumfd.State.{Saved}
use planetariumfd.Tracker.{is_lost, first_lost, delete_threads, add_new_threads}

-- A list dealt out into two, each in the order of the whole.
pub data Split : List FaceThread → List FaceThread → List Saved → Type 0 where
  none_left : Split [] [] []
  stays :
      {t : FaceThread} {ts alive : List FaceThread} {gone : List Saved}
      → Split ts alive gone
      → Split (t ∷ ts) (t ∷ alive) gone
  goes :
      {r : Saved} {ts alive : List FaceThread} {gone : List Saved}
      → Split ts alive gone
      → Split (r.thread ∷ ts) alive (r ∷ gone)

-- Addresses rise along the list, from `low` on and below `next`, so no two are equal.
abbrev pub IsAscending : ℕ → ℕ → List Saved → Type 0
IsAscending low next [] = low ≤ next
IsAscending low next (r ∷ rs) = (low ≤ r.address) × IsAscending (suc r.address) next rs

pub IsAscending-append :
    (low next : ℕ) (rs : List Saved) (t : FaceThread)
    → IsAscending low next rs
    → IsAscending low (next + 1) (rs ++ (record { address = next; thread = t } ∷ []))
IsAscending-append low next [] t h = (h, omega arith)
IsAscending-append low next (r ∷ rs) t (h, hs) =
    (h, IsAscending-append (suc r.address) next rs t hs)

module _ {F : Type 0} (cfg : Config F) where
  -- The outcome of the loop: what goes is appended to the threads being serialized, at addresses
  -- that are in use for no other, and it is exactly the lost threads that go.
  pub record Deleted (ts : List FaceThread) (saved : List Saved) (alive : List FaceThread)
      (saved' : List Saved) (next' : ℕ) : Type 0 where
    pub gone : List Saved
    pub appended : saved' ≡ saved ++ gone
    pub split : Split ts alive gone
    pub kept : All (λ t. is_lost cfg t ≡ false) alive
    pub lost : All (λ (r : Saved). is_lost cfg r.thread ≡ true) gone
    pub ascending : IsAscending 0 next' saved'

  -- For threads being serialized at rising addresses below `next`, the loop leaves in `gThreads` the
  -- threads that are not lost, and appends the lost ones to the threads being serialized, both in
  -- their order, at addresses that still rise.
  pub delete_threads_lem :
      (ts : List FaceThread) (saved : List Saved) (next : ℕ)
      → IsAscending 0 next saved
      → let r = delete_threads cfg ts saved next in Deleted ts saved r.0 r.1 r.2
  unfolding delete_threads
  delete_threads_lem [] saved next h = record {
    gone = [];
    appended = sym (append-nil saved);
    split = none_left;
    kept = tt;
    lost = tt;
    ascending = h;
  }
  delete_threads_lem (t ∷ ts) saved next h = elim (Bool-cases (is_lost cfg t)) [
    | inl lost ↦
        let r : Saved = record { address = next; thread = t } in
        let d =
          delete_threads_lem ts (saved ++ (r ∷ [])) (next + 1)
            (IsAscending-append 0 next saved t h) in
        rw lost (record {
          gone = r ∷ d.gone;
          appended = d.appended ∙ append_assoc saved (r ∷ []) d.gone;
          split = goes {r = r} d.split;
          kept = d.kept;
          lost = (lost, d.lost);
          ascending = d.ascending;
        })
    | inr alive ↦
        let d = delete_threads_lem ts saved next h in
        rw alive (record {
          gone = d.gone;
          appended = d.appended;
          split = stays d.split;
          kept = (alive, d.kept);
          lost = d.lost;
          ascending = d.ascending;
        })
  ]

-- Where the loop next deletes a thread: it is lost, and what holds of all the threads holds of it and
-- of the others.
pub first_lost-All {κ} :
    {F : Type 0} (cfg : Config F) (P : FaceThread → Type κ) (ts : List FaceThread) {t : FaceThread}
    {rest : List FaceThread}
    → first_lost cfg ts ≡ some (t, rest)
    → All P ts
    → (is_lost cfg t ≡ true) × P t × All P rest
unfolding first_lost
first_lost-All cfg P [] e p = absurd (none-ne-some e)
first_lost-All cfg P (x ∷ xs) {t} {rest} e (p, ps) = elim (Bool-cases (is_lost cfg x)) [
  | inl lost ↦
      subst (λ r. (is_lost cfg r.0 ≡ true) × P r.0 × All P r.1)
        (some-injective (x, xs) (t, rest) (rw lost at e)) (lost, p, ps)
  | inr alive ↦ elim (Option-cases (first_lost cfg xs)) [
    | inl no_more ↦ absurd (none-ne-some (rw (alive, no_more) at e))
    | inr (found, there) ↦
        let (lost, q, qs) = first_lost-All cfg P xs {t = found.0} {rest = found.1} there ps in
        subst (λ r. (is_lost cfg r.0 ≡ true) × P r.0 × All P r.1)
          (some-injective (found.0, x ∷ found.1) (t, rest) (rw (alive, there) at e))
          (lost, q, (p, qs))
  ]
]

-- Where it deletes no more, no thread is lost.
pub first_lost-none :
    {F : Type 0} (cfg : Config F) (ts : List FaceThread)
    → first_lost cfg ts ≡ none
    → All (λ t. is_lost cfg t ≡ false) ts
unfolding first_lost
first_lost-none cfg [] e = tt
first_lost-none cfg (x ∷ xs) e = elim (Bool-cases (is_lost cfg x)) [
  | inl lost ↦ absurd (none-ne-some (sym (rw lost at e)))
  | inr alive ↦ elim (Option-cases (first_lost cfg xs)) [
    | inl no_more ↦ (alive, first_lost-none cfg xs no_more)
    | inr (found, there) ↦ absurd (none-ne-some (sym (rw (alive, there) at e)))
  ]
]

-- What holds of all the threads holds of those that stay and of those that go.
pub Split-All {κ} :
    (P : FaceThread → Type κ) {ts alive : List FaceThread} {gone : List Saved}
    → Split ts alive gone
    → All P ts
    → All P alive × All (λ (r : Saved). P r.thread) gone
Split-All P none_left p = (tt, tt)
Split-All P (stays s) (p, ps) = let (a, g) = Split-All P s ps in ((p, a), g)
Split-All P (goes s) (p, ps) = let (a, g) = Split-All P s ps in (a, (p, g))

pub length-Split :
    {ts alive : List FaceThread} {gone : List Saved}
    → Split ts alive gone
    → length alive + length gone ≡ length ts
length-Split none_left = omega arith
length-Split (stays s) = omega (arith, length-Split s)
length-Split (goes s) = omega (arith, length-Split s)

-- Part 3 appends one thread for each face, with that face alone.
abbrev pub seeded : Face → FaceThread
seeded f = record new_thread { faces = f ∷ [] }

pub add_new_threads_lem :
    (ts : List FaceThread) (fs : List Face) → add_new_threads ts fs ≡ ts ++ map seeded fs
unfolding add_new_face_to_thread
add_new_threads_lem ts [] = sym (append-nil ts)
add_new_threads_lem ts (f ∷ fs) =
    add_new_threads_lem (ts ++ (seeded f ∷ [])) fs ∙ append_assoc ts (seeded f ∷ []) (map seeded fs)
