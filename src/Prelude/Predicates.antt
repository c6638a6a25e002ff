-- ===== src/Prelude/Predicates.antt =====
-- Predicates on every element of a list.
use Prim.Native.Nat.{ℕ, zero, suc}
use mathlib.Core.Path.{◌≡◌, refl, sym, subst}
use mathlib.Core.List.{List, [], ◌∷◌, ◌++◌}
use mathlib.Core.Option.{some, some-injective}
use native.Mathlib.Omega.{arith}
use planetariumfd.Prelude.Lists.{get_elem?, set}

abbrev pub All {ℓ κ} : {A : Type ℓ} → (A → Type κ) → List A → Type κ
All P [] = Unit
All P (x ∷ xs) = P x × All P xs

module _ {ℓ κ} {A : Type ℓ} (P : A → Type κ) where
  pub All-append : (xs ys : List A) → All P xs → All P ys → All P (xs ++ ys)
  All-append [] ys p q = q
  All-append (x ∷ xs) ys (p, ps) q = (p, All-append xs ys ps q)

  pub All-split : (xs ys : List A) → All P (xs ++ ys) → All P xs × All P ys
  All-split [] ys p = (tt, p)
  All-split (x ∷ xs) ys (p, ps) = let (l, r) = All-split xs ys ps in ((p, l), r)

  pub All-map {μ} : (Q : A → Type μ) → ((x : A) → P x → Q x) → (xs : List A) → All P xs → All Q xs
  All-map Q f [] p = tt
  All-map Q f (x ∷ xs) (p, ps) = (f x p, All-map Q f xs ps)

  pub All-get_elem? : (xs : List A) (i : ℕ) (x : A) → All P xs → get_elem? xs i ≡ some x → P x
  All-get_elem? [] i x p e = cc
  All-get_elem? (y ∷ xs) zero x (p, ps) e = ground arith
  All-get_elem? (y ∷ xs) (suc i) x (p, ps) e = All-get_elem? xs i x ps e

-- A relation between the elements of two lists of the same length, position by position.
abbrev pub All₂ : {A B : Type 0} → (A → B → Type 0) → List A → List B → Type 0
All₂ R [] [] = Unit
All₂ R [] (y ∷ ys) = ⊥
All₂ R (x ∷ xs) [] = ⊥
All₂ R (x ∷ xs) (y ∷ ys) = R x y × All₂ R xs ys

module _ {A B : Type 0} (R : A → B → Type 0) where
  pub All₂-set :
      (xs : List A) (ys : List B) (i : ℕ) (x : A) (y : B)
      → All₂ R xs ys
      → get_elem? xs i ≡ some x
      → R x y
      → All₂ R xs (set ys i y)
  All₂-set [] ys i x y p e r = cc
  All₂-set (a ∷ xs) [] i x y p e r = p
  All₂-set (a ∷ xs) (b ∷ ys) zero x y (p, ps) e r =
      (subst (λ (z : A). R z y) (sym (some-injective _ _ e)) r, ps)
  All₂-set (a ∷ xs) (b ∷ ys) (suc i) x y (p, ps) e r = (p, All₂-set xs ys i x y ps e r)

  pub All₂-get_elem? :
      (xs : List A) (ys : List B) (i : ℕ) (x : A)
      → All₂ R xs ys
      → get_elem? xs i ≡ some x
      → (y : B) × (get_elem? ys i ≡ some y) × R x y
  All₂-get_elem? [] ys i x p e = cc
  All₂-get_elem? (a ∷ xs) [] i x p e = absurd p
  All₂-get_elem? (a ∷ xs) (b ∷ ys) zero x (p, ps) e =
      (b, refl, subst (λ (z : A). R z b) (some-injective _ _ e) p)
  All₂-get_elem? (a ∷ xs) (b ∷ ys) (suc i) x (p, ps) e = All₂-get_elem? xs ys i x ps e
