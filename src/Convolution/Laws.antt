-- ===== src/Convolution/Laws.antt =====
-- Bounds of the convolutions: which accesses stay inside the arrays, and how much is written.
use planetariumfd.Prelude.{
  ℕ, zero, suc, ◌+◌, ◌-◌, ◌/◌, ◌≤◌, ◌<◌, ◌≡◌, refl, inl, inr, pos, false, List, [], ◌∷◌, none, some,
  get_elem?, get_elem?_total, leb, min, length, arith, Bool-cases, Option-cases, get_elem?_beyond,
}
use native.Mathlib.Decide.{dec_lt}
use planetariumfd.Float.{Float}
use planetariumfd.Convolution.{
  products, convolve_from, linear_convolution, weighted, same_from, linear_convolution_same,
}

module _ {F : Type 0} ⦃fl : Float F⦄ (x y : List F) where
  products_total :
      (rounds n i : ℕ) (sum : F)
      → n + rounds ≤ length x
      → n + rounds ≤ suc i
      → i < n + length y
      → (total : F) × (products x y rounds n i sum ≡ some total)
  unfolding products
  products_total zero n i sum a b c = (sum, refl)
  products_total (suc rounds) n i sum a b c =
      let (p, has_p) = get_elem?_total x n (omega arith) in
      let (q, has_q) = get_elem?_total y (i - n) (omega arith) in
      let (total, run) =
        products_total rounds (suc n) i (fl.add sum (fl.mul p q)) (omega arith) (omega arith)
          (omega arith) in
      (total, rw has_p (rw has_q run))

  pub weighted_total :
      (rounds n i : ℕ) (sum normalize : F)
      → n + rounds ≤ length x
      → n + rounds ≤ suc i
      → i < n + length y
      → (total : F × F) × (weighted x y rounds n i sum normalize ≡ some total)
  unfolding weighted
  weighted_total zero n i sum norm a b c = ((sum, norm), refl)
  weighted_total (suc rounds) n i sum norm a b c =
      let (p, has_p) = get_elem?_total x n (omega arith) in
      let (q, has_q) = get_elem?_total y (i - n) (omega arith) in
      let (total, run) =
        weighted_total rounds (suc n) i (fl.add sum (fl.mul p q)) (fl.add norm q) (omega arith)
          (omega arith) (omega arith) in
      (total, rw has_p (rw has_q run))

  pub convolve_from_total :
      (lenx leny rounds i : ℕ)
      → lenx ≤ length x
      → leny ≤ length y
      → 0 < leny
      → i + rounds ≤ lenx + leny - 1
      → (z : List F) × (convolve_from x y lenx leny rounds i ≡ some z) × (length z ≡ rounds)
  unfolding convolve_from
  convolve_from_total lenx leny zero i a b c d = ([], refl, refl)
  convolve_from_total lenx leny (suc rounds) i a b c d =
      let (sum, run) =
        products_total (min lenx (suc i) - (suc i - leny)) (suc i - leny) i (fl.literal (pos 0) 1)
          (omega arith) (omega arith) (omega arith) in
      let (rest, runs, size) = convolve_from_total lenx leny rounds (suc i) a b c (omega arith) in
      (sum ∷ rest, rw run (rw runs), omega arith)

  -- `LinearConvolution` reads within X and Y and writes exactly `lenx + leny - 1` elements of Z.
  pub linear_convolution_total :
      (lenx leny : ℕ)
      → lenx ≤ length x
      → leny ≤ length y
      → 0 < leny
      → (z : List F) × (linear_convolution x y lenx leny ≡ some z) × (length z ≡ lenx + leny - 1)
  unfolding linear_convolution
  linear_convolution_total lenx leny a b c =
      convolve_from_total lenx leny (lenx + leny - 1) 0 a b c (omega arith)

  pub same_from_total :
      (lenx leny rounds i : ℕ)
      → lenx ≤ length x
      → leny ≤ length y
      → 0 < leny
      → i + rounds ≡ lenx + leny - 1
      → (z : List F) × (same_from x y lenx leny rounds i ≡ some z)
        × (length z ≡ min lenx (lenx + leny / 2 - i))
  unfolding same_from
  same_from_total lenx leny zero i a b c d = ([], refl, omega arith)
  same_from_total lenx leny (suc rounds) i a b c d =
      let (rest, runs, size) = same_from_total lenx leny rounds (suc i) a b c (omega arith) in
      elim (Bool-cases (leb (lenx + leny / 2) i)) [
        | inl past ↦ ([], rw past, ground arith)
        | inr inside ↦
            let zeros = fl.literal (pos 0) 1 in
            let (total, run) =
              weighted_total (min lenx (suc i) - (suc i - leny)) (suc i - leny) i zeros zeros
                (omega arith) (omega arith) (omega arith) in
            elim (Bool-cases (leb (leny / 2) i)) [
              | inl writes ↦ (
                fl.div total.0 total.1 ∷ rest,
                rw inside (rw run (rw runs (rw writes))),
                ground arith,
              )
              | inr skips ↦ (rest, rw inside (rw run (rw runs (rw skips))), ground arith)
            ]
      ]

  -- `LinearConvolutionSame` reads within X and Y and writes exactly `lenx` elements of Z, as long as
  -- `lenx` and `leny` are not above the sizes of X and Y and `leny` is not zero.
  pub linear_convolution_same_total :
      (lenx leny : ℕ)
      → lenx ≤ length x
      → leny ≤ length y
      → 0 < leny
      → (z : List F) × (linear_convolution_same x y lenx leny ≡ some z) × (length z ≡ lenx)
  unfolding linear_convolution_same
  linear_convolution_same_total lenx leny a b c =
      let (z, run, size) = same_from_total lenx leny (lenx + leny - 1) 0 a b c (omega arith) in
      (z, run, omega arith)

  weighted_beyond :
      (rounds n i : ℕ) (sum normalize : F)
      → n ≤ i
      → length y + n ≤ i
      → weighted x y (suc rounds) n i sum normalize ≡ none
  unfolding weighted
  weighted_beyond rounds n i sum norm a b =
      let e : get_elem? y (i - n) ≡ none = get_elem?_beyond y (i - n) (omega arith) in
      elim (Option-cases (get_elem? x n)) [ inl off ↦ rw off | inr (p, on) ↦ rw on (rw e) ]

  same_from_beyond :
      (lenx leny rounds i : ℕ)
      → 0 < lenx
      → length y < leny
      → i ≤ length y
      → i + rounds ≡ lenx + leny - 1
      → length y < lenx + leny / 2
      → same_from x y lenx leny rounds i ≡ none
  unfolding same_from
  same_from_beyond lenx leny zero i a b c d e = absurd (omega arith)
  same_from_beyond lenx leny (suc rounds) i a b c d e =
      let zeros = fl.literal (pos 0) 1 in
      let inside : leb (lenx + leny / 2) i ≡ false = ground arith in
      elim (dec_lt i (length y)) [
        | yes before ↦
            let later =
              same_from_beyond lenx leny rounds (suc i) a b (omega arith) (omega arith) e in
            elim (Option-cases
              (weighted x y (min lenx (suc i) - (suc i - leny)) (suc i - leny) i zeros zeros)) [
                | inl off ↦ rw inside (rw off)
                | inr (total, on) ↦ rw inside (rw on (rw later))
              ]
        | no at ↦
            let lo : suc i - leny ≡ 0 = omega arith in
            let some_round : min lenx (suc i) - 0 ≡ suc (min lenx (suc i) - 1) = omega arith in
            rw inside (
              rw lo (
                rw some_round (
                  rw (
                    weighted_beyond (min lenx (suc i) - 1) 0 i zeros zeros (omega arith)
                      (omega arith)))))
      ]

  -- If `leny` is above the size of Y and the loop gets as far as the first element past Y, then
  -- `LinearConvolutionSame` reads outside Y, whatever the arrays hold.
  pub linear_convolution_same_beyond :
      (lenx leny : ℕ)
      → 0 < lenx
      → length y < leny
      → length y < lenx + leny / 2
      → linear_convolution_same x y lenx leny ≡ none
  unfolding linear_convolution_same
  linear_convolution_same_beyond lenx leny a b c =
      same_from_beyond lenx leny (lenx + leny - 1) 0 a b (omega arith) (omega arith) c
