-- ===== src/Convolution/Same.antt =====
-- `LinearConvolutionSame` of Detector/fd_util.h against `LinearConvolution`.
use planetariumfd.Prelude.{
  ℕ, zero, suc, ◌+◌, ◌-◌, ◌/◌, ◌≤◌, ◌<◌, ◌≡◌, refl, sym, subst, inl, inr, pos, List, [], ◌∷◌,
  Option, some, some-injective, ◌>>=◌, >>=-eq-some, get_elem?, leb, min, max, length, arith,
  Bool-cases, ◌∙◌,
}
use native.Mathlib.Decide.{dec_lt}
use planetariumfd.Float.{Float}
use planetariumfd.Convolution.{
  products, convolve_from, linear_convolution, weighted, same_from, linear_convolution_same,
}
use planetariumfd.Convolution.Laws.{weighted_total, linear_convolution_same_total}

module _ {F : Type 0} ⦃fl : Float F⦄ (x y : List F) where
  -- The sum of the weights `y[i - n]`, from `n` on.
  unfoldable pub weight_sum : ℕ → ℕ → ℕ → F → Option F
  weight_sum zero n i sum = some sum
  weight_sum (suc rounds) n i sum = do
    b ← get_elem? y (i - n)
    weight_sum rounds (suc n) i (fl.add sum b)

  -- Both sums of the inner loop, one by one.
  weighted_lem :
      (rounds n i : ℕ) (sum normalize a b : F)
      → weighted x y rounds n i sum normalize ≡ some (a, b)
      → (products x y rounds n i sum ≡ some a) × (weight_sum rounds n i normalize ≡ some b)
  unfolding weighted products weight_sum
  weighted_lem zero n i sum norm a b e =
      ((let q : some sum ≡ some a = cc in q), (let q : some norm ≡ some b = cc in q))
  weighted_lem (suc rounds) n i sum norm a b e =
      let (p, has_p, e1) =
        >>=-eq-some (get_elem? x n)
          (λ p. get_elem? y (i - n) >>= λ q.
            weighted x y rounds (suc n) i (fl.add sum (fl.mul p q)) (fl.add norm q))
          e in
      let (q, has_q, e2) =
        >>=-eq-some (get_elem? y (i - n))
          (λ q. weighted x y rounds (suc n) i (fl.add sum (fl.mul p q)) (fl.add norm q)) e1 in
      let (l, r) = weighted_lem rounds (suc n) i (fl.add sum (fl.mul p q)) (fl.add norm q) a b e2 in
      (rw (has_p, has_q) l, rw has_q r)

  module _ (lenx leny : ℕ) where
    -- The weights that meet X at the element `i` of the full convolution.
    abbrev pub weights_at : ℕ → Option F
    weights_at i =
        weight_sum (min lenx (suc i) - (suc i - leny)) (suc i - leny) i (fl.literal (pos 0) 1)

    -- The elements of the full convolution from `i` on, and those of the other: each in the middle
    -- part is divided by its weights.
    pub data Scaled : ℕ → List F → List F → Type 0 where
      none_left : {i : ℕ} → Scaled i [] []
      past : {i : ℕ} {full : List F} → lenx + leny / 2 ≤ i → Scaled i full []
      ahead :
          {i : ℕ} {sum : F} {full out : List F}
          → i < leny / 2
          → Scaled (suc i) full out
          → Scaled i (sum ∷ full) out
      within :
          {i : ℕ} {sum norm : F} {full out : List F}
          → leny / 2 ≤ i
          → weights_at i ≡ some norm
          → Scaled (suc i) full out
          → Scaled i (sum ∷ full) (fl.div sum norm ∷ out)

    scaled_lem :
        (rounds i : ℕ)
        → lenx ≤ length x
        → leny ≤ length y
        → 0 < leny
        → i + rounds ≤ lenx + leny - 1
        → (full out : List F) × (convolve_from x y lenx leny rounds i ≡ some full)
          × (same_from x y lenx leny rounds i ≡ some out)
          × (length full ≡ rounds)
          × Scaled i full out
    unfolding convolve_from same_from
    scaled_lem zero i a b c d = ([], [], refl, refl, refl, none_left)
    scaled_lem (suc rounds) i a b c d =
        let zeros = fl.literal (pos 0) 1 in
        let ((sum, norm), run) =
          weighted_total x y (min lenx (suc i) - (suc i - leny)) (suc i - leny) i zeros zeros
            (omega arith) (omega arith) (omega arith) in
        let (sums, norms) =
          weighted_lem (min lenx (suc i) - (suc i - leny)) (suc i - leny) i zeros zeros sum norm
            run in
        let (full, out, ran, same, size, scaled) = scaled_lem rounds (suc i) a b c (omega arith) in
        elim (Bool-cases (leb (lenx + leny / 2) i)) [
          | inl over ↦
              (sum ∷ full, [], rw (sums, ran) refl, rw over refl, omega arith, past (ground arith))
          | inr inside ↦ elim (Bool-cases (leb (leny / 2) i)) [
            | inl writes ↦ (
              sum ∷ full,
              fl.div sum norm ∷ out,
              rw (sums, ran) refl,
              rw (inside, run, same, writes) refl,
              omega arith,
              within (ground arith) norms scaled,
            )
            | inr skips ↦ (
              sum ∷ full,
              out,
              rw (sums, ran) refl,
              rw (inside, run, same, skips) refl,
              omega arith,
              ahead (ground arith) scaled,
            )
          ]
        ]

    Scaled-get_elem? :
        (i : ℕ) (full out : List F)
        → Scaled i full out
        → (j : ℕ) → leny / 2 ≤ j
        → i ≤ j
        → j < lenx + leny / 2
        → j < i + length full
        → (sum norm : F) × (get_elem? full (j - i) ≡ some sum)
          × (weights_at j ≡ some norm)
          × (get_elem? out (j - max i (leny / 2)) ≡ some (fl.div sum norm))
    Scaled-get_elem? i full out none_left j a b c d = absurd (omega arith)
    Scaled-get_elem? i full out (past p) j a b c d = absurd (omega arith)
    Scaled-get_elem? i full out (ahead {sum = s} {full = rest} lt later) j a b c d =
        let (sum, norm, f, w, o) =
          Scaled-get_elem? (suc i) rest out later j a (omega arith) c (omega arith) in
        let index : j - i ≡ suc (j - suc i) = omega arith in
        let same : max i (leny / 2) ≡ max (suc i) (leny / 2) = omega arith in
        (sum, norm, rw index f, w, rw same o)
    Scaled-get_elem? i full out (within {sum = s} {norm = n} {full = rest} {out = more} le w later)
          j a b c d =
        elim (dec_lt i j) [
          | yes beyond ↦
              let (sum, norm, f, w', o) =
                Scaled-get_elem? (suc i) rest more later j a (omega arith) c (omega arith) in
              let index : j - i ≡ suc (j - suc i) = omega arith in
              let place : j - max i (leny / 2) ≡ suc (j - max (suc i) (leny / 2)) = omega arith in
              (sum, norm, rw index f, w', rw place o)
          | no here ↦
              let same : i ≡ j = omega arith in
              let index : j - i ≡ 0 = omega arith in
              let place : j - max i (leny / 2) ≡ 0 = omega arith in
              (s, n, rw index refl, subst (λ k. weights_at k ≡ some n) same w, rw place refl)
        ]

    -- If `lenx` and `leny` are not above the sizes of X and Y, `leny` is not zero and `k < lenx`,
    -- both convolutions of X with Y end and read within both; the result of `LinearConvolutionSame`
    -- has `lenx` elements, and its element `k` is the element `k + leny / 2` of the result of
    -- `LinearConvolution`, divided by the sum of the weights of Y that meet X there.
    pub linear_convolution_same_lem :
        lenx ≤ length x
        → leny ≤ length y
        → 0 < leny
        → (k : ℕ) → k < lenx
        → (full out : List F) × (sum norm : F) × (linear_convolution x y lenx leny ≡ some full)
          × (linear_convolution_same x y lenx leny ≡ some out)
          × (length out ≡ lenx)
          × (get_elem? full (k + leny / 2) ≡ some sum)
          × (weights_at (k + leny / 2) ≡ some norm)
          × (get_elem? out k ≡ some (fl.div sum norm))
    unfolding linear_convolution linear_convolution_same
    linear_convolution_same_lem a b c k lt =
        let (full, out, ran, same, size, scaled) =
          scaled_lem (lenx + leny - 1) 0 a b c (omega arith) in
        let (z, again, count) = linear_convolution_same_total x y lenx leny a b c in
        let one : z ≡ out = some-injective z out (sym again ∙ same) in
        let (sum, norm, f, w, o) =
          Scaled-get_elem? 0 full out scaled (k + leny / 2) (omega arith) (omega arith)
            (omega arith) (omega arith) in
        let first : k + leny / 2 - 0 ≡ k + leny / 2 = omega arith in
        let place : k + leny / 2 - max 0 (leny / 2) ≡ k = omega arith in
        (full, out, sum, norm, ran, same, rw one at count, rw first at f, w, rw place at o)
