-- ===== src/Convolution.antt =====
-- The convolutions of Detector/fd_util.h. An array is a list; `none` is an access out of its bounds.
use planetariumfd.Prelude.{
  ℕ, zero, suc, ◌+◌, ◌-◌, ◌/◌, pos, List, [], ◌∷◌, Option, none, some, ◌>>=◌, get_elem?, leb, min,
  if◌then◌else◌, length,
}
use planetariumfd.Float.{Float}
pub mod Laws
pub mod Same

module _ {F : Type 0} ⦃fl : Float F⦄ where
  open fl use {literal, add, mul, div}

  module _ (x y : List F) where
    -- The inner loop of `LinearConvolution`: `rounds` products `x[n] * y[i - n]`, from `n` on.
    unfoldable pub products : ℕ → ℕ → ℕ → F → Option F
    products zero n i sum = some sum
    products (suc rounds) n i sum = do
      a ← get_elem? x n
      b ← get_elem? y (i - n)
      products rounds (suc n) i (add sum (mul a b))

    -- The outer loop: the elements of Z from `i` on, `rounds` of them.
    unfoldable pub convolve_from : ℕ → ℕ → ℕ → ℕ → Option (List F)
    unfolding products
    convolve_from lenx leny zero i = some []
    convolve_from lenx leny (suc rounds) i = do
      let lo = suc i - leny
      sum ← products (min lenx (suc i) - lo) lo i (literal (pos 0) 1)
      rest ← convolve_from lenx leny rounds (suc i)
      some (sum ∷ rest)

    unfoldable pub linear_convolution : ℕ → ℕ → Option (List F)
    unfolding convolve_from
    linear_convolution lenx leny = convolve_from lenx leny (lenx + leny - 1) 0

    -- The inner loop of `LinearConvolutionSame`: the sum, and the sum of the weights.
    unfoldable pub weighted : ℕ → ℕ → ℕ → F → F → Option (F × F)
    weighted zero n i sum normalize = some (sum, normalize)
    weighted (suc rounds) n i sum normalize = do
      a ← get_elem? x n
      b ← get_elem? y (i - n)
      weighted rounds (suc n) i (add sum (mul a b)) (add normalize b)

    -- The outer loop: what is written to Z in the rounds from `i` on.
    unfoldable pub same_from : ℕ → ℕ → ℕ → ℕ → Option (List F)
    unfolding weighted
    same_from lenx leny zero i = some []
    same_from lenx leny (suc rounds) i =
        let lo = suc i - leny in
        let zeros = literal (pos 0) 1 in
        let more = same_from lenx leny rounds (suc i) in
        if leb (lenx + leny / 2) i then some [] else do
          (sum, normalize) ← weighted (min lenx (suc i) - lo) lo i zeros zeros
          rest ← more
          some (if leb (leny / 2) i then div sum normalize ∷ rest else rest)

    unfoldable pub linear_convolution_same : ℕ → ℕ → Option (List F)
    unfolding same_from
    linear_convolution_same lenx leny = same_from lenx leny (lenx + leny - 1) 0
