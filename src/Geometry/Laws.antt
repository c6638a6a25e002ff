-- ===== src/Geometry/Laws.antt =====
-- What the float measures of Geometry.antt compute on integer data.
use planetariumfd.Prelude.{◌≡◌, ℤ, arith}
use planetariumfd.Float.{Float, IsIeee, IsExact}
use planetariumfd.Geometry.{my_round}

module _ {F : Type 0} ⦃fl : Float F⦄ (laws : IsIeee F) where
  -- With IEEE floats `my_round` of an integer of at most 2^24 in magnitude is that integer.
  pub my_round-of_int : (z : ℤ) → IsExact z → my_round (fl.of_int z) ≡ z
  unfolding my_round
  my_round-of_int z h =
      rw (laws.floor-of_int z h, laws.ceil-of_int z h) (ground (arith, laws.to_int-of_int z h))
