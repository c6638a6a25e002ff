-- ===== src/Smooth/Stats.antt =====
-- `faceStats` of Detector/FaceProcessor.cpp: the ranges of the coordinates and the average size.
use planetariumfd.Prelude.{
  ℕ, zero, suc, ◌+◌, ℤ, pos, negsuc, ◌+ℤ◌, ◌≤ℤ◌, ◌≡◌, refl, ltb_ℤ, quotient, List, [], ◌∷◌, Option,
  none, some, length, if◌then◌else◌, arith, All, ◌<◌, ap, ◌∙◌,
}
use planetariumfd.Geometry.{Rect, Face}

pub record FaceStats : Type 0 where
  pub min_x : ℤ
  pub max_x : ℤ
  pub min_y : ℤ
  pub max_y : ℤ
  pub min_height : ℤ
  pub max_height : ℤ
  pub min_width : ℤ
  pub max_width : ℤ
  pub average_height : ℤ
  pub average_width : ℤ

-- `if (low > v) low = v` and `if (high < v) high = v`
abbrev pub lowered : ℤ → ℤ → ℤ
lowered low v = if ltb_ℤ v low then v else low

abbrev pub raised : ℤ → ℤ → ℤ
raised high v = if ltb_ℤ high v then v else high

-- The body of the loop, but for the sums.
unfoldable pub widen_stats : FaceStats → Rect → FaceStats
widen_stats s r = record s {
  min_x = lowered s.min_x r.x;
  min_y = lowered s.min_y r.y;
  min_width = lowered s.min_width r.width;
  min_height = lowered s.min_height r.height;
  max_x = raised s.max_x r.x;
  max_y = raised s.max_y r.y;
  max_width = raised s.max_width r.width;
  max_height = raised s.max_height r.height;
}

-- The loop over the list, with the count `i` and the two sums, and the averages behind it; `none` is
-- a division by zero.
unfoldable pub stats_loop : List Face → FaceStats → ℕ → ℤ → ℤ → Option FaceStats
unfolding widen_stats
stats_loop [] s zero sum_height sum_width = none
stats_loop [] s (suc i) sum_height sum_width = some (record s {
  average_height = quotient sum_height (suc i);
  average_width = quotient sum_width (suc i);
})
stats_loop (f ∷ fs) s i sum_height sum_width =
    stats_loop fs (widen_stats s f.rect) (suc i) (sum_height +ℤ f.rect.height)
      (sum_width +ℤ f.rect.width)

-- The statistics that the loop starts with.
abbrev pub first_stats : Rect → FaceStats
first_stats r = record {
  min_x = r.x;
  max_x = r.x;
  min_y = r.y;
  max_y = r.y;
  min_height = r.height;
  max_height = r.height;
  min_width = r.width;
  max_width = r.width;
  average_height = negsuc 0;
  average_width = negsuc 0;
}

-- `none` is the assertion that the list is not empty.
unfoldable pub face_stats : List Face → Option FaceStats
unfolding stats_loop
face_stats [] = none
face_stats (f ∷ fs) = stats_loop (f ∷ fs) (first_stats f.rect) 0 (pos 0) (pos 0)

-- A rectangle lies within the ranges.
pub record Covers (s : FaceStats) (r : Rect) : Type 0 where
  pub x_low : s.min_x ≤ℤ r.x
  pub x_high : r.x ≤ℤ s.max_x
  pub y_low : s.min_y ≤ℤ r.y
  pub y_high : r.y ≤ℤ s.max_y
  pub width_low : s.min_width ≤ℤ r.width
  pub width_high : r.width ≤ℤ s.max_width
  pub height_low : s.min_height ≤ℤ r.height
  pub height_high : r.height ≤ℤ s.max_height

lowered_lem : (low v : ℤ) → (lowered low v ≤ℤ low) × (lowered low v ≤ℤ v)
lowered_lem low v = (ground arith, ground arith)

raised_lem : (high v : ℤ) → (high ≤ℤ raised high v) × (v ≤ℤ raised high v)
raised_lem high v = (ground arith, ground arith)

-- The ranges only grow, to cover the new rectangle.
widen_stats-new : (s : FaceStats) (r : Rect) → Covers (widen_stats s r) r
unfolding widen_stats
widen_stats-new s r = record {
  x_low = (lowered_lem s.min_x r.x).1;
  x_high = (raised_lem s.max_x r.x).1;
  y_low = (lowered_lem s.min_y r.y).1;
  y_high = (raised_lem s.max_y r.y).1;
  width_low = (lowered_lem s.min_width r.width).1;
  width_high = (raised_lem s.max_width r.width).1;
  height_low = (lowered_lem s.min_height r.height).1;
  height_high = (raised_lem s.max_height r.height).1;
}

widen_stats-old : (s : FaceStats) (r q : Rect) → Covers s q → Covers (widen_stats s r) q
unfolding widen_stats
widen_stats-old s r q c = record {
  x_low = omega (arith, c.x_low, (lowered_lem s.min_x r.x).0);
  x_high = omega (arith, c.x_high, (raised_lem s.max_x r.x).0);
  y_low = omega (arith, c.y_low, (lowered_lem s.min_y r.y).0);
  y_high = omega (arith, c.y_high, (raised_lem s.max_y r.y).0);
  width_low = omega (arith, c.width_low, (lowered_lem s.min_width r.width).0);
  width_high = omega (arith, c.width_high, (raised_lem s.max_width r.width).0);
  height_low = omega (arith, c.height_low, (lowered_lem s.min_height r.height).0);
  height_high = omega (arith, c.height_high, (raised_lem s.max_height r.height).0);
}

-- The sum of a coordinate, from `start` on.
abbrev pub total : (Rect → ℤ) → ℤ → List Face → ℤ
total get start [] = start
total get start (f ∷ fs) = total get (start +ℤ get f.rect) fs

stats_loop_lem :
    (fs : List Face) (s : FaceStats) (i : ℕ) (sum_height sum_width : ℤ)
    → 0 < i + length fs
    → (t : FaceStats) × (stats_loop fs s i sum_height sum_width ≡ some t)
      × ((q : Rect) → Covers s q → Covers t q)
      × All (λ (f : Face). Covers t f.rect) fs
      × (t.average_height ≡ quotient (total (λ r. r.height) sum_height fs) (i + length fs))
      × (t.average_width ≡ quotient (total (λ r. r.width) sum_width fs) (i + length fs))
unfolding stats_loop
stats_loop_lem [] s zero h w p = absurd (omega arith)
stats_loop_lem [] s (suc i) h w p = (
  _,
  refl,
  λ q c. record {
    x_low = c.x_low;
    x_high = c.x_high;
    y_low = c.y_low;
    y_high = c.y_high;
    width_low = c.width_low;
    width_high = c.width_high;
    height_low = c.height_low;
    height_high = c.height_high;
  },
  tt,
  ap (λ n. quotient h n) (omega arith),
  ap (λ n. quotient w n) (omega arith),
)
stats_loop_lem (f ∷ fs) s i h w p =
    let (t, run, old, new, ah, aw) =
      stats_loop_lem fs (widen_stats s f.rect) (suc i) (h +ℤ f.rect.height) (w +ℤ f.rect.width)
        (omega arith) in
    (
      t,
      run,
      λ q c. old q (widen_stats-old s f.rect q c),
      (old f.rect (widen_stats-new s f.rect), new),
      ah ∙ ap (λ n. quotient (total (λ r. r.height) h (f ∷ fs)) n) (omega arith),
      aw ∙ ap (λ n. quotient (total (λ r. r.width) w (f ∷ fs)) n) (omega arith),
    )

-- `faceStats` of a nonempty list ends without a fault; its ranges cover the rectangle of every face,
-- and its averages are the sums of the heights and widths over the number of faces, rounded to zero.
pub face_stats_lem :
    (f : Face) (fs : List Face)
    → (t : FaceStats) × (face_stats (f ∷ fs) ≡ some t)
      × All (λ (g : Face). Covers t g.rect) (f ∷ fs)
      × (t.average_height ≡ quotient (total (λ r. r.height) (pos 0) (f ∷ fs)) (length (f ∷ fs)))
      × (t.average_width ≡ quotient (total (λ r. r.width) (pos 0) (f ∷ fs)) (length (f ∷ fs)))
unfolding face_stats
face_stats_lem f fs =
    let (t, run, old, covers, ah, aw) =
      stats_loop_lem (f ∷ fs) (first_stats f.rect) 0 (pos 0) (pos 0) (omega arith) in
    (
      t,
      run,
      covers,
      ah ∙ ap (λ n. quotient (total (λ r. r.height) (pos 0) (f ∷ fs)) n) (omega arith),
      aw ∙ ap (λ n. quotient (total (λ r. r.width) (pos 0) (f ∷ fs)) n) (omega arith),
    )
