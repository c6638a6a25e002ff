-- ===== src/SaveThread/Distinct.antt =====
-- Different files of the saving threads have different names.
use planetariumfd.Prelude.{
  ℕ, ◌<◌, ◌≡◌, refl, sym, ap, ◌∙◌, pos, Bool, true, false, [], ◌∷◌, ◌++◌, some, some-injective,
  arith, Text, codes, decimal, ◌≢◌,
}
use planetariumfd.Ini.{scan_digits, is_digit}
use planetariumfd.Ini.RoundTrip.{limit, scan_digits-digits_on, digits_on-append, digits_on-first}
use planetariumfd.SaveThread.{image_name, video_name}

-- A file by its numbers.
pub data SavedFile : Type 0 where
  image : (series num : ℕ) → SavedFile
  video : (series : ℕ) (smooth : Bool) → SavedFile

-- Its name, without the directory.
abbrev pub file_name : Text → SavedFile → Text
file_name base (image series num) = image_name (λ p. true) [] base series (pos 0) num
file_name base (video series smooth) = video_name base series smooth

-- Numbers of no more than 20 digits.
abbrev pub IsPrintable : SavedFile → Type 0
IsPrintable (image series num) = (series < limit 20) × (num < limit 20)
IsPrintable (video series smooth) = series < limit 20

pub cancel : (a x y : Text) → a ++ x ≡ a ++ y → x ≡ y
cancel [] x y e = e
cancel (c ∷ cs) x y e = cancel cs x y (let q : cs ++ x ≡ cs ++ y = cc in q)

-- The number that a text begins with.
read_back :
    (n c : ℕ) (rest : Text)
    → n < limit 20
    → is_digit c ≡ false
    → scan_digits (decimal n ++ (c ∷ rest)) 0 false ≡ some n
unfolding decimal
read_back n c rest h stop =
    ap (λ t. scan_digits t 0 false) (digits_on-append 20 n [] (c ∷ rest))
    ∙ (scan_digits-digits_on 19 n (c ∷ rest) false h ∙ rw stop refl)

same_number :
    (n n' c c' : ℕ) (rest rest' : Text)
    → n < limit 20
    → n' < limit 20
    → is_digit c ≡ false
    → is_digit c' ≡ false
    → decimal n ++ (c ∷ rest) ≡ decimal n' ++ (c' ∷ rest')
    → (n ≡ n') × (c ∷ rest ≡ c' ∷ rest')
same_number n n' c c' rest rest' h h' stop stop' e =
    let same : n ≡ n' = some-injective _ _ (
      sym (read_back n c rest h stop)
      ∙ (ap (λ t. scan_digits t 0 false) e ∙ read_back n' c' rest' h' stop')) in
    (same, cancel (decimal n') (c ∷ rest) (c' ∷ rest') (rw same at e))

-- What follows the series number.
abbrev after_series : SavedFile → ℕ × Text
after_series (image series num) = (b'_', decimal num ++ codes ".jpg")
after_series (video series true) = (b'_', codes "smoothed.avi")
after_series (video series false) = (b'.', codes "avi")

abbrev series_of : SavedFile → ℕ
series_of (image series num) = series
series_of (video series smooth) = series

file_name_lem :
    (base : Text) (f : SavedFile)
    → file_name base f
      ≡ base ++ (codes "__" ++ (decimal (series_of f) ++ ((after_series f).0 ∷ (after_series f).1)))
file_name_lem base (image series num) = refl
file_name_lem base (video series true) = refl
file_name_lem base (video series false) = refl

after_series-stops : (f : SavedFile) → is_digit (after_series f).0 ≡ false
after_series-stops (image series num) = ground arith
after_series-stops (video series true) = ground arith
after_series-stops (video series false) = ground arith

IsPrintable-series : (f : SavedFile) → IsPrintable f → series_of f < limit 20
IsPrintable-series (image series num) p = p.0
IsPrintable-series (video series smooth) p = p

tail_eq : {c : ℕ} {x y : Text} → c ∷ x ≡ c ∷ y → x ≡ y
tail_eq {x = x} {y} e = let q : x ≡ y = cc in q

-- A print begins with a digit.
not_smoothed : (n : ℕ) → decimal n ++ codes ".jpg" ≡ codes "smoothed.avi" → ⊥
unfolding decimal
not_smoothed n e =
    let (c, cs, whole, digit) = digits_on-first 19 n [] in
    let q : c ∷ (cs ++ codes ".jpg") ≡ b's' ∷ codes "moothed.avi" = rw whole at e in
    let same : c ≡ b's' = cc in ground arith

same_rest :
    (f g : SavedFile)
    → IsPrintable f
    → IsPrintable g
    → series_of f ≡ series_of g
    → (after_series f).0 ∷ (after_series f).1 ≡ (after_series g).0 ∷ (after_series g).1
    → f ≡ g
same_rest (image s n) (image s' n') (p, p') (q, q') e r =
    let (same, _) =
      same_number n n' b'.' b'.' (codes "jpg") (codes "jpg") p' q' (ground arith) (ground arith)
        (let t : decimal n ++ codes ".jpg" ≡ decimal n' ++ codes ".jpg" = cc in t) in
    cc
same_rest (image s n) (video s' true) p q e r = absurd (not_smoothed n (tail_eq r))
same_rest (image s n) (video s' false) p q e r = cc
same_rest (video s true) (image s' n') p q e r = absurd (not_smoothed n' (tail_eq (sym r)))
same_rest (video s false) (image s' n') p q e r = cc
same_rest (video s true) (video s' true) p q e r = cc
same_rest (video s true) (video s' false) p q e r = cc
same_rest (video s false) (video s' true) p q e r = cc
same_rest (video s false) (video s' false) p q e r = cc

-- The numbers of an image, or the number and the kind of a video, can be told from the name.
file_name_same :
    (base : Text) (f g : SavedFile)
    → IsPrintable f
    → IsPrintable g
    → file_name base f ≡ file_name base g
    → f ≡ g
file_name_same base f g p q e =
    let bare =
      cancel (codes "__") (decimal (series_of f) ++ ((after_series f).0 ∷ (after_series f).1))
        (decimal (series_of g) ++ ((after_series g).0 ∷ (after_series g).1))
        (cancel base _ _ (sym (file_name_lem base f) ∙ (e ∙ file_name_lem base g))) in
    let (series, rest) =
      same_number (series_of f) (series_of g) (after_series f).0 (after_series g).0
        (after_series f).1 (after_series g).1 (IsPrintable-series f p) (IsPrintable-series g q)
        (after_series-stops f) (after_series-stops g) bare in
    same_rest f g p q series rest

-- Of two files with different numbers, or of different kinds, as the saving threads name images and
-- videos (smooth and not), the names are different, if the numbers have no more than 20 digits. That
-- two saving threads take different numbers is not claimed.
pub file_name-injective :
    (base : Text) (f g : SavedFile)
    → IsPrintable f
    → IsPrintable g
    → f ≢ g
    → file_name base f ≢ file_name base g
file_name-injective base f g p q differ e = differ (file_name_same base f g p q e)
