-- ===== src/Register/Laws.antt =====
-- `registerOutputFile` of Detector/RegisterOutput.cpp: names with an extension, and without.
use planetariumfd.Prelude.{
  ℕ, zero, suc, ◌+◌, ◌≤◌, ◌<◌, ◌≡◌, refl, ap, ◌∙◌, false, [], ◌∷◌, ◌++◌, none, some, length,
  length-append, get_elem?, Text, arith, All, ◌==◌, Option-cases, inl, inr, All-get_elem?,
}
use planetariumfd.Register.{
  take, drop, Registered, requested, blank_name, no_dot, unsupported, dot_location,
  type_of_extension, url_of, request_for, register_output_file,
}

-- A text without a dot.
abbrev pub NoDot : Text → Type 0
NoDot = All (λ (c : ℕ). (c == b'.') ≡ false)

get_elem?-dot :
    (base ext : Text) (d n : ℕ) → n ≡ length base → get_elem? (base ++ (d ∷ ext)) n ≡ some d
get_elem?-dot [] ext d zero e = refl
get_elem?-dot [] ext d (suc n) e = absurd (omega arith)
get_elem?-dot (b ∷ bs) ext d zero e = absurd (omega arith)
get_elem?-dot (b ∷ bs) ext d (suc n) e = get_elem?-dot bs ext d n (omega arith)

NoDot-at :
    (ext : Text) (k : ℕ)
    → NoDot ext
    → k < length ext
    → (c : ℕ) × (get_elem? ext k ≡ some c) × ((c == b'.') ≡ false)
NoDot-at [] k p h = absurd (omega arith)
NoDot-at (c ∷ cs) zero (p, ps) h = (c, refl, p)
NoDot-at (c ∷ cs) (suc k) (p, ps) h = NoDot-at cs k ps (omega arith)

behind_dot :
    (base ext : Text) (d k n : ℕ)
    → NoDot ext
    → k < length ext
    → n ≡ length base + suc k
    → (c : ℕ) × (get_elem? (base ++ (d ∷ ext)) n ≡ some c) × ((c == b'.') ≡ false)
behind_dot [] ext d k zero p h e = absurd (omega arith)
behind_dot [] ext d k (suc n) p h e = NoDot-at ext n p (omega arith)
behind_dot (b ∷ bs) ext d k zero p h e = absurd (omega arith)
behind_dot (b ∷ bs) ext d k (suc n) p h e = behind_dot bs ext d k n p h (omega arith)

dot_here : (name : Text) (n : ℕ) → get_elem? name n ≡ some b'.' → dot_location name (suc n) ≡ some n
unfolding dot_location
dot_here name n e = rw (e, dot_location) refl

dot_before :
    (name : Text) (n c : ℕ)
    → get_elem? name n ≡ some c
    → (c == b'.') ≡ false
    → dot_location name (suc n) ≡ dot_location name n
unfolding dot_location
dot_before name n c e h = rw (e, dot_location) (rw h refl)

dot_location_lem :
    (base ext : Text) (k n : ℕ)
    → NoDot ext
    → k ≤ length ext
    → n ≡ length base + suc k
    → dot_location (base ++ (b'.' ∷ ext)) n ≡ some (length base)
dot_location_lem base ext k zero p h e = absurd (omega arith)
dot_location_lem base ext zero (suc n) p h e =
    let m : n ≡ length base = omega arith in
    dot_here (base ++ (b'.' ∷ ext)) n (get_elem?-dot base ext b'.' n m) ∙ ap some m
dot_location_lem base ext (suc k) (suc n) p h e =
    let (c, at, plain) = behind_dot base ext b'.' k n p (omega arith) (omega arith) in
    dot_before (base ++ (b'.' ∷ ext)) n c at plain
    ∙ dot_location_lem base ext k n p (omega arith) (omega arith)

take-append : (base rest : Text) → take (length base) (base ++ rest) ≡ base
take-append [] rest = refl
take-append (b ∷ bs) rest = ap (λ l. b ∷ l) (take-append bs rest)

drop-append : (base ext : Text) (d m : ℕ) → m ≡ suc (length base) → drop m (base ++ (d ∷ ext)) ≡ ext
drop-append base ext d zero e = absurd (omega arith)
drop-append [] ext d (suc zero) e = refl
drop-append [] ext d (suc (suc m)) e = absurd (omega arith)
drop-append (b ∷ bs) ext d (suc m) e = drop-append bs ext d m (omega arith)

-- The answer for a name and an extension.
abbrev pub answer : Text → Text → Text → Registered
answer server base ext = elim (type_of_extension ext) [
  | none ↦ unsupported
  | some type ↦ requested (url_of server base type ext)
]

request_for_lem :
    (server : Text) (b : ℕ) (bs ext : Text)
    → request_for server (b ∷ (bs ++ (b'.' ∷ ext))) (some (suc (length bs)))
      ≡ answer server (b ∷ bs) ext
request_for_lem server b bs ext =
    ap (λ (e : Text). answer server (b ∷ take (length bs) (bs ++ (b'.' ∷ ext))) e)
      (drop-append (b ∷ bs) ext b'.' (suc (length bs) + 1) (omega arith))
    ∙ ap (λ (n : Text). answer server (b ∷ n) ext) (take-append bs (b'.' ∷ ext))

-- A name with a last dot that is not its first character: if the extension behind it is one of the
-- nine that are known, the URL has the part in front of the dot, the type and the extension;
-- otherwise the exception for the extension is thrown.
pub register_output_file_lem :
    (server base ext : Text)
    → 0 < length base
    → NoDot ext
    → register_output_file server (base ++ (b'.' ∷ ext)) ≡ answer server base ext
unfolding register_output_file
register_output_file_lem server [] ext h p = absurd (omega arith)
register_output_file_lem server (b ∷ bs) ext h p =
    rw
      (dot_location_lem (b ∷ bs) ext (length ext) (length ((b ∷ bs) ++ (b'.' ∷ ext))) p
        (omega arith) (omega (arith, length-append bs (b'.' ∷ ext))))
      (request_for_lem server b bs ext)

dot_location-none : (name : Text) (n : ℕ) → NoDot name → dot_location name n ≡ none
unfolding dot_location
dot_location-none name zero p = refl
dot_location-none name (suc n) p = elim (Option-cases (get_elem? name n)) [
  | inl e ↦ rw (e, dot_location) (dot_location-none name n p)
  | inr (c, e) ↦
      rw (e, dot_location)
        (rw (All-get_elem? (λ (d : ℕ). (d == b'.') ≡ false) name n c p e)
          (dot_location-none name n p))
]

-- An empty name, and a name without a dot, are refused with an exception each.
pub register_output_file-refused :
    (server : Text)
    → (register_output_file server [] ≡ blank_name)
      × ((c : ℕ) (cs : Text) → NoDot (c ∷ cs) → register_output_file server (c ∷ cs) ≡ no_dot)
unfolding register_output_file
register_output_file-refused server =
    (refl, λ c cs p. rw (dot_location-none (c ∷ cs) (length (c ∷ cs)) p) refl)
