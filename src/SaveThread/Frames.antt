-- ===== src/SaveThread/Frames.antt =====
-- The loops over the history and the faces in step, on faces that the history covers.
use planetariumfd.Prelude.{
  ℕ, suc, ◌+◌, ◌≡◌, ◌⊎◌, refl, ap, ◌∙◌, inl, inr, ℤ, pos, ◌≤ℤ◌, ◌<ℤ◌, ltb_ℤ, eqb_ℤ, eq_of_parts,
  Bool, true, false, List, [], ◌∷◌, ◌++◌, some, length, arith, All₂, Bool-cases, if◌then◌else◌,
  ◌==◌, Text,
}
use planetariumfd.Geometry.{Face}
use planetariumfd.State.{HistoryEntry}
use planetariumfd.Thread.Laws.{IsTrack}
use planetariumfd.History.Runs.{IsRun, HasImage}
use planetariumfd.SaveThread.{
  Picture, Media, Images, skip_to, image_loop, frame_loop, picture_of, image_name,
}

-- A picture of a face, from the history: an entry of the face's frame has the image.
abbrev pub IsFrom : HistoryEntry → Face → Picture → Type 0
IsFrom e f p = (e.frame_id ≡ f.frame_id) × (e.frame ≡ some p.image) × (p.region ≡ f.rect)

abbrev pub Shows : List HistoryEntry → Face → Picture → Type 0
Shows [] f p = ⊥
Shows (e ∷ es) f p = IsFrom e f p ⊎ Shows es f p

pub Shows-later :
    (e : HistoryEntry) (es : List HistoryEntry) (fs : List Face) (ps : List Picture)
    → All₂ (Shows es) fs ps
    → All₂ (Shows (e ∷ es)) fs ps
Shows-later e es [] [] h = tt
Shows-later e es [] (p ∷ ps) h = absurd h
Shows-later e es (f ∷ fs) [] h = absurd h
Shows-later e es (f ∷ fs) (p ∷ ps) (h, hs) = (inr h, Shows-later e es fs ps hs)

-- The pictures of the first of the faces: of all of them if there are no others left.
pub record Shot (h : List HistoryEntry) (fs : List Face) (ps : List Picture) : Type 0 where
  pub shot : List Face
  pub left : List Face
  pub whole : fs ≡ shot ++ left
  pub shown : All₂ (Shows h) shot ps

pub Shot-later :
    (e : HistoryEntry) (es : List HistoryEntry) (fs : List Face) (ps : List Picture)
    → Shot es fs ps
    → Shot (e ∷ es) fs ps
Shot-later e es fs ps s = record {
  shot = s.shot;
  left = s.left;
  whole = s.whole;
  shown = Shows-later e es s.shot ps s.shown;
}

Shot-cons :
    (e : HistoryEntry) (es : List HistoryEntry) (f : Face) (fs : List Face) (p : Picture)
    (ps : List Picture)
    → IsFrom e f p
    → Shot es fs ps
    → Shot (e ∷ es) (f ∷ fs) (p ∷ ps)
Shot-cons e es f fs p ps h s = record {
  shot = f ∷ s.shot;
  left = s.left;
  whole = ap (λ l. f ∷ l) s.whole;
  shown = (inl h, Shows-later e es s.shot ps s.shown);
}

Shot-one :
    (e : HistoryEntry) (es : List HistoryEntry) (f : Face) (fs : List Face) (p : Picture)
    → IsFrom e f p
    → Shot (e ∷ es) (f ∷ fs) (p ∷ [])
Shot-one e es f fs p h =
    Shot-cons e es f fs p [] h record { shot = []; left = fs; whole = refl; shown = tt }

-- Faces that are still ahead: none, or a track.
abbrev pub Ahead : ℕ → ℕ → List Face → Type 0
Ahead low high [] = Unit
Ahead low high (f ∷ fs) = IsTrack low high (f ∷ fs)

Ahead-next :
    (low high : ℕ) (f : Face) (fs : List Face) → IsTrack low high (f ∷ fs) → Ahead (suc low) high fs
Ahead-next low high f [] t = tt
Ahead-next low high f (g ∷ gs) (l, (lt, r), (u, us)) = (omega arith, r, us)

Ahead-skip :
    (low high : ℕ) (f : Face) (fs : List Face)
    → IsTrack low high (f ∷ fs)
    → pos low <ℤ f.frame_id
    → IsTrack (suc low) high (f ∷ fs)
Ahead-skip low high f fs (l, r, us) h = (omega arith, r, us)

not_empty :
    {A : Type 0} (low high : ℕ) (f : Face) (fs : List Face)
    → IsTrack low high (f ∷ fs)
    → low + 0 ≡ suc high
    → A
not_empty low high f fs (l, r, (u, us)) e = absurd (omega arith)

-- What the comparison of the two frame numbers says.
stays_behind : (base : ℕ) (e f : ℤ) → e ≡ pos base → ltb_ℤ e f ≡ true → pos base <ℤ f
stays_behind base e f p h = let h' : ltb_ℤ (pos base) f ≡ true = rw p at h in ground arith

meets : (base : ℕ) (e f : ℤ) → e ≡ pos base → pos base ≤ℤ f → ltb_ℤ e f ≡ false → e ≡ f
meets base e f p l h =
    let h' : ltb_ℤ (pos base) f ≡ false = rw p at h in p ∙ eq_of_parts (pos base) f (ground arith)

pub eqb_ℤ_self : (z : ℤ) → eqb_ℤ z z ≡ true
eqb_ℤ_self z = ground arith

-- The search finds the entry of a frame that the history has.
pub found_at_lem :
    (base high : ℕ) (h : List HistoryEntry) (f : Face) (fs : List Face)
    → IsRun base h
    → base + length h ≡ suc high
    → IsTrack base high (f ∷ fs)
    → (low : ℕ) × (e : HistoryEntry) × (es : List HistoryEntry) × (skip_to f.frame_id h
        ≡ some (e ∷ es))
      × (e.frame_id ≡ f.frame_id)
      × HasImage e
      × IsRun low (e ∷ es)
      × (low + length (e ∷ es) ≡ suc high)
      × IsTrack low high (f ∷ fs)
      × ((gs : List Face) (ps : List Picture) → All₂ (Shows (e ∷ es)) gs ps → All₂ (Shows h) gs ps)
unfolding skip_to
found_at_lem base high [] f fs r c t = not_empty base high f fs t c
found_at_lem base high (e ∷ es) f fs (id, img, r) c (l, rising, up) =
    elim (Bool-cases (ltb_ℤ e.frame_id f.frame_id)) [
      | inl before ↦
          let lt : pos base <ℤ f.frame_id = stays_behind base e.frame_id f.frame_id id before in
          let t : IsTrack base high (f ∷ fs) = (l, rising, up) in
          let (low, d, ds, run, same, pic, rest, size, track, back) =
            found_at_lem (suc base) high es f fs r (omega arith) (Ahead-skip base high f fs t lt) in
          (
            low,
            d,
            ds,
            rw before run,
            same,
            pic,
            rest,
            size,
            track,
            λ gs ps s. Shows-later e es gs ps (back gs ps s),
          )
      | inr at ↦
          let same : e.frame_id ≡ f.frame_id = meets base e.frame_id f.frame_id id l at in
          (base, e, es, rw at refl, same, img, (id, img, r), c, (l, rising, up), λ gs ps s. s)
    ]

module _ {F : Type 0} (media : Media F) (path : Text) where
  -- The frame loop of `saveThreadVideo` ends; its frames show the faces one by one, all of them if
  -- the result is true.
  pub frame_loop_lem :
      (low high : ℕ) (h : List HistoryEntry) (fs : List Face) (written : ℕ)
      → IsRun low h
      → low + length h ≡ suc high
      → Ahead low high fs
      → (ok : Bool) × (ps : List Picture) × (frame_loop media path h fs written ≡ some (ok, ps))
        × Shot h fs ps
        × (ok ≡ true → All₂ (Shows h) fs ps)
  unfolding frame_loop
  frame_loop_lem low high [] [] w r c t =
      (true, [], refl, record { shot = []; left = []; whole = refl; shown = tt }, λ q. tt)
  frame_loop_lem low high (e ∷ es) [] w r c t =
      (true, [], refl, record { shot = []; left = []; whole = refl; shown = tt }, λ q. tt)
  frame_loop_lem low high [] (f ∷ fs) w r c t = not_empty low high f fs t c
  frame_loop_lem low high (e ∷ es) (f ∷ fs) w (id, (img, pic), r) c (l, rising, up) =
      elim (Bool-cases (ltb_ℤ e.frame_id f.frame_id)) [
        | inl before ↦
            let ahead =
              Ahead-skip low high f fs (l, rising, up)
                (stays_behind low e.frame_id f.frame_id id before) in
            let (ok, ps, run, shot, all) =
              frame_loop_lem (suc low) high es (f ∷ fs) w r (omega arith) ahead in
            (
              ok,
              ps,
              rw before run,
              Shot-later e es (f ∷ fs) ps shot,
              λ q. Shows-later e es (f ∷ fs) ps (all q),
            )
        | inr at ↦
            let same = meets low e.frame_id f.frame_id id l at in
            let equal : eqb_ℤ e.frame_id f.frame_id ≡ true = rw same (eqb_ℤ_self f.frame_id) in
            let p : Picture = record { path = path; image = img; region = f.rect } in
            let shows : IsFrom e f p = (same, pic, refl) in
            let (ok, ps, run, shot, all) =
              frame_loop_lem (suc low) high es fs (w + 1) r (omega arith)
                (Ahead-next low high f fs (l, rising, up)) in
            elim (Bool-cases (media.write_frame w p)) [
              | inl wrote ↦ (
                ok,
                p ∷ ps,
                rw at (rw equal (rw pic (rw wrote (rw run refl)))),
                Shot-cons e es f fs p ps shows shot,
                λ q. (inl shows, Shows-later e es fs ps (all q)),
              )
              | inr failed ↦ (
                false,
                p ∷ [],
                rw at (rw equal (rw pic (rw failed refl))),
                Shot-one e es f fs p shows,
                λ q. cc,
              )
            ]
      ]

module _ (save_image : Picture → Bool) (o_path base_name : Text) (series : ℕ) (limit : ℤ) where
  -- The loop of `saveThreadImages` ends; the pictures show the faces one by one, from the first on,
  -- and if none of them could be saved, they show all.
  pub image_loop_lem :
      (low high : ℕ) (h : List HistoryEntry) (fs : List Face) (num saved : ℕ) (out : Text)
      → IsRun low h
      → low + length h ≡ suc high
      → Ahead low high fs
      → (r : Images) × (image_loop save_image o_path base_name series limit h fs num saved out
          ≡ some r)
        × Shot h fs r.pictures
        × (r.ok ≡ false → All₂ (Shows h) fs r.pictures)
  unfolding image_loop
  image_loop_lem low high [] [] num saved out r c t =
      (_, refl, record { shot = []; left = []; whole = refl; shown = tt }, λ q. tt)
  image_loop_lem low high (e ∷ es) [] num saved out r c t =
      (_, refl, record { shot = []; left = []; whole = refl; shown = tt }, λ q. tt)
  image_loop_lem low high [] (f ∷ fs) num saved out r c t = not_empty low high f fs t c
  image_loop_lem low high (e ∷ es) (f ∷ fs) num saved out (id, (img, pic), r) c (l, rising, up) =
      let p = picture_of save_image o_path base_name series limit num img f in
      let name =
        if saved == 0 then image_name save_image o_path base_name series limit num else out in
      elim (Bool-cases (ltb_ℤ e.frame_id f.frame_id)) [
        | inl before ↦
            let ahead =
              Ahead-skip low high f fs (l, rising, up)
                (stays_behind low e.frame_id f.frame_id id before) in
            let (res, run, shot, all) =
              image_loop_lem (suc low) high es (f ∷ fs) (num + 1) saved out r (omega arith) ahead in
            (
              res,
              rw before run,
              Shot-later e es (f ∷ fs) res.pictures shot,
              λ q. Shows-later e es (f ∷ fs) res.pictures (all q),
            )
        | inr at ↦
            let same = meets low e.frame_id f.frame_id id l at in
            let equal : eqb_ℤ e.frame_id f.frame_id ≡ true = rw same (eqb_ℤ_self f.frame_id) in
            let shows : IsFrom e f p = (same, pic, refl) in
            let ahead = Ahead-next low high f fs (l, rising, up) in
            let (stored, run, shot, all) =
              image_loop_lem (suc low) high es fs (num + 1) (saved + 1) name r (omega arith)
                ahead in
            let (failed, run', shot', all') =
              image_loop_lem (suc low) high es fs (num + 1) saved out r (omega arith) ahead in
            elim (Bool-cases (save_image p)) [
              | inl wrote ↦ elim (Bool-cases (eqb_ℤ (pos (saved + 1)) limit)) [
                | inl full ↦ (
                  record { ok = true; filename = name; pictures = p ∷ [] },
                  rw at (rw equal (rw pic (rw wrote (rw full refl)))),
                  Shot-one e es f fs p shows,
                  λ (q : true ≡ false). cc,
                )
                | inr more ↦ (
                  record stored { pictures = p ∷ stored.pictures },
                  rw at (rw equal (rw pic (rw wrote (rw more (rw run refl))))),
                  Shot-cons e es f fs p stored.pictures shows shot,
                  λ q. (inl shows, Shows-later e es fs stored.pictures (all q)),
                )
              ]
              | inr lost ↦ (
                record failed { pictures = p ∷ failed.pictures },
                rw at (rw equal (rw pic (rw lost (rw run' refl)))),
                Shot-cons e es f fs p failed.pictures shows shot',
                λ q. (inl shows, Shows-later e es fs failed.pictures (all' q)),
              )
            ]
      ]
