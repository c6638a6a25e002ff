-- ===== src/Saver/Loops.antt =====
-- The rounds of the two copying loops, and the loops without a break.
use planetariumfd.Prelude.{
  ℕ, ◌+◌, ◌≡◌, ℤ, pos, Bool, List, [], ◌∷◌, some, Bool-cases, inl, inr, if◌then◌else◌, ◌==◌, ltb_ℤ,
  eqb_ℤ, Text, Option-cases, >>=-eq-some, Text, none-ne-some,
}
use planetariumfd.Geometry.{Face}
use planetariumfd.Image.{Image}
use planetariumfd.State.{HistoryEntry}
use planetariumfd.SaveThread.{
  Picture, Media, Images, image_loop, frame_loop, picture_of, image_name, with_picture,
}
use planetariumfd.Saver.Positions.{Extends}

-- A loop that ended on a part of the history ends alike on an extension of it.
module _ {F : Type 0} (media : Media F) (path : Text) where
  pub frame_loop-Extends :
      (h h' : List HistoryEntry) (fs : List Face) (written : ℕ) (r : Bool × List Picture)
      → Extends h h'
      → frame_loop media path h fs written ≡ some r
      → frame_loop media path h' fs written ≡ some r
  unfolding frame_loop
  frame_loop-Extends h h' [] written r p e = e
  frame_loop-Extends [] h' (f ∷ fs) written r p e = cc
  frame_loop-Extends (e ∷ es) [] (f ∷ fs) written r p run = absurd p
  frame_loop-Extends (e ∷ es) (d ∷ ds) (f ∷ fs) written r (id, img, p) run =
      let pic : Image → Picture = λ i. record { path = path; image = i; region = f.rect } in
      rw (id, img)
        (elim (Bool-cases (ltb_ℤ e.frame_id f.frame_id)) [
          | inl before ↦
              rw before (frame_loop-Extends es ds (f ∷ fs) written r p (rw before at run))
          | inr at ↦ elim (Bool-cases (eqb_ℤ e.frame_id f.frame_id)) [
            | inr other ↦ absurd (none-ne-some (rw (at, other) at run))
            | inl same ↦ elim (Option-cases e.frame) [
              | inl gone ↦ absurd (none-ne-some (rw (at, same, gone) at run))
              | inr (i, has) ↦ elim (Bool-cases (media.write_frame written (pic i))) [
                | inl wrote ↦
                    let (q, ran, end) =
                      >>=-eq-some (frame_loop media path es fs (written + 1))
                        (λ q. let (ok, ps) = q in some (ok, pic i ∷ ps))
                        (rw (at, same, has, wrote) at run) in
                    rw (at, same, has, wrote)
                      (rw (frame_loop-Extends es ds fs (written + 1) q p ran) end)
                | inr lost ↦ rw (at, same, has, lost) (rw (at, same, has, lost) at run)
              ]
            ]
          ]
        ])

module _ (save_image : Picture → Bool) (o_path base : Text) (series : ℕ) (limit : ℤ) where
  pub image_loop-Extends :
      (h h' : List HistoryEntry) (fs : List Face) (num saved : ℕ) (out : Text) (r : Images)
      → Extends h h'
      → image_loop save_image o_path base series limit h fs num saved out ≡ some r
      → image_loop save_image o_path base series limit h' fs num saved out ≡ some r
  unfolding image_loop
  image_loop-Extends h h' [] num saved out r p e = e
  image_loop-Extends [] h' (f ∷ fs) num saved out r p e = cc
  image_loop-Extends (e ∷ es) [] (f ∷ fs) num saved out r p run = absurd p
  image_loop-Extends (e ∷ es) (d ∷ ds) (f ∷ fs) num saved out r (id, img, p) run =
      let pic = picture_of save_image o_path base series limit num in
      let name = if saved == 0 then image_name save_image o_path base series limit num else out in
      let push = with_picture save_image o_path base series limit in
      rw (id, img)
        (elim (Bool-cases (ltb_ℤ e.frame_id f.frame_id)) [
          | inl before ↦
              rw before
                (image_loop-Extends es ds (f ∷ fs) (num + 1) saved out r p (rw before at run))
          | inr at ↦ elim (Bool-cases (eqb_ℤ e.frame_id f.frame_id)) [
            | inr other ↦ absurd (none-ne-some (rw (at, other) at run))
            | inl same ↦ elim (Option-cases e.frame) [
              | inl gone ↦ absurd (none-ne-some (rw (at, same, gone) at run))
              | inr (i, has) ↦ elim (Bool-cases (save_image (pic i f))) [
                | inl wrote ↦ elim (Bool-cases (eqb_ℤ (pos (saved + 1)) limit)) [
                  | inl full ↦
                      rw (at, same, has, wrote, full) (rw (at, same, has, wrote, full) at run)
                  | inr more ↦
                      let (q, ran, end) =
                        >>=-eq-some
                          (image_loop save_image o_path base series limit es fs (num + 1)
                            (saved + 1) name)
                          (λ q. some (push (pic i f) q)) (rw (at, same, has, wrote, more) at run) in
                      rw (at, same, has, wrote, more)
                        (rw (image_loop-Extends es ds fs (num + 1) (saved + 1) name q p ran) end)
                ]
                | inr lost ↦
                    let (q, ran, end) =
                      >>=-eq-some
                        (image_loop save_image o_path base series limit es fs (num + 1) saved out)
                        (λ q. some (push (pic i f) q)) (rw (at, same, has, lost) at run) in
                    rw (at, same, has, lost)
                      (rw (image_loop-Extends es ds fs (num + 1) saved out q p ran) end)
              ]
            ]
          ]
        ])
