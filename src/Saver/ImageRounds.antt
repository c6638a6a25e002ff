-- ===== src/Saver/ImageRounds.antt =====
-- A round of the loop of `saveThreadImages`, and what the loop without a break makes of the rest.
use planetariumfd.Prelude.{
  ℕ, suc, ◌+◌, ◌<◌, ◌≡◌, refl, sym, subst, ◌∙◌, ℤ, pos, true, List, [], ◌∷◌, ◌++◌, append-nil,
  append_assoc, some, Bool-cases, ltb_ℤ, eqb_ℤ, inl, inr, if◌then◌else◌, ◌==◌, Option, Option-cases,
  Text, ◌>>=◌, >>=-eq-some, none-ne-some, some-injective, eqb_ℤ→eq,
}
use planetariumfd.Geometry.{Face}
use planetariumfd.State.{HistoryEntry, Fd}
use planetariumfd.SaveThread.{Picture, Media, Images, image_loop, picture_of, image_name}
use planetariumfd.Saver.Positions.{ahead-next_itr, entries_from-next}
use planetariumfd.Saver.{
  Itr, at_entry, list_end, entries_from, ahead, next_itr, itr_at, Round, go_on, finished, Imaging,
  image_round,
}
use planetariumfd.Saver.Rounds.{
  Placed, PlacedAt, Covered, Placed-itr_at, PlacedAt-skip, PlacedAt-take, to_go, to_go-skip,
  to_go-take, is_behind, IsNumbered,
}

module _ {F : Type 0} (media : Media F) (s : Fd F) where
  -- The result of the loops if the rest of them runs without a break.
  abbrev pub images_end : Imaging → Images → Option Images
  images_end st r = some (record r { pictures = st.pictures ++ r.pictures })

  unfoldable pub image_result : Imaging → Option Images
  unfolding image_loop
  image_result st =
      image_loop media.save_image s.config.o_path s.base_ofilename st.series
        s.config.max_jpg_images_saved_per_thread (ahead st.itr s) st.left st.num st.saved st.out
      >>= images_end st

  images_end_later :
      (st st' : Imaging) (p : Picture) (q q1 r : Images)
      → st'.pictures ≡ st.pictures ++ (p ∷ [])
      → record q { pictures = p ∷ q.pictures } ≡ q1
      → images_end st q1 ≡ some r
      → images_end st' q ≡ some r
  images_end_later st st' p q q1 r e same end =
      rw (e, append_assoc st.pictures (p ∷ []) q.pictures) (rw (← same) at end)

  -- A round ends the loop with the result, or leaves less to do for the same result.
  abbrev pub ImagesLead : ℤ → Imaging → Images → Round Imaging Images → Type 0
  ImagesLead low st r (finished r') = r' ≡ r
  ImagesLead low st r (go_on st') =
      (image_result st' ≡ some r)
      × Placed low st'.itr st'.left
      × (to_go st'.itr st'.left < to_go st.itr st.left)

  module _ (numbered : IsNumbered s) (low : ℤ) where
    image_Covered :
        (st : Imaging) (h : List HistoryEntry) (left : List Face) (num saved : ℕ) (out : Text)
        {r : Images}
        → image_loop media.save_image s.config.o_path s.base_ofilename st.series
            s.config.max_jpg_images_saved_per_thread h left num saved out
          ≡ some r
        → Covered h left
    unfolding image_loop
    image_Covered st h [] num saved out e = tt
    image_Covered st [] (f ∷ fs) num saved out e = cc
    image_Covered st (e ∷ es) (f ∷ fs) num saved out q = tt

    image_lead :
        (st st' : Imaging) (n : ℕ) (e : HistoryEntry) (es : List HistoryEntry) (q r : Images)
        → entries_from n s ≡ e ∷ es
        → st'.itr ≡ next_itr (at_entry n) s
        → image_loop media.save_image s.config.o_path s.base_ofilename st'.series
            s.config.max_jpg_images_saved_per_thread es st'.left st'.num st'.saved st'.out
          ≡ some q
        → images_end st' q ≡ some r
        → PlacedAt low (suc n) st'.left
        → ((h : List HistoryEntry) → to_go (itr_at (suc n) h) st'.left < to_go st.itr st.left)
        → ImagesLead low st r (go_on st')
    unfolding image_result
    image_lead st st' n e es q r here at ran end p less =
        let behind = ahead-next_itr s (at_entry n) e es here in
        let now : ahead st'.itr s ≡ es = rw at behind in
        let left = entries_from (suc n) s in
        let some_left =
          subst (λ h. Covered h st'.left) (sym (entries_from-next s n e es here))
            (image_Covered st' es st'.left st'.num st'.saved st'.out {r = q} ran) in
        (
          rw now (rw ran end),
          rw at (Placed-itr_at low (suc n) left st'.left some_left p),
          rw at (less left),
        )

    image_round_at :
        (st : Imaging) (n : ℕ) (f : Face) (fs : List Face) (e : HistoryEntry)
        (es : List HistoryEntry) (r : Images)
        → let now = record st { itr = at_entry n; left = f ∷ fs } in
          entries_from n s ≡ e ∷ es
          → PlacedAt low n (f ∷ fs)
          → image_result now ≡ some r
          → (x : Round Imaging Images) × (image_round media s now ≡ some x) × ImagesLead low now r x
    unfolding image_result image_loop image_round
    image_round_at st n f fs e es r here p run =
        let next = next_itr (at_entry n) s in
        let limit = s.config.max_jpg_images_saved_per_thread in
        let base = s.base_ofilename in
        let name =
          if st.saved == 0
          then image_name media.save_image s.config.o_path base st.series limit st.num
          else st.out in
        let now = record st { itr = at_entry n; left = f ∷ fs } in
        let skipped = record now { itr = next; num = st.num + 1 } in
        elim (Bool-cases (ltb_ℤ e.frame_id f.frame_id)) [
          | inl before ↦
              let (q, ran, end) = >>=-eq-some _ (images_end now) (rw (here, before) at run) in
              (
                go_on skipped,
                rw (here, before) refl,
                image_lead now skipped n e es q r here refl ran end
                    (PlacedAt-skip low n f fs p
                      (is_behind n e.frame_id f.frame_id (numbered n e es here) before))
                    (λ h. to_go-skip low n h f fs p),
              )
          | inr at ↦ elim (Bool-cases (eqb_ℤ e.frame_id f.frame_id)) [
            | inr other ↦ absurd (none-ne-some (rw (here, at, other) at run))
            | inl same ↦
                let on_time =
                  PlacedAt-take low n f fs p
                    (sym (eqb_ℤ→eq e.frame_id f.frame_id same) ∙ numbered n e es here) in
                let shorter = λ (h : List HistoryEntry). to_go-take low n h f fs p in
                elim (Option-cases e.frame) [
                  | inl gone ↦ absurd (none-ne-some (rw (here, at, same, gone) at run))
                  | inr (i, has) ↦
                      let pic =
                        picture_of media.save_image s.config.o_path base st.series limit st.num i
                          f in
                      let tried = st.pictures ++ (pic ∷ []) in
                      elim (Bool-cases (media.save_image pic)) [
                        | inl wrote ↦ elim (Bool-cases (eqb_ℤ (pos (st.saved + 1)) limit)) [
                          | inl full ↦ (
                            finished record { ok = true; filename = name; pictures = tried },
                            rw (here, at, same, has, wrote, full) refl,
                            some-injective _ _ (rw (here, at, same, has, wrote, full) at run),
                          )
                          | inr more ↦
                              let st' = record skipped {
                                left = fs;
                                saved = st.saved + 1;
                                out = name;
                                pictures = tried;
                              } in
                              let (q1, ran1, end) =
                                >>=-eq-some _ (images_end now)
                                  (rw (here, at, same, has, wrote, more) at run) in
                              let (q, ran, wrap) =
                                >>=-eq-some
                                  (image_loop media.save_image s.config.o_path base st.series limit
                                    es fs (st.num + 1) (st.saved + 1) name)
                                  (λ q. some (record q { pictures = pic ∷ q.pictures })) ran1 in
                              (
                                go_on st',
                                rw (here, at, same, has, wrote, more) refl,
                                image_lead now st' n e es q r here refl ran
                                    (images_end_later now st' pic q q1 r refl
                                      (some-injective _ _ wrap) end)
                                    on_time shorter,
                              )
                        ]
                        | inr lost ↦
                            let st' = record skipped { left = fs; pictures = tried } in
                            let (q1, ran1, end) =
                              >>=-eq-some _ (images_end now)
                                (rw (here, at, same, has, lost) at run) in
                            let (q, ran, wrap) =
                              >>=-eq-some
                                (image_loop media.save_image s.config.o_path base st.series limit es
                                  fs (st.num + 1) st.saved st.out)
                                (λ q. some (record q { pictures = pic ∷ q.pictures })) ran1 in
                            (
                              go_on st',
                              rw (here, at, same, has, lost) refl,
                              image_lead now st' n e es q r here refl ran
                                  (images_end_later now st' pic q q1 r refl
                                    (some-injective _ _ wrap) end)
                                  on_time shorter,
                            )
                      ]
                ]
          ]
        ]

    at_position :
        (st : Imaging) (itr : Itr) (left : List Face) (r : Images)
        → let now = record st { itr = itr; left = left } in
          Placed low itr left
          → image_result now ≡ some r
          → (x : Round Imaging Images) × (image_round media s now ≡ some x) × ImagesLead low now r x
    unfolding image_result image_loop image_round
    at_position st itr [] r p run =
        (_, refl, some-injective _ _ (rw (append-nil st.pictures) at run))
    at_position st list_end (f ∷ fs) r p run = absurd p
    at_position st (at_entry n) (f ∷ fs) r p run = found (entries_from n s) refl
      where
        found :
            (h : List HistoryEntry)
            → entries_from n s ≡ h
            → let now = record st { itr = at_entry n; left = f ∷ fs } in
              (x : Round Imaging Images) × (image_round media s now ≡ some x)
              × ImagesLead low now r x
        found [] here = absurd (none-ne-some (rw here at run))
        found (e ∷ es) here = image_round_at st n f fs e es r here p run

    -- Where the rest of the loop of `saveThreadImages` has a result, its next round is without a fault
    -- and leads to that result.
    pub image_round_lem :
        (st : Imaging) (r : Images)
        → Placed low st.itr st.left
        → image_result st ≡ some r
        → (x : Round Imaging Images) × (image_round media s st ≡ some x) × ImagesLead low st r x
    image_round_lem st r p run = at_position st st.itr st.left r p run
