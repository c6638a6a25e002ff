-- ===== src/Saver/FilmRounds.antt =====
-- A round of the loop of `saveThreadVideo`, and what the loop without a break makes of the rest.
use planetariumfd.Prelude.{
  ℕ, suc, ◌+◌, ◌<◌, ◌≡◌, refl, sym, subst, ◌∙◌, ℤ, Bool, false, List, [], ◌∷◌, ◌++◌, append-nil,
  append_assoc, some, Bool-cases, ltb_ℤ, eqb_ℤ, inl, inr, if◌then◌else◌, Option, Option-cases, Text,
  ◌>>=◌, >>=-eq-some, none-ne-some, some-injective, eqb_ℤ→eq,
}
use planetariumfd.Geometry.{Face}
use planetariumfd.State.{HistoryEntry, Fd}
use planetariumfd.SaveThread.{Picture, Media, Video, frame_loop}
use planetariumfd.Saver.Positions.{ahead-next_itr, entries_from-next}
use planetariumfd.Saver.{
  Itr, at_entry, list_end, entries_from, ahead, next_itr, itr_at, Round, go_on, finished, Filming,
  frame_round,
}
use planetariumfd.Saver.Rounds.{
  Placed, PlacedAt, Covered, Placed-itr_at, PlacedAt-skip, PlacedAt-take, to_go, to_go-skip,
  to_go-take, is_behind, IsNumbered,
}

module _ {F : Type 0} (media : Media F) (s : Fd F) where
  -- The result of the loop if the rest of it runs without a break.
  abbrev pub film_end : Filming → Bool × List Picture → Option Video
  film_end st q =
      some
        record { ok = q.0; filename = if q.0 then st.name else st.out; frames = st.pictures ++ q.1 }

  unfoldable pub film_result : Filming → Option Video
  unfolding frame_loop
  film_result st = frame_loop media st.path (ahead st.itr s) st.left st.written >>= film_end st

  film_end_later :
      (st st' : Filming) (p : Picture) (q q1 : Bool × List Picture) (r : Video)
      → st'.pictures ≡ st.pictures ++ (p ∷ [])
      → st'.name ≡ st.name
      → st'.out ≡ st.out
      → (q.0, p ∷ q.1) ≡ q1
      → film_end st q1 ≡ some r
      → film_end st' q ≡ some r
  film_end_later st st' p q q1 r e name out same end =
      rw (e, name, out, append_assoc st.pictures (p ∷ []) q.1) (rw (← same) at end)

  -- A round ends the loop with the result, or leaves less to do for the same result.
  abbrev pub FilmLeads : ℤ → Filming → Video → Round Filming Video → Type 0
  FilmLeads low st r (finished r') = r' ≡ r
  FilmLeads low st r (go_on st') =
      (film_result st' ≡ some r)
      × Placed low st'.itr st'.left
      × (to_go st'.itr st'.left < to_go st.itr st.left)

  module _ (numbered : IsNumbered s) (low : ℤ) where
    film_Covered :
        (path : Text) (h : List HistoryEntry) (left : List Face) (written : ℕ)
        {r : Bool × List Picture}
        → frame_loop media path h left written ≡ some r
        → Covered h left
    unfolding frame_loop
    film_Covered path h [] written e = tt
    film_Covered path [] (f ∷ fs) written e = cc
    film_Covered path (e ∷ es) (f ∷ fs) written q = tt

    film_lead :
        (st st' : Filming) (n : ℕ) (e : HistoryEntry) (es : List HistoryEntry)
        (q : Bool × List Picture) (r : Video)
        → entries_from n s ≡ e ∷ es
        → st'.itr ≡ next_itr (at_entry n) s
        → frame_loop media st'.path es st'.left st'.written ≡ some q
        → film_end st' q ≡ some r
        → PlacedAt low (suc n) st'.left
        → ((h : List HistoryEntry) → to_go (itr_at (suc n) h) st'.left < to_go st.itr st.left)
        → FilmLeads low st r (go_on st')
    unfolding film_result
    film_lead st st' n e es q r here at ran end p less =
        let behind = ahead-next_itr s (at_entry n) e es here in
        let now : ahead st'.itr s ≡ es = rw at behind in
        let left = entries_from (suc n) s in
        let some_left =
          subst (λ h. Covered h st'.left) (sym (entries_from-next s n e es here))
            (film_Covered st'.path es st'.left st'.written {r = q} ran) in
        (
          rw now (rw ran end),
          rw at (Placed-itr_at low (suc n) left st'.left some_left p),
          rw at (less left),
        )

    film_round_at :
        (st : Filming) (n : ℕ) (f : Face) (fs : List Face) (e : HistoryEntry)
        (es : List HistoryEntry) (r : Video)
        → let now = record st { itr = at_entry n; left = f ∷ fs } in
          entries_from n s ≡ e ∷ es
          → PlacedAt low n (f ∷ fs)
          → film_result now ≡ some r
          → (x : Round Filming Video) × (frame_round media s now ≡ some x) × FilmLeads low now r x
    unfolding film_result frame_loop frame_round
    film_round_at st n f fs e es r here p run =
        let next = next_itr (at_entry n) s in
        let now = record st { itr = at_entry n; left = f ∷ fs } in
        let skipped = record now { itr = next } in
        elim (Bool-cases (ltb_ℤ e.frame_id f.frame_id)) [
          | inl before ↦
              let (q, ran, end) = >>=-eq-some _ (film_end now) (rw (here, before) at run) in
              (
                go_on skipped,
                rw (here, before) refl,
                film_lead now skipped n e es q r here refl ran end
                    (PlacedAt-skip low n f fs p
                      (is_behind n e.frame_id f.frame_id (numbered n e es here) before))
                    (λ h. to_go-skip low n h f fs p),
              )
          | inr at ↦ elim (Bool-cases (eqb_ℤ e.frame_id f.frame_id)) [
            | inr other ↦ absurd (none-ne-some (rw (here, at, other) at run))
            | inl same ↦ elim (Option-cases e.frame) [
              | inl gone ↦ absurd (none-ne-some (rw (here, at, same, gone) at run))
              | inr (i, has) ↦
                  let pic : Picture = record { path = st.path; image = i; region = f.rect } in
                  let tried = st.pictures ++ (pic ∷ []) in
                  let on_time =
                    PlacedAt-take low n f fs p
                      (sym (eqb_ℤ→eq e.frame_id f.frame_id same) ∙ numbered n e es here) in
                  elim (Bool-cases (media.write_frame st.written pic)) [
                    | inl wrote ↦
                        let st' = record skipped {
                          left = fs;
                          written = st.written + 1;
                          pictures = tried;
                        } in
                        let (q1, ran1, end) =
                          >>=-eq-some _ (film_end now) (rw (here, at, same, has, wrote) at run) in
                        let (q, ran, wrap) =
                          >>=-eq-some (frame_loop media st.path es fs (st.written + 1))
                            (λ q. some (q.0, pic ∷ q.1)) ran1 in
                        (
                          go_on st',
                          rw (here, at, same, has, wrote) refl,
                          film_lead now st' n e es q r here refl ran
                              (film_end_later now st' pic q q1 r refl refl refl
                                (some-injective _ _ wrap) end)
                              on_time (λ h. to_go-take low n h f fs p),
                        )
                    | inr lost ↦ (
                      finished record { ok = false; filename = st.out; frames = tried },
                      rw (here, at, same, has, lost) refl,
                      some-injective _ _ (rw (here, at, same, has, lost) at run),
                    )
                  ]
            ]
          ]
        ]

    at_position :
        (st : Filming) (itr : Itr) (left : List Face) (r : Video)
        → let now = record st { itr = itr; left = left } in
          Placed low itr left
          → film_result now ≡ some r
          → (x : Round Filming Video) × (frame_round media s now ≡ some x) × FilmLeads low now r x
    unfolding film_result frame_loop frame_round
    at_position st itr [] r p run =
        (_, refl, some-injective _ _ (rw (append-nil st.pictures) at run))
    at_position st list_end (f ∷ fs) r p run = absurd p
    at_position st (at_entry n) (f ∷ fs) r p run = found (entries_from n s) refl
      where
        found :
            (h : List HistoryEntry)
            → entries_from n s ≡ h
            → let now = record st { itr = at_entry n; left = f ∷ fs } in
              (x : Round Filming Video) × (frame_round media s now ≡ some x) × FilmLeads low now r x
        found [] here = absurd (none-ne-some (rw here at run))
        found (e ∷ es) here = film_round_at st n f fs e es r here p run

    -- Where the rest of the loop of `saveThreadVideo` has a result, its next round is without a fault
    -- and leads to that result.
    pub film_round_lem :
        (st : Filming) (r : Video)
        → Placed low st.itr st.left
        → film_result st ≡ some r
        → (x : Round Filming Video) × (frame_round media s st ≡ some x) × FilmLeads low st r x
    film_round_lem st r p run = at_position st st.itr st.left r p run
