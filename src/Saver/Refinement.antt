-- ===== src/Saver/Refinement.antt =====
-- The stretches of a saving thread, in steps among those of other threads, against the functions without
-- a break of SaveThread.antt.
use planetariumfd.Prelude.{
  ℕ, ◌+◌, ◌≡◌, refl, sym, subst, ◌∙◌, ℤ, Bool, true, false, List, [], ◌∷◌, some, some-injective,
  All, Text, back_from,
}
use planetariumfd.Float.{Float}
use planetariumfd.Thread.{FaceThread}
use planetariumfd.Thread.Laws.{IsUpTo, IsTrack}
use planetariumfd.State.{Fd}
use planetariumfd.Register.{Registered}
use planetariumfd.Geometry.{Face}
use planetariumfd.Tracker.Update.{Tracked}
use planetariumfd.System.Savers.{find_saved-All}
use planetariumfd.System.{System, find_saved}
use planetariumfd.System.Invariant.{Valid}
use planetariumfd.SaveThread.{Media, Images, Video, save_thread_images, save_thread_video}
use planetariumfd.Saver.{
  Round, go_on, finished, Imaging, Filming, Saver, SaverPc, images_due, taking_images, video_due,
  filming, image_round, frame_round, advance, after_film,
}
use planetariumfd.Saver.Rounds.{Placed}
use planetariumfd.Saver.ImageRounds.{image_result, ImagesLead, image_round_lem}
use planetariumfd.Saver.FilmRounds.{film_result, FilmLeads, film_round_lem}
use planetariumfd.Saver.Others.{Kept-same}
use planetariumfd.Saver.Openings.{FilmOpens, begin_images_lem, begin_film_lem}
use planetariumfd.Saver.Watched.{Watched, own, Turns}
use planetariumfd.Saver.Invariant.{
  Holds, SaverOk, Valid-IsNumbered, image_result-Kept, film_result-Kept,
}
use planetariumfd.Saver.Advance.{images_of, video_of, Promised, series-Valid, wide_track}
use planetariumfd.Saver.Turns.{Good, After, own_turns, turn_lem, turns_lem}
use planetariumfd.Saver.Safety.{new_saver, new_saver-Good}

IsTrack-IsUpTo : (low high : ℕ) (fs : List Face) → IsTrack low high fs → All (IsUpTo high) fs
IsTrack-IsUpTo low high [] t = absurd t
IsTrack-IsUpTo low high (f ∷ fs) (l, r, us) = us

module _ {F : Type 0} ⦃fl : Float F⦄ (media : Media F) (server : Text) (a last : ℕ) where
  -- A loop that has kept its promise ends with it.
  images_closed :
      {s : System F} (v : Valid s) (st : Imaging) (r r' : Images)
      → SaverOk media a last s.fd (taking_images st)
      → image_result media s.fd st ≡ some r
      → image_round media s.fd st ≡ some (finished r')
      → r' ≡ r
  images_closed {s} v st r r' (low, _, h, placed, _, _) ran round =
      let (x, round', lead) = image_round_lem media s.fd (Valid-IsNumbered v) low st r placed ran in
      subst (ImagesLead media s.fd low st r) (some-injective _ _ (sym round' ∙ round)) lead

  film_closed :
      {s : System F} (v : Valid s) (smooth : Bool) (st : Filming) (r r' : Video)
      → SaverOk media a last s.fd (filming smooth st)
      → film_result media s.fd st ≡ some r
      → frame_round media s.fd st ≡ some (finished r')
      → r' ≡ r
  film_closed {s} v smooth st r r' (low, _, h, placed, _, _) ran round =
      let (x, round', lead) = film_round_lem media s.fd (Valid-IsNumbered v) low st r placed ran in
      subst (FilmLeads media s.fd low st r) (some-injective _ _ (sym round' ∙ round)) lead

  -- What a beginning promises is the result of the function without a break.
  images_opened :
      {s : System F} (v : Valid s) (files : List Registered) (low : ℤ)
      (h : Holds media a last s.fd low) (t : Fd F) (k : Saver)
      → advance fl media server a s.fd (record { pc = images_due; files = files }) ≡ some (t, k)
      → (r : Images) × (save_thread_images media s.fd h.th [] ≡ some (t.image_series_cnt, r))
        × Promised media (images_of r) t k.pc
  unfolding advance
  images_opened {s} v files low h t k run =
      let (st, r, begun, placed, bound, ran, whole) =
        begin_images_lem v.base s.fd v.inv.run v.inv.covers media h.th h.first h.more h.faces
          (wide_track media server a last v files h) in
      let n = s.fd.image_series_cnt + 1 in
      let fd' = record s.fd { image_series_cnt = n } in
      let same : (fd', record { pc = taking_images st; files = files }) ≡ (t, k) =
        some-injective _ _ (rw (h.found, begun) at run) in
      let moved =
        image_result-Kept media a last (series-Valid media server a last v files n)
          (Kept-same a s.fd fd' refl refl (λ th e. e) refl refl) low h st r
          (subst (λ z. Placed z st.itr st.left) h.begins placed) ran in
      subst
        (λ (z : Fd F × Saver).
          (r : Images) × (save_thread_images media s.fd h.th [] ≡ some (z.0.image_series_cnt, r))
          × Promised media (images_of r) z.0 z.1.pc)
        same (r, whole, moved)

  film_opened :
      {s : System F} (v : Valid s) (files : List Registered) (smooth : Bool) (low : ℤ)
      (h : Holds media a last s.fd low) (t : Fd F) (k : Saver)
      → advance fl media server a s.fd (record { pc = video_due smooth; files = files })
        ≡ some (t, k)
      → (r : Video) × (save_thread_video fl media s.fd h.th [] smooth
          ≡ some (t.image_series_cnt, r))
        × Promised media (video_of smooth r) t k.pc
  unfolding advance
  film_opened {s} v files smooth low h t k run =
      let (n, x, r, begun, whole, opens) =
        begin_film_lem v.base s.fd v.inv.run v.inv.covers fl media smooth h.th h.first h.more
          h.faces (wide_track media server a last v files h) in
      let fd' = record s.fd { image_series_cnt = n } in
      let same : (
        fd',
        after_film fl media server a smooth x (record { pc = video_due smooth; files = files }),
      )
          ≡ (t, k) =
        some-injective _ _ (rw (h.found, begun) at run) in
      subst
        (λ (z : Fd F × Saver).
          (r : Video) × (save_thread_video fl media s.fd h.th [] smooth
            ≡ some (z.0.image_series_cnt, r))
          × Promised media (video_of smooth r) z.0 z.1.pc)
        same (r, whole, kept n smooth x r opens)
    where
      kept :
          (n : ℕ) (smooth : Bool) (x : Round Filming Video) (r : Video)
          → FilmOpens v.base s.fd v.inv.run v.inv.covers media h.first.frame_id
              (back_from h.first h.more).frame_id
              r
              x
          → Promised media
              (video_of smooth r)
              (record s.fd { image_series_cnt = n })
              (after_film fl media server a smooth x
                (record { pc = video_due smooth; files = files })).pc
      kept n true (finished r') r opens = tt
      kept n false (finished r') r opens = tt
      kept n smooth (go_on st) r (ran, placed, bound) = loop smooth (
          film_result-Kept media a last (series-Valid media server a last v files n)
            (Kept-same a s.fd (record s.fd { image_series_cnt = n }) refl refl (λ th e. e) refl
              refl)
            low h st r (subst (λ z. Placed z st.itr st.left) h.begins placed) ran)
        where
          loop :
              (smooth : Bool)
              → film_result media (record s.fd { image_series_cnt = n }) st ≡ some r
              → Promised media
                  (video_of smooth r)
                  (record s.fd { image_series_cnt = n })
                  (filming smooth st)
          loop true e = e
          loop false e = e

  film-Promised :
      (s : Fd F) (smooth : Bool) (st : Filming) (r : Video)
      → Promised media (video_of smooth r) s (filming smooth st)
      → film_result media s st ≡ some r
  film-Promised s true st r q = q
  film-Promised s false st r q = q

-- From the start in a valid state on: `w` is the state in which a stretch begins, with the next step of the thread, and
-- `u` is a state behind that step.
module _ {F : Type 0} ⦃fl : Float F⦄ (media : Media F) (server : Text) (a : ℕ) {s : System F}
    (start : Valid s) (given : FaceThread) (found : find_saved a s.fd.being_serialized ≡ some given)
    {w u : Watched F} (before : Turns media server a (record { system = s; saver = new_saver }) w)
    (th : FaceThread) (there : find_saved a w.system.fd.being_serialized ≡ some th) (t : Fd F)
    (k : Saver) (begun : advance fl media server a w.system.fd w.saver ≡ some (t, k))
    (since : Turns media server a
      (record { system = record w.system { fd = t }; saver = k })
      u) where
  abbrev last : ℕ
  last = start.high

  at_begin : Good media server a last w
  at_begin =
      let track =
        find_saved-All (Tracked start.low start.high) a s.fd.being_serialized given start.inv.saved
          found in
      let good =
        new_saver-Good media server a last s given start found
          (IsTrack-IsUpTo start.low start.high given.faces track) in
      let x = turns_lem media server a last before good in x.good

  later :
      After media server a last
        (record { system = record w.system { fd = t }; saver = k })
        u
        (own_turns media server a last since)
  later =
      let x = turn_lem media server a last (own begun) at_begin in
      turns_lem media server a last since x.good

  begins_at :
      (pc : SaverPc)
      → w.saver.pc ≡ pc
      → advance fl media server a w.system.fd (record { pc = pc; files = w.saver.files })
        ≡ some (t, k)
  begins_at pc due =
      subst
        (λ pc.
          advance fl media server a w.system.fd (record { pc = pc; files = w.saver.files })
          ≡ some (t, k))
        due begun

  -- The loop of `saveThreadImages`, with any steps of the other threads between its rounds, ends with
  -- the result, the file name and the pictures that the function without a break has in the state in
  -- which it begins, for the thread as it is then. The conditions on the start and on the other
  -- threads are those of `saver_total`.
  pub images_refine :
      (st : Imaging) (images : Images)
      → w.saver.pc ≡ images_due
      → u.saver.pc ≡ taking_images st
      → image_round media u.system.fd st ≡ some (finished images)
      → save_thread_images media w.system.fd th [] ≡ some (t.image_series_cnt, images)
  images_refine st images due in_loop over =
      let (low, h) = subst (SaverOk media a last w.system.fd) due at_begin.ok in
      let same : h.th ≡ th = some-injective _ _ (sym h.found ∙ there) in
      let (r, whole, promised) =
        images_opened media server a last at_begin.valid w.saver.files low h t k
          (begins_at images_due due) in
      let still =
        subst (Promised media (images_of r) u.system.fd) in_loop
          (later.kept (images_of r) promised) in
      let ok = subst (SaverOk media a last u.system.fd) in_loop later.good.ok in
      let e = images_closed media server a last later.good.valid st r images ok still over in
      subst (λ z. save_thread_images media w.system.fd z [] ≡ some (t.image_series_cnt, images))
        same (rw e whole)

  -- The loop of `saveThreadVideo`, smooth or not, with any steps of the other threads between its
  -- rounds, ends with the result, the file name and the frames that the function without a break has
  -- in the state in which it begins, for the thread as it is then. The conditions on the start and on
  -- the other threads are those of `saver_total`.
  pub video_refine :
      (smooth : Bool) (st : Filming) (video : Video)
      → w.saver.pc ≡ video_due smooth
      → u.saver.pc ≡ filming smooth st
      → frame_round media u.system.fd st ≡ some (finished video)
      → save_thread_video fl media w.system.fd th [] smooth ≡ some (t.image_series_cnt, video)
  video_refine smooth st video due in_loop over =
      let (low, h) = subst (SaverOk media a last w.system.fd) due at_begin.ok in
      let same : h.th ≡ th = some-injective _ _ (sym h.found ∙ there) in
      let (r, whole, promised) =
        film_opened media server a last at_begin.valid w.saver.files smooth low h t k
          (begins_at (video_due smooth) due) in
      let still = film-Promised media server a last u.system.fd smooth st r (
        subst (Promised media (video_of smooth r) u.system.fd) in_loop
          (later.kept (video_of smooth r) promised)) in
      let ok = subst (SaverOk media a last u.system.fd) in_loop later.good.ok in
      let e = film_closed media server a last later.good.valid smooth st r video ok still over in
      subst
        (λ z. save_thread_video fl media w.system.fd z [] smooth ≡ some (t.image_series_cnt, video))
        same (rw e whole)
