-- ===== src/Saver/Invariant.antt =====
-- What holds of a saving thread between its steps.
use planetariumfd.Prelude.{
  ℕ, zero, suc, Text, >>=-eq-some, ◌+◌, ◌-◌, ◌*◌, ◌≤◌, ◌≡◌, sym, ap, subst, ◌∙◌, ℤ, pos, ◌≤ℤ◌, Bool,
  true, false, List, [], ◌∷◌, some, arith, All, ltb, Bool-cases, inl, inr, nil-ne-cons,
}
use planetariumfd.Geometry.{Face}
use planetariumfd.Thread.{FaceThread}
use planetariumfd.Thread.Laws.{IsTrack, IsUpTo}
use planetariumfd.State.{HistoryEntry, Fd}
use planetariumfd.Register.{drop}
use planetariumfd.Tracker.Update.{Tracked}
use planetariumfd.History.Runs.{IsRun}
use planetariumfd.System.{System, find_saved}
use planetariumfd.System.Savers.{find_saved-All}
use planetariumfd.System.Invariant.{Valid}
use planetariumfd.SaveThread.{Media, Images, Video, Picture, image_loop, frame_loop}
use planetariumfd.Saver.{
  Itr, at_entry, list_end, first_kept, entries_from, ahead, Imaging, Filming, SaverPc, starting,
  images_due, taking_images, video_due, filming, closing, ended,
}
use planetariumfd.Saver.Positions.{Extends}
use planetariumfd.Saver.Loops.{image_loop-Extends, frame_loop-Extends}
use planetariumfd.Saver.Rounds.{Placed, IsNumbered, to_go}
use planetariumfd.Saver.ImageRounds.{image_result, images_end}
use planetariumfd.Saver.FilmRounds.{film_result, film_end}
use planetariumfd.Saver.Others.{Kept}

IsRun-drop :
    (base k : ℕ) (h : List HistoryEntry) (e : HistoryEntry) (es : List HistoryEntry)
    → IsRun base h
    → drop k h ≡ e ∷ es
    → e.frame_id ≡ pos (base + k)
IsRun-drop base zero [] e es r q = absurd (nil-ne-cons q)
IsRun-drop base (suc k) [] e es r q = absurd (nil-ne-cons q)
IsRun-drop base zero (d ∷ ds) e es (id, img, r) q =
    let same : d ≡ e = cc in
    ap (λ (x : HistoryEntry). x.frame_id) (sym same) ∙ (id ∙ ap pos (omega arith))
IsRun-drop base (suc k) (d ∷ ds) e es (id, img, r) q =
    IsRun-drop (suc base) k ds e es r q ∙ ap pos (omega arith)

module _ {F : Type 0} {s : System F} (v : Valid s) where
  pub first_kept_lem : first_kept s.fd ≡ v.base
  first_kept_lem = omega (arith, v.inv.covers)

  -- The entry of a number has the frame of that number.
  pub Valid-IsNumbered : IsNumbered s.fd
  unfolding entries_from
  Valid-IsNumbered n e es q = elim (Bool-cases (ltb n (first_kept s.fd))) [
    | inl gone ↦ absurd (nil-ne-cons (rw gone at q))
    | inr kept ↦
        IsRun-drop v.base (n - first_kept s.fd) s.fd.history e es v.inv.run (rw kept at q)
        ∙ ap pos (ground (arith, first_kept_lem))
  ]

module _ {F : Type 0} (media : Media F) (address : ℕ) (last : ℕ) where
  -- The element that is being saved, with the frame of its first face; none is past the frame `last`.
  pub record Holds (s : Fd F) (low : ℤ) : Type 0 where
    pub th : FaceThread
    pub first : Face
    pub more : List Face
    pub found : find_saved address s.being_serialized ≡ some th
    pub faces : th.faces ≡ first ∷ more
    pub begins : first.frame_id ≡ low
    pub up_to : All (IsUpTo last) (first ∷ more)

  -- In a loop the iterator is behind the first face, and the rest of the loop has a result.
  abbrev pub SaverOk : Fd F → SaverPc → Type 0
  SaverOk s starting = (low : ℤ) × Holds s low
  SaverOk s images_due = (low : ℤ) × Holds s low
  SaverOk s (taking_images st) =
      (low : ℤ) × (r : Images) × Holds s low
      × Placed low st.itr st.left
      × (to_go st.itr st.left ≤ suc last)
      × (image_result media s st ≡ some r)
  SaverOk s (video_due smooth) = (low : ℤ) × Holds s low
  SaverOk s (filming smooth st) =
      (low : ℤ) × (r : Video) × Holds s low
      × Placed low st.itr st.left
      × (to_go st.itr st.left ≤ suc last)
      × (film_result media s st ≡ some r)
  SaverOk s closing = (low : ℤ) × Holds s low
  SaverOk s (ended code) = code ≡ pos 0

  -- How many steps are left at most.
  abbrev pub rank : SaverPc → ℕ
  rank starting = 5 + 3 * (last + 2)
  rank images_due = 4 + 3 * (last + 2)
  rank (taking_images st) = 4 + 2 * (last + 2) + to_go st.itr st.left
  rank (video_due false) = 3 + 2 * (last + 2)
  rank (filming false st) = 3 + (last + 2) + to_go st.itr st.left
  rank (video_due true) = 2 + (last + 2)
  rank (filming true st) = 2 + to_go st.itr st.left
  rank closing = 1
  rank (ended code) = 0

  Holds-Kept : {s t : Fd F} {low : ℤ} → Kept address s t → Holds s low → Holds t low
  Holds-Kept k h = record {
    th = h.th;
    first = h.first;
    more = h.more;
    found = k.saved h.th h.found;
    faces = h.faces;
    begins = h.begins;
    up_to = h.up_to;
  }

  -- No entry from the first face's frame on is erased.
  pub first_kept-le :
      {t : System F} (v : Valid t) (low : ℤ)
      → Holds t.fd low
      → (n : ℕ) → low ≤ℤ pos n
      → first_kept t.fd ≤ n
  first_kept-le {t} v low h n le =
      let track : IsTrack v.low v.high (h.first ∷ h.more) = subst (IsTrack v.low v.high) h.faces (
        find_saved-All (Tracked v.low v.high) address t.fd.being_serialized h.th v.inv.saved
          h.found) in
      let begin : pos v.low ≤ℤ low = subst (λ z. pos v.low ≤ℤ z) h.begins track.0 in
      omega (arith, first_kept_lem v, v.within, begin, le)

  module _ {s : Fd F} {t : System F} (v : Valid t) (k : Kept address s t.fd) (low : ℤ)
      (h : Holds s low) where
    ahead-Extends :
        (itr : Itr) (f : Face) (fs : List Face)
        → Placed low itr (f ∷ fs)
        → Extends (ahead itr s) (ahead itr t.fd)
    ahead-Extends list_end f fs p = absurd p
    ahead-Extends (at_entry n) f fs p = k.entries n (first_kept-le v low (Holds-Kept k h) n p.0)

    image_loop-Kept :
        (o_path base : Text) (series : ℕ) (limit : ℤ) (itr : Itr) (left : List Face) (num saved : ℕ)
        (out : Text) (r : Images)
        → Placed low itr left
        → image_loop media.save_image o_path base series limit (ahead itr s) left num saved out
          ≡ some r
        → image_loop media.save_image o_path base series limit (ahead itr t.fd) left num saved out
          ≡ some r
    unfolding image_loop
    image_loop-Kept o_path base series limit itr [] num saved out r p e = e
    image_loop-Kept o_path base series limit itr (f ∷ fs) num saved out r p e =
        image_loop-Extends media.save_image o_path base series limit (ahead itr s) (ahead itr t.fd)
          (f ∷ fs) num saved out r (ahead-Extends itr f fs p) e

    frame_loop-Kept :
        (path : Text) (itr : Itr) (left : List Face) (written : ℕ) (q : Bool × List Picture)
        → Placed low itr left
        → frame_loop media path (ahead itr s) left written ≡ some q
        → frame_loop media path (ahead itr t.fd) left written ≡ some q
    unfolding frame_loop
    frame_loop-Kept path itr [] written q p e = e
    frame_loop-Kept path itr (f ∷ fs) written q p e =
        frame_loop-Extends media path (ahead itr s) (ahead itr t.fd) (f ∷ fs) written q
          (ahead-Extends itr f fs p) e

    -- Other threads' steps leave the results of the loops as they are.
    pub image_result-Kept :
        (st : Imaging) (r : Images)
        → Placed low st.itr st.left
        → image_result media s st ≡ some r
        → image_result media t.fd st ≡ some r
    unfolding image_result
    image_result-Kept st r p run =
        let limit = s.config.max_jpg_images_saved_per_thread in
        let (q, ran, end) =
          >>=-eq-some
            (image_loop media.save_image s.config.o_path s.base_ofilename st.series limit
              (ahead st.itr s) st.left st.num st.saved st.out)
            (images_end media s st) run in
        let c = t.fd.config in
        let here : image_loop media.save_image c.o_path t.fd.base_ofilename st.series
              c.max_jpg_images_saved_per_thread (ahead st.itr s) st.left st.num st.saved st.out
            ≡ some q =
          rw (k.config, k.name) ran in
        rw
          (image_loop-Kept c.o_path t.fd.base_ofilename st.series c.max_jpg_images_saved_per_thread
            st.itr st.left st.num st.saved st.out q p here)
          end

    pub film_result-Kept :
        (st : Filming) (r : Video)
        → Placed low st.itr st.left
        → film_result media s st ≡ some r
        → film_result media t.fd st ≡ some r
    unfolding film_result
    film_result-Kept st r p run =
        let (q, ran, end) =
          >>=-eq-some (frame_loop media st.path (ahead st.itr s) st.left st.written)
            (film_end media s st) run in
        rw (frame_loop-Kept st.path st.itr st.left st.written q p ran) end

  -- What holds of the thread is left alone by the steps of the others.
  pub SaverOk-Kept :
      {s : Fd F} {t : System F} (v : Valid t)
      → Kept address s t.fd
      → (pc : SaverPc) → SaverOk s pc
      → SaverOk t.fd pc
  SaverOk-Kept v k starting (low, h) = (low, Holds-Kept k h)
  SaverOk-Kept v k images_due (low, h) = (low, Holds-Kept k h)
  SaverOk-Kept v k (taking_images st) (low, r, h, p, n, run) =
      (low, r, Holds-Kept k h, p, n, image_result-Kept v k low h st r p run)
  SaverOk-Kept v k (video_due smooth) (low, h) = (low, Holds-Kept k h)
  SaverOk-Kept v k (filming smooth st) (low, r, h, p, n, run) =
      (low, r, Holds-Kept k h, p, n, film_result-Kept v k low h st r p run)
  SaverOk-Kept v k closing (low, h) = (low, Holds-Kept k h)
  SaverOk-Kept v k (ended code) e = e
