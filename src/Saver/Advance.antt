-- ===== src/Saver/Advance.antt =====
-- The own steps of a saving thread, one by one.
use planetariumfd.Prelude.{
  ℕ, suc, ◌+◌, ◌-◌, ◌*◌, ◌≤◌, ◌<◌, ◌≡◌, ◌≢◌, refl, sym, ap, subst, ◌∙◌, ℤ, pos, ◌≤ℤ◌, Bool, true,
  false, List, [], ◌∷◌, ◌++◌, some, length, some-injective, arith, All, Bool-cases, inl, inr,
  back_from, pos_part, if◌then◌else◌, ◌==◌, ◌⊎◌, Text,
}
use planetariumfd.Float.{Float}
use planetariumfd.Geometry.{Face}
use planetariumfd.Thread.{FaceThread, prune_faces_list}
use planetariumfd.Thread.Laws.{IsTrack, IsTrack-mono, IsUpTo, prune_faces_list_lem}
use planetariumfd.State.{HistoryEntry, Saved, Fd}
use planetariumfd.Tracker.Update.{Tracked}
use planetariumfd.Register.{Registered}
use planetariumfd.System.{
  System, find_saved, put_saved, trim_saved, finish_saved, delete_being_serialized,
}
use planetariumfd.System.Savers.{
  find_saved-All, HasAddress, delete_being_serialized_total, delete_being_serialized-Without,
}
use planetariumfd.System.Bounds.{main_high}
use planetariumfd.System.Invariant.{Valid}
use planetariumfd.System.Preservation.{Step-Valid}
use planetariumfd.SaveThread.{Media, Images, Video, registered_if, is_worth_saving}
use planetariumfd.SaveThread.Played.{last-IsUpTo}
use planetariumfd.SaveThread.Whole.{first_of}
use planetariumfd.Saver.{
  Round, go_on, finished, Imaging, Filming, Saver, SaverPc, starting, images_due, taking_images,
  video_due, filming, closing, ended, after_images, after_film, advance, image_round, frame_round,
}
use planetariumfd.Saver.Rounds.{to_go, Placed}
use planetariumfd.Saver.ImageRounds.{image_result, ImagesLead, image_round_lem}
use planetariumfd.Saver.FilmRounds.{film_result, FilmLeads, film_round_lem}
use planetariumfd.Saver.Others.{Kept-same}
use planetariumfd.Saver.Openings.{FilmOpens, begin_images_lem, begin_film_lem}
use planetariumfd.Saver.Invariant.{
  Holds, SaverOk, rank, SaverOk-Kept, Valid-IsNumbered, image_result-Kept, film_result-Kept,
}
pub mod Film

pub find_saved-put_saved :
    (a : ℕ) (th th' : FaceThread) (rs : List Saved)
    → find_saved a rs ≡ some th
    → find_saved a (put_saved a th' rs) ≡ some th'
find_saved-put_saved a th th' [] e = cc
find_saved-put_saved a th th' (r ∷ rs) e = elim (Bool-cases (r.address == a)) [
  | inl same ↦ rw same (rw same refl)
  | inr other ↦ rw other (rw other (find_saved-put_saved a th th' rs (rw other at e)))
]

pub find_saved-HasAddress :
    (a : ℕ) (th : FaceThread) (rs : List Saved) → find_saved a rs ≡ some th → HasAddress a rs
find_saved-HasAddress a th [] e = cc
find_saved-HasAddress a th (r ∷ rs) e = elim (Bool-cases (r.address == a)) [
  | inl same ↦ inl (let q : r.address ≡ a = ground arith in q)
  | inr other ↦ inr (find_saved-HasAddress a th rs (rw other at e))
]

-- What a stretch comes to: the images or one of the videos.
pub data Promise : Type 0 where
  images_of : Images → Promise
  video_of : (smooth : Bool) → Video → Promise

module _ {F : Type 0} (media : Media F) where
  -- In its loop the stretch will come to what is promised if it runs on without a break; later it is over.
  abbrev pub Promised : Promise → Fd F → SaverPc → Type 0
  Promised p s starting = ⊥
  Promised p s images_due = ⊥
  Promised (images_of r) s (taking_images st) = image_result media s st ≡ some r
  Promised (images_of r) s _ = Unit
  Promised (video_of smooth v) s (taking_images st) = ⊥
  Promised (video_of smooth v) s (video_due false) = ⊥
  Promised (video_of true v) s (video_due true) = ⊥
  Promised (video_of true v) s (filming false st) = ⊥
  Promised (video_of true v) s (filming true st) = film_result media s st ≡ some v
  Promised (video_of false v) s (filming false st) = film_result media s st ≡ some v
  Promised (video_of smooth v) s _ = Unit

  pub is_over : (s : Fd F) (p : Promise) → Promised p s (ended (pos 0))
  is_over s (images_of r) = tt
  is_over s (video_of true v) = tt
  is_over s (video_of false v) = tt

module _ {F : Type 0} ⦃fl : Float F⦄ (media : Media F) (server : Text) (a last : ℕ) where
  -- A step was made: the invariants hold again, less is left to do, and promises are kept.
  pub record Moved (s : System F) (k : Saver) : Type 0 where
    pub fd' : Fd F
    pub saver' : Saver
    pub run : advance fl media server a s.fd k ≡ some (fd', saver')
    pub valid : Valid (record s { fd = fd' })
    pub ok : SaverOk media a last fd' saver'.pc
    pub less : rank media a last saver'.pc < rank media a last k.pc
    pub kept : (p : Promise) → Promised media p s.fd k.pc → Promised media p fd' saver'.pc

  module _ {s : System F} (v : Valid s) (files : List Registered) where
    pub series-Valid : (n : ℕ) → Valid (record s { fd = record s.fd { image_series_cnt = n } })
    series-Valid n = record {
      base = v.base;
      low = v.low;
      high = v.high;
      within = v.within;
      sane = v.sane;
      small = v.small;
      inv = record {
        run = v.inv.run;
        covers = v.inv.covers;
        tracks = v.inv.tracks;
        saved = v.inv.saved;
        ascending = v.inv.ascending;
      };
      main_ok = v.main_ok;
      pruner_ok = v.pruner_ok;
    }

    pub held_track :
        {low : ℤ} → (h : Holds media a last s.fd low) → IsTrack v.low v.high (h.first ∷ h.more)
    held_track h =
        subst (IsTrack v.low v.high) h.faces
          (find_saved-All (Tracked v.low v.high) a s.fd.being_serialized h.th v.inv.saved h.found)

    pub wide_track :
        {low : ℤ}
        → (h : Holds media a last s.fd low)
        → IsTrack v.base s.fd.processed_frame_counter (h.first ∷ h.more)
    wide_track h =
        IsTrack-mono v.low v.high v.base s.fd.processed_frame_counter (h.first ∷ h.more) v.within
          (main_high s.main v.low v.high s.fd.processed_frame_counter (length s.fd.history)
            v.main_ok)
          (held_track h)

    pub last_bound :
        {low : ℤ}
        → (h : Holds media a last s.fd low)
        → suc (pos_part (back_from h.first h.more).frame_id) ≤ suc last
    last_bound h = let le = last-IsUpTo last h.first h.more h.up_to in ground (arith)

    -- The pruning of the thread keeps its newest faces.
    pub move_starting :
        (low : ℤ) → Holds media a last s.fd low → Moved s (record { pc = starting; files = files })
    unfolding advance
    move_starting low h =
        let (l, rising, us) = held_track h in
        let up : IsTrack v.low last h.th.faces = rw h.faces (l, rising, h.up_to) in
        let (faces, pruned, track, popped) =
          prune_faces_list_lem v.low last v.sane.limit h.th up v.sane.positive in
        let th' : FaceThread = record h.th { faces = faces } in
        let trimmed : prune_faces_list s.fd.config.max_thread_history_size h.th ≡ some th' =
          subst (λ z. prune_faces_list z h.th ≡ some th') (sym v.sane.limited) pruned in
        let there = find_saved-put_saved a h.th th' s.fd.being_serialized h.found in
        let (f, fs, e) = first_of v.low last faces track in
        let pc = if is_worth_saving s.fd.config th' then images_due else closing in
        let fd' = record s.fd { being_serialized = put_saved a th' s.fd.being_serialized } in
        let h' : Holds media a last fd' f.frame_id = record {
          th = th';
          first = f;
          more = fs;
          found = there;
          faces = e;
          begins = refl;
          up_to = (subst (IsTrack v.low last) e track).2;
        } in
        elim (Bool-cases (is_worth_saving s.fd.config th')) [
          | inl worth ↦ record {
            fd' = fd';
            saver' = record { pc = images_due; files = files };
            run = rw h.found (rw trimmed (rw worth refl));
            valid = Step-Valid (trim_saved a h.found trimmed) tt v;
            ok = (f.frame_id, h');
            less = omega arith;
            kept = λ p q. absurd q;
          }
          | inr poor ↦ record {
            fd' = fd';
            saver' = record { pc = closing; files = files };
            run = rw h.found (rw trimmed (rw poor refl));
            valid = Step-Valid (trim_saved a h.found trimmed) tt v;
            ok = (f.frame_id, h');
            less = omega arith;
            kept = λ p q. absurd q;
          }
        ]

    pub move_images_due :
        (low : ℤ)
        → Holds media a last s.fd low
        → Moved s (record { pc = images_due; files = files })
    unfolding advance
    move_images_due low h =
        let (st, r, begun, placed, bound, ran, whole) =
          begin_images_lem v.base s.fd v.inv.run v.inv.covers media h.th h.first h.more h.faces
            (wide_track h) in
        let n = s.fd.image_series_cnt + 1 in
        let fd' = record s.fd { image_series_cnt = n } in
        let loop : SaverOk media a last s.fd (taking_images st) = (
          low,
          r,
          h,
          subst (λ z. Placed z st.itr st.left) h.begins placed,
          omega (arith, last_bound h),
          ran,
        ) in
        record {
          fd' = fd';
          saver' = record { pc = taking_images st; files = files };
          run = rw h.found (rw begun refl);
          valid = series-Valid n;
          ok =
              SaverOk-Kept media a last (series-Valid n)
                (Kept-same a s.fd fd' refl refl (λ th e. e) refl refl) (taking_images st) loop;
          less = omega (arith, last_bound h);
          kept = λ p q. absurd q;
        }

    pub move_closing :
        (low : ℤ) → Holds media a last s.fd low → Moved s (record { pc = closing; files = files })
    unfolding advance
    move_closing low h =
        let (rest, run) =
          delete_being_serialized_total a s.fd.being_serialized
            (find_saved-HasAddress a h.th s.fd.being_serialized h.found) in
        let fd' = record s.fd { being_serialized = rest } in
        record {
          fd' = fd';
          saver' = record { pc = ended (pos 0); files = files };
          run = rw run refl;
          valid = Step-Valid (finish_saved a run) tt v;
          ok = refl;
          less = omega arith;
          kept = λ p q. is_over media fd' p;
        }

    pub move_taking :
        (st : Imaging)
        → SaverOk media a last s.fd (taking_images st)
        → Moved s (record { pc = taking_images st; files = files })
    unfolding advance
    move_taking st (low, r, h, placed, bound, ran) =
        let (x, round, lead) =
          image_round_lem media s.fd (Valid-IsNumbered v) low st r placed ran in
        after x round lead
      where
        after :
            (x : Round Imaging Images)
            → image_round media s.fd st ≡ some x
            → ImagesLead media s.fd low st r x
            → Moved s (record { pc = taking_images st; files = files })
        after (finished r') round lead = record {
          fd' = s.fd;
          saver' = record {
            pc = video_due false;
            files = files ++ registered_if server r'.ok r'.filename;
          };
          run = rw round refl;
          valid = v;
          ok = (low, h);
          less = omega arith;
          kept = λ p q. over p q;
        }
          where
            over :
                (p : Promise)
                → Promised media p s.fd (taking_images st)
                → Promised media p s.fd (video_due false)
            over (images_of r0) q = tt
            over (video_of smooth v0) q = absurd q
        after (go_on st') round (ran', placed', less) = record {
          fd' = s.fd;
          saver' = record { pc = taking_images st'; files = files };
          run = rw round refl;
          valid = v;
          ok = (low, r, h, placed', omega arith, ran');
          less = omega arith;
          kept = λ p q. still p q;
        }
          where
            still :
                (p : Promise)
                → Promised media p s.fd (taking_images st)
                → Promised media p s.fd (taking_images st')
            still (images_of r0) q =
                subst (λ z. image_result media s.fd st' ≡ some z) (some-injective _ _ (sym ran ∙ q))
                  ran'
            still (video_of smooth v0) q = absurd q
