-- ===== src/Saver/Advance/Film.antt =====
-- The own steps of a saving thread in `saveThreadVideo`.
use planetariumfd.Prelude.{
  ℕ, suc, ◌≤◌, ◌<◌, ◌≡◌, refl, sym, subst, ◌∙◌, ℤ, Bool, true, false, List, ◌++◌, some,
  some-injective, arith, back_from, if◌then◌else◌, Text,
}
use planetariumfd.Float.{Float}
use planetariumfd.State.{Fd}
use planetariumfd.Register.{Registered}
use planetariumfd.System.{System}
use planetariumfd.System.Invariant.{Valid}
use planetariumfd.SaveThread.{Media, Video, registered_if}
use planetariumfd.Saver.{
  Round, go_on, finished, Imaging, Filming, Saver, SaverPc, starting, images_due, taking_images,
  video_due, filming, closing, ended, after_images, after_film, advance, image_round, frame_round,
}
use planetariumfd.Saver.Rounds.{to_go, Placed}
use planetariumfd.Saver.FilmRounds.{film_result, FilmLeads, film_round_lem}
use planetariumfd.Saver.Others.{Kept-same}
use planetariumfd.Saver.Openings.{FilmOpens, begin_film_lem}
use planetariumfd.Saver.Invariant.{Holds, SaverOk, rank, SaverOk-Kept, Valid-IsNumbered}
use planetariumfd.Saver.Advance.{
  Promise, images_of, video_of, Promised, Moved, series-Valid, wide_track, last_bound,
}

module _ {F : Type 0} ⦃fl : Float F⦄ (media : Media F) (server : Text) (a last : ℕ) where
  -- Behind either video.
  abbrev behind : Bool → SaverPc
  behind smooth = if smooth then closing else video_due true

  behind-less :
      (smooth : Bool) → rank media a last (behind smooth) < rank media a last (video_due smooth)
  behind-less true = omega arith
  behind-less false = omega arith

  behind-less_loop :
      (smooth : Bool) (st : Filming)
      → rank media a last (behind smooth) < rank media a last (filming smooth st)
  behind-less_loop true st = omega arith
  behind-less_loop false st = omega arith

  loop-less :
      (smooth : Bool) (st : Filming)
      → to_go st.itr st.left ≤ suc last
      → rank media a last (filming smooth st) < rank media a last (video_due smooth)
  loop-less true st h = omega arith
  loop-less false st h = omega arith

  round-less :
      (smooth : Bool) (st st' : Filming)
      → to_go st'.itr st'.left < to_go st.itr st.left
      → rank media a last (filming smooth st') < rank media a last (filming smooth st)
  round-less true st st' h = omega arith
  round-less false st st' h = omega arith

  behind-Ok :
      (s : Fd F) (smooth : Bool) (low : ℤ)
      → Holds media a last s low
      → SaverOk media a last s (behind smooth)
  behind-Ok s true low h = (low, h)
  behind-Ok s false low h = (low, h)

  due_kept :
      (s t : Fd F) (smooth : Bool) (p : Promise)
      → Promised media p s (video_due smooth)
      → Promised media p t (behind smooth)
  due_kept s t true (images_of r) q = tt
  due_kept s t false (images_of r) q = tt
  due_kept s t true (video_of true v) q = absurd q
  due_kept s t true (video_of false v) q = tt
  due_kept s t false (video_of true v) q = absurd q
  due_kept s t false (video_of false v) q = absurd q

  due_kept_loop :
      (s t : Fd F) (smooth : Bool) (st : Filming) (p : Promise)
      → Promised media p s (video_due smooth)
      → Promised media p t (filming smooth st)
  due_kept_loop s t true st (images_of r) q = tt
  due_kept_loop s t false st (images_of r) q = tt
  due_kept_loop s t true st (video_of true v) q = absurd q
  due_kept_loop s t true st (video_of false v) q = tt
  due_kept_loop s t false st (video_of true v) q = absurd q
  due_kept_loop s t false st (video_of false v) q = absurd q

  over_kept :
      (s : Fd F) (smooth : Bool) (st : Filming) (p : Promise)
      → Promised media p s (filming smooth st)
      → Promised media p s (behind smooth)
  over_kept s true st (images_of r) q = tt
  over_kept s false st (images_of r) q = tt
  over_kept s true st (video_of true v) q = tt
  over_kept s true st (video_of false v) q = tt
  over_kept s false st (video_of true v) q = absurd q
  over_kept s false st (video_of false v) q = tt

  round_kept :
      (s : Fd F) (smooth : Bool) (st st' : Filming) (r : Video)
      → film_result media s st ≡ some r
      → film_result media s st' ≡ some r
      → (p : Promise) → Promised media p s (filming smooth st)
      → Promised media p s (filming smooth st')
  round_kept s true st st' r e e' (images_of r0) q = tt
  round_kept s false st st' r e e' (images_of r0) q = tt
  round_kept s true st st' r e e' (video_of true v) q =
      subst (λ z. film_result media s st' ≡ some z) (some-injective _ _ (sym e ∙ q)) e'
  round_kept s true st st' r e e' (video_of false v) q = tt
  round_kept s false st st' r e e' (video_of true v) q = absurd q
  round_kept s false st st' r e e' (video_of false v) q =
      subst (λ z. film_result media s st' ≡ some z) (some-injective _ _ (sym e ∙ q)) e'

  module _ {s : System F} (v : Valid s) (files : List Registered) where
    pub move_video_due :
        (smooth : Bool) (low : ℤ)
        → Holds media a last s.fd low
        → Moved media server a last s (record { pc = video_due smooth; files = files })
    unfolding advance
    move_video_due smooth low h =
        let (n, x, r, begun, whole, opens) =
          begin_film_lem v.base s.fd v.inv.run v.inv.covers fl media smooth h.th h.first h.more
            h.faces (wide_track media server a last v files h) in
        after n x r begun opens
      where
        after :
            (n : ℕ) (x : Round Filming Video) (r : Video)
            → planetariumfd.Saver.begin_film fl media s.fd h.th smooth ≡ some (n, x)
            → FilmOpens v.base s.fd v.inv.run v.inv.covers media h.first.frame_id
                (back_from h.first h.more).frame_id
                r
                x
            → Moved media server a last s (record { pc = video_due smooth; files = files })
        after n (finished r') r begun opens =
            let fd' = record s.fd { image_series_cnt = n } in
            let valid = series-Valid media server a last v files n in
            record {
              fd' = fd';
              saver' = record {
                pc = behind smooth;
                files = files ++ registered_if server r'.ok r'.filename;
              };
              run = rw h.found (rw begun refl);
              valid = valid;
              ok =
                  SaverOk-Kept media a last valid
                    (Kept-same a s.fd fd' refl refl (λ th e. e) refl refl) (behind smooth)
                    (behind-Ok s.fd smooth low h);
              less = behind-less smooth;
              kept = λ p q. due_kept s.fd fd' smooth p q;
            }
        after n (go_on st) r begun (ran, placed, bound) =
            let fd' = record s.fd { image_series_cnt = n } in
            let valid = series-Valid media server a last v files n in
            let few : to_go st.itr st.left ≤ suc last =
              omega (arith, last_bound media server a last v files h) in
            record {
              fd' = fd';
              saver' = record { pc = filming smooth st; files = files };
              run = rw h.found (rw begun refl);
              valid = valid;
              ok =
                  SaverOk-Kept media a last valid
                    (Kept-same a s.fd fd' refl refl (λ th e. e) refl refl) (filming smooth st)
                    (low, r, h, subst (λ z. Placed z st.itr st.left) h.begins placed, few, ran);
              less = loop-less smooth st few;
              kept = λ p q. due_kept_loop s.fd fd' smooth st p q;
            }

    pub move_filming :
        (smooth : Bool) (st : Filming)
        → SaverOk media a last s.fd (filming smooth st)
        → Moved media server a last s (record { pc = filming smooth st; files = files })
    unfolding advance
    move_filming smooth st (low, r, h, placed, bound, ran) =
        let (x, round, lead) = film_round_lem media s.fd (Valid-IsNumbered v) low st r placed ran in
        after x round lead
      where
        after :
            (x : Round Filming Video)
            → frame_round media s.fd st ≡ some x
            → FilmLeads media s.fd low st r x
            → Moved media server a last s (record { pc = filming smooth st; files = files })
        after (finished r') round lead = record {
          fd' = s.fd;
          saver' = record {
            pc = behind smooth;
            files = files ++ registered_if server r'.ok r'.filename;
          };
          run = rw round refl;
          valid = v;
          ok = behind-Ok s.fd smooth low h;
          less = behind-less_loop smooth st;
          kept = λ p q. over_kept s.fd smooth st p q;
        }
        after (go_on st') round (ran', placed', less) = record {
          fd' = s.fd;
          saver' = record { pc = filming smooth st'; files = files };
          run = rw round refl;
          valid = v;
          ok = (low, r, h, placed', omega arith, ran');
          less = round-less smooth st st' less;
          kept = λ p q. round_kept s.fd smooth st st' r ran ran' p q;
        }
