-- ===== src/Saver/Turns.antt =====
-- The turns of a saving thread and of the other threads of control, one by one and in a row.
use planetariumfd.Prelude.{
  true, false, ℕ, ◌+◌, ◌≤◌, ◌≡◌, refl, sym, ap, subst, ◌∙◌, pos, List, [], some, none-ne-some,
  some-injective, arith, inl, inr, ◌⊎◌, Text,
}
use planetariumfd.Float.{Float}
use planetariumfd.State.{Fd}
use planetariumfd.Register.{Registered}
use planetariumfd.System.{System}
use planetariumfd.System.Invariant.{Valid}
use planetariumfd.System.Preservation.{Step-Valid}
use planetariumfd.SaveThread.{Media}
use planetariumfd.Saver.{
  Saver, SaverPc, starting, images_due, taking_images, video_due, filming, closing, ended, advance,
}
use planetariumfd.Saver.Others.{Kept, Kept-same}
use planetariumfd.Saver.Watched.{
  Watched, Turn, own, other, another_series, Turns, none_yet, and_then, Step-Kept,
}
use planetariumfd.Saver.Invariant.{SaverOk, rank, SaverOk-Kept, image_result-Kept, film_result-Kept}
use planetariumfd.Saver.Advance.{
  Promise, images_of, video_of, Promised, Moved, series-Valid, move_starting, move_images_due,
  move_taking, move_closing,
}
use planetariumfd.Saver.Advance.Film.{move_video_due, move_filming}

module _ {F : Type 0} ⦃fl : Float F⦄ (media : Media F) (server : Text) (a last : ℕ) where
  move_at :
      {s : System F} (v : Valid s) (pc : SaverPc) (files : List Registered)
      → SaverOk media a last s.fd pc
      → (pc ≡ ended (pos 0)) ⊎ Moved media server a last s (record { pc = pc; files = files })
  move_at v starting files (low, h) = inr (move_starting media server a last v files low h)
  move_at v images_due files (low, h) = inr (move_images_due media server a last v files low h)
  move_at v (taking_images st) files ok = inr (move_taking media server a last v files st ok)
  move_at v (video_due smooth) files (low, h) =
      inr (move_video_due media server a last v files smooth low h)
  move_at v (filming smooth st) files ok =
      inr (move_filming media server a last v files smooth st ok)
  move_at v closing files (low, h) = inr (move_closing media server a last v files low h)
  move_at v (ended code) files e = inl (ap ended e)

  -- A thread that has not ended has a next step.
  pub move_lem :
      {s : System F} (v : Valid s) (k : Saver)
      → SaverOk media a last s.fd k.pc
      → (k.pc ≡ ended (pos 0)) ⊎ Moved media server a last s k
  move_lem v k ok = move_at v k.pc k.files ok

  ended_lem :
      (s : Fd F) (pc : SaverPc) (files : List Registered) {t : Fd F × Saver}
      → pc ≡ ended (pos 0)
      → advance fl media server a s (record { pc = pc; files = files }) ≡ some t
      → ⊥
  unfolding advance
  ended_lem s pc files e run = none-ne-some (rw e at run)

  pub Promised-Kept :
      {s : Fd F} {t : System F} (v : Valid t)
      → Kept a s t.fd
      → (pc : SaverPc) → SaverOk media a last s pc
      → (p : Promise) → Promised media p s pc
      → Promised media p t.fd pc
  Promised-Kept v k starting ok p q = absurd q
  Promised-Kept v k images_due ok p q = absurd q
  Promised-Kept v k (taking_images st) (low, r, h, placed, n, run) (images_of r0) q =
      image_result-Kept media a last v k low h st r0 placed q
  Promised-Kept v k (taking_images st) ok (video_of smooth v0) q = absurd q
  Promised-Kept v k (video_due true) ok (images_of r) q = tt
  Promised-Kept v k (video_due false) ok (images_of r) q = tt
  Promised-Kept v k (video_due false) ok (video_of smooth v0) q = absurd q
  Promised-Kept v k (video_due true) ok (video_of true v0) q = absurd q
  Promised-Kept v k (video_due true) ok (video_of false v0) q = tt
  Promised-Kept v k (filming true st) ok (images_of r) q = tt
  Promised-Kept v k (filming false st) ok (images_of r) q = tt
  Promised-Kept v k (filming false st) ok (video_of true v0) q = absurd q
  Promised-Kept v k (filming true st) ok (video_of false v0) q = tt
  Promised-Kept v k (filming true st) (low, r, h, placed, n, run) (video_of true v0) q =
      film_result-Kept media a last v k low h st v0 placed q
  Promised-Kept v k (filming false st) (low, r, h, placed, n, run) (video_of false v0) q =
      film_result-Kept media a last v k low h st v0 placed q
  Promised-Kept v k closing ok (images_of r) q = tt
  Promised-Kept v k closing ok (video_of true v0) q = tt
  Promised-Kept v k closing ok (video_of false v0) q = tt
  Promised-Kept v k (ended code) ok (images_of r) q = tt
  Promised-Kept v k (ended code) ok (video_of true v0) q = tt
  Promised-Kept v k (ended code) ok (video_of false v0) q = tt

  pub record Good (w : Watched F) : Type 0 where
    pub valid : Valid w.system
    pub ok : SaverOk media a last w.system.fd w.saver.pc

  abbrev pub cost : {w u : Watched F} → Turn media server a w u → ℕ
  cost (own run) = 1
  cost (other st timely sp) = 0
  cost another_series = 0

  -- The steps that the thread itself has made.
  abbrev pub own_turns : {w u : Watched F} → Turns media server a w u → ℕ
  own_turns none_yet = 0
  own_turns (and_then ts t) = own_turns ts + cost t

  -- What a turn leaves.
  pub record After (w u : Watched F) (n : ℕ) : Type 0 where
    pub good : Good u
    pub fewer : rank media a last u.saver.pc + n ≤ rank media a last w.saver.pc
    pub kept :
        (p : Promise)
        → Promised media p w.system.fd w.saver.pc
        → Promised media p u.system.fd u.saver.pc

  env_lem :
      (w : Watched F) (t : System F)
      → Good w
      → Valid t
      → Kept a w.system.fd t.fd
      → After w (record w { system = t }) 0
  env_lem w t g v k = record {
    good = record { valid = v; ok = SaverOk-Kept media a last v k w.saver.pc g.ok };
    fewer = omega arith;
    kept = λ p q. Promised-Kept v k w.saver.pc g.ok p q;
  }

  pub turn_lem : {w u : Watched F} (t : Turn media server a w u) → Good w → After w u (cost t)
  turn_lem {w} (own {fd'} {saver'} run) g = elim (move_lem g.valid w.saver g.ok) [
    | inl e ↦ absurd (ended_lem w.system.fd w.saver.pc w.saver.files e run)
    | inr m ↦
        let same : (m.fd', m.saver') ≡ (fd', saver') = some-injective _ _ (sym m.run ∙ run) in
        subst
          (λ (z : Fd F × Saver).
            After w (record { system = record w.system { fd = z.0 }; saver = z.1 }) 1)
          same
          (record {
            good = record { valid = m.valid; ok = m.ok };
            fewer = let l = m.less in omega arith;
            kept = m.kept;
          })
  ]
  turn_lem {w} (other {t} st timely sp) g =
      env_lem w t g (Step-Valid st timely g.valid) (Step-Kept a st sp g.valid)
  turn_lem {w} another_series g =
      env_lem w _ g (series-Valid media server a last g.valid [] (w.system.fd.image_series_cnt + 1))
        (Kept-same a w.system.fd _ refl refl (λ th e. e) refl refl)

  pub turns_lem :
      {w u : Watched F} (ts : Turns media server a w u) → Good w → After w u (own_turns ts)
  turns_lem none_yet g = record { good = g; fewer = omega arith; kept = λ p q. q }
  turns_lem (and_then ts t) g =
      let x = turns_lem ts g in
      let y = turn_lem t x.good in
      record {
        good = y.good;
        fewer = let l = x.fewer in let m = y.fewer in omega arith;
        kept = λ p q. y.kept p (x.kept p q);
      }
