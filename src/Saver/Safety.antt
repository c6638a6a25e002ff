-- ===== src/Saver/Safety.antt =====
-- A saving thread from its start on, among the other threads of control: no fault, and an end.
use planetariumfd.Prelude.{
  ℕ, zero, suc, ◌+◌, ◌*◌, ◌≤◌, ◌≡◌, refl, subst, pos, List, [], some, arith, All, inl, inr, ◌⊎◌,
  Text, false, none-ne-some,
}
use planetariumfd.Float.{Float}
use planetariumfd.Thread.{FaceThread}
use planetariumfd.Thread.Laws.{IsUpTo}
use planetariumfd.State.{Fd}
use planetariumfd.Tracker.Update.{Tracked}
use planetariumfd.Register.{Registered}
use planetariumfd.System.{System, find_saved}
use planetariumfd.System.Savers.{find_saved-All}
use planetariumfd.System.Invariant.{Valid}
use planetariumfd.SaveThread.{Media}
use planetariumfd.SaveThread.Whole.{first_of}
use planetariumfd.Saver.{
  Saver, SaverPc, starting, images_due, taking_images, video_due, filming, closing, ended, advance,
  is_ended, run_alone,
}
use planetariumfd.Saver.Watched.{Watched, Turns}
use planetariumfd.Saver.Invariant.{SaverOk, rank}
use planetariumfd.Saver.Turns.{Good, After, own_turns, move_lem, turns_lem}

-- `saveAndDeleteThread` when it has just been started.
abbrev pub new_saver : Saver
new_saver = record { pc = starting; files = [] }

module _ {F : Type 0} ⦃fl : Float F⦄ (media : Media F) (server : Text) (a last : ℕ) where
  -- It starts on an element of the list, in a valid state.
  pub new_saver-Good :
      (s : System F) (th : FaceThread)
      → Valid s
      → find_saved a s.fd.being_serialized ≡ some th
      → All (IsUpTo last) th.faces
      → Good media server a last (record { system = s; saver = new_saver })
  new_saver-Good s th v found up =
      let track =
        find_saved-All (Tracked v.low v.high) a s.fd.being_serialized th v.inv.saved found in
      let (f, fs, e) = first_of v.low v.high th.faces track in
      record {
        valid = v;
        ok = (
          f.frame_id,
          record {
            th = th;
            first = f;
            more = fs;
            found = found;
            faces = e;
            begins = refl;
            up_to = subst (All (IsUpTo last)) e up;
          },
        );
      }

  goes_on :
      (s : Fd F) (pc : SaverPc) (files : List Registered) {t : Fd F × Saver}
      → advance fl media server a s (record { pc = pc; files = files }) ≡ some t
      → is_ended pc ≡ false
  unfolding advance
  goes_on s (ended code) files run = absurd (none-ne-some run)
  goes_on s starting files run = refl
  goes_on s images_due files run = refl
  goes_on s (taking_images st) files run = refl
  goes_on s (video_due smooth) files run = refl
  goes_on s (filming smooth st) files run = refl
  goes_on s closing files run = refl

  -- Left alone, the thread comes to its end.
  alone :
      (n : ℕ) (s : System F) (v : Valid s) (k : Saver)
      → SaverOk media a last s.fd k.pc
      → rank media a last k.pc ≤ n
      → (t : Fd F) × (files : List Registered) × (run_alone fl media server a n s.fd k
          ≡ some (t, record { pc = ended (pos 0); files = files }))
  unfolding run_alone
  alone zero s v k ok le = elim (move_lem media server a last v k ok) [
    | inl e ↦ (s.fd, k.files, rw e refl)
    | inr m ↦ let l = m.less in absurd (omega arith)
  ]
  alone (suc n) s v k ok le = elim (move_lem media server a last v k ok) [
    | inl e ↦ (s.fd, k.files, rw e refl)
    | inr m ↦
        let (t, files, run) =
          alone n (record s { fd = m.fd' }) m.valid m.saver' m.ok (let l = m.less in omega arith) in
        (t, files, rw (goes_on s.fd k.pc k.files m.run) (rw m.run run))
  ]

  -- Started in a valid state, with turns of the other threads before, between and behind its own.
  module _ {s : System F} (v : Valid s) (th : FaceThread)
      (found : find_saved a s.fd.being_serialized ≡ some th) (up : All (IsUpTo last) th.faces)
      {w : Watched F} (ts : Turns media server a (record { system = s; saver = new_saver }) w) where
    after :
        After media server a last
          (record { system = s; saver = new_saver })
          w
          (own_turns media server a last ts)
    after = turns_lem media server a last ts (new_saver-Good s th v found up)

    -- `saveAndDeleteThread`, begun in a valid state on an element of the list whose faces are of frames
    -- up to `last`, with its steps anywhere among those of the main thread, the pruning thread and the
    -- other saving threads, makes no more than 5 + 3 (last + 2) steps, and until it has ended, with the
    -- result 0, its next step is without a fault. The conditions are those of `Step-Valid` on frame
    -- numbers and on the time of an erasure, and that no other saving thread has the same element.
    pub saver_total :
        (own_turns media server a last ts ≤ 5 + 3 * (last + 2))
        × ((w.saver.pc ≡ ended (pos 0))
            ⊎ ((t : Fd F × Saver) × (advance fl media server a w.system.fd w.saver ≡ some t)))
    saver_total =
        let g = after.good in
        let few = after.fewer in
        (
          omega arith,
          elim (move_lem media server a last g.valid w.saver g.ok) [
            | inl e ↦ inl e
            | inr m ↦ inr ((m.fd', m.saver'), m.run)
          ],
        )

    -- Wherever such a run has come to, if `saveAndDeleteThread` then has the machine for itself, it ends
    -- within 5 + 3 (last + 2) steps, with the result 0 and without a fault.
    pub saver_finishes :
        (t : Fd F) × (files : List Registered) × (run_alone fl media server a
            (5 + 3 * (last + 2))
            w.system.fd
            w.saver
          ≡ some (t, record { pc = ended (pos 0); files = files }))
    saver_finishes =
        let g = after.good in
        let few = after.fewer in
        alone (5 + 3 * (last + 2)) w.system g.valid w.saver g.ok (omega arith)
