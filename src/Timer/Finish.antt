-- ===== src/Timer/Finish.antt =====
-- The end of a round of Schedule of src/util/Timer.cpp, and that Schedule ends.
use hwnet.Prelude.{
  ℕ, ◌≡◌, refl, ap, ◌∙◌, Bool, true, false, none, some, ◌==◌, ◌&&◌, not, arith, Bool-cases, inl,
  inr, ==_refl,
}
use hwnet.Timer.{Timer, TimerMgr, insert}
use hwnet.Timer.View.{queued}
use hwnet.Timer.Calls.{IsValid, IsAdded, added-same}
use hwnet.Timer.Insert.{insert-IsAdded}
use hwnet.Timer.Schedule.{touch, next_time, drop_callback, round_end}
use hwnet.Timer.Touch.{IsLikely, touch-IsValid, queued-touch}

-- What the end of a round does: the timer is in the heap again with its next time, or stays out.
pub record IsEnded (now t : ℕ) (m m' : TimerMgr) : Type 0 where
  pub valid : IsValid m'
  pub others : (u : ℕ) → (t == u) ≡ false → queued m' u ≡ queued m u
  pub expired : (u : ℕ) → (t == u) ≡ false → (m'.timers u).expired ≡ (m.timers u).expired
  pub again :
      queued m' t ≡ true
      → ((m'.timers t).expired ≡ next_time m.compensate now (m.timers t))
        × ((m.timers t).once ≡ false)
  pub once : (u : ℕ) → (m'.timers u).once ≡ (m.timers u).once
  pub timeout : (u : ℕ) → (m'.timers u).timeout ≡ (m.timers u).timeout
  pub canceled : (u : ℕ) → (m'.timers u).canceled ≡ (m.timers u).canceled
  pub kept : (u : ℕ) → (t == u) ≡ false → queued m u ≡ false → (m'.timers u).index ≡ 0
  pub owner : (u : ℕ) → (t == u) ≡ false → (m'.timers u).owner ≡ (m.timers u).owner
  pub policy : m'.compensate ≡ m.compensate

drop_callback-IsEnded :
    (now t : ℕ) (m : TimerMgr)
    → IsValid m
    → (m.timers t).index ≡ 0
    → IsEnded now t m (drop_callback t m)
drop_callback-IsEnded now t m v out =
    let l : IsLikely m t (record (m.timers t) { callback = false }) = record {
      index = refl;
      expired = λ p. refl;
      owner = λ p. refl;
      self = λ p. refl;
    } in
    record {
      valid = touch-IsValid t _ m l v;
      others = λ u differ. queued-touch t _ m l u;
      expired = λ u differ. ground arith;
      again = λ e. absurd (ground (arith, queued-touch t _ m l t, e, out));
      once = λ u. ground arith;
      timeout = λ u. ground arith;
      canceled = λ u. ground arith;
      kept = λ u differ absent. ground (arith, v.tight u, differ, absent);
      owner = λ u differ. ground arith;
      policy = refl;
    }

-- The timer as the end of a round puts it back.
abbrev pub again_of : ℕ → TimerMgr → ℕ → Timer
again_of now m t = record (m.timers t) {
  in_callback = false;
  expired = next_time m.compensate now (m.timers t);
}

-- Whether it is put back.
abbrev repeats : Bool → Timer → Bool
repeats ok x = ok && not x.once && x.in_callback && not x.canceled

round_end-insert :
    (now t : ℕ) (ok : Bool) (m m' : TimerMgr)
    → repeats ok (m.timers t) ≡ true
    → insert t (touch t (again_of now m t) m) ≡ some (true, m')
    → round_end now t ok m ≡ some (touch t (record (m'.timers t) { thread = none }) m')
unfolding round_end
round_end-insert now t ok m m' e done = rw (e, done) refl

round_end-drop :
    (now t : ℕ) (ok : Bool) (m : TimerMgr)
    → repeats ok (m.timers t) ≡ false
    → round_end now t ok m ≡ some (drop_callback t m)
unfolding round_end
round_end-drop now t ok m e = rw e refl

reinserted-IsEnded :
    (now t : ℕ) (m m' : TimerMgr)
    → (m.timers t).index ≡ 0
    → (m.timers t).once ≡ false
    → IsAdded t (touch t (again_of now m t) m) m'
    → IsEnded now t m (touch t (record (m'.timers t) { thread = none }) m')
reinserted-IsEnded now t m m' out repeat a =
    let start = touch t (again_of now m t) m in
    let once : (u : ℕ) → (m'.timers u).once ≡ (start.timers u).once =
      added-same (λ x. x.once) t start m' (λ x. refl) (λ x. refl) a in
    let canceled : (u : ℕ) → (m'.timers u).canceled ≡ (start.timers u).canceled =
      added-same (λ x. x.canceled) t start m' (λ x. refl) (λ x. refl) a in
    let timeout : (u : ℕ) → (m'.timers u).timeout ≡ (start.timers u).timeout =
      added-same (λ x. x.timeout) t start m' (λ x. refl) (λ x. refl) a in
    let l : IsLikely m t (again_of now m t) = record {
      index = refl;
      expired = λ p. absurd (omega (arith, p, out));
      owner = λ p. refl;
      self = λ p. refl;
    } in
    let l' : IsLikely m' t (record (m'.timers t) { thread = none }) = record {
      index = refl;
      expired = λ p. refl;
      owner = λ p. refl;
      self = λ p. refl;
    } in
    record {
      valid = touch-IsValid t _ m' l' a.valid;
      others = λ u differ.
          queued-touch t _ m' l' u ∙ a.members u ∙ rw differ refl ∙ queued-touch t _ m l u;
      expired = λ u differ. ground (arith, a.expired u);
      again = λ e. (ground (arith, a.expired t), repeat);
      once = λ u. ground (arith, once u);
      timeout = λ u. ground (arith, timeout u);
      canceled = λ u. ground (arith, canceled u);
      kept = λ u differ absent.
          ground (arith, a.members u, queued-touch t _ m l u, a.valid.tight u, differ, absent);
      owner = λ u differ. ground (arith, ap (λ x. x.owner) (a.others u differ), differ);
      policy = a.policy;
    }

pub round_end-IsEnded :
    (now t : ℕ) (ok : Bool) (m : TimerMgr)
    → IsValid m
    → (m.timers t).index ≡ 0
    → (m.timers t).owner ≡ none
    → (m' : TimerMgr) × (round_end now t ok m ≡ some m') × IsEnded now t m m'
round_end-IsEnded now t ok m v out free = elim (Bool-cases (repeats ok (m.timers t))) [
  | inr over ↦
      (drop_callback t m, round_end-drop now t ok m over, drop_callback-IsEnded now t m v out)
  | inl again ↦
      let l : IsLikely m t (again_of now m t) = record {
        index = refl;
        expired = λ p. absurd (omega (arith, p, out));
        owner = λ p. refl;
        self = λ p. refl;
      } in
      let one_more : (m.timers t).once ≡ false = ground arith in
      let start = touch t (again_of now m t) m in
      let (m', done, a) =
        insert-IsAdded t start (touch-IsValid t (again_of now m t) m l v) (rw (==_refl t) free)
          (rw (==_refl t) out) in
      (
        touch t (record (m'.timers t) { thread = none }) m',
        round_end-insert now t ok m m' again done,
        reinserted-IsEnded now t m m' out one_more a,
      )
]
