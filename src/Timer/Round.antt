-- ===== src/Timer/Round.antt =====
-- How a round of Schedule of src/util/Timer.cpp begins.
use hwnet.Prelude.{
  ℕ, ◌≤◌, ◌<◌, ◌≡◌, refl, ap, ◌∙◌, true, false, some, ltb, ◌==◌, ◌&&◌, not, arith, Bool-cases, inl,
  inr, put-at, put-past, ==_refl,
}
use hwnet.Timer.{Timer, TimerMgr, top, pop}
use hwnet.Timer.View.{queued, strip, at}
use hwnet.Timer.Calls.{IsValid, IsTaken}
use hwnet.Timer.Pop.{pop-IsTaken, popped}
use hwnet.Timer.Schedule.{touch, enter, is_idle, Round, stops, fires, round_begin}
use hwnet.Timer.Touch.{IsLikely, touch-IsValid, queued-touch}

-- The timer `t` is taken off to be fired.
pub record IsFired (thread now t : ℕ) (m m' : TimerMgr) : Type 0 where
  pub valid : IsValid m'
  pub there : queued m t ≡ true
  pub members : (u : ℕ) → queued m' u ≡ (not (t == u) && queued m u)
  pub due : (m.timers t).expired ≤ now
  pub first : (u : ℕ) → queued m u ≡ true → (m.timers t).expired ≤ (m.timers u).expired
  pub others : (u : ℕ) → (t == u) ≡ false → strip (m'.timers u) ≡ strip (m.timers u)
  pub self : strip (m'.timers t) ≡ popped (enter thread (m.timers t))
  pub named : m'.address ≡ m.address
  pub policy : m'.compensate ≡ m.compensate

-- How a round begins, by what it does.
pub data IsRound (thread now : ℕ) (m : TimerMgr) : Round → TimerMgr → Type 0 where
  nobody_due :
      ((u : ℕ) → queued m u ≡ true → now < (m.timers u).expired) → IsRound thread now m stops m
  one_due :
      (t : ℕ) (m' : TimerMgr)
      → IsFired thread now t m m'
      → IsRound thread now m (fires t (is_idle (m.timers t))) m'

enter-IsLikely : (thread t : ℕ) (m : TimerMgr) → IsLikely m t (enter thread (m.timers t))
enter-IsLikely thread t m = record {
  index = refl;
  expired = λ p. refl;
  owner = λ p. refl;
  self = λ p. refl;
}

at-touch : (t : ℕ) (x : Timer) (m : TimerMgr) → at (touch t x m) 1 ≡ at m 1
unfolding at
at-touch t x m = refl

root-queued : (m : TimerMgr) → IsValid m → 0 < m.size → queued m (at m 1) ≡ true
root-queued m v pos = ground (arith, v.indexed.indices 1 (omega arith) (omega (arith, pos)))

module _ (thread now : ℕ) (m : TimerMgr) (v : IsValid m) (pos : 0 < m.size) where
  -- What the round works on.
  entered : TimerMgr
  entered = touch (at m 1) (enter thread (m.timers (at m 1))) m

  entered-IsValid : IsValid entered
  unfolding entered
  entered-IsValid =
      touch-IsValid (at m 1) (enter thread (m.timers (at m 1))) m (enter-IsLikely thread (at m 1) m)
        v

  round_begin-fires :
      (m' : TimerMgr)
      → ltb now (m.timers (at m 1)).expired ≡ false
      → top m ≡ some (at m 1)
      → pop entered ≡ some m'
      → round_begin thread now m ≡ some (fires (at m 1) (is_idle (m.timers (at m 1))), m')
  unfolding round_begin entered
  round_begin-fires m' due root popped_off =
      let some_there : ltb 0 m.size ≡ true = ground (arith, pos) in
      rw (some_there, root, due, popped_off) refl

  round_begin-stops :
      ltb now (m.timers (at m 1)).expired ≡ true
      → top m ≡ some (at m 1)
      → round_begin thread now m ≡ some (stops, m)
  unfolding round_begin
  round_begin-stops later root =
      let some_there : ltb 0 m.size ≡ true = ground (arith, pos) in
      rw (some_there, root, later) refl

  at-entered : at entered 1 ≡ at m 1
  unfolding entered at
  at-entered = refl

  queued-entered : (u : ℕ) → queued entered u ≡ queued m u
  unfolding entered
  queued-entered u =
      queued-touch (at m 1) (enter thread (m.timers (at m 1))) m (enter-IsLikely thread (at m 1) m)
        u

  expired-entered : (u : ℕ) → (entered.timers u).expired ≡ (m.timers u).expired
  unfolding entered
  expired-entered u = ground arith

  others-entered : (u : ℕ) → (at m 1 == u) ≡ false → entered.timers u ≡ m.timers u
  unfolding entered
  others-entered u differ = put-past (at m 1) u _ m.timers differ

  self-entered : entered.timers (at m 1) ≡ enter thread (m.timers (at m 1))
  unfolding entered
  self-entered = put-at (at m 1) (at m 1) _ m.timers (==_refl (at m 1))

  entered-pop :
      (m' : TimerMgr) × (pop entered ≡ some m')
      × IsTaken (at m 1) entered m'
      × (strip (m'.timers (at m 1)) ≡ popped (entered.timers (at m 1)))
      × ((u : ℕ)
          → queued entered u ≡ true
          → (entered.timers (at m 1)).expired ≤ (entered.timers u).expired)
  unfolding entered at
  entered-pop =
      let (m', root, off, taken, own, first) = pop-IsTaken entered entered-IsValid pos in
      (m', off, taken, own, first)

  named-entered : entered.address ≡ m.address
  unfolding entered
  named-entered = refl

  policy-entered : entered.compensate ≡ m.compensate
  unfolding entered
  policy-entered = refl

  fired :
      ltb now (m.timers (at m 1)).expired ≡ false
      → (m' : TimerMgr) × (pop entered ≡ some m') × IsFired thread now (at m 1) m m'
  fired due =
      let (m', off, taken, own, first) = entered-pop in
      (
        m',
        off,
        record {
          valid = taken.valid;
          there = root-queued m v pos;
          members = λ u. taken.members u ∙ ap (λ b. not (at m 1 == u) && b) (queued-entered u);
          due = ground arith;
          first = λ u e.
              omega (
                arith,
                first u (queued-entered u ∙ e),
                expired-entered u,
                expired-entered (at m 1),
              );
          others = λ u differ. taken.others u differ ∙ ap strip (others-entered u differ);
          self = own ∙ ap popped self-entered;
          named = taken.named ∙ named-entered;
          policy = taken.policy ∙ policy-entered;
        },
      )

round_begin-empty :
    (thread now : ℕ) (m : TimerMgr) → m.size ≡ 0 → round_begin thread now m ≡ some (stops, m)
unfolding round_begin
round_begin-empty thread now m e = let t : ltb 0 m.size ≡ false = ground (arith, e) in rw t refl

-- A round of Schedule on a heap in order always has a result: the loop ends, and no timer that waits
-- is due; or a timer is taken off that is due and no later than any that waits, the others are left,
-- and its callback is to be made if it was neither canceled nor in a callback.
pub round_begin-IsRound :
    (thread now : ℕ) (m : TimerMgr)
    → IsValid m
    → (r : Round) × (m' : TimerMgr) × (round_begin thread now m ≡ some (r, m'))
      × IsRound thread now m r m'
round_begin-IsRound thread now m v = elim (Bool-cases (ltb 0 m.size)) [
  | inr nothing ↦ (
    stops,
    m,
    round_begin-empty thread now m (ground arith),
    nobody_due λ u e. absurd (ground (arith, nothing, v.tight u)),
  )
  | inl several ↦
      let pos : 0 < m.size = ground arith in
      let (w, root, off, taken, own, first) = pop-IsTaken m v pos in
      elim (Bool-cases (ltb now (m.timers (at m 1)).expired)) [
        | inl later ↦ (
          stops,
          m,
          round_begin-stops thread now m v pos later root,
          nobody_due λ u e. ground (arith, first u e),
        )
        | inr due ↦
            let (m', popped_off, f) = fired thread now m v pos due in
            (
              fires (at m 1) (is_idle (m.timers (at m 1))),
              m',
              round_begin-fires thread now m v pos m' due root popped_off,
              one_due (at m 1) m' f,
            )
      ]
]
