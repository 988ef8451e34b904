-- ===== src/Timer/Routine/Sleep.antt =====
-- How long the thread of TimerRoutine of src/util/Timer.cpp sleeps.
use mathlib.Core.Option.{some-injective}
use hwnet.Prelude.{
  if-cases, ℕ, ◌+◌, ◌-◌, ◌≤◌, ◌≡◌, refl, sym, ◌∙◌, subst, Bool, true, false, Option, none, some,
  ltb, ◌==◌, ◌&&◌, arith, Bool-cases, inl, inr, ==_refl,
}
use hwnet.Timer.{TimerMgr, new_timer, insert}
use hwnet.Timer.View.{queued, at}
use hwnet.Timer.Calls.{IsValid, IsAdded, IsTaken}
use hwnet.Timer.Insert.{insert-IsAdded}
use hwnet.Timer.Pop.{pop-IsTaken}
use hwnet.Timer.Schedule.{touch}
use hwnet.Timer.Touch.{IsLikely, touch-IsValid, queued-touch}
use hwnet.Timer.Routine.{
  TimerRoutine, forever, fall_asleep, leave, wait_begin, wait_end, notify, add_timer, stop,
}

-- The timers may be changed by Schedule while the thread does not wait, and by cancel at any time.
-- addTimer reads the clock no earlier than the thread did when it called wait.
pub data Step : TimerRoutine → TimerRoutine → Type 0 where
  waits :
      (r r' : TimerRoutine) (now : ℕ) → r.waitting ≡ false → wait_begin now r ≡ some r' → Step r r'
  wakes : (r : TimerRoutine) → Step r (wait_end r)
  schedules :
      (r : TimerRoutine) (m : TimerMgr)
      → r.waitting ≡ false
      → IsValid m
      → Step r (record r { mgr = m })
  removes :
      (r : TimerRoutine) (t : ℕ) (m : TimerMgr) → IsTaken t r.mgr m → Step r (record r { mgr = m })
  adds :
      (r r' : TimerRoutine) (now timeout t : ℕ) (once : Bool)
      → r.since ≤ now
      → (r.mgr.timers t).index ≡ 0
      → add_timer now timeout once t r ≡ some r'
      → Step r r'
  stops : (r : TimerRoutine) → Step r (stop r)

pub data Reach (r : TimerRoutine) : TimerRoutine → Type 0 where
  here : Reach r r
  next : {q s : TimerRoutine} → Reach r q → Step q s → Reach r s

-- While the thread sleeps, no timer that waits is due before the sleep ends.
pub record IsPunctual (r : TimerRoutine) : Type 0 where
  pub valid : IsValid r.mgr
  pub waiting : (d : ℕ) → r.asleep ≡ some d → (r.waitting ≡ true) × (d ≡ r.since + r.wait_time)
  pub early :
      (d : ℕ) → r.asleep ≡ some d → (u : ℕ) → queued r.mgr u ≡ true → d ≤ (r.mgr.timers u).expired

asleep-IsPunctual :
    (now time : ℕ) (r : TimerRoutine)
    → IsValid r.mgr
    → ((u : ℕ) → queued r.mgr u ≡ true → now + time ≤ (r.mgr.timers u).expired)
    → IsPunctual (fall_asleep now time r)
asleep-IsPunctual now time r v h = record {
  valid = v;
  waiting = λ d e. (refl, sym (some-injective (now + time) d e));
  early = λ d e u q. omega (arith, some-injective (now + time) d e, h u q);
}

awake-IsPunctual : (r : TimerRoutine) → IsValid r.mgr → r.asleep ≡ none → IsPunctual r
awake-IsPunctual r v awake = record {
  valid = v;
  waiting = λ d e. absurd (ground (arith, awake, e));
  early = λ d e u q. absurd (ground (arith, awake, e));
}

-- What wait does: the thread sleeps until the earliest timer is due, or not at all.
wait_begin-IsPunctual :
    (now : ℕ) (r : TimerRoutine)
    → IsValid r.mgr
    → (r' : TimerRoutine) × (wait_begin now r ≡ some r') × IsPunctual r'
unfolding wait_begin
wait_begin-IsPunctual now r v = elim (Bool-cases (r.mgr.size == 0)) [
  | inl empty ↦ (
    fall_asleep now forever r,
    rw empty refl,
    asleep-IsPunctual now forever r v λ u q. absurd (ground (arith, empty, v.tight u, q)),
  )
  | inr several ↦
      let (w, root, off, taken, own, first) = pop-IsTaken r.mgr v (ground arith) in
      elim (Bool-cases (ltb now (r.mgr.timers (at r.mgr 1)).expired)) [
        | inl later ↦ (
          fall_asleep now ((r.mgr.timers (at r.mgr 1)).expired - now) r,
          rw (several, root, later) refl,
          asleep-IsPunctual now _ r v λ u q. ground (arith, later, first u q),
        )
        | inr due ↦ (leave r, rw (several, root, due) refl, awake-IsPunctual (leave r) v refl)
      ]
]

module _ (now timeout t : ℕ) (once : Bool) (r : TimerRoutine) (h : IsPunctual r)
    (out : (r.mgr.timers t).index ≡ 0) where
  abbrev created : TimerMgr
  created = touch t (new_timer (now + timeout) timeout once) r.mgr

  created-IsLikely : IsLikely r.mgr t (new_timer (now + timeout) timeout once)
  created-IsLikely = record {
    index = sym out;
    expired = λ p. absurd (omega (arith, p, out));
    owner = λ p. absurd (omega (arith, p, out));
    self = λ p. absurd (omega (arith, p, out));
  }

  added : (m : TimerMgr) × (insert t created ≡ some (true, m)) × IsAdded t created m
  added =
      insert-IsAdded t created (touch-IsValid t _ r.mgr created-IsLikely h.valid)
        (rw (==_refl t) refl) (rw (==_refl t) refl)

  -- Where addTimer does not notify, the new timer is due no sooner than the sleep ends.
  added-IsPunctual :
      (m : TimerMgr)
      → IsAdded t created m
      → r.since ≤ now
      → (r.waitting && ltb timeout r.wait_time) ≡ false
      → IsPunctual (record r { mgr = m })
  added-IsPunctual m a after quiet = record {
    valid = a.valid;
    waiting = h.waiting;
    early = λ d e u q.
        let (waiting, ends) = h.waiting d e in
        elim (Bool-cases (t == u)) [
          | inl same ↦ ground (arith, a.expired u, same, waiting, ends, quiet, after)
          | inr differ ↦
              let queued_before : queued r.mgr u ≡ true =
                ground (arith, a.members u, queued-touch t _ r.mgr created-IsLikely u, differ, q) in
              ground (arith, a.expired u, differ, h.early d e u queued_before)
        ];
  }

  notified-IsPunctual :
      (m : TimerMgr)
      → IsAdded t created m
      → IsPunctual (notify (record r { mgr = m; wait_time = timeout }))
  notified-IsPunctual m a = awake-IsPunctual _ a.valid refl

  add_timer-IsPunctual :
      r.since ≤ now
      → (r' : TimerRoutine) × (add_timer now timeout once t r ≡ some r') × IsPunctual r'
  unfolding add_timer
  add_timer-IsPunctual after =
      let (m, done, a) = added in
      elim (Bool-cases (r.waitting && ltb timeout r.wait_time)) [
        | inl sooner ↦ (
          notify (record r { mgr = m; wait_time = timeout }),
          rw (done, sooner) refl,
          notified-IsPunctual m a,
        )
        | inr quiet ↦
            (record r { mgr = m }, rw (done, quiet) refl, added-IsPunctual m a after quiet)
      ]

stopped-IsPunctual : (r : TimerRoutine) → IsPunctual r → IsPunctual (record r { stoped = true })
stopped-IsPunctual r h = record { valid = h.valid; waiting = h.waiting; early = h.early }

stop-IsPunctual : (r : TimerRoutine) → IsPunctual r → IsPunctual (stop r)
unfolding stop
stop-IsPunctual r h =
    if-cases IsPunctual r.stoped _ _ (λ e. h)
      λ e.
        if-cases IsPunctual r.waitting _ _ (λ w. awake-IsPunctual _ h.valid refl)
          λ w. stopped-IsPunctual r h

same-result : {A : Type 0} {r : Option A} {a b : A} → r ≡ some a → r ≡ some b → a ≡ b
same-result {A} {r} {a} {b} p q = some-injective a b (sym p ∙ q)

Step-IsPunctual : {r r' : TimerRoutine} → Step r r' → IsPunctual r → IsPunctual r'
unfolding wait_end
Step-IsPunctual (waits r r' now idle e) h =
    let (w, done, punctual) = wait_begin-IsPunctual now r h.valid in
    subst IsPunctual (same-result done e) punctual
Step-IsPunctual (wakes r) h = awake-IsPunctual (leave r) h.valid refl
Step-IsPunctual (schedules r m idle v) h = record {
  valid = v;
  waiting = h.waiting;
  early = λ d e. absurd (ground (arith, (h.waiting d e).0, idle));
}
Step-IsPunctual (removes r t m a) h = record {
  valid = a.valid;
  waiting = h.waiting;
  early = λ d e u q. ground (arith, a.expired u, h.early d e u, a.members u, q);
}
Step-IsPunctual (adds r r' now timeout t once after out e) h =
    let (w, done, punctual) = add_timer-IsPunctual now timeout t once r h out after in
    subst IsPunctual (same-result done e) punctual
Step-IsPunctual (stops r) h = stop-IsPunctual r h

-- However addTimer, cancel, Schedule, Stop and the waits of the thread interleave, where the thread
-- is awake at first and addTimer reads the clock no earlier than the thread did: while the thread
-- sleeps, no timer that waits is due before the sleep ends.
pub Reach-IsPunctual :
    {r r' : TimerRoutine} → IsValid r.mgr → r.asleep ≡ none → Reach r r' → IsPunctual r'
Reach-IsPunctual v awake here = awake-IsPunctual _ v awake
Reach-IsPunctual v awake (next q x) = Step-IsPunctual x (Reach-IsPunctual v awake q)

-- Stop notifies only a thread that waits. If it comes after the thread has looked at `stoped` and
-- before it waits, and no timer is left, the thread falls asleep for 0xFFFFFFFF milliseconds, and
-- Stop waits for it to end.
stop-missed :
    (now : ℕ) (r : TimerRoutine)
    → r.stoped ≡ false
    → r.waitting ≡ false
    → r.mgr.size ≡ 0
    → (r' : TimerRoutine) × (wait_begin now (stop r) ≡ some r')
      × (r'.stoped ≡ true)
      × (r'.asleep ≡ some (now + forever))
unfolding stop wait_begin
stop-missed now r going idle empty =
    (fall_asleep now forever (record r { stoped = true }), rw (going, idle, empty) refl, refl, refl)
