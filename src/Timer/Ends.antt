-- ===== src/Timer/Ends.antt =====
-- That Schedule of src/util/Timer.cpp ends, and when.
use hwnet.Prelude.{
  ℕ, zero, suc, ◌<◌, ◌≡◌, refl, sym, ap, ◌∙◌, Bool, true, false, Option, none, some, ◌>>=◌, ◌==◌,
  if◌then◌else◌, arith, Bool-cases, inl, inr, ==-≡,
}
use hwnet.Timer.{TimerMgr}
use hwnet.Timer.View.{queued}
use hwnet.Timer.Schedule.{is_idle, Round, stops, fires, round_end, schedule}
use hwnet.Timer.Round.{IsFired, IsRound, nobody_due, one_due, round_begin-IsRound}
use hwnet.Timer.Finish.{IsEnded, round_end-IsEnded}
use hwnet.Timer.Due.{
  fired-same, fired-out, fired-later, fired-due, due, due_count, due_count-lt, IsReady, IsTame,
}

fired-IsReady :
    (thread now t n : ℕ) (m m' : TimerMgr) → IsReady n m → IsFired thread now t m m' → IsReady n m'
fired-IsReady thread now t n m m' r f = record {
  valid = f.valid;
  policy = f.policy ∙ r.policy;
  known = λ u e. r.known u (ground (arith, f.members u, e));
  positive = λ u e.
      let once = fired-same thread now t m m' f (λ x. x.once) (λ x. refl) (λ x. refl) u in
      let timeout = fired-same thread now t m m' f (λ x. x.timeout) (λ x. refl) (λ x. refl) u in
      omega (arith, timeout, r.positive u (sym once ∙ e));
}

module _ (now t n : ℕ) (m m' : TimerMgr) (r : IsReady n m) (less : t < n)
    (d : IsEnded now t m m') where
  queued-ended : (u : ℕ) → queued m' u ≡ true → (t == u) ≡ false → queued m u ≡ true
  queued-ended u e differ = sym (d.others u differ) ∙ e

  ended-IsReady : IsReady n m'
  ended-IsReady = record {
    valid = d.valid;
    policy = d.policy ∙ r.policy;
    known = λ u e. elim (Bool-cases (t == u)) [
      | inl same ↦ ground (arith, same, less)
      | inr differ ↦ r.known u (queued-ended u e differ)
    ];
    positive = λ u e. omega (arith, d.timeout u, r.positive u (sym (d.once u) ∙ e));
  }

  ended-due : due now m' t ≡ false
  ended-due = elim (Bool-cases (queued m' t)) [
    | inr out ↦ rw out refl
    | inl again ↦
        let (expired, repeats) = d.again again in
        let pos = r.positive t repeats in
        let late : now < (m'.timers t).expired = ground (arith, expired, r.policy, pos) in
        ground (arith, late)
  ]

  ended-later : (u : ℕ) → due now m' u ≡ true → due now m u ≡ true
  ended-later u e = elim (Bool-cases (t == u)) [
    | inl same ↦
        let gone : due now m' u ≡ false = ap (due now m') (sym (==-≡ same)) ∙ ended-due in
        ground (arith, gone, e)
    | inr differ ↦ ground (arith, d.others u differ, d.expired u differ)
  ]

-- A callback, or none if the timer was canceled, leaves what the loop needs.
maybe-run :
    (run : ℕ → TimerMgr → TimerMgr) (n now t : ℕ) (ok : Bool) (m : TimerMgr)
    → IsTame n now run
    → IsReady n m
    → (m.timers t).index ≡ 0
    → (m.timers t).owner ≡ none
    → IsReady n (if ok then run t m else m)
      × (((if ok then run t m else m).timers t).index ≡ 0)
      × (((if ok then run t m else m).timers t).owner ≡ none)
      × ((u : ℕ) → due now (if ok then run t m else m) u ≡ true → due now m u ≡ true)
maybe-run run n now t true m tame r out free =
    (tame.ready t m r, tame.out t m r out, tame.free t m r free, tame.later t m r)
maybe-run run n now t false m tame r out free = (r, out, free, λ u e. e)

-- The heap after Schedule: it waits for a time that is still to come.
abbrev pub IsOver : ℕ → ℕ → Option TimerMgr → Type 0
IsOver n now r =
    (m' : TimerMgr) × (r ≡ some m')
    × IsReady n m'
    × ((u : ℕ) → queued m' u ≡ true → now < (m'.timers u).expired)

-- The rest of a round, where the loop goes on well from any heap with fewer timers due.
round-IsOver :
    (run : ℕ → TimerMgr → TimerMgr) (k thread now n : ℕ) (m : TimerMgr)
    → IsTame n now run
    → IsReady n m
    → ((w : TimerMgr)
        → IsReady n w
        → due_count n now w < due_count n now m
        → IsOver n now (schedule run k thread now w))
    → {round : Round} {m' : TimerMgr} → IsRound thread now m round m'
    → IsOver n now (elim round [
      | stops ↦ some m'
      | fires t ok ↦
          round_end now t ok (if ok then run t m' else m') >>= λ m''. schedule run k thread now m''
    ])
round-IsOver run k thread now n m tame r again (nobody_due late) = (m, refl, r, late)
round-IsOver run k thread now n m tame r again (one_due t m' f) =
    let (out, free) = fired-out thread now t m m' f in
    let ok = is_idle (m.timers t) in
    let (r', out', free', no_later) =
      maybe-run run n now t ok m' tame (fired-IsReady thread now t n m m' r f) out free in
    let ran = if ok then run t m' else m' in
    let (m'', ends, d) = round_end-IsEnded now t ok ran r'.valid out' free' in
    let less = r.known t f.there in
    let sooner =
      due_count-lt n now t m m''
        (λ u e.
          fired-later thread now t m m' f u
            (no_later u (ended-later now t n ran m'' r' less d u e)))
        less (fired-due thread now t m m' f) (ended-due now t n ran m'' r' less d) in
    rw ends (again m'' (ended-IsReady now t n ran m'' r' less d) sooner)

-- Schedule ends after no more rounds than timers were due, where the heap is in order, the first policy
-- holds and no timer repeats with a timeout of 0, and each callback, run on such a heap, leaves such a
-- heap, adds no timer that is due, and does not add the timer that runs: then no timer that waits is
-- due.
pub schedule-IsOver :
    (run : ℕ → TimerMgr → TimerMgr) (k thread now n : ℕ) (m : TimerMgr)
    → IsTame n now run
    → IsReady n m
    → due_count n now m < k
    → IsOver n now (schedule run k thread now m)
unfolding schedule
schedule-IsOver run zero thread now n m tame r fuel = absurd (omega (arith, fuel))
schedule-IsOver run (suc k) thread now n m tame r fuel =
    let (round, m', begins, what) = round_begin-IsRound thread now m r.valid in
    rw begins (
      round-IsOver run k thread now n m tame r
        (λ w ready sooner.
          schedule-IsOver run k thread now n w tame ready (omega (arith, sooner, fuel)))
        what)
