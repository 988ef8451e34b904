-- ===== src/Timer/Adding.antt =====
-- Callbacks for Schedule of src/util/Timer.cpp that add a timer by addTimerOnce.
use hwnet.Prelude.{
  ℕ, ◌<◌, ◌≡◌, refl, sym, ap, ◌∙◌, Bool, true, false, not, ◌&&◌, Option, none, some, ◌==◌, ==_refl,
  if◌then◌else◌, arith, Bool-cases, inl, inr, put-past, put-at, ==-≡,
}
use hwnet.Timer.{Timer, TimerMgr, new_timer, insert}
use hwnet.Timer.View.{queued}
use hwnet.Timer.Calls.{IsAdded, added-same}
use hwnet.Timer.Insert.{insert-IsAdded}
use hwnet.Timer.Schedule.{touch}
use hwnet.Timer.Touch.{IsLikely, touch-IsValid}
use hwnet.Timer.Due.{due, IsReady, IsTame}

inserted : TimerMgr → Option (Bool × TimerMgr) → TimerMgr
inserted m none = m
inserted m (some (ok, m')) = m'

-- The callback of a timer other than `e` adds a new timer `e`, unless it waits already.
unfoldable pub adds_timer : ℕ → Timer → ℕ → TimerMgr → TimerMgr
unfolding inserted
adds_timer e x t m =
    if (m.timers e).index == 0 && not (e == t) then inserted m (insert e (touch e x m)) else m

-- What IsTame asks of one call of a callback, which makes `w` of `m`.
record IsTameOn (n now t : ℕ) (m w : TimerMgr) : Type 0 where
  ready : IsReady n w
  out : (m.timers t).index ≡ 0 → (w.timers t).index ≡ 0
  free : (m.timers t).owner ≡ none → (w.timers t).owner ≡ none
  later : (u : ℕ) → due now w u ≡ true → due now m u ≡ true

module _ (e n now expired timeout : ℕ) (known : e < n) (late : now < expired) (m : TimerMgr)
    (r : IsReady n m) (idle : (m.timers e).index ≡ 0) where
  abbrev x : Timer
  x = new_timer expired timeout true

  new-IsLikely : IsLikely m e x
  new-IsLikely = record {
    index = sym idle;
    expired = λ p. absurd (omega (arith, p, idle));
    owner = λ p. absurd (omega (arith, p, idle));
    self = λ p. absurd (omega (arith, p, idle));
  }

  here : (touch e x m).timers e ≡ x
  here = put-at e e x m.timers (==_refl e)

  touched : (u : ℕ) → (e == u) ≡ false → (touch e x m).timers u ≡ m.timers u
  touched u p = put-past e u x m.timers p

  is_added :
      (m' : TimerMgr) × (insert e (touch e x m) ≡ some (true, m')) × IsAdded e (touch e x m) m'
  is_added =
      insert-IsAdded e (touch e x m) (touch-IsValid e x m new-IsLikely r.valid)
        (ap (λ y. y.owner) here) (ap (λ y. y.index) here)

  module _ (m' : TimerMgr) (a : IsAdded e (touch e x m) m') where
    queued-past : (u : ℕ) → (e == u) ≡ false → queued m' u ≡ queued m u
    queued-past u p = a.members u ∙ rw p refl

    added-IsReady : IsReady n m'
    added-IsReady = record {
      valid = a.valid;
      policy = a.policy ∙ r.policy;
      known = λ u q. elim (Bool-cases (e == u)) [
        | inl same ↦ ground (arith, same, known)
        | inr p ↦ r.known u (sym (queued-past u p) ∙ q)
      ];
      positive = λ u q.
          let once = added-same (λ y. y.once) e _ m' (λ y. refl) (λ y. refl) a u in
          let timeout' = added-same (λ y. y.timeout) e _ m' (λ y. refl) (λ y. refl) a u in
          elim (Bool-cases (e == u)) [
            | inl same ↦
                let at_e = ap (λ k. ((touch e x m).timers k).once) (==-≡ same) in
                absurd (ground (arith, q, once, at_e, ap (λ y. y.once) here))
            | inr p ↦
                let repeats = sym (ap (λ y. y.once) (touched u p)) ∙ sym once ∙ q in
                omega (arith, timeout', ap (λ y. y.timeout) (touched u p), r.positive u repeats)
          ];
    }

    added-IsTameOn : (t : ℕ) → (e == t) ≡ false → IsTameOn n now t m m'
    added-IsTameOn t p = record {
      ready = added-IsReady;
      out = λ q. ground (arith, q, queued-past t p, a.valid.tight t);
      free = λ q. ap (λ y. y.owner) (a.others t p) ∙ ap (λ y. y.owner) (touched t p) ∙ q;
      later = λ u q. elim (Bool-cases (e == u)) [
        | inl same ↦
            let at_e = ap (λ k. ((touch e x m).timers k).expired) (==-≡ same) in
            absurd (ground (arith, q, a.expired u, at_e, ap (λ y. y.expired) here, late))
        | inr p' ↦
            ground (arith, q, queued-past u p', a.expired u, ap (λ y. y.expired) (touched u p'))
      ];
    }

adds_timer-IsTameOn :
    (e n now expired timeout t : ℕ) (m : TimerMgr)
    → e < n
    → now < expired
    → IsReady n m
    → IsTameOn n now t m (adds_timer e (new_timer expired timeout true) t m)
unfolding adds_timer inserted
adds_timer-IsTameOn e n now expired timeout t m known late r =
    elim (Bool-cases ((m.timers e).index == 0 && not (e == t))) [
      | inr nothing ↦
          rw (nothing) (record { ready = r; out = λ q. q; free = λ q. q; later = λ u q. q })
      | inl adds ↦
          let idle : (m.timers e).index ≡ 0 = ground (arith, adds) in
          let apart : (e == t) ≡ false = ground (arith, adds) in
          let (m', done, a) = is_added e n now expired timeout known late m r idle in
          rw (adds, done) (added-IsTameOn e n now expired timeout known late m r idle m' a t apart)
    ]

-- Such callbacks are tame, where the timer that they add is not due.
pub adds_timer-IsTame :
    (e n now expired timeout : ℕ)
    → e < n
    → now < expired
    → IsTame n now (adds_timer e (new_timer expired timeout true))
adds_timer-IsTame e n now expired timeout known late =
    let on = λ (t : ℕ) (m : TimerMgr) (r : IsReady n m).
      adds_timer-IsTameOn e n now expired timeout t m known late r in
    record {
      ready = λ t m r. (on t m r).ready;
      out = λ t m r. (on t m r).out;
      free = λ t m r. (on t m r).free;
      later = λ t m r. (on t m r).later;
    }
