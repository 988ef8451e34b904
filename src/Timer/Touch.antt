-- ===== src/Timer/Touch.antt =====
-- Fields of a timer of src/util/Timer.h that the heap does not depend on.
use hwnet.Prelude.{ℕ, ◌≤◌, ◌<◌, ◌/◌, ◌≡◌, refl, ap, ◌∙◌, ◌==◌, arith, Bool-cases, inl, inr, ==-≡}
use hwnet.Timer.{Timer, TimerMgr}
use hwnet.Timer.View.{IsIndexed, at, queued}
use hwnet.Timer.Calls.{IsValid}
use hwnet.Timer.Schedule.{touch}

-- What a timer may become without a change of the heap: one that is in it keeps its time, its owner
-- and itself.
pub record IsLikely (m : TimerMgr) (t : ℕ) (x : Timer) : Type 0 where
  pub index : x.index ≡ (m.timers t).index
  pub expired : 0 < (m.timers t).index → x.expired ≡ (m.timers t).expired
  pub owner : 0 < (m.timers t).index → x.owner ≡ (m.timers t).owner
  pub self : 0 < (m.timers t).index → x.self ≡ (m.timers t).self

module _ (t : ℕ) (x : Timer) (m : TimerMgr) (l : IsLikely m t x) where
  index-touch : (u : ℕ) → ((touch t x m).timers u).index ≡ (m.timers u).index
  index-touch u = elim (Bool-cases (t == u)) [
    | inl e ↦ rw e (l.index ∙ ap (λ k. (m.timers k).index) (==-≡ e))
    | inr e ↦ rw e refl
  ]

  expired-touch :
      (u : ℕ) → 0 < (m.timers u).index → ((touch t x m).timers u).expired ≡ (m.timers u).expired
  expired-touch u p = elim (Bool-cases (t == u)) [
    | inl e ↦
        let same = ==-≡ e in rw e (l.expired (rw same p) ∙ ap (λ k. (m.timers k).expired) same)
    | inr e ↦ rw e refl
  ]

  held-touch :
      (u : ℕ)
      → 0 < (m.timers u).index
      → (((touch t x m).timers u).owner ≡ (m.timers u).owner)
        × (((touch t x m).timers u).self ≡ (m.timers u).self)
  held-touch u p = elim (Bool-cases (t == u)) [
    | inl e ↦
        let same = ==-≡ e in
        rw e (
          l.owner (rw same p) ∙ ap (λ k. (m.timers k).owner) same,
          l.self (rw same p) ∙ ap (λ k. (m.timers k).self) same,
        )
    | inr e ↦ rw e (refl, refl)
  ]

  pub queued-touch : (u : ℕ) → queued (touch t x m) u ≡ queued m u
  queued-touch u = ground (arith, index-touch u)

  touch-IsIndexed : IsIndexed m → IsIndexed (touch t x m)
  unfolding at
  touch-IsIndexed h = record {
    filled = h.filled;
    indices = λ c p q. index-touch (at m c) ∙ h.indices c p q;
    owned = λ u p q.
        let same = index-touch u in
        ap (at m) same ∙ h.owned u (omega (arith, p, same)) (omega (arith, q, same));
  }

  pub touch-IsValid : IsValid m → IsValid (touch t x m)
  unfolding at
  touch-IsValid v = record {
    indexed = touch-IsIndexed v.indexed;
    ordered = λ c p q.
        let inside : (i : ℕ) → 0 < i → i ≤ m.size → 0 < (m.timers (at m i)).index =
          λ i r s. omega (arith, v.indexed.indices i r s) in
        omega (
          arith,
          v.ordered c p q,
          expired-touch (at m c) (inside c (omega (arith, p)) q),
          expired-touch (at m (c / 2)) (inside (c / 2) (omega (arith, p)) (omega (arith, q))),
        );
    tight = λ u. omega (arith, index-touch u, v.tight u);
    held = λ u p.
        let low : 0 < (m.timers u).index = omega (arith, p, index-touch u) in
        let (owner, self) = held-touch u low in
        let (owns, alive) = v.held u low in (owner ∙ owns, self ∙ alive);
    roomy = v.roomy;
  }
