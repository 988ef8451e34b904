-- ===== src/Timer/Pop.antt =====
-- top and pop of src/util/Timer.h.
use hwnet.Prelude.{
  ==_refl, ◌*◌, ℕ, zero, suc, ◌+◌, ◌-◌, ◌/◌, ◌≤◌, ◌<◌, ◌≡◌, refl, sym, ap, ◌∙◌, subst, true, false,
  none, some, ltb, leb, ◌==◌, ◌&&◌, not, if◌then◌else◌, arith, Bool-cases, inl, inr,
}
use hwnet.Timer.{Timer, TimerMgr, earlier, down, down_loop, top, pop, cut}
use hwnet.Timer.View.{IsIndexed, IsRearranged-refl, at, key, queued, strip}
use hwnet.Timer.Up.{IsOrdered, Restores}
use hwnet.Timer.Down.{down-Restores}
use hwnet.Timer.Tail.{shrunk, shrunk-IsIndexed, clear, key-clear, clear-IsIndexed, queued-clear}
use hwnet.Timer.Calls.{IsValid, IsTaken, rearranged-tight}
use hwnet.Timer.Gap.{IsLast, swap-IsLast, gone, queued-left, tight-left, gap-ChangeInv, taken}

cut-clear :
    (e : ℕ) (m : TimerMgr)
    → cut e m
      ≡ clear e
          (record (m.timers e) { index = 0; owner = none; self = false })
          (m.size - 1)
          (shrunk m)
unfolding cut clear
cut-clear e m = refl

-- What pop leaves of the timer itself, but for the index.
abbrev pub popped : Timer → Timer
popped x = record x { index = 0; owner = none; self = false }

-- The root is the earliest timer.
root_least_below :
    (k : ℕ) (m : TimerMgr) (i : ℕ) → IsOrdered m → i < k → 0 < i → i ≤ m.size → key m 1 ≤ key m i
root_least_below zero m i o f p q = absurd (omega (arith, f))
root_least_below (suc k) m i o f p q = ground (arith, o i, root_least_below k m (i / 2) o)

top-earliest :
    (m : TimerMgr) (t : ℕ)
    → IsValid m
    → queued m t ≡ true
    → (m.timers (at m 1)).expired ≤ (m.timers t).expired
top-earliest m t v e =
    let i = (m.timers t).index in
    let low : 0 < i = ground arith in
    let high : i ≤ m.size = ground arith in
    subst (λ u. (m.timers (at m 1)).expired ≤ (m.timers u).expired) (v.indexed.owned t low high)
      (root_least_below (suc i) m i v.ordered (omega arith) low high)

down-nothing : (m : TimerMgr) → m.size ≡ 0 → down 1 m ≡ some m
unfolding down down_loop earlier
down-nothing m e =
    let fuel : m.size + 1 ≡ suc m.size = omega arith in
    let left : leb (1 * 2) m.size ≡ false = ground (arith, e) in
    let right : leb (1 * 2 + 1) m.size ≡ false = ground (arith, e) in rw (fuel, left, right) refl

module _ (m m' : TimerMgr) (v : IsValid m) (pos : 0 < m.size) (l : IsLast 1 m m') where
  abbrev e : ℕ
  e = at m 1

  abbrev x : Timer
  x = record (m'.timers e) { index = 0; owner = none; self = false }

  out : queued (shrunk m') e ≡ false
  out = gone 1 m m' v l (omega arith) (omega (arith, pos))

  indexed : IsIndexed (cut e m')
  indexed = subst IsIndexed (sym (cut-clear e m')) (
      clear-IsIndexed e (m'.size - 1) x (shrunk m') (shrunk-IsIndexed m' l.arranged.indexed) out
        (omega arith) refl)

  key-cut : (c : ℕ) → 0 < c → c < m.size → key (cut e m') c ≡ key (shrunk m') c
  key-cut c p q =
      ap (λ w. key w c) (cut-clear e m')
      ∙ key-clear e (m'.size - 1) x (shrunk m') (shrunk-IsIndexed m' l.arranged.indexed) out
          (omega arith) c p (omega (arith, q, l.arranged.sized))

  size-cut : (cut e m').size ≡ m.size - 1
  unfolding cut
  size-cut = ap (λ n. n - 1) l.arranged.sized

  cut-Restores : Restores (cut e m') (down 1 (cut e m'))
  cut-Restores = elim (Bool-cases (m.size == 1)) [
    | inl single ↦
        let none_left : (cut e m').size ≡ 0 = ground (arith, size-cut, single) in
        (
          cut e m',
          down-nothing (cut e m') none_left,
          IsRearranged-refl (cut e m') indexed,
          λ c p q. absurd (omega (arith, p, q, none_left)),
        )
    | inr several ↦
        let more : 1 < m.size = ground (arith, pos, several) in
        let g = gap-ChangeInv 1 m m' v l (omega arith) (omega (arith, pos)) more in
        down-Restores 1 (cut e m') (record {
          indexed = indexed;
          low = omega arith;
          high = omega (arith, size-cut, more);
          edges = λ c p q r.
              ground (arith, size-cut, l.arranged.sized, key-cut c, key-cut (c / 2), g.edges c);
          bridged = λ c p q r t. absurd (omega (arith, t));
        })
  ]

  popped-cut : strip ((cut e m').timers e) ≡ popped (m.timers e)
  unfolding cut
  popped-cut = rw (==_refl e) (ap popped (l.arranged.strips e))

  index-cut : (t : ℕ) → ((cut e m').timers t).index ≡ (if e == t then 0 else (m'.timers t).index)
  unfolding cut
  index-cut t = ground arith

  named-cut : (cut e m').address ≡ m.address
  unfolding cut
  named-cut = l.arranged.named

  policy-cut : (cut e m').compensate ≡ m.compensate
  unfolding cut
  policy-cut = l.arranged.policy

  room-cut : (cut e m').room ≡ m.room
  unfolding cut
  room-cut = l.arranged.roomy

  tight-cut : (t : ℕ) → ((cut e m').timers t).index ≤ (cut e m').size
  tight-cut t =
      ground
        (arith, index-cut t, size-cut, tight-left 1 m m' v l (omega arith) (omega (arith, pos)) t)

  members-cut : (t : ℕ) → queued (cut e m') t ≡ (not (e == t) && queued m t)
  members-cut t =
      ap (λ w. queued w t) (cut-clear e m')
      ∙ queued-clear e (m'.size - 1) x (shrunk m') (shrunk-IsIndexed m' l.arranged.indexed) out
          (omega arith) t refl
      ∙ queued-left 1 m m' v l (omega arith) (omega (arith, pos)) t

  strip-cut : (t : ℕ) → (e == t) ≡ false → strip ((cut e m').timers t) ≡ strip (m'.timers t)
  unfolding cut
  strip-cut t differ = rw differ refl

  expired-cut : (t : ℕ) → ((cut e m').timers t).expired ≡ (m'.timers t).expired
  unfolding cut
  expired-cut t = ground arith

-- On a heap in order that is not empty, top gives the timer under index 1, which is no later than
-- any other, and pop takes just that one off, marks it as taken off and leaves a heap in order.
pub pop-IsTaken :
    (m : TimerMgr)
    → IsValid m
    → 0 < m.size
    → (m' : TimerMgr) × (top m ≡ some (at m 1))
      × (pop m ≡ some m')
      × IsTaken (at m 1) m m'
      × (strip (m'.timers (at m 1)) ≡ popped (m.timers (at m 1)))
      × ((t : ℕ) → queued m t ≡ true → (m.timers (at m 1)).expired ≤ (m.timers t).expired)
unfolding top pop
pop-IsTaken m v pos =
    let (m', swaps, l) = swap-IsLast 1 m v.indexed (omega arith) (omega (arith, pos)) in
    let (w, done, a, ordered) = cut-Restores m m' v pos l in
    let some_there : ltb 0 m.size ≡ true = ground (arith, pos) in
    let low : 0 < (m.timers (at m 1)).index =
      omega (arith, v.indexed.indices 1 (omega arith) (omega (arith, pos))) in
    let self : (m.timers (at m 1)).self ≡ true = (v.held (at m 1) low).1 in
    let root : m.elements 0 ≡ some (at m 1) =
      v.indexed.filled 1 (omega arith) (omega (arith, pos)) in
    (
      w,
      rw (some_there, root, self) refl,
      rw (some_there, root, swaps) done,
      taken (at m 1) m w v a.indexed ordered (rearranged-tight a (tight-cut m m' v pos l))
          (a.named ∙ named-cut m m' v pos l) (a.policy ∙ policy-cut m m' v pos l)
          (omega (arith, a.sized, size-cut m m' v pos l, a.roomy, room-cut m m' v pos l, v.roomy))
          (λ t. a.members t ∙ members-cut m m' v pos l t)
          (λ t differ. a.strips t ∙ strip-cut m m' v pos l t differ ∙ l.arranged.strips t)
          (λ t.
            ap (λ y. y.expired) (a.strips t)
            ∙ expired-cut m m' v pos l t
            ∙ ap (λ y. y.expired) (l.arranged.strips t)),
      a.strips (at m 1) ∙ popped-cut m m' v pos l,
      λ t. top-earliest m t v,
    )
