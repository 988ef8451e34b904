-- ===== src/Timer/Left.antt =====
-- How close_gap of src/util/Timer.h leaves the heap without its last place.
use hwnet.Prelude.{
  ==_refl, ℕ, ◌≤◌, ◌<◌, ◌≡◌, refl, sym, ap, ◌∙◌, subst, true, false, some, ◌==◌, ◌&&◌, not,
  if◌then◌else◌, arith,
}
use hwnet.Timer.{Timer, TimerMgr, swap, change, close_gap, drop_timer}
use hwnet.Timer.View.{IsIndexed, IsRearranged, at, queued, strip}
use hwnet.Timer.Up.{IsOrdered}
use hwnet.Timer.Change.{change-Restores}
use hwnet.Timer.Tail.{
  shrunk, shrunk-IsIndexed, clear, clear-IsIndexed, clear-IsOrdered, queued-clear,
}
use hwnet.Timer.Calls.{IsValid, IsTaken}
use hwnet.Timer.Gap.{IsLast, swap-IsLast, queued-left, tight-left, gap-ChangeInv, taken}

drop_timer-clear :
    (e : ℕ) (m : TimerMgr)
    → drop_timer e m
      ≡ clear e (record (m.timers e) { index = 0; callback = false; self = true }) m.size m
unfolding drop_timer clear
drop_timer-clear e m = refl

-- The heap without the timer, before the end of remove.
pub record IsLeft (e : ℕ) (m w : TimerMgr) : Type 0 where
  pub indexed : IsIndexed w
  pub ordered : IsOrdered w
  pub members : (t : ℕ) → queued w t ≡ (not (e == t) && queued m t)
  pub strips : (t : ℕ) → strip (w.timers t) ≡ strip (m.timers t)
  pub tight : (t : ℕ) → (e == t) ≡ false → (w.timers t).index ≤ w.size
  pub named : w.address ≡ m.address
  pub policy : w.compensate ≡ m.compensate
  pub roomy : w.size ≤ w.room

module _ (e : ℕ) (m w : TimerMgr) (v : IsValid m) (l : IsLeft e m w) where
  abbrev x : Timer
  x = record (w.timers e) { index = 0; callback = false; self = true }

  out : queued w e ≡ false
  out = ground (arith, l.members e)

  index-drop :
      (t : ℕ) → ((drop_timer e w).timers t).index ≡ (if e == t then 0 else (w.timers t).index)
  unfolding drop_timer
  index-drop t = ground arith

  strip-drop : (t : ℕ) → (e == t) ≡ false → strip ((drop_timer e w).timers t) ≡ strip (w.timers t)
  unfolding drop_timer
  strip-drop t differ = rw differ refl

  pub self-drop : ((drop_timer e w).timers e).self ≡ true
  unfolding drop_timer
  self-drop = rw (==_refl e) refl

  pub canceled-drop : (t : ℕ) → ((drop_timer e w).timers t).canceled ≡ (m.timers t).canceled
  unfolding drop_timer
  canceled-drop t = ground (arith, ap (λ y. y.canceled) (l.strips t))

  expired-drop : (t : ℕ) → ((drop_timer e w).timers t).expired ≡ (w.timers t).expired
  unfolding drop_timer
  expired-drop t = ground arith

  drop-fields :
      ((drop_timer e w).size ≡ w.size)
      × ((drop_timer e w).room ≡ w.room)
      × ((drop_timer e w).address ≡ w.address)
      × ((drop_timer e w).compensate ≡ w.compensate)
  unfolding drop_timer
  drop-fields = (refl, refl, refl, refl)

  pub drop_timer-IsTaken : IsTaken e m (drop_timer e w)
  drop_timer-IsTaken =
      let (size, room, address, policy) = drop-fields in
      taken e m (drop_timer e w) v
        (subst IsIndexed (sym (drop_timer-clear e w))
          (clear-IsIndexed e w.size x w l.indexed out (omega arith) refl))
        (subst IsOrdered (sym (drop_timer-clear e w))
          (clear-IsOrdered e w.size x w l.indexed out (omega arith) l.ordered))
        (λ t. ground (arith, index-drop t, size, l.tight t)) (address ∙ l.named) (policy ∙ l.policy)
        (omega (arith, size, room, l.roomy))
        (λ t.
          ap (λ y. queued y t) (drop_timer-clear e w)
          ∙ queued-clear e w.size x w l.indexed out (omega arith) t refl
          ∙ l.members t)
        (λ t differ. strip-drop t differ ∙ l.strips t)
        (λ t. expired-drop t ∙ ap (λ y. y.expired) (l.strips t))

-- The timer is the last.
pub shrunk-IsLeft :
    (e : ℕ) (m : TimerMgr) → IsValid m → at m m.size ≡ e → 0 < m.size → IsLeft e m (shrunk m)
unfolding at
shrunk-IsLeft e m v last pos = record {
  indexed = shrunk-IsIndexed m v.indexed;
  ordered = λ c p q. v.ordered c p (omega (arith, q));
  members = λ t. ground (arith, v.indexed.indices m.size pos, last, v.indexed.owned t, v.tight t);
  strips = λ t. refl;
  tight = λ t differ. ground (arith, last, v.indexed.owned t, v.tight t);
  named = refl;
  policy = refl;
  roomy = omega (arith, v.roomy);
}

gap-IsLeft :
    (e i : ℕ) (m m' w : TimerMgr)
    → IsValid m
    → IsLast i m m'
    → 0 < i
    → i ≤ m.size
    → at m i ≡ e
    → IsRearranged (shrunk m') w
    → IsOrdered w
    → IsLeft e m w
gap-IsLeft e i m m' w v l low high mine a ordered = record {
  indexed = a.indexed;
  ordered = ordered;
  members = λ t.
      a.members t ∙ queued-left i m m' v l low high t ∙ ap (λ u. not (u == t) && queued m t) mine;
  strips = λ t. a.strips t ∙ l.arranged.strips t;
  tight = λ t differ.
      let bound = tight-left i m m' v l low high t (ap (λ u. u == t) mine ∙ differ) in
      ground (arith, a.members t, a.kept t, a.sized, l.arranged.sized, bound);
  named = a.named ∙ l.arranged.named;
  policy = a.policy ∙ l.arranged.policy;
  roomy = omega (arith, a.sized, l.arranged.sized, a.roomy, l.arranged.roomy, v.roomy);
}

close_gap-swap :
    (e tail : ℕ) (m m' w : TimerMgr)
    → (m.timers tail).index ≡ m.size
    → swap (m.timers e).index m.size m ≡ some m'
    → change tail (shrunk m') ≡ some w
    → close_gap e tail m ≡ some w
unfolding close_gap
close_gap-swap e tail m m' w knows swaps done = rw (knows, swaps) done

-- It is not.
pub close_gap-IsLeft :
    (e : ℕ) (m : TimerMgr)
    → IsValid m
    → queued m e ≡ true
    → (at m m.size == e) ≡ false
    → (w : TimerMgr) × (close_gap e (at m m.size) m ≡ some w) × IsLeft e m w
close_gap-IsLeft e m v there differ =
    let i = (m.timers e).index in
    let tail = at m m.size in
    let low : 0 < i = ground arith in
    let high : i ≤ m.size = ground arith in
    let mine : at m i ≡ e = v.indexed.owned e low high in
    let knows : (m.timers tail).index ≡ m.size =
      v.indexed.indices m.size (omega (arith, low, high)) (omega arith) in
    let less : i < m.size = ground (arith, mine, differ) in
    let (m', swaps, l) = swap-IsLast i m v.indexed low high in
    let at_tail : (m'.timers tail).index ≡ i =
      subst (λ t. (m'.timers t).index ≡ i) (l.moved less)
        (l.arranged.indexed.indices i low (omega (arith, high, l.arranged.sized))) in
    let (w, done, a, ordered) =
      change-Restores tail i (shrunk m') at_tail (gap-ChangeInv i m m' v l low high less) in
    (
      w,
      close_gap-swap e tail m m' w knows swaps done,
      gap-IsLeft e i m m' w v l low high mine a ordered,
    )
