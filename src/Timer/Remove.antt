-- ===== src/Timer/Remove.antt =====
-- remove of src/util/Timer.h.
use hwnet.Prelude.{
  ==_refl, ==-≡, ℕ, ◌-◌, ◌≤◌, ◌<◌, ◌≡◌, refl, ap, ◌∙◌, true, false, some, ltb, ◌==◌, ◌||◌,
  if◌then◌else◌, arith, Bool-cases, inl, inr,
}
use hwnet.Timer.{TimerMgr, remove, close_gap, drop_timer}
use hwnet.Timer.View.{at, queued}
use hwnet.Timer.Tail.{shrunk}
use hwnet.Timer.Calls.{IsValid, IsTaken}
use hwnet.Timer.Left.{self-drop, canceled-drop, drop_timer-IsTaken, shrunk-IsLeft, close_gap-IsLeft}

-- remove, where its guards let the timer pass.
remove-guarded :
    (e tail : ℕ) (m w : TimerMgr)
    → (m.timers e).owner ≡ some m.address
    → 0 < (m.timers e).index
    → (m.timers e).index ≤ m.size
    → m.elements ((m.timers e).index - 1) ≡ some e
    → m.elements (m.size - 1) ≡ some tail
    → (if tail == e then some (shrunk m) else close_gap e tail m) ≡ some w
    → remove e m ≡ some (true, drop_timer e w)
unfolding remove
remove-guarded e tail m w owns low high mine last inner =
    let same : (m.address == m.address) ≡ true = ==_refl m.address in
    let same' : (e == e) ≡ true = ==_refl e in
    let inside : ((m.timers e).index == 0 || ltb m.size (m.timers e).index) ≡ false =
      ground arith in
    rw (owns, same, inside, mine, same', last, inner) refl

-- Of a heap in order, remove takes a timer in it off, returns true and leaves a heap in order with
-- the others; the timer still keeps itself alive, and what is canceled stays so.
pub remove-IsTaken :
    (e : ℕ) (m : TimerMgr)
    → IsValid m
    → queued m e ≡ true
    → (m' : TimerMgr) × (remove e m ≡ some (true, m'))
      × IsTaken e m m'
      × ((m'.timers e).self ≡ true)
      × ((u : ℕ) → (m'.timers u).canceled ≡ (m.timers u).canceled)
remove-IsTaken e m v there =
    let i = (m.timers e).index in
    let low : 0 < i = ground arith in
    let high : i ≤ m.size = ground arith in
    let owns = (v.held e low).0 in
    let mine = v.indexed.filled i low high ∙ ap some (v.indexed.owned e low high) in
    let last = v.indexed.filled m.size (omega (arith, low, high)) (omega arith) in
    elim (Bool-cases (at m m.size == e)) [
      | inl same ↦
          let left = shrunk-IsLeft e m v (==-≡ same) (omega (arith, low, high)) in
          (
            drop_timer e (shrunk m),
            remove-guarded e (at m m.size) m (shrunk m) owns low high mine last (rw same refl),
            drop_timer-IsTaken e m (shrunk m) v left,
            self-drop e m (shrunk m) v left,
            canceled-drop e m (shrunk m) v left,
          )
      | inr differ ↦
          let (w, done, l) = close_gap-IsLeft e m v there differ in
          (
            drop_timer e w,
            remove-guarded e (at m m.size) m w owns low high mine last (rw differ done),
            drop_timer-IsTaken e m w v l,
            self-drop e m w v l,
            canceled-drop e m w v l,
          )
    ]

-- remove does nothing to a timer without an index.
pub remove-absent :
    (e owner : ℕ) (m : TimerMgr)
    → (m.timers e).owner ≡ some owner
    → (m.timers e).index ≡ 0
    → remove e m ≡ some (false, m)
unfolding remove
remove-absent e owner m owns out = elim (Bool-cases (m.address == owner)) [
  | inl mine ↦ rw (owns, mine, out) refl
  | inr other ↦ rw (owns, other) refl
]
