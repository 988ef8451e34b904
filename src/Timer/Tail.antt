-- ===== src/Timer/Tail.antt =====
-- The end of the heap of src/util/Timer.h: a timer is taken off there, or put there.
use hwnet.Prelude.{
  ◌/◌, put-past, ℕ, ◌+◌, ◌-◌, ◌≤◌, ◌<◌, ◌≡◌, refl, sym, ap, ◌∙◌, false, none, some, put, ◌==◌,
  if◌then◌else◌, arith,
}
use hwnet.Timer.{Timer, TimerMgr, grow}
use hwnet.Timer.View.{IsIndexed, at, default_to, key, queued}
use hwnet.Timer.Up.{IsOrdered}

-- The last index is given up; the timer that had it keeps the number.
abbrev pub shrunk : TimerMgr → TimerMgr
shrunk m = record m { size = m.size - 1 }

pub shrunk-IsIndexed : (m : TimerMgr) → IsIndexed m → IsIndexed (shrunk m)
unfolding at
shrunk-IsIndexed m h = record {
  filled = λ i p q. h.filled i p (omega (arith, q));
  indices = λ i p q. h.indices i p (omega (arith, q));
  owned = λ t p q. h.owned t p (omega (arith, q));
}

-- A timer that is not in the heap is written, and a place past the end.
unfoldable pub clear : ℕ → Timer → ℕ → TimerMgr → TimerMgr
clear e x off m = record m { timers = put e x m.timers; elements = put off none m.elements }

module _ (e off : ℕ) (x : Timer) (m : TimerMgr) (h : IsIndexed m) (out : queued m e ≡ false)
    (past : m.size ≤ off) where
  pub at-clear : (c : ℕ) → 0 < c → c ≤ m.size → at (clear e x off m) c ≡ at m c
  unfolding clear at default_to
  at-clear c p q = ground arith

  apart : (c : ℕ) → 0 < c → c ≤ m.size → (e == at m c) ≡ false
  apart c p q = ground (arith, h.indices c p q)

  timers-clear :
      (c : ℕ)
      → 0 < c
      → c ≤ m.size
      → (clear e x off m).timers (at (clear e x off m) c) ≡ m.timers (at m c)
  unfolding clear
  timers-clear c p q =
      ap (put e x m.timers) (at-clear c p q) ∙ put-past e (at m c) x m.timers (apart c p q)

  pub key-clear : (c : ℕ) → 0 < c → c ≤ m.size → key (clear e x off m) c ≡ key m c
  key-clear c p q = ap (λ t. t.expired) (timers-clear c p q)

  elements-clear :
      (c : ℕ) → 0 < c → c ≤ m.size → (clear e x off m).elements (c - 1) ≡ m.elements (c - 1)
  unfolding clear
  elements-clear c p q = ground arith

  index-clear :
      (t : ℕ)
      → ((clear e x off m).timers t).index ≡ (if e == t then x.index else (m.timers t).index)
  unfolding clear
  index-clear t = ground arith

  pub clear-IsIndexed : x.index ≡ 0 → IsIndexed (clear e x off m)
  unfolding clear
  clear-IsIndexed zeroed = record {
    filled = λ c p q. elements-clear c p q ∙ h.filled c p q ∙ ap some (sym (at-clear c p q));
    indices = λ c p q. ap (λ t. t.index) (timers-clear c p q) ∙ h.indices c p q;
    owned = λ t p q.
        let i = index-clear t in
        let old : ((clear e x off m).timers t).index ≡ (m.timers t).index = ground arith in
        let low : 0 < (m.timers t).index = omega (arith, p, old) in
        let high : (m.timers t).index ≤ m.size = omega (arith, q, old) in
        ap (at (clear e x off m)) old ∙ at-clear (m.timers t).index low high ∙ h.owned t low high;
  }

  pub clear-IsOrdered : IsOrdered m → IsOrdered (clear e x off m)
  unfolding clear
  clear-IsOrdered o c p q = omega (
    arith,
    o c p q,
    key-clear c (omega (arith, p)) q,
    key-clear (c / 2) (omega (arith, p)) (omega (arith, q)),
  )

  pub queued-clear : (t : ℕ) → x.index ≡ 0 → queued (clear e x off m) t ≡ queued m t
  unfolding clear
  queued-clear t zeroed = ground arith

module _ (e : ℕ) (m : TimerMgr) (h : IsIndexed m) (out : (m.timers e).index ≡ 0) where
  pub at-grow : (c : ℕ) → 0 < c → at (grow e m) c ≡ (if m.size + 1 == c then e else at m c)
  unfolding grow at default_to
  at-grow c p = ground arith

  grown-apart : (c : ℕ) → 0 < c → c ≤ m.size → (e == at m c) ≡ false
  grown-apart c p q = ground (arith, h.indices c p q)

  pub expired-grow : (t : ℕ) → ((grow e m).timers t).expired ≡ (m.timers t).expired
  unfolding grow
  expired-grow t = ground arith

  pub index-grow :
      (t : ℕ) → ((grow e m).timers t).index ≡ (if e == t then m.size + 1 else (m.timers t).index)
  unfolding grow
  index-grow t = ground arith

  pub size-grow : (grow e m).size ≡ m.size + 1
  unfolding grow
  size-grow = refl

  elements-grow :
      (c : ℕ)
      → 0 < c
      → (grow e m).elements (c - 1) ≡ (if m.size + 1 == c then some e else m.elements (c - 1))
  unfolding grow
  elements-grow c p = ground arith

  pub key-grow : (c : ℕ) → 0 < c → c ≤ m.size → key (grow e m) c ≡ key m c
  key-grow c p q = ground (arith, at-grow c p, expired-grow (at (grow e m) c))

  pub grow-IsIndexed : ((t : ℕ) → (m.timers t).index ≤ m.size) → IsIndexed (grow e m)
  grow-IsIndexed tight = record {
    filled = λ c p q. ground (arith, elements-grow c p, at-grow c p, h.filled c p, size-grow);
    indices = λ c p q. ground (
      arith,
      at-grow c p,
      index-grow (at (grow e m) c),
      h.indices c p,
      size-grow,
      grown-apart c p,
    );
    owned = λ t p q.
        ground (arith, index-grow t, at-grow ((grow e m).timers t).index p, h.owned t, tight t);
  }
