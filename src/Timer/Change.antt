-- ===== src/Timer/Change.antt =====
-- change of src/util/Timer.h: down, and up if down did nothing.
use hwnet.Prelude.{
  ◌&&◌, ℕ, suc, ◌+◌, ◌*◌, ◌/◌, ◌≤◌, ◌<◌, ◌≡◌, ◌≢◌, refl, true, some, ltb, ◌==◌, if◌then◌else◌,
  arith, Bool-cases, inl, inr,
}
use hwnet.Timer.{TimerMgr, down_loop, down, up, change}
use hwnet.Timer.View.{IsIndexed, IsRearranged-trans, key}
use hwnet.Timer.Up.{IsOrdered, IsBridged, Restores, UpInv, up-Restores}
use hwnet.Timer.Down.{DownInv, down-Restores, pick, earlier-key}

-- Only the edges at `i` may be out of order, and those past it are not.
pub record ChangeInv (m : TimerMgr) (i : ℕ) : Type 0 where
  pub indexed : IsIndexed m
  pub low : 0 < i
  pub high : i ≤ m.size
  pub edges : (c : ℕ) → 1 < c → c ≤ m.size → c ≢ i → c / 2 ≢ i → key m (c / 2) ≤ key m c
  pub bridged : IsBridged m i

-- down does nothing to a timer that is no later than those below it.
down-settled :
    (m : TimerMgr) (i : ℕ)
    → IsIndexed m
    → 0 < i
    → i ≤ m.size
    → ((c : ℕ) → 1 < c → c ≤ m.size → c / 2 ≡ i → key m i ≤ key m c)
    → down i m ≡ some m
unfolding down down_loop
down-settled m i h p q least =
    let fuel : m.size + 1 ≡ suc m.size = omega arith in
    let left : pick m (i * 2) i ≡ i = ground (arith, least (i * 2)) in
    let right : pick m (i * 2 + 1) i ≡ i = ground (arith, least (i * 2 + 1)) in
    rw
      (
        fuel,
        earlier-key (i * 2) i m h p q (omega (arith, p)),
        left,
        earlier-key (i * 2 + 1) i m h p q (omega arith),
        right,
      )
      (let e : (i == i) ≡ true = ground arith in rw e refl)

-- up does no harm to a heap that is in order.
IsOrdered-UpInv :
    (m : TimerMgr) (i : ℕ) → IsIndexed m → IsOrdered m → 0 < i → i ≤ m.size → UpInv m i
IsOrdered-UpInv m i h o p q = record {
  indexed = h;
  low = p;
  high = q;
  edges = λ c r s e. o c r s;
  bridged = λ c r s e t. ground (arith, o c, o i);
}

ChangeInv-UpInv :
    (m : TimerMgr) (i : ℕ) → ChangeInv m i → 1 < i → key m i < key m (i / 2) → UpInv m i
ChangeInv-UpInv m i v past below = record {
  indexed = v.indexed;
  low = v.low;
  high = v.high;
  edges = λ c p q r. ground (arith, v.edges c, v.bridged c);
  bridged = v.bridged;
}

ChangeInv-DownInv :
    (m : TimerMgr) (i : ℕ) → ChangeInv m i → (1 < i → key m (i / 2) ≤ key m i) → DownInv m i
ChangeInv-DownInv m i v above = record {
  indexed = v.indexed;
  low = v.low;
  high = v.high;
  edges = λ c p q r. ground (arith, v.edges c, above);
  bridged = v.bridged;
}

-- change, once down has given its result.
change-down :
    (t i : ℕ) (m m' : TimerMgr)
    → (m.timers t).index ≡ i
    → down i m ≡ some m'
    → change t m ≡ (if i == (m'.timers t).index then up i m' else some m')
unfolding change
change-down t i m m' e d = rw (e, d) refl

pub change-Restores :
    (t i : ℕ) (m : TimerMgr) → (m.timers t).index ≡ i → ChangeInv m i → Restores m (change t m)
change-Restores t i m e v = elim (Bool-cases (ltb 1 i && ltb (key m i) (key m (i / 2)))) [
  | inl rises ↦
      let past : 1 < i = ground arith in
      let below : key m i < key m (i / 2) = ground arith in
      let d = down-settled m i v.indexed v.low v.high λ c p q r. ground (arith, v.bridged c) in
      let same : (i == (m.timers t).index) ≡ true = ground (arith, e) in
      rw (change-down t i m m e d, same) (up-Restores i m (ChangeInv-UpInv m i v past below))
  | inr sinks ↦
      let (m', d, arranged, ordered) =
        down-Restores i m (ChangeInv-DownInv m i v λ past. ground arith) in
      rw (change-down t i m m' e d) (elim (Bool-cases (i == (m'.timers t).index)) [
        | inr moved ↦ rw moved (m', refl, arranged, ordered)
        | inl stayed ↦ rw stayed (
            let high : i ≤ m'.size = omega (arith, v.high, arranged.sized) in
            let (m'', u, again, in_order) =
              up-Restores i m' (IsOrdered-UpInv m' i arranged.indexed ordered v.low high) in
            (m'', u, IsRearranged-trans arranged again, in_order))
      ])
]
