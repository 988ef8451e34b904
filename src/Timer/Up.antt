-- ===== src/Timer/Up.antt =====
-- The order of the heap of src/util/Timer.h, and why up restores it.
use hwnet.Prelude.{
  ℕ, zero, suc, ◌+◌, ◌/◌, ◌≤◌, ◌<◌, ◌≡◌, ◌≢◌, refl, Option, some, ltb, arith, Bool-cases, inl, inr,
}
use hwnet.Timer.{TimerMgr, expired_at, up_loop, up}
use hwnet.Timer.View.{
  IsIndexed, IsRearranged, IsRearranged-refl, IsRearranged-trans, key, swapped, swap-swapped,
  key-swapped, swapped-IsRearranged,
}

-- No timer is earlier than the one above it.
abbrev pub IsOrdered : TimerMgr → Type 0
IsOrdered m = (c : ℕ) → 1 < c → c ≤ m.size → key m (c / 2) ≤ key m c

-- The timers above and below `i` are in order with each other.
abbrev pub IsBridged : TimerMgr → ℕ → Type 0
IsBridged m i = (c : ℕ) → 1 < c → c ≤ m.size → c / 2 ≡ i → 1 < i → key m (i / 2) ≤ key m c

-- A call that gives the same timers in order.
abbrev pub Restores : TimerMgr → Option TimerMgr → Type 0
Restores m r = (m' : TimerMgr) × (r ≡ some m') × IsRearranged m m' × IsOrdered m'

pub expired_at-key :
    (m : TimerMgr) (i : ℕ) → IsIndexed m → 0 < i → i ≤ m.size → expired_at i m ≡ some (key m i)
unfolding expired_at
expired_at-key m i h p q = rw (h.filled i p q) refl

pub Restores-swap :
    (m : TimerMgr) (i j : ℕ) (r : Option TimerMgr)
    → IsRearranged m (swapped i j m)
    → Restores (swapped i j m) r
    → Restores m r
Restores-swap m i j r s (m', e, q, o) = (m', e, IsRearranged-trans s q, o)

-- Only the edge above `i` may be out of order.
pub record UpInv (m : TimerMgr) (i : ℕ) : Type 0 where
  pub indexed : IsIndexed m
  pub low : 0 < i
  pub high : i ≤ m.size
  pub edges : (c : ℕ) → 1 < c → c ≤ m.size → c ≢ i → key m (c / 2) ≤ key m c
  pub bridged : IsBridged m i

pub size-swapped : (i j : ℕ) (m : TimerMgr) → (swapped i j m).size ≡ m.size
unfolding swapped
size-swapped i j m = refl

swapped-UpInv :
    (m : TimerMgr) (i : ℕ)
    → UpInv m i
    → 0 < i / 2
    → key m i < key m (i / 2)
    → UpInv (swapped i (i / 2) m) (i / 2)
swapped-UpInv m i v pos below =
    let at_key = key-swapped m i (i / 2) v.indexed v.low v.high pos (omega (arith, v.high)) in
    let arranged =
      swapped-IsRearranged m i (i / 2) v.indexed v.low v.high pos (omega (arith, v.high)) in
    let size = size-swapped i (i / 2) m in
    record {
      indexed = arranged.indexed;
      low = pos;
      high = omega (arith, v.high, size);
      edges = λ c p q r. ground (arith, size, at_key c, at_key (c / 2), v.edges c, v.bridged c);
      bridged = λ c p q r t.
          ground (arith, size, at_key c, at_key (i / 2 / 2), v.edges c, v.edges (i / 2));
    }

up_loop-Restores : (k : ℕ) (i : ℕ) (m : TimerMgr) → i < k → UpInv m i → Restores m (up_loop k i m)
unfolding up_loop
up_loop-Restores zero i m f v = absurd (omega (arith, f))
up_loop-Restores (suc k) i m f v = elim (Bool-cases (ltb 0 (i / 2))) [
  | inr root ↦
      rw root (m, refl, IsRearranged-refl m v.indexed, λ c p q. v.edges c p q (ground arith))
  | inl below ↦
      let pos : 0 < i / 2 = ground arith in
      let high : i / 2 ≤ m.size = omega (arith, v.high) in
      rw
        (
          below,
          expired_at-key m i v.indexed v.low v.high,
          expired_at-key m (i / 2) v.indexed pos high,
        )
        (elim (Bool-cases (ltb (key m i) (key m (i / 2)))) [
          | inr settled ↦
              rw settled
                (m, refl, IsRearranged-refl m v.indexed, λ c p q. ground (arith, v.edges c))
          | inl earlier_one ↦
              let s = swapped-IsRearranged m i (i / 2) v.indexed v.low v.high pos high in
              let swaps =
                swap-swapped m i (i / 2) v.indexed v.low v.high pos high (omega (arith, v.low)) in
              rw (earlier_one, swaps)
                (Restores-swap m i (i / 2) _ s (
                  up_loop-Restores k (i / 2) (swapped i (i / 2) m) (omega (arith, f, v.low))
                    (swapped-UpInv m i v pos (ground arith))))
        ])
]

pub up-Restores : (i : ℕ) (m : TimerMgr) → UpInv m i → Restores m (up i m)
unfolding up
up-Restores i m v = up_loop-Restores (i + 1) i m (omega arith) v
