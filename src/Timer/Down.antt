-- ===== src/Timer/Down.antt =====
-- Why down of src/util/Timer.h puts the heap in order.
use hwnet.Prelude.{
  subst, ℕ, zero, suc, ◌+◌, ◌*◌, ◌/◌, ◌≤◌, ◌<◌, ◌≡◌, ◌≢◌, refl, sym, true, some, ltb, leb, ◌==◌,
  if◌then◌else◌, arith, Bool-cases, inl, inr,
}
use hwnet.Timer.{TimerMgr, earlier, down_loop, down}
use hwnet.Timer.View.{
  IsIndexed, IsRearranged-refl, key, swapped, swap-swapped, key-swapped, swapped-IsRearranged,
}
use hwnet.Timer.Up.{IsOrdered, IsBridged, Restores, expired_at-key, Restores-swap, size-swapped}

-- Only the edges below `i` may be out of order.
pub record DownInv (m : TimerMgr) (i : ℕ) : Type 0 where
  pub indexed : IsIndexed m
  pub low : 0 < i
  pub high : i ≤ m.size
  pub edges : (c : ℕ) → 1 < c → c ≤ m.size → c / 2 ≢ i → key m (c / 2) ≤ key m c
  pub bridged : IsBridged m i

-- What the two tests of down find: `i` itself or a child, and no child is earlier.
pub record IsEarliest (m : TimerMgr) (i j : ℕ) : Type 0 where
  low : 0 < j
  high : j ≤ m.size
  near : (j ≢ i → (j / 2 ≡ i) × (1 < j))
  least : (c : ℕ) → 1 < c → c ≤ m.size → c / 2 ≡ i → key m j ≤ key m c
  lower : key m j ≤ key m i
  strict : j ≢ i → key m j < key m i

pub earlier-key :
    (c b : ℕ) (m : TimerMgr)
    → IsIndexed m
    → 0 < b
    → b ≤ m.size
    → 0 < c
    → earlier c b m ≡ some (if leb c m.size then (if ltb (key m c) (key m b) then c else b) else b)
unfolding earlier
earlier-key c b m h p q r = elim (Bool-cases (leb c m.size)) [
  | inr outside ↦ rw outside refl
  | inl inside ↦ rw (inside, expired_at-key m c h r (ground arith), expired_at-key m b h p q) refl
]

abbrev pub pick : TimerMgr → ℕ → ℕ → ℕ
pick m c b = if leb c m.size then (if ltb (key m c) (key m b) then c else b) else b

pick-IsEarliest :
    (m : TimerMgr) (i : ℕ)
    → 0 < i
    → i ≤ m.size
    → IsEarliest m i (pick m (i * 2 + 1) (pick m (i * 2) i))
pick-IsEarliest m i p q = record {
  low = ground arith;
  high = ground arith;
  near = λ e. ground arith;
  least = λ c r s e. ground arith;
  lower = ground arith;
  strict = λ e. ground arith;
}

swapped-DownInv :
    (m : TimerMgr) (i j : ℕ) → DownInv m i → IsEarliest m i j → i ≢ j → DownInv (swapped i j m) j
swapped-DownInv m i j v s differ =
    let at_key = key-swapped m i j v.indexed v.low v.high s.low s.high in
    let arranged = swapped-IsRearranged m i j v.indexed v.low v.high s.low s.high in
    let size = size-swapped i j m in
    let (under, past) = s.near (λ e. differ (sym e)) in
    record {
      indexed = arranged.indexed;
      low = s.low;
      high = omega (arith, s.high, size);
      edges = λ c p q r. ground (
        arith,
        size,
        s.strict,
        under,
        at_key c,
        at_key (c / 2),
        v.edges c,
        v.bridged j,
        s.least c,
        s.lower,
      );
      bridged = λ c p q r t. ground (arith, size, under, at_key c, at_key (j / 2), v.edges c);
    }

settled-IsOrdered :
    (m : TimerMgr) (i j : ℕ) → DownInv m i → IsEarliest m i j → (j == i) ≡ true → IsOrdered m
settled-IsOrdered m i j v s e =
    let same : j ≡ i = ground arith in
    let least : (c : ℕ) → 1 < c → c ≤ m.size → c / 2 ≡ i → key m i ≤ key m c =
      subst (λ k. (c : ℕ) → 1 < c → c ≤ m.size → c / 2 ≡ i → key m k ≤ key m c) same s.least in
    λ c p q. ground (arith, v.edges c, least c)

deeper-fuel :
    (m : TimerMgr) (i j k : ℕ)
    → IsEarliest m i j
    → i ≢ j
    → m.size < i + suc k
    → (swapped i j m).size < j + k
deeper-fuel m i j k s differ f =
    let (under, past) = s.near (λ e. differ (sym e)) in
    omega (arith, size-swapped i j m, under, past, f)

down_loop-Restores :
    (k i : ℕ) (m : TimerMgr) → m.size < i + k → DownInv m i → Restores m (down_loop k i m)
unfolding down_loop
down_loop-Restores zero i m f v = absurd (omega (arith, f, v.high))
down_loop-Restores (suc k) i m f v =
    let first = pick m (i * 2) i in
    let j = pick m (i * 2 + 1) first in
    let s = pick-IsEarliest m i v.low v.high in
    let low : 0 < first = ground (arith, v.low) in
    let high : first ≤ m.size = ground (arith, v.high) in
    rw
      (
        earlier-key (i * 2) i m v.indexed v.low v.high (omega (arith, v.low)),
        earlier-key (i * 2 + 1) first m v.indexed low high (omega arith),
      )
      (elim (Bool-cases (j == i)) [
        | inl settled ↦
            rw settled (m, refl, IsRearranged-refl m v.indexed, settled-IsOrdered m i j v s settled)
        | inr deeper ↦
            let differ : i ≢ j = ground arith in
            let swaps = swap-swapped m i j v.indexed v.low v.high s.low s.high differ in
            let a = swapped-IsRearranged m i j v.indexed v.low v.high s.low s.high in
            rw (deeper, swaps)
              (Restores-swap m i j _ a (
                down_loop-Restores k j (swapped i j m) (deeper-fuel m i j k s differ f)
                  (swapped-DownInv m i j v s differ)))
      ])

pub down-Restores : (i : ℕ) (m : TimerMgr) → DownInv m i → Restores m (down i m)
unfolding down
down-Restores i m v = down_loop-Restores (m.size + 1) i m (omega (arith, v.low)) v
