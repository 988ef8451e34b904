-- ===== src/Timer/View.antt =====
-- The heap of src/util/Timer.h by index, from 1 on, and what swap does to it.
use hwnet.Prelude.{
  ◌&&◌, leb, ℕ, ◌-◌, ◌≤◌, ◌<◌, ◌≡◌, ◌≢◌, refl, ◌∙◌, Bool, false, Option, none, some, put, ltb, ◌==◌,
  if◌then◌else◌, arith,
}
use hwnet.Timer.{Timer, TimerMgr, set_index, swap}

unfoldable pub default_to : Option ℕ → ℕ
default_to none = 0
default_to (some t) = t

-- The timer under an index, and its time.
unfoldable pub at : TimerMgr → ℕ → ℕ
unfolding default_to
at m i = default_to (m.elements (i - 1))

abbrev pub key : TimerMgr → ℕ → ℕ
key m i = (m.timers (at m i)).expired

-- A timer without its index.
abbrev pub strip : Timer → Timer
strip t = record t { index = 0 }

-- The indices from 1 to `size` hold timers that know their index, and no other timer has such an
-- index.
pub record IsIndexed (m : TimerMgr) : Type 0 where
  pub filled : (i : ℕ) → 0 < i → i ≤ m.size → m.elements (i - 1) ≡ some (at m i)
  pub indices : (i : ℕ) → 0 < i → i ≤ m.size → (m.timers (at m i)).index ≡ i
  pub owned :
      (t : ℕ) → 0 < (m.timers t).index → (m.timers t).index ≤ m.size → at m (m.timers t).index ≡ t

-- Whether a timer is in the heap.
abbrev pub queued : TimerMgr → ℕ → Bool
queued m t = ltb 0 (m.timers t).index && leb (m.timers t).index m.size

-- The result of swap where both indices are in the heap.
unfoldable pub swapped : ℕ → ℕ → TimerMgr → TimerMgr
swapped i j m = record m {
  elements = put (j - 1) (some (at m i)) (put (i - 1) (some (at m j)) m.elements);
  timers = set_index (at m i) j (set_index (at m j) i m.timers);
}

-- The same heap in another arrangement.
pub record IsRearranged (m m' : TimerMgr) : Type 0 where
  pub indexed : IsIndexed m'
  pub sized : m'.size ≡ m.size
  pub roomy : m'.room ≡ m.room
  pub named : m'.address ≡ m.address
  pub policy : m'.compensate ≡ m.compensate
  pub members : (t : ℕ) → queued m' t ≡ queued m t
  pub kept : (t : ℕ) → queued m t ≡ false → (m'.timers t).index ≡ (m.timers t).index
  pub strips : (t : ℕ) → strip (m'.timers t) ≡ strip (m.timers t)

pub IsRearranged-refl : (m : TimerMgr) → IsIndexed m → IsRearranged m m
IsRearranged-refl m h = record {
  indexed = h;
  sized = refl;
  roomy = refl;
  named = refl;
  policy = refl;
  members = λ t. refl;
  kept = λ t e. refl;
  strips = λ t. refl;
}

pub IsRearranged-trans : {a b c : TimerMgr} → IsRearranged a b → IsRearranged b c → IsRearranged a c
IsRearranged-trans p q = record {
  indexed = q.indexed;
  sized = q.sized ∙ p.sized;
  roomy = q.roomy ∙ p.roomy;
  named = q.named ∙ p.named;
  policy = q.policy ∙ p.policy;
  members = λ t. q.members t ∙ p.members t;
  kept = λ t e. q.kept t (p.members t ∙ e) ∙ p.kept t e;
  strips = λ t. q.strips t ∙ p.strips t;
}

module _ (m : TimerMgr) (i j : ℕ) (h : IsIndexed m) (pi : 0 < i) (li : i ≤ m.size) (pj : 0 < j)
    (lj : j ≤ m.size) where
  pub swap-swapped : i ≢ j → swap i j m ≡ some (swapped i j m)
  unfolding swap swapped
  swap-swapped differ =
      let e : (i == j) ≡ false = ground arith in rw (e, h.filled i pi li, h.filled j pj lj) refl

  pub at-swapped :
      (c : ℕ)
      → 0 < c
      → at (swapped i j m) c ≡ (if j == c then at m i else if i == c then at m j else at m c)
  unfolding swapped at default_to
  at-swapped c p = ground arith

  pub expired-swapped : (t : ℕ) → ((swapped i j m).timers t).expired ≡ (m.timers t).expired
  unfolding swapped
  expired-swapped t = ground arith

  pub strip-swapped : (t : ℕ) → strip ((swapped i j m).timers t) ≡ strip (m.timers t)
  unfolding swapped
  strip-swapped t = ground arith

  pub index-swapped :
      (t : ℕ)
      → ((swapped i j m).timers t).index
        ≡ (if at m i == t then j else if at m j == t then i else (m.timers t).index)
  unfolding swapped
  index-swapped t = ground arith

  pub key-swapped :
      (c : ℕ)
      → 0 < c
      → key (swapped i j m) c ≡ (if j == c then key m i else if i == c then key m j else key m c)
  key-swapped c p = ground (arith, at-swapped c p, expired-swapped (at (swapped i j m) c))

  elements-swapped :
      (c : ℕ)
      → 0 < c
      → (swapped i j m).elements (c - 1)
        ≡ (if j == c then some (at m i) else if i == c then some (at m j) else m.elements (c - 1))
  unfolding swapped
  elements-swapped c p = ground arith

  filled-swapped :
      (c : ℕ) → 0 < c → c ≤ m.size → (swapped i j m).elements (c - 1) ≡ some (at (swapped i j m) c)
  filled-swapped c p q = ground (arith, elements-swapped c p, at-swapped c p, h.filled c p q)

  indices-swapped :
      (c : ℕ) → 0 < c → c ≤ m.size → ((swapped i j m).timers (at (swapped i j m) c)).index ≡ c
  indices-swapped c p q = ground (
    arith,
    at-swapped c p,
    index-swapped (at (swapped i j m) c),
    h.indices c p q,
    h.indices i pi li,
    h.indices j pj lj,
  )

  owned-swapped :
      (t : ℕ)
      → 0 < ((swapped i j m).timers t).index
      → ((swapped i j m).timers t).index ≤ m.size
      → at (swapped i j m) ((swapped i j m).timers t).index ≡ t
  owned-swapped t p q =
      let e = index-swapped t in
      let f = at-swapped ((swapped i j m).timers t).index p in ground (arith, e, f, h.owned t)

  size-swapped : (swapped i j m).size ≡ m.size
  unfolding swapped
  size-swapped = refl

  members-swapped : (t : ℕ) → queued (swapped i j m) t ≡ queued m t
  members-swapped t =
      ground (arith, size-swapped, index-swapped t, h.indices i pi li, h.indices j pj lj)

  kept-swapped :
      (t : ℕ) → queued m t ≡ false → ((swapped i j m).timers t).index ≡ (m.timers t).index
  kept-swapped t e = ground (arith, index-swapped t, h.indices i pi li, h.indices j pj lj)

  pub swapped-IsRearranged : IsRearranged m (swapped i j m)
  unfolding swapped
  swapped-IsRearranged = record {
    indexed = record { filled = filled-swapped; indices = indices-swapped; owned = owned-swapped };
    sized = refl;
    roomy = refl;
    named = refl;
    policy = refl;
    members = members-swapped;
    kept = kept-swapped;
    strips = strip-swapped;
  }
