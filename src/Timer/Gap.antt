-- ===== src/Timer/Gap.antt =====
-- What pop and remove of src/util/Timer.h have in common: a timer is swapped with the last and taken
-- off, and the place where it stood is put in order.
use hwnet.Prelude.{
  ==-≡, ℕ, ◌-◌, ◌/◌, ◌≤◌, ◌<◌, ◌≡◌, ◌≢◌, refl, sym, ap, ◌∙◌, subst, true, false, some, ◌==◌, ◌&&◌,
  not, arith, Bool-cases, inl, inr,
}
use hwnet.Timer.{TimerMgr, swap}
use hwnet.Timer.View.{
  IsIndexed, IsRearranged, IsRearranged-refl, at, key, queued, strip, swapped, swap-swapped,
  at-swapped, key-swapped, swapped-IsRearranged,
}
use hwnet.Timer.Up.{IsOrdered}
use hwnet.Timer.Change.{ChangeInv}
use hwnet.Timer.Tail.{shrunk, shrunk-IsIndexed}
use hwnet.Timer.Calls.{IsValid, IsTaken, rearranged-tight}

-- The timer under `i` is swapped with the last.
pub record IsLast (i : ℕ) (m m' : TimerMgr) : Type 0 where
  pub arranged : IsRearranged m m'
  pub last : at m' m.size ≡ at m i
  pub others : (c : ℕ) → 0 < c → c < m.size → c ≢ i → key m' c ≡ key m c
  pub moved : i < m.size → at m' i ≡ at m m.size

swap-same : (i : ℕ) (m : TimerMgr) → (i == m.size) ≡ true → swap i m.size m ≡ some m
unfolding swap
swap-same i m same = rw same refl

pub swap-IsLast :
    (i : ℕ) (m : TimerMgr)
    → IsIndexed m
    → 0 < i
    → i ≤ m.size
    → (m' : TimerMgr) × (swap i m.size m ≡ some m') × IsLast i m m'
swap-IsLast i m h p q = elim (Bool-cases (i == m.size)) [
  | inl same ↦ (
    m,
    swap-same i m same,
    record {
      arranged = IsRearranged-refl m h;
      last = ap (at m) (sym (==-≡ same));
      others = λ c r s t. refl;
      moved = λ less. absurd (ground (arith, same, less));
    },
  )
  | inr differ ↦
      let apart : i ≢ m.size = ground arith in
      let end : 0 < m.size = omega (arith, p, q) in
      let at_key = key-swapped m i m.size h p q end (omega arith) in
      let at_at = at-swapped m i m.size h p q end (omega arith) in
      (
        swapped i m.size m,
        swap-swapped m i m.size h p q end (omega arith) apart,
        record {
          arranged = swapped-IsRearranged m i m.size h p q end (omega arith);
          last = ground (arith, at_at m.size end);
          others = λ c r s t. ground (arith, at_key c r);
          moved = λ less. ground (arith, at_at i p);
        },
      )
]

module _ (i : ℕ) (m m' : TimerMgr) (v : IsValid m) (l : IsLast i m m') (p : 0 < i)
    (q : i ≤ m.size) where
  -- The last timer knows its index.
  index-last : (m'.timers (at m i)).index ≡ m.size
  index-last =
      subst (λ t. (m'.timers t).index ≡ m.size) l.last
        (l.arranged.indexed.indices m.size (omega (arith, p, q)) (omega (arith, l.arranged.sized)))

  pub gone : queued (shrunk m') (at m i) ≡ false
  gone = ground (arith, index-last, l.arranged.sized, p, q)

  -- What is left without it.
  pub queued-left : (t : ℕ) → queued (shrunk m') t ≡ (not (at m i == t) && queued m t)
  queued-left t = ground (
    arith,
    l.arranged.members t,
    l.arranged.sized,
    index-last,
    l.last,
    l.arranged.indexed.owned t,
  )

  pub tight-left : (t : ℕ) → (at m i == t) ≡ false → (m'.timers t).index ≤ m.size - 1
  tight-left t differ =
      let bound = rearranged-tight l.arranged v.tight t in
      ground (arith, bound, l.arranged.sized, l.arranged.indexed.owned t, l.last, p, q)

  key-left : (c : ℕ) → key (shrunk m') c ≡ key m' c
  unfolding at
  key-left c = refl

  pub gap-ChangeInv : i < m.size → ChangeInv (shrunk m') i
  gap-ChangeInv less = record {
    indexed = shrunk-IsIndexed m' l.arranged.indexed;
    low = p;
    high = omega (arith, less, l.arranged.sized);
    edges = λ c r s t u. ground (
      arith,
      l.arranged.sized,
      key-left c,
      key-left (c / 2),
      l.others c,
      l.others (c / 2),
      v.ordered c,
    );
    bridged = λ c r s t u. ground (
      arith,
      l.arranged.sized,
      key-left c,
      key-left (i / 2),
      l.others c,
      l.others (i / 2),
      v.ordered c,
      v.ordered i,
    );
  }

-- What a call has to leave for the timer to be taken off.
pub taken :
    (e : ℕ) (m m' : TimerMgr)
    → IsValid m
    → IsIndexed m'
    → IsOrdered m'
    → ((t : ℕ) → (m'.timers t).index ≤ m'.size)
    → m'.address ≡ m.address
    → m'.compensate ≡ m.compensate
    → m'.size ≤ m'.room
    → ((t : ℕ) → queued m' t ≡ (not (e == t) && queued m t))
    → ((t : ℕ) → (e == t) ≡ false → strip (m'.timers t) ≡ strip (m.timers t))
    → ((t : ℕ) → (m'.timers t).expired ≡ (m.timers t).expired)
    → IsTaken e m m'
taken e m m' v h o tight named policy room members others expired = record {
  valid = record {
    indexed = h;
    ordered = o;
    tight = tight;
    held = λ t p.
        let differ : (e == t) ≡ false = ground (arith, members t, tight t) in
        let low : 0 < (m.timers t).index = ground (arith, members t, tight t) in
        let (owns, alive) = v.held t low in
        let same = others t differ in
        (ap (λ x. x.owner) same ∙ owns ∙ ap some (sym named), ap (λ x. x.self) same ∙ alive);
    roomy = room;
  };
  members = members;
  expired = expired;
  others = others;
  named = named;
  policy = policy;
}
