-- ===== src/Timer/Insert.antt =====
-- insert of src/util/Timer.h.
use hwnet.Prelude.{
  ==_refl, ℕ, ◌+◌, ◌/◌, ◌≤◌, ◌<◌, ◌≡◌, refl, sym, ap, ◌∙◌, true, false, none, some, ◌==◌, ◌||◌,
  if◌then◌else◌, arith, Bool-cases, inl, inr,
}
use hwnet.Timer.{Timer, TimerMgr, up, insert, grow, set_self}
use hwnet.Timer.View.{IsIndexed, IsRearranged, at, queued, strip}
use hwnet.Timer.Up.{IsOrdered, UpInv, up-Restores}
use hwnet.Timer.Tail.{expired-grow, index-grow, size-grow, key-grow, grow-IsIndexed}
use hwnet.Timer.Calls.{IsValid, IsAdded, rearranged-tight}

grow-UpInv :
    (e : ℕ) (m : TimerMgr) → IsValid m → (m.timers e).index ≡ 0 → UpInv (grow e m) (m.size + 1)
grow-UpInv e m v out =
    let h = v.indexed in
    let size = size-grow e m h out in
    record {
      indexed = grow-IsIndexed e m h out v.tight;
      low = omega arith;
      high = omega (arith, size);
      edges = λ c p q r.
          ground (arith, size, key-grow e m h out c, key-grow e m h out (c / 2), v.ordered c);
      bridged = λ c p q r t. omega (arith, q, r, size);
    }

abbrev alive : Timer → Timer
alive x = record x { self = true }

-- What set_self leaves as it was.
module _ (e : ℕ) (m : TimerMgr) where
  index-set_self : (t : ℕ) → ((set_self e true m).timers t).index ≡ (m.timers t).index
  index-set_self t = ground arith

  expired-set_self : (t : ℕ) → ((set_self e true m).timers t).expired ≡ (m.timers t).expired
  expired-set_self t = ground arith

  owner-set_self : (t : ℕ) → ((set_self e true m).timers t).owner ≡ (m.timers t).owner
  owner-set_self t = ground arith

  self-set_self : (t : ℕ) → ((set_self e true m).timers t).self ≡ (e == t || (m.timers t).self)
  self-set_self t = ground arith

  strip-set_self :
      (t : ℕ) → (e == t) ≡ false → strip ((set_self e true m).timers t) ≡ strip (m.timers t)
  strip-set_self t differ = rw differ refl

  own-set_self : strip ((set_self e true m).timers e) ≡ record (strip (m.timers e)) { self = true }
  own-set_self = rw (==_refl e) refl

  queued-set_self : (t : ℕ) → queued (set_self e true m) t ≡ queued m t
  queued-set_self t = ground arith

  set_self-IsIndexed : IsIndexed m → IsIndexed (set_self e true m)
  unfolding at
  set_self-IsIndexed h = record {
    filled = h.filled;
    indices = λ c p q. index-set_self (at m c) ∙ h.indices c p q;
    owned = λ t p q.
        let same = index-set_self t in
        ap (at m) same ∙ h.owned t (omega (arith, p, same)) (omega (arith, q, same));
  }

  set_self-IsOrdered : IsOrdered m → IsOrdered (set_self e true m)
  unfolding at
  set_self-IsOrdered o c p q =
      omega (arith, o c p q, expired-set_self (at m c), expired-set_self (at m (c / 2)))

insert-grow :
    (e : ℕ) (m m' : TimerMgr)
    → (m.timers e).owner ≡ none
    → (m.timers e).index ≡ 0
    → up (m.size + 1) (grow e m) ≡ some m'
    → insert e m ≡ some (true, set_self e true m')
unfolding insert
insert-grow e m m' free out done = rw (free, out, done) refl

-- The fields that grow writes.
module _ (e : ℕ) (m : TimerMgr) where
  owner-grow :
      (t : ℕ)
      → ((grow e m).timers t).owner ≡ (if e == t then some m.address else (m.timers t).owner)
  unfolding grow
  owner-grow t = ground arith

  self-grow : (t : ℕ) → ((grow e m).timers t).self ≡ (m.timers t).self
  unfolding grow
  self-grow t = ground arith

  strip-grow : (t : ℕ) → (e == t) ≡ false → strip ((grow e m).timers t) ≡ strip (m.timers t)
  unfolding grow
  strip-grow t differ = rw differ refl

  named-grow : (grow e m).address ≡ m.address
  unfolding grow
  named-grow = refl

  own-grow : strip ((grow e m).timers e) ≡ record (strip (m.timers e)) { owner = some m.address }
  unfolding grow
  own-grow = rw (==_refl e) refl

  policy-grow : (grow e m).compensate ≡ m.compensate
  unfolding grow
  policy-grow = refl

  room-grow : m.size ≤ m.room → (grow e m).size ≤ (grow e m).room
  unfolding grow
  room-grow le = ground arith

-- The timers in the heap after grow and up, and that they are held.
module _ (e : ℕ) (m m' : TimerMgr) (v : IsValid m) (out : (m.timers e).index ≡ 0)
    (a : IsRearranged (grow e m) m') where
  grown-tight : (t : ℕ) → (m'.timers t).index ≤ m'.size
  grown-tight =
      rearranged-tight a
        λ t. ground (arith, size-grow e m v.indexed out, index-grow e m v.indexed out t, v.tight t)

  grown-queued : (t : ℕ) → queued m' t ≡ (e == t || queued m t)
  grown-queued t =
      a.members t
      ∙ ground (arith, size-grow e m v.indexed out, index-grow e m v.indexed out t, v.tight t)

  grown-held :
      (t : ℕ)
      → 0 < (m'.timers t).index
      → ((m'.timers t).owner ≡ some m'.address) × ((e == t || (m'.timers t).self) ≡ true)
  grown-held t p =
      let owner : (m'.timers t).owner ≡ ((grow e m).timers t).owner =
        ap (λ x. x.owner) (a.strips t) in
      let self : (m'.timers t).self ≡ ((grow e m).timers t).self = ap (λ x. x.self) (a.strips t) in
      let address : some m.address ≡ some m'.address =
        ap some (sym (named-grow e m) ∙ sym a.named) in
      elim (Bool-cases (e == t)) [
        | inl new ↦ (owner ∙ owner-grow e m t ∙ rw new address, rw new refl)
        | inr old ↦
            let low : 0 < (m.timers t).index = ground (arith, grown-queued t, grown-tight t) in
            let (owns, alive) = v.held t low in
            (
              owner ∙ owner-grow e m t ∙ rw old (owns ∙ address),
              rw old (self ∙ self-grow e m t ∙ alive),
            )
      ]

-- A timer that is in no heap is in the heap once insert has returned true, with all that were in it,
-- and the heap is in order.
pub insert-IsAdded :
    (e : ℕ) (m : TimerMgr)
    → IsValid m
    → (m.timers e).owner ≡ none
    → (m.timers e).index ≡ 0
    → (m' : TimerMgr) × (insert e m ≡ some (true, m')) × IsAdded e m m'
insert-IsAdded e m v free out =
    let (m', done, a, ordered) = up-Restores (m.size + 1) (grow e m) (grow-UpInv e m v out) in
    let h = v.indexed in
    let size = size-grow e m h out in
    (
      set_self e true m',
      insert-grow e m m' free out done,
      record {
        valid = record {
          indexed = set_self-IsIndexed e m' a.indexed;
          ordered = set_self-IsOrdered e m' ordered;
          tight = λ t. omega (arith, index-set_self e m' t, grown-tight e m m' v out a t);
          held = λ t p.
              let (owns, alive) =
                grown-held e m m' v out a t (omega (arith, p, index-set_self e m' t)) in
              (owner-set_self e m' t ∙ owns, self-set_self e m' t ∙ alive);
          roomy = omega (arith, a.sized, a.roomy, room-grow e m v.roomy);
        };
        members = λ t. queued-set_self e m' t ∙ grown-queued e m m' v out a t;
        expired = λ t.
            expired-set_self e m' t ∙ ap (λ x. x.expired) (a.strips t) ∙ expired-grow e m h out t;
        others = λ t differ. strip-set_self e m' t differ ∙ a.strips t ∙ strip-grow e m t differ;
        own = own-set_self e m' ∙ ap alive (a.strips e ∙ own-grow e m);
        named = a.named ∙ named-grow e m;
        policy = a.policy ∙ policy-grow e m;
      },
    )
