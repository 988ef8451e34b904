-- ===== src/Timer/Calls.antt =====
-- The state of the heap of src/util/Timer.h between two calls, and what a call may do to it.
use hwnet.Prelude.{
  ==-≡, ℕ, ◌≤◌, ◌<◌, ◌≡◌, sym, ap, ◌∙◌, subst, true, false, some, ◌==◌, ◌&&◌, ◌||◌, not, arith,
  Bool-cases, inl, inr,
}
use hwnet.Timer.{Timer, TimerMgr}
use hwnet.Timer.View.{IsIndexed, IsRearranged, queued, strip}
use hwnet.Timer.Up.{IsOrdered}

-- Between two calls: the heap is in order, a timer with an index is in it, belongs to the manager and
-- keeps itself alive, and the vector has room.
pub record IsValid (m : TimerMgr) : Type 0 where
  pub indexed : IsIndexed m
  pub ordered : IsOrdered m
  pub tight : (t : ℕ) → (m.timers t).index ≤ m.size
  pub held :
      (t : ℕ)
      → 0 < (m.timers t).index
      → ((m.timers t).owner ≡ some m.address) × ((m.timers t).self ≡ true)
  pub roomy : m.size ≤ m.room

-- The heap has one timer more, and every timer its time.
pub record IsAdded (e : ℕ) (m m' : TimerMgr) : Type 0 where
  pub valid : IsValid m'
  pub members : (t : ℕ) → queued m' t ≡ (e == t || queued m t)
  pub expired : (t : ℕ) → (m'.timers t).expired ≡ (m.timers t).expired
  pub others : (t : ℕ) → (e == t) ≡ false → strip (m'.timers t) ≡ strip (m.timers t)
  pub own :
      strip (m'.timers e) ≡ record (strip (m.timers e)) { owner = some m.address; self = true }
  pub named : m'.address ≡ m.address
  pub policy : m'.compensate ≡ m.compensate

-- The heap has one timer less, and every timer its time.
pub record IsTaken (e : ℕ) (m m' : TimerMgr) : Type 0 where
  pub valid : IsValid m'
  pub members : (t : ℕ) → queued m' t ≡ (not (e == t) && queued m t)
  pub expired : (t : ℕ) → (m'.timers t).expired ≡ (m.timers t).expired
  pub others : (t : ℕ) → (e == t) ≡ false → strip (m'.timers t) ≡ strip (m.timers t)
  pub named : m'.address ≡ m.address
  pub policy : m'.compensate ≡ m.compensate

pub rearranged-tight :
    {m m' : TimerMgr}
    → IsRearranged m m'
    → ((t : ℕ) → (m.timers t).index ≤ m.size)
    → (t : ℕ) → (m'.timers t).index ≤ m'.size
rearranged-tight a tight t = ground (arith, a.members t, a.kept t, a.sized, tight t)

-- What stays of every timer when one is added.
pub added-same :
    {A : Type 0} (f : Timer → A) (e : ℕ) (m m' : TimerMgr)
    → ((x : Timer) → f x ≡ f (strip x))
    → ((x : Timer) → f (record (strip x) { owner = some m.address; self = true }) ≡ f x)
    → IsAdded e m m'
    → (t : ℕ) → f (m'.timers t) ≡ f (m.timers t)
added-same f e m m' bare kept a t = elim (Bool-cases (e == t)) [
  | inl same ↦
      subst (λ u. f (m'.timers u) ≡ f (m.timers u)) (==-≡ same)
        (bare (m'.timers e) ∙ ap f a.own ∙ kept (m.timers e))
  | inr differ ↦ bare (m'.timers t) ∙ ap f (a.others t differ) ∙ sym (bare (m.timers t))
]
