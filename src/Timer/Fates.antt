-- ===== src/Timer/Fates.antt =====
-- The calls on the manager of src/util/Timer.h in any order, and what becomes of a canceled timer.
pub mod Kept
pub mod Canceled
use mathlib.Core.Option.{some-injective}
use hwnet.Prelude.{
  ℕ, ◌+◌, ◌-◌, ◌≤◌, ◌<◌, ◌≡◌, ◌⊎◌, refl, sym, ap, ◌∙◌, subst, Bool, true, false, List, [], ◌∷◌,
  Option, none, some, put, ltb, leb, ◌==◌, ◌&&◌, ◌||◌, not, if◌then◌else◌, arith, Bool-cases, inl,
  inr, put-at, put-past, ==_refl, ==-≡,
}
use hwnet.Timer.{Timer, TimerMgr, new_timer, new_manager, insert, remove}
use hwnet.Timer.View.{IsIndexed, queued, strip, at, default_to}
use hwnet.Timer.Calls.{IsValid, IsAdded, IsTaken, added-same}
use hwnet.Timer.Insert.{insert-IsAdded}
use hwnet.Timer.Remove.{remove-IsTaken, remove-absent}
use hwnet.Timer.Schedule.{
  touch, is_idle, Round, stops, fires, round_begin, round_end, cancel_begin, cancel_end,
}
use hwnet.Timer.Touch.{IsLikely, touch-IsValid, queued-touch}
use hwnet.Timer.Round.{IsFired, IsRound, one_due, round_begin-IsRound}
use hwnet.Timer.Finish.{IsEnded, round_end-IsEnded}
use hwnet.Timer.Due.{fired-same, fired-out}
use hwnet.Timer.Cancel.{marked, marked-IsLikely, cancel_with-cases}

-- A manager with the timer whose round is under way and whether its callback was made, the timers
-- whose callbacks were made, the last first, and the number of timers there have been.
pub record System : Type 0 where
  pub mgr : TimerMgr
  pub running : Option (ℕ × Bool)
  pub calls : List ℕ
  pub used : ℕ

-- addTimer with a new timer, the two parts of a round of Schedule, and the two parts of cancel.
pub data Step : System → System → Type 0 where
  adds :
      (s : System) (m' : TimerMgr) (expired timeout : ℕ) (once : Bool)
      → insert s.used (touch s.used (new_timer expired timeout once) s.mgr) ≡ some (true, m')
      → Step s (record s { mgr = m'; used = s.used + 1 })
  begins :
      (s : System) (m' : TimerMgr) (thread now t : ℕ) (ok : Bool)
      → s.running ≡ none
      → round_begin thread now s.mgr ≡ some (fires t ok, m')
      → Step s (record s {
        mgr = m';
        running = some (t, ok);
        calls = if ok then t ∷ s.calls else s.calls;
      })
  ends :
      (s : System) (m' : TimerMgr) (now t : ℕ) (ok : Bool)
      → s.running ≡ some (t, ok)
      → round_end now t ok s.mgr ≡ some m'
      → Step s (record s { mgr = m'; running = none })
  cancels : (s : System) (me t : ℕ) → Step s (record s { mgr = (cancel_begin me t s.mgr).1 })
  removes :
      (s : System) (m' : TimerMgr) (t : ℕ)
      → cancel_end t s.mgr ≡ some m'
      → Step s (record s { mgr = m' })

pub data Reach (s : System) : System → Type 0 where
  here : Reach s s
  next : {t u : System} → Reach s t → Step t u → Reach s u

-- The heap is in order, no timer to come is in it, and the one whose round is under way is not.
pub record IsSound (s : System) : Type 0 where
  pub valid : IsValid s.mgr
  pub fresh : (u : ℕ) → s.used ≤ u → (s.mgr.timers u).index ≡ 0
  pub running :
      (t : ℕ) (ok : Bool)
      → s.running ≡ some (t, ok)
      → ((s.mgr.timers t).index ≡ 0) × ((s.mgr.timers t).owner ≡ none) × (t < s.used)

-- How often a timer's callback was made.
abbrev pub times : ℕ → List ℕ → ℕ
times t [] = 0
times t (u ∷ us) = (if t == u then 1 else 0) + times t us

-- What a step keeps of the timers that are canceled.
abbrev pub IsKept : System → System → Type 0
IsKept s s' =
    (s.used ≤ s'.used)
    × ((t : ℕ)
        → t < s.used
        → (s.mgr.timers t).canceled ≡ true
        → ((s'.mgr.timers t).canceled ≡ true) × (times t s'.calls ≡ times t s.calls))

pub same-result : {A : Type 0} {r : Option A} {a b : A} → r ≡ some a → r ≡ some b → a ≡ b
same-result {A} {r} {a} {b} p q = some-injective a b (sym p ∙ q)

-- A new timer.
module _ (s : System) (expired timeout : ℕ) (once : Bool) (h : IsSound s) where
  abbrev created : TimerMgr
  created = touch s.used (new_timer expired timeout once) s.mgr

  created-IsLikely : IsLikely s.mgr s.used (new_timer expired timeout once)
  created-IsLikely =
      let out = h.fresh s.used (omega arith) in
      record {
        index = sym out;
        expired = λ p. absurd (omega (arith, p, out));
        owner = λ p. absurd (omega (arith, p, out));
        self = λ p. absurd (omega (arith, p, out));
      }

  pub added :
      (m' : TimerMgr) × (insert s.used created ≡ some (true, m')) × IsAdded s.used created m'
  added =
      insert-IsAdded s.used created (touch-IsValid s.used _ s.mgr created-IsLikely h.valid)
        (rw (==_refl s.used) refl) (rw (==_refl s.used) refl)

  pub added-IsSound :
      (m' : TimerMgr)
      → IsAdded s.used created m'
      → IsSound (record s { mgr = m'; used = s.used + 1 })
  added-IsSound m' a = record {
    valid = a.valid;
    fresh = λ u p. ground (
      arith,
      a.members u,
      queued-touch s.used _ s.mgr created-IsLikely u,
      a.valid.tight u,
      h.fresh u,
    );
    running = λ t ok e.
        let (out, free, less) = h.running t ok e in
        let differ : (s.used == t) ≡ false = ground (arith, less) in
        (
          ground (
            arith,
            differ,
            out,
            a.members t,
            queued-touch s.used _ s.mgr created-IsLikely t,
            a.valid.tight t,
          ),
          ap (λ x. x.owner) (a.others t differ) ∙ rw differ free,
          omega (arith, less),
        );
  }

  pub added-IsKept :
      (m' : TimerMgr)
      → IsAdded s.used created m'
      → IsKept s (record s { mgr = m'; used = s.used + 1 })
  added-IsKept m' a = (
    omega arith,
    λ t less e.
        let differ : (s.used == t) ≡ false = ground (arith, less) in
        (
          added-same (λ x. x.canceled) s.used created m' (λ x. refl) (λ x. refl) a t ∙ rw differ e,
          refl,
        ),
  )
