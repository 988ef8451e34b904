-- ===== src/Timer/Due.antt =====
-- How many timers are due for Schedule of src/util/Timer.cpp, and when it makes them fewer.
use hwnet.Prelude.{
  ℕ, zero, suc, ◌+◌, ◌≤◌, ◌<◌, ◌≡◌, refl, sym, ap, ◌∙◌, subst, Bool, true, false, none, leb, ◌==◌,
  ◌&&◌, if◌then◌else◌, arith, Bool-cases, inl, inr, ==-≡,
}
use hwnet.Timer.{Timer, TimerMgr}
use hwnet.Timer.View.{queued, strip}
use hwnet.Timer.Calls.{IsValid}
use hwnet.Timer.Schedule.{enter}
use hwnet.Timer.Round.{IsFired}
use hwnet.Timer.Pop.{popped}

-- Whether a timer waits and is due.
abbrev pub due : ℕ → TimerMgr → ℕ → Bool
due now m u = queued m u && leb (m.timers u).expired now

-- How many of the first `n` timers wait and are due.
unfoldable pub due_count : ℕ → ℕ → TimerMgr → ℕ
due_count zero now m = 0
due_count (suc n) now m = due_count n now m + (if due now m n then 1 else 0)

due_count-le :
    (n now : ℕ) (m m' : TimerMgr)
    → ((u : ℕ) → due now m' u ≡ true → due now m u ≡ true)
    → due_count n now m' ≤ due_count n now m
unfolding due_count
due_count-le zero now m m' h = omega arith
due_count-le (suc n) now m m' h =
    let rest = due_count-le n now m m' h in
    elim (Bool-cases (due now m' n)) [
      | inl e ↦ rw (e, h n e) (omega (arith, rest))
      | inr e ↦ rw e (omega (arith, rest))
    ]

pub due_count-lt :
    (n now t : ℕ) (m m' : TimerMgr)
    → ((u : ℕ) → due now m' u ≡ true → due now m u ≡ true)
    → t < n
    → due now m t ≡ true
    → due now m' t ≡ false
    → due_count n now m' < due_count n now m
unfolding due_count
due_count-lt zero now t m m' h p e e' = absurd (omega (arith, p))
due_count-lt (suc n) now t m m' h p e e' = elim (Bool-cases (t == n)) [
  | inl same ↦
      let rest = due_count-le n now m m' h in
      let here = ap (due now m) (sym (==-≡ same)) ∙ e in
      let there = ap (due now m') (sym (==-≡ same)) ∙ e' in rw (here, there) (omega (arith, rest))
  | inr differ ↦
      let rest = due_count-lt n now t m m' h (ground (arith, p, differ)) e e' in
      elim (Bool-cases (due now m' n)) [
        | inl d ↦ rw (d, h n d) (omega (arith, rest))
        | inr d ↦ rw d (omega (arith, rest))
      ]
]

-- A heap that Schedule runs on: in order, with the first policy, its timers among the first `n`,
-- and no timer repeats at once.
pub record IsReady (n : ℕ) (m : TimerMgr) : Type 0 where
  pub valid : IsValid m
  pub policy : m.compensate ≡ false
  pub known : (u : ℕ) → queued m u ≡ true → u < n
  pub positive : (u : ℕ) → (m.timers u).once ≡ false → 0 < (m.timers u).timeout

-- Callbacks that, on a heap that Schedule runs on, may cancel timers and add some that are not due,
-- leave the timer that runs out of the heap, and leave such a heap.
pub record IsTame (n now : ℕ) (run : ℕ → TimerMgr → TimerMgr) : Type 0 where
  pub ready : (t : ℕ) (m : TimerMgr) → IsReady n m → IsReady n (run t m)
  pub out :
      (t : ℕ) (m : TimerMgr) → IsReady n m → (m.timers t).index ≡ 0 → ((run t m).timers t).index ≡ 0
  pub free :
      (t : ℕ) (m : TimerMgr)
      → IsReady n m
      → (m.timers t).owner ≡ none
      → ((run t m).timers t).owner ≡ none
  pub later :
      (t : ℕ) (m : TimerMgr)
      → IsReady n m
      → (u : ℕ) → due now (run t m) u ≡ true
      → due now m u ≡ true

module _ (thread now t : ℕ) (m m' : TimerMgr) (f : IsFired thread now t m m') where
  pub fired-same :
      {A : Type 0} (g : Timer → A)
      → ((x : Timer) → g x ≡ g (strip x))
      → ((x : Timer) → g (popped (enter thread x)) ≡ g x)
      → (u : ℕ) → g (m'.timers u) ≡ g (m.timers u)
  fired-same g bare kept u = elim (Bool-cases (t == u)) [
    | inl same ↦
        subst (λ w. g (m'.timers w) ≡ g (m.timers w)) (==-≡ same)
          (bare (m'.timers t) ∙ ap g f.self ∙ kept (m.timers t))
    | inr differ ↦ bare (m'.timers u) ∙ ap g (f.others u differ) ∙ sym (bare (m.timers u))
  ]

  pub fired-out : ((m'.timers t).index ≡ 0) × ((m'.timers t).owner ≡ none)
  fired-out = (ground (arith, f.members t, f.valid.tight t), ap (λ x. x.owner) f.self)

  pub fired-later : (u : ℕ) → due now m' u ≡ true → due now m u ≡ true
  fired-later u e =
      let expired = fired-same (λ x. x.expired) (λ x. refl) (λ x. refl) u in
      ground (arith, f.members u, expired)

  pub fired-due : due now m t ≡ true
  fired-due = ground (arith, f.there, f.due)

  fired-gone : due now m' t ≡ false
  fired-gone = ground (arith, f.members t)
