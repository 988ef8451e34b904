-- ===== src/Timer/Fates/Kept.antt =====
-- What the parts of Schedule and cancel of src/util/Timer.cpp leave of a timer that is canceled.
use mathlib.Core.Option.{some-injective}
use hwnet.Prelude.{
  ℕ, ◌<◌, ◌≡◌, ◌⊎◌, refl, ap, ◌∙◌, subst, Bool, true, false, List, ◌∷◌, Option, none, some, leb,
  ◌==◌, if◌then◌else◌, arith, Bool-cases, inl, inr,
}
use hwnet.Timer.{TimerMgr, remove}
use hwnet.Timer.View.{queued}
use hwnet.Timer.Calls.{IsValid, IsTaken}
use hwnet.Timer.Remove.{remove-IsTaken, remove-absent}
use hwnet.Timer.Schedule.{fires, round_begin, cancel_end}
use hwnet.Timer.Touch.{touch-IsValid}
use hwnet.Timer.Round.{IsFired, IsRound, one_due, round_begin-IsRound}
use hwnet.Timer.Finish.{IsEnded}
use hwnet.Timer.Due.{fired-same, fired-out}
use hwnet.Timer.Cancel.{marked, marked-IsLikely}
use hwnet.Timer.Fates.{System, IsSound, IsKept, same-result}

-- The timer that a round takes off.
pub begun-IsRound :
    (thread now t : ℕ) (ok : Bool) (m m' : TimerMgr)
    → IsValid m
    → round_begin thread now m ≡ some (fires t ok, m')
    → IsRound thread now m (fires t ok) m'
begun-IsRound thread now t ok m m' v e =
    let (r, w, done, what) = round_begin-IsRound thread now m v in
    subst (λ p. IsRound thread now m p.0 p.1) (same-result done e) what

module _ (s : System) (h : IsSound s) (thread now t : ℕ) (m' : TimerMgr)
    (f : IsFired thread now t s.mgr m') where
  begun-less : t < s.used
  begun-less = elim (Bool-cases (leb s.used t)) [
    | inl beyond ↦ absurd (ground (arith, h.fresh t, f.there, beyond))
    | inr less ↦ ground arith
  ]

  begun-IsSound :
      (ok : Bool) (calls : List ℕ)
      → IsSound (record s { mgr = m'; running = some (t, ok); calls = calls })
  begun-IsSound ok calls = record {
    valid = f.valid;
    fresh = λ u p. ground (arith, f.members u, f.valid.tight u, h.fresh u);
    running = λ t' ok' e.
        let same : t ≡ t' = ap (λ p. p.0) (some-injective (t, ok) (t', ok') e) in
        let (out, free) = fired-out thread now t s.mgr m' f in
        subst (λ u. ((m'.timers u).index ≡ 0) × ((m'.timers u).owner ≡ none) × (u < s.used)) same
          (out, free, begun-less);
  }

  begun-canceled : (u : ℕ) → (m'.timers u).canceled ≡ (s.mgr.timers u).canceled
  begun-canceled = fired-same thread now t s.mgr m' f (λ x. x.canceled) (λ x. refl) (λ x. refl)

pub begun-IsKept :
    (s : System) (thread now t : ℕ) (ok : Bool) (m' : TimerMgr)
    → IsSound s
    → IsRound thread now s.mgr (fires t ok) m'
    → IsSound
        (record s { mgr = m'; running = some (t, ok); calls = if ok then t ∷ s.calls else s.calls })
      × IsKept s (record s {
        mgr = m';
        running = some (t, ok);
        calls = if ok then t ∷ s.calls else s.calls;
      })
begun-IsKept s thread now t ok m' h (one_due _ _ f) = (
  begun-IsSound s h thread now t m' f ok _,
  (omega arith, λ u less e. (begun-canceled s h thread now t m' f u ∙ e, ground (arith, e))),
)

-- The end of a round.
pub ended-IsKept :
    (s : System) (m' : TimerMgr) (now t : ℕ) (ok : Bool)
    → IsSound s
    → s.running ≡ some (t, ok)
    → IsEnded now t s.mgr m'
    → IsSound (record s { mgr = m'; running = none })
      × IsKept s (record s { mgr = m'; running = none })
ended-IsKept s m' now t ok h e d =
    let (out, free, less) = h.running t ok e in
    (
      record {
        valid = d.valid;
        fresh = λ u p. d.kept u (ground (arith, less, p)) (ground (arith, h.fresh u p));
        running = λ u ok' e'. absurd (ground (arith, e'));
      },
      (omega arith, λ u p e'. (d.canceled u ∙ e', refl)),
    )

-- The first part of cancel.
pub marked-IsKept :
    (s : System) (t : ℕ)
    → IsSound s
    → IsSound (record s { mgr = marked t s.mgr }) × IsKept s (record s { mgr = marked t s.mgr })
marked-IsKept s t h = (
  record {
    valid = touch-IsValid t _ s.mgr (marked-IsLikely t s.mgr) h.valid;
    fresh = λ u p. ground (arith, h.fresh u);
    running = λ u ok e.
        let (out, free, less) = h.running u ok e in
        (ground (arith, out), ground (arith, free), less);
  },
  (omega arith, λ u p e. (ground (arith, e), refl)),
)

pub self-IsKept : (s : System) → IsSound s → IsSound s × IsKept s s
self-IsKept s h = (h, (omega arith, λ t less e. (e, refl)))

-- The second part of cancel.
removed-IsKept :
    (s : System) (m' : TimerMgr) (t : ℕ)
    → IsSound s
    → queued s.mgr t ≡ true
    → IsTaken t s.mgr m'
    → ((u : ℕ) → (m'.timers u).canceled ≡ (s.mgr.timers u).canceled)
    → IsSound (record s { mgr = m' }) × IsKept s (record s { mgr = m' })
removed-IsKept s m' t h there a canceled = (
  record {
    valid = a.valid;
    fresh = λ u p. ground (arith, a.members u, a.valid.tight u, h.fresh u);
    running = λ u ok e.
        let (out, free, less) = h.running u ok e in
        let differ : (t == u) ≡ false = ground (arith, there, out) in
        (
          ground (arith, a.members u, a.valid.tight u, out),
          ap (λ x. x.owner) (a.others u differ) ∙ free,
          less,
        );
  },
  (omega arith, λ u less e. (canceled u ∙ e, refl)),
)

cancel_end-null : (t : ℕ) (m : TimerMgr) → (m.timers t).owner ≡ none → cancel_end t m ≡ none
unfolding cancel_end
cancel_end-null t m free = rw free refl

cancel_end-found :
    (t owner : ℕ) (m m' : TimerMgr) (found : Bool)
    → (m.timers t).owner ≡ some owner
    → remove t m ≡ some (found, m')
    → cancel_end t m ≡ some m'
unfolding cancel_end
cancel_end-found t owner m m' found owns done = rw (owns, done) refl

-- The owner of a timer, with an equation.
owner-cases : (o : Option ℕ) → (o ≡ none) ⊎ ((a : ℕ) × (o ≡ some a))
owner-cases none = inl refl
owner-cases (some a) = inr (a, refl)

pub removes-IsKept :
    (s : System) (m' : TimerMgr) (t : ℕ)
    → IsSound s
    → cancel_end t s.mgr ≡ some m'
    → IsSound (record s { mgr = m' }) × IsKept s (record s { mgr = m' })
removes-IsKept s m' t h e = elim (owner-cases (s.mgr.timers t).owner) [
  | inl free ↦ absurd (ground (arith, cancel_end-null t s.mgr free, e))
  | inr (a, owns) ↦ elim (Bool-cases (queued s.mgr t)) [
    | inl there ↦
        let (w, done, taken, self, canceled) = remove-IsTaken t s.mgr h.valid there in
        subst (λ v. IsSound (record s { mgr = v }) × IsKept s (record s { mgr = v }))
          (same-result (cancel_end-found t a s.mgr w true owns done) e)
          (removed-IsKept s w t h there taken canceled)
    | inr absent ↦
        let out : (s.mgr.timers t).index ≡ 0 = ground (arith, h.valid.tight t, absent) in
        subst (λ v. IsSound (record s { mgr = v }) × IsKept s (record s { mgr = v }))
          (same-result
            (cancel_end-found t a s.mgr s.mgr false owns (remove-absent t a s.mgr owns out)) e)
          (self-IsKept s h)
  ]
]
