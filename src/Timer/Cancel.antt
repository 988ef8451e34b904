-- ===== src/Timer/Cancel.antt =====
-- cancel of src/util/Timer.cpp.
use mathlib.Core.Option.{some-injective}
use hwnet.Prelude.{
  ℕ, ◌≡◌, refl, sym, ap, ◌∙◌, subst, Bool, true, false, none, some, ◌&&◌, not, arith, ==_refl,
}
use hwnet.Timer.{TimerMgr, remove}
use hwnet.Timer.View.{queued}
use hwnet.Timer.Calls.{IsValid, IsTaken}
use hwnet.Timer.Remove.{remove-IsTaken}
use hwnet.Timer.Schedule.{
  touch, is_idle, fires, round_begin, cancel_ok, cancel_with, cancel_begin, cancel_end,
}
use hwnet.Timer.Touch.{IsLikely, touch-IsValid, queued-touch}
use hwnet.Timer.Round.{IsRound, one_due, round_begin-IsRound}

-- The timer with the bit that cancel sets.
abbrev pub marked : ℕ → TimerMgr → TimerMgr
marked t m = touch t (record (m.timers t) { canceled = true }) m

pub marked-IsLikely :
    (t : ℕ) (m : TimerMgr) → IsLikely m t (record (m.timers t) { canceled = true })
marked-IsLikely t m = record {
  index = refl;
  expired = λ p. refl;
  owner = λ p. refl;
  self = λ p. refl;
}

cancel_with-idle :
    (canceled in_callback here : Bool) (m c : TimerMgr)
    → (not canceled && not in_callback) ≡ true
    → cancel_with canceled in_callback here m c ≡ (cancel_ok, c)
unfolding cancel_with
cancel_with-idle false false here m c e = refl
cancel_with-idle false true here m c e = absurd (ground arith)
cancel_with-idle true in_callback here m c e = absurd (ground arith)

-- What holds of the manager when cancel did nothing, and when it set its bit, holds after it.
pub cancel_with-cases :
    (P : TimerMgr → Type 0) (canceled in_callback here : Bool) (m c : TimerMgr)
    → (canceled ≡ true → P m)
    → P c
    → P (cancel_with canceled in_callback here m c).1
unfolding cancel_with
cancel_with-cases P true in_callback here m c old new = old refl
cancel_with-cases P false false here m c old new = new
cancel_with-cases P false true true m c old new = new
cancel_with-cases P false true false m c old new = new

cancel_begin-idle :
    (me t : ℕ) (m : TimerMgr)
    → is_idle (m.timers t) ≡ true
    → cancel_begin me t m ≡ (cancel_ok, marked t m)
unfolding cancel_begin
cancel_begin-idle me t m e = cancel_with-idle _ _ _ m (marked t m) e

cancel_end-remove :
    (t owner : ℕ) (m m' : TimerMgr) (removed : Bool)
    → (m.timers t).owner ≡ some owner
    → remove t m ≡ some (removed, m')
    → cancel_end t m ≡ some m'
unfolding cancel_end
cancel_end-remove t owner m m' removed owns done = rw (owns, done) refl

-- cancel of a timer that waits returns cancel_ok, and takes it off the heap if Schedule does not come
-- between; but the timer still keeps itself alive.
cancel-IsTaken :
    (me t : ℕ) (m : TimerMgr)
    → IsValid m
    → queued m t ≡ true
    → is_idle (m.timers t) ≡ true
    → (c m' : TimerMgr) × (cancel_begin me t m ≡ (cancel_ok, c))
      × (cancel_end t c ≡ some m')
      × IsTaken t c m'
      × ((m'.timers t).self ≡ true)
cancel-IsTaken me t m v there idle =
    let c = marked t m in
    let l = marked-IsLikely t m in
    let valid = touch-IsValid t _ m l v in
    let waits : queued c t ≡ true = queued-touch t _ m l t ∙ there in
    let owns = (valid.held t (ground (arith, waits))).0 in
    let (m', done, taken, self, same) = remove-IsTaken t c valid waits in
    (
      c,
      m',
      cancel_begin-idle me t m idle,
      cancel_end-remove t m.address c m' true owns done,
      taken,
      self,
    )

race-IsRound :
    (t thread now : ℕ) (c m' : TimerMgr) (ok : Bool)
    → (c.timers t).canceled ≡ true
    → IsRound thread now c (fires t ok) m'
    → (ok ≡ false) × ((m'.timers t).owner ≡ none)
race-IsRound t thread now c m' ok e (one_due _ _ f) = (ground (arith, e), ap (λ x. x.owner) f.self)

-- Whatever cancel returns, the timer is canceled.
pub cancel_begin-canceled :
    (me t : ℕ) (m : TimerMgr) → ((cancel_begin me t m).1.timers t).canceled ≡ true
unfolding cancel_begin
cancel_begin-canceled me t m =
    cancel_with-cases (λ w. (w.timers t).canceled ≡ true) _ _ _ m (marked t m) (λ e. e)
      (rw (==_refl t) refl)

pub cancel_begin-IsValid : (me t : ℕ) (m : TimerMgr) → IsValid m → IsValid (cancel_begin me t m).1
unfolding cancel_begin
cancel_begin-IsValid me t m v =
    cancel_with-cases IsValid _ _ _ m (marked t m) (λ e. v)
      (touch-IsValid t _ m (marked-IsLikely t m) v)

-- Between the write of the status and the call of remove, cancel holds no lock. If Schedule takes the
-- timer off just then, its callback is not made, but mMgr is null when cancel calls remove.
pub cancel_race :
    (me t thread now : ℕ) (m m' : TimerMgr) (ok : Bool)
    → IsValid m
    → round_begin thread now (cancel_begin me t m).1 ≡ some (fires t ok, m')
    → (ok ≡ false) × (cancel_end t m' ≡ none)
unfolding cancel_end
cancel_race me t thread now m m' ok v begins =
    let c = (cancel_begin me t m).1 in
    let (r, w, done, what) = round_begin-IsRound thread now c (cancel_begin-IsValid me t m v) in
    let same : (r, w) ≡ (fires t ok, m') =
      some-injective (r, w) (fires t ok, m') (sym done ∙ begins) in
    let (refused, free) =
      race-IsRound t thread now c m' ok (cancel_begin-canceled me t m)
        (subst (λ p. IsRound thread now c p.0 p.1) same what) in
    (refused, rw free refl)
