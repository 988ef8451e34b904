-- ===== src/Timer/Fates/Canceled.antt =====
-- What becomes of a canceled timer of src/util/Timer.h.
use hwnet.Prelude.{ℕ, ◌+◌, ◌<◌, ◌≡◌, refl, ap, ◌∙◌, subst, Bool, true, [], none, arith}
use hwnet.Timer.{new_manager}
use hwnet.Timer.View.{at}
use hwnet.Timer.Schedule.{cancel_begin}
use hwnet.Timer.Finish.{round_end-IsEnded}
use hwnet.Timer.Cancel.{marked, cancel_with-cases}
use hwnet.Timer.Fates.{
  System, Step, adds, begins, ends, cancels, removes, Reach, here, next, IsSound, times, IsKept,
  same-result, added, added-IsSound, added-IsKept,
}
use hwnet.Timer.Fates.Kept.{
  begun-IsRound, begun-IsKept, ended-IsKept, marked-IsKept, self-IsKept, removes-IsKept,
}

Step-IsKept : {s s' : System} → Step s s' → IsSound s → IsSound s' × IsKept s s'
unfolding cancel_begin
Step-IsKept (adds s m' expired timeout once e) h =
    let (w, done, a) = added s expired timeout once h in
    subst
      (λ v.
        IsSound (record s { mgr = v; used = s.used + 1 })
        × IsKept s (record s { mgr = v; used = s.used + 1 }))
      (ap (λ p. p.1) (same-result done e))
      (added-IsSound s expired timeout once h w a, added-IsKept s expired timeout once h w a)
Step-IsKept (begins s m' thread now t ok idle e) h =
    begun-IsKept s thread now t ok m' h (begun-IsRound thread now t ok s.mgr m' h.valid e)
Step-IsKept (ends s m' now t ok e done) h =
    let (out, free, less) = h.running t ok e in
    let (w, over, d) = round_end-IsEnded now t ok s.mgr h.valid out free in
    subst
      (λ v.
        IsSound (record s { mgr = v; running = none })
        × IsKept s (record s { mgr = v; running = none }))
      (same-result over done) (ended-IsKept s w now t ok h e d)
Step-IsKept (cancels s me t) h =
    cancel_with-cases (λ v. IsSound (record s { mgr = v }) × IsKept s (record s { mgr = v })) _ _ _
      s.mgr (marked t s.mgr) (λ e. self-IsKept s h) (marked-IsKept s t h)
Step-IsKept (removes s m' t e) h = removes-IsKept s m' t h e

-- A manager that has just been made.
abbrev pub start : ℕ → Bool → System
start address compensate = record {
  mgr = new_manager address compensate;
  running = none;
  calls = [];
  used = 0;
}

start-IsSound : (address : ℕ) (compensate : Bool) → IsSound (start address compensate)
unfolding new_manager at
start-IsSound address compensate = record {
  valid = record {
    indexed = record {
      filled = λ i p q. absurd (omega (arith, p, q));
      indices = λ i p q. absurd (omega (arith, p, q));
      owned = λ t p q. absurd (omega (arith, p));
    };
    ordered = λ c p q. absurd (omega (arith, p, q));
    tight = λ t. omega arith;
    held = λ t p. absurd (omega (arith, p));
    roomy = omega arith;
  };
  fresh = λ u p. refl;
  running = λ t ok e. absurd (ground (arith, e));
}

Reach-IsKept : {s s' : System} → IsSound s → Reach s s' → IsSound s' × IsKept s s'
Reach-IsKept {s} h here = self-IsKept s h
Reach-IsKept h (next r x) =
    let (sound, (grew, kept)) = Reach-IsKept h r in
    let (sound', (grew', kept')) = Step-IsKept x sound in
    (
      sound',
      (
        omega (arith, grew, grew'),
        λ t less e.
            let (still, same) = kept t less e in
            let (canceled, times_same) = kept' t (omega (arith, less, grew)) still in
            (canceled, times_same ∙ same),
      ),
    )

-- However timers are added, rounds of Schedule begin and end, and both parts of cancel interleave,
-- from a new manager on: once a timer is canceled, it stays so, and its callback is made no more.
pub canceled-times :
    (address : ℕ) (compensate : Bool) {s s' : System} (t : ℕ)
    → Reach (start address compensate) s
    → Reach s s'
    → t < s.used
    → (s.mgr.timers t).canceled ≡ true
    → ((s'.mgr.timers t).canceled ≡ true) × (times t s'.calls ≡ times t s.calls)
canceled-times address compensate t before after less e =
    let (sound, (grew, kept)) = Reach-IsKept (start-IsSound address compensate) before in
    let (sound', (grew', kept')) = Reach-IsKept sound after in kept' t less e
