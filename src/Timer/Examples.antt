-- ===== src/Timer/Examples.antt =====
-- Runs of the model of src/util/Timer.h and src/util/Timer.cpp.
use hwnet.Prelude.{ℕ, ◌≤◌, ◌≡◌, refl, Bool, true, false, [], none, some, ◌==◌, if◌then◌else◌, arith}
use hwnet.Timer.{
  grow, up, up_loop, swap, cut, down, down_loop, earlier, expired_at, Timer, TimerMgr, new_timer,
  new_manager, insert, pop, top, remove,
}
use hwnet.Timer.View.{at, default_to, queued, strip}
use hwnet.Timer.Calls.{IsValid, IsAdded, IsTaken}
use hwnet.Timer.Insert.{insert-IsAdded}
use hwnet.Timer.Pop.{pop-IsTaken, popped}
use hwnet.Timer.Remove.{remove-IsTaken}
use hwnet.Timer.Schedule.{
  cancel_with, Round, fires, round_begin, schedule, cancel_begin, cancel_end, touch,
}
use hwnet.Timer.Touch.{IsLikely, touch-IsValid}
use hwnet.Timer.Round.{IsRound, round_begin-IsRound}
use hwnet.Timer.Due.{IsReady, due_count}
use hwnet.Timer.Adding.{adds_timer, adds_timer-IsTame}
use hwnet.Timer.Ends.{IsOver, schedule-IsOver}
use hwnet.Timer.Cancel.{cancel_race, cancel_begin-canceled}
use hwnet.Timer.Fates.{System, Reach, here, next, adds, cancels, begins, times}
use hwnet.Timer.Fates.Canceled.{start, canceled-times}

-- Timer 1 is due at 3 and repeats every 10; timer 0 is due at 5, once.
abbrev pub waiting : ℕ → ℕ → ℕ → Bool → Timer
waiting index expired timeout once = record (new_timer expired timeout once) {
  index = index;
  owner = some 9;
  self = true;
}

abbrev pub two : TimerMgr
two = record {
  address = 9;
  compensate = false;
  size = 2;
  room = 2;
  elements = λ off. if off == 0 then some 1 else if off == 1 then some 0 else none;
  timers = λ t.
      if t == 0
      then waiting 2 5 5 true
      else if t == 1
      then waiting 1 3 10 false
      else new_timer 0 0 true;
}

pub two-IsValid : IsValid two
unfolding at default_to
two-IsValid = record {
  indexed = record {
    filled = λ i p q. ground arith;
    indices = λ i p q. ground arith;
    owned = λ t p q. ground arith;
  };
  ordered = λ c p q. ground arith;
  tight = λ t. ground arith;
  held = λ t p. ground arith;
  roomy = omega arith;
}

third-IsLikely : IsLikely two 2 (new_timer 1 1 true)
third-IsLikely = record {
  index = refl;
  expired = λ p. absurd (omega (arith, p));
  owner = λ p. absurd (omega (arith, p));
  self = λ p. absurd (omega (arith, p));
}

insert-IsAdded_example :
    (m : TimerMgr) × (insert 2 (touch 2 (new_timer 1 1 true) two) ≡ some (true, m))
    × IsAdded 2 (touch 2 (new_timer 1 1 true) two) m
insert-IsAdded_example =
    insert-IsAdded 2 (touch 2 (new_timer 1 1 true) two)
      (touch-IsValid 2 _ two third-IsLikely two-IsValid) refl refl

pop-IsTaken_example :
    (m : TimerMgr) × (top two ≡ some 1)
    × (pop two ≡ some m)
    × IsTaken 1 two m
    × (strip (m.timers 1) ≡ popped (two.timers 1))
    × ((t : ℕ) → queued two t ≡ true → 3 ≤ (two.timers t).expired)
unfolding at default_to
pop-IsTaken_example = pop-IsTaken two two-IsValid (omega arith)

remove-IsTaken_example :
    (m : TimerMgr) × (remove 1 two ≡ some (true, m))
    × IsTaken 1 two m
    × ((m.timers 1).self ≡ true)
    × ((u : ℕ) → (m.timers u).canceled ≡ (two.timers u).canceled)
remove-IsTaken_example = remove-IsTaken 1 two two-IsValid refl

round_begin-IsRound_example :
    (r : Round) × (m : TimerMgr) × (round_begin 1 4 two ≡ some (r, m)) × IsRound 1 4 two r m
round_begin-IsRound_example = round_begin-IsRound 1 4 two two-IsValid

two-IsReady : IsReady 3 two
two-IsReady = record {
  valid = two-IsValid;
  policy = refl;
  known = λ u e. ground arith;
  positive = λ u e. ground arith;
}

one_due_of_two : due_count 3 4 two ≡ 1
unfolding due_count
one_due_of_two = refl

-- The callback of timer 1 adds timer 2, which is due at 9, once.
abbrev adding : ℕ → TimerMgr → TimerMgr
adding = adds_timer 2 (new_timer 9 5 true)

schedule-IsOver_example : IsOver 3 4 (schedule adding 3 1 4 two)
schedule-IsOver_example =
    schedule-IsOver adding 3 1 4 3 two (adds_timer-IsTame 2 3 4 9 5 (omega arith) (omega arith))
      two-IsReady (omega (arith, one_due_of_two))

-- cancel marks timer 1, and Schedule takes it off before cancel calls remove.
marked_two : TimerMgr
marked_two = (cancel_begin 7 1 two).1

race_begins : (m : TimerMgr) × (round_begin 1 4 marked_two ≡ some (fires 1 false, m))
unfolding marked_two cancel_begin cancel_with round_begin top pop swap cut down down_loop earlier
    expired_at
race_begins = (_, refl)

cancel_race_example : (false ≡ false) × (cancel_end 1 race_begins.0 ≡ none)
unfolding marked_two
cancel_race_example = cancel_race 7 1 1 4 two race_begins.0 false two-IsValid race_begins.1

-- One timer is added to a new manager and canceled; then its time has come.
one_added :
    (m : TimerMgr) × (insert 0 (touch 0 (new_timer 5 5 true) (start 9 false).mgr) ≡ some (true, m))
unfolding insert new_manager grow up up_loop
one_added = (_, refl)

abbrev canceled_one : System
canceled_one = record (start 9 false) { mgr = (cancel_begin 7 0 one_added.0).1; used = 1 }

canceled_one-Reach : Reach (start 9 false) canceled_one
canceled_one-Reach =
    next (next here (adds (start 9 false) one_added.0 5 5 true one_added.1)) (cancels _ 7 0)

one_begins : (m : TimerMgr) × (round_begin 1 8 canceled_one.mgr ≡ some (fires 0 false, m))
unfolding one_added insert new_manager grow up up_loop cancel_begin cancel_with round_begin top pop
    swap cut down down_loop earlier expired_at
one_begins = (_, refl)

abbrev begun_one : System
begun_one = record canceled_one { mgr = one_begins.0; running = some (0, false); calls = [] }

canceled-times_example :
    ((begun_one.mgr.timers 0).canceled ≡ true)
    × (times 0 begun_one.calls ≡ times 0 canceled_one.calls)
unfolding canceled_one-Reach
canceled-times_example =
    canceled-times 9 false 0 canceled_one-Reach
      (next here (begins canceled_one one_begins.0 1 8 0 false refl one_begins.1)) (omega arith)
      (cancel_begin-canceled 7 0 one_added.0)
