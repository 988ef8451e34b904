-- ===== src/Timer/Routine/Examples.antt =====
-- Runs of the model of TimerRoutine of src/util/Timer.h.
use hwnet.Prelude.{◌≡◌, refl, false, none, some}
use hwnet.Timer.{top}
use hwnet.Timer.Examples.{two, two-IsValid}
use hwnet.Timer.Routine.{TimerRoutine, wait_begin, forever, fall_asleep}
use hwnet.Timer.Routine.Sleep.{here, next, waits, IsPunctual, Reach-IsPunctual}

abbrev sleeper : TimerRoutine
sleeper = record {
  mgr = two;
  stoped = false;
  waitting = false;
  wait_time = forever;
  since = 0;
  asleep = none;
}

waits_for_one : wait_begin 1 sleeper ≡ some (fall_asleep 1 2 sleeper)
unfolding wait_begin top
waits_for_one = refl

Reach-IsPunctual_example : IsPunctual (fall_asleep 1 2 sleeper)
Reach-IsPunctual_example =
    Reach-IsPunctual two-IsValid refl (next here (waits sleeper _ 1 refl waits_for_one))
