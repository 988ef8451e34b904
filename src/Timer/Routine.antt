-- ===== src/Timer/Routine.antt =====
-- TimerRoutine of src/util/Timer.h and src/util/Timer.cpp: the thread that waits for the timers.
pub mod Sleep
mod Examples
use hwnet.Prelude.{
  ℕ, ◌+◌, ◌-◌, Bool, true, false, Option, none, some, ◌>>=◌, ltb, ◌==◌, ◌&&◌, if◌then◌else◌,
}
use hwnet.Timer.{Timer, TimerMgr, new_timer, top, insert}
use hwnet.Timer.Schedule.{touch}

-- `since` is the time that wait was called with, and `asleep` the time at which wait_for ends by
-- itself, counted from there; `none` when the thread is not in wait_for.
pub record TimerRoutine : Type 0 where
  pub mgr : TimerMgr
  pub stoped : Bool
  pub waitting : Bool
  pub wait_time : ℕ
  pub since : ℕ
  pub asleep : Option ℕ

abbrev pub forever : ℕ
forever = 4294967295

-- cv.wait_for, entered with the lock.
abbrev pub fall_asleep : ℕ → ℕ → TimerRoutine → TimerRoutine
fall_asleep now time r = record r {
  waitting = true;
  wait_time = time;
  since = now;
  asleep = some (now + time);
}

abbrev pub leave : TimerRoutine → TimerRoutine
leave r = record r { waitting = false; asleep = none }

-- wait up to wait_for; `none` is a null pointer that is followed.
unfoldable pub wait_begin : ℕ → TimerRoutine → Option TimerRoutine
wait_begin now r =
    let step : Option TimerRoutine = do
      t ← top r.mgr
      let expired = (r.mgr.timers t).expired
      some (if ltb now expired then fall_asleep now (expired - now) r else leave r)
    in if r.mgr.size == 0 then some (fall_asleep now forever r) else step

-- wait_for returns, by a notification, by itself, or without a reason.
unfoldable pub wait_end : TimerRoutine → TimerRoutine
wait_end r = leave r

-- cv.notify_one
abbrev pub notify : TimerRoutine → TimerRoutine
notify r = record r { asleep = none }

-- addTimer and addTimerOnce, for a timer at the address `t`.
unfoldable pub add_timer : ℕ → ℕ → Bool → ℕ → TimerRoutine → Option TimerRoutine
add_timer now timeout once t r = do
  (added, m) ← insert t (touch t (new_timer (now + timeout) timeout once) r.mgr)
  let r' = record r { mgr = m }
  some (
      if r.waitting && ltb timeout r.wait_time
      then notify (record r' { wait_time = timeout })
      else r')

-- Stop, up to the join.
unfoldable pub stop : TimerRoutine → TimerRoutine
stop r =
    let stopped = record r { stoped = true } in
    if r.stoped then r else if r.waitting then notify stopped else stopped
