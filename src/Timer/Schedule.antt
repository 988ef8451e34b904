-- ===== src/Timer/Schedule.antt =====
-- src/util/Timer.cpp: cancel, and Schedule with the part of each round before and after the callback.
use hwnet.Prelude.{
  ℕ, zero, suc, ◌+◌, Bool, true, false, Option, none, some, ◌>>=◌, put, ltb, ◌==◌, ◌&&◌, ◌||◌, not,
  if◌then◌else◌,
}
use hwnet.Timer.{Timer, TimerMgr, top, pop, insert, remove}

-- A timer is written, its place in the heap left alone.
abbrev pub touch : ℕ → Timer → TimerMgr → TimerMgr
touch t x m = record m { timers = put t x m.timers }

-- How a round of Schedule begins: the loop ends, or a timer is taken off, and its callback is made
-- if its status was 0.
pub data Round : Type 0 where
  stops : Round
  fires : ℕ → Bool → Round

-- mStatus.compare_exchange_strong(0,incallback)
abbrev pub is_idle : Timer → Bool
is_idle x = not x.canceled && not x.in_callback

abbrev pub enter : ℕ → Timer → Timer
enter thread x = record x { thread = some thread; in_callback = x.in_callback || is_idle x }

unfoldable pub round_begin : ℕ → ℕ → TimerMgr → Option (Round × TimerMgr)
round_begin thread now m =
    let step : Option (Round × TimerMgr) = do
      t ← top m
      let fired : Option (Round × TimerMgr) = do
        m' ← pop (touch t (enter thread (m.timers t)) m)
        some (fires t (is_idle (m.timers t)), m')
      if ltb now (m.timers t).expired then some (stops, m) else fired
    in if ltb 0 m.size then step else some (stops, m)

-- The time at which a timer that repeats is due again.
abbrev pub next_time : Bool → ℕ → Timer → ℕ
next_time compensate now x = if compensate then x.expired + x.timeout else now + x.timeout

abbrev pub drop_callback : ℕ → TimerMgr → TimerMgr
drop_callback t m = touch t (record (m.timers t) { callback = false }) m

-- The end of a round, where the status is compared with incallback.
unfoldable pub round_end : ℕ → ℕ → Bool → TimerMgr → Option TimerMgr
round_end now t ok m =
    let x = m.timers t in
    let again = record x { in_callback = false; expired = next_time m.compensate now x } in
    let reinserted : Option TimerMgr = do
      (inserted, m') ← insert t (touch t again m)
      some (touch t (record (m'.timers t) { thread = none }) m')
    in if ok && not x.once && x.in_callback && not x.canceled
      then reinserted
      else some (drop_callback t m)

-- Schedule, with fuel for its rounds; `run` is what a callback does to the manager.
unfoldable pub schedule : (ℕ → TimerMgr → TimerMgr) → ℕ → ℕ → ℕ → TimerMgr → Option TimerMgr
schedule run zero thread now m = none
schedule run (suc k) thread now m = do
  (r, m') ← round_begin thread now m
  elim r [
    | stops ↦ some m'
    | fires t ok ↦
        round_end now t ok (if ok then run t m' else m') >>= λ m''. schedule run k thread now m''
  ]

-- What cancel returns.
pub data Answer : Type 0 where
  cancel_ok : Answer
  doing_callback_in_current_thread : Answer
  doing_callback_in_other_thread : Answer
  invaild_timer : Answer

abbrev pub is_thread : ℕ → Option ℕ → Bool
is_thread me none = false
is_thread me (some k) = me == k

-- The branches of cancel, by the two bits of the status and whether the thread is the callback's.
unfoldable pub cancel_with : Bool → Bool → Bool → TimerMgr → TimerMgr → Answer × TimerMgr
cancel_with true in_callback here m marked = (invaild_timer, m)
cancel_with false false here m marked = (cancel_ok, marked)
cancel_with false true true m marked = (doing_callback_in_current_thread, marked)
cancel_with false true false m marked = (doing_callback_in_other_thread, marked)

-- cancel up to the call of remove, in the thread `me`; after cancel_ok the call follows.
unfoldable pub cancel_begin : ℕ → ℕ → TimerMgr → Answer × TimerMgr
cancel_begin me t m =
    let x = m.timers t in
    cancel_with x.canceled x.in_callback (is_thread me x.thread) m
      (touch t (record x { canceled = true }) m)

-- mMgr->remove(s); `none` is a call through the null pointer.
unfoldable pub cancel_end : ℕ → TimerMgr → Option TimerMgr
cancel_end t m = do manager ← (m.timers t).owner; (removed, m') ← remove t m; some m'
