-- ===== src/Timer.antt =====
-- src/util/Timer.h and src/util/Timer.cpp: the timers, and the heap in which TimerMgr keeps them.
pub mod View
pub mod Up
pub mod Down
pub mod Change
pub mod Tail
pub mod Calls
pub mod Insert
pub mod Gap
pub mod Pop
pub mod Left
pub mod Remove
pub mod Schedule
pub mod Touch
pub mod Round
pub mod Finish
pub mod Due
pub mod Ends
mod Adding
pub mod Cancel
pub mod Fates
pub mod Routine
mod Examples
use hwnet.Prelude.{
  ℕ, zero, suc, ◌+◌, ◌-◌, ◌*◌, ◌/◌, Bool, true, false, Option, none, some, ◌>>=◌, put, ltb, leb,
  ◌==◌, ◌||◌, not, if◌then◌else◌,
}

-- A timer. `owner` is mMgr, `self` whether selfPtr holds the timer itself, `callback` whether
-- mCallback is set, and `canceled` and `in_callback` are the two bits of mStatus.
pub record Timer : Type 0 where
  pub expired : ℕ
  pub timeout : ℕ
  pub once : Bool
  pub owner : Option ℕ
  pub index : ℕ
  pub canceled : Bool
  pub in_callback : Bool
  pub callback : Bool
  pub self : Bool
  pub thread : Option ℕ

-- A manager and the timers by their addresses. `elements` is the vector by offset, where `none` is
-- the null pointer, `room` the size of the vector, and `size` is elements_size.
pub record TimerMgr : Type 0 where
  pub address : ℕ
  pub compensate : Bool
  pub size : ℕ
  pub room : ℕ
  pub elements : ℕ → Option ℕ
  pub timers : ℕ → Timer

-- Timer(ExpiredTime,timeout,once,cb)
abbrev pub new_timer : ℕ → ℕ → Bool → Timer
new_timer expired timeout once = record {
  expired = expired;
  timeout = timeout;
  once = once;
  owner = none;
  index = 0;
  canceled = false;
  in_callback = false;
  callback = true;
  self = false;
  thread = none;
}

-- TimerMgr(policy)
unfoldable pub new_manager : ℕ → Bool → TimerMgr
new_manager address compensate = record {
  address = address;
  compensate = compensate;
  size = 0;
  room = 0;
  elements = λ off. none;
  timers = λ t. new_timer 0 0 true;
}

-- mIndex of one timer is written.
abbrev pub set_index : ℕ → ℕ → (ℕ → Timer) → ℕ → Timer
set_index t i f = put t (record (f t) { index = i }) f

-- this->elements[getOffset(idx)]->mExpiredTime
unfoldable pub expired_at : ℕ → TimerMgr → Option ℕ
expired_at idx m = do t ← m.elements (idx - 1); some (m.timers t).expired

-- swap
unfoldable pub swap : ℕ → ℕ → TimerMgr → Option TimerMgr
swap idx1 idx2 m = if idx1 == idx2 then some m else do
  e ← m.elements (idx1 - 1)
  f ← m.elements (idx2 - 1)
  some (record m {
    elements = put (idx2 - 1) (some e) (put (idx1 - 1) (some f) m.elements);
    timers = set_index e idx2 (set_index f idx1 m.timers);
  })

-- One of the two tests of down: the child `idx`, if there is one that is earlier than `min`.
unfoldable pub earlier : ℕ → ℕ → TimerMgr → Option ℕ
earlier idx min m =
    let step : Option ℕ = do
      k ← expired_at idx m
      l ← expired_at min m
      some (if ltb k l then idx else min)
    in if leb idx m.size then step else some min

-- down, with fuel; `none` is a null pointer that is followed, or that the fuel ran out.
unfoldable pub down_loop : ℕ → ℕ → TimerMgr → Option TimerMgr
down_loop zero idx m = none
down_loop (suc k) idx m = do
  first ← earlier (idx * 2) idx m
  min ← earlier (idx * 2 + 1) first m
  let rest = swap idx min m >>= λ m'. down_loop k min m'
  if min == idx then some m else rest

unfoldable pub down : ℕ → TimerMgr → Option TimerMgr
down idx m = down_loop (m.size + 1) idx m

-- up, with fuel.
unfoldable pub up_loop : ℕ → ℕ → TimerMgr → Option TimerMgr
up_loop zero idx m = none
up_loop (suc k) idx m =
    let p = idx / 2 in
    let step : Option TimerMgr = do
      l ← expired_at idx m
      j ← expired_at p m
      let rest = swap idx p m >>= λ m'. up_loop k p m'
      if ltb l j then rest else some m
    in if ltb 0 p then step else some m

unfoldable pub up : ℕ → TimerMgr → Option TimerMgr
up idx m = up_loop (idx + 1) idx m

-- change
unfoldable pub change : ℕ → TimerMgr → Option TimerMgr
change t m = do
  let idx = (m.timers t).index
  m' ← down idx m
  if idx == (m'.timers t).index then up idx m' else some m'

-- top; `none` is the null pointer.
unfoldable pub top : TimerMgr → Option ℕ
top m =
    if ltb 0 m.size then (do t ← m.elements 0; if (m.timers t).self then some t else none) else none

-- The end of pop before down: the timer `e` that is last goes.
unfoldable pub cut : ℕ → TimerMgr → TimerMgr
cut e m = record m {
  timers = put e (record (m.timers e) { index = 0; owner = none; self = false }) m.timers;
  elements = put (m.size - 1) none m.elements;
  size = m.size - 1;
}

-- pop
unfoldable pub pop : TimerMgr → Option TimerMgr
pop m =
    let step : Option TimerMgr = do e ← m.elements 0; m' ← swap 1 m.size m; down 1 (cut e m')
    in if ltb 0 m.size then step else some m

abbrev is_other : ℕ → Option ℕ → Bool
is_other a none = false
is_other a (some b) = not (a == b)

abbrev is_this : ℕ → Option ℕ → Bool
is_this a none = false
is_this a (some b) = a == b

-- insert, the last branch before up: the new timer is put at the end.
unfoldable pub grow : ℕ → TimerMgr → TimerMgr
grow e m = record m {
  timers = put e (record (m.timers e) { owner = some m.address; index = m.size + 1 }) m.timers;
  elements = put m.size (some e) m.elements;
  room = if m.size == m.room then m.room + 1 else m.room;
  size = m.size + 1;
}

abbrev set_self : ℕ → Bool → TimerMgr → TimerMgr
set_self e b m = record m { timers = put e (record (m.timers e) { self = b }) m.timers }

unfoldable pub insert : ℕ → TimerMgr → Option (Bool × TimerMgr)
insert e m =
    let idx = (m.timers e).index in
    let place : Option (Bool × TimerMgr) = do
      m' ← up (m.size + 1) (grow e m)
      some (true, set_self e true m')
    in let replace : Option (Bool × TimerMgr) = do m' ← change e m; some (true, m')
      in if is_other m.address (m.timers e).owner
        then some (false, m)
        else if not (ltb 0 idx)
        then place
        else if ltb m.size idx
        then some (false, m)
        else if is_this e (m.elements (idx - 1))
        then replace
        else some (false, m)

-- remove, from the decrement of elements_size on, in the branch where the timer is not the tail.
unfoldable pub close_gap : ℕ → ℕ → TimerMgr → Option TimerMgr
close_gap e tail m = do
  m' ← swap (m.timers e).index (m.timers tail).index m
  change tail (record m' { size = m'.size - 1 })

-- The end of remove.
unfoldable pub drop_timer : ℕ → TimerMgr → TimerMgr
drop_timer e m = record m {
  elements = put m.size none m.elements;
  timers = put e (record (m.timers e) { index = 0; callback = false; self = true }) m.timers;
}

unfoldable pub remove : ℕ → TimerMgr → Option (Bool × TimerMgr)
remove e m =
    let idx = (m.timers e).index in
    let last : Option (Bool × TimerMgr) = do
      tail ← m.elements (m.size - 1)
      m' ← (if tail == e then some (record m { size = m.size - 1 }) else close_gap e tail m)
      some (true, drop_timer e m')
    in if not (is_this m.address (m.timers e).owner)
      then some (false, m)
      else if idx == 0 || ltb m.size idx
      then some (false, m)
      else if not (is_this e (m.elements (idx - 1)))
      then some (false, m)
      else last
