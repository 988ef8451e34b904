-- ===== src/ThreadPool.antt =====
-- src/net/ThreadPool.h and src/net/ThreadPool.cpp: the task queue that the threads of a pool share.
-- A task is named by a number. `Init` and the two thread functions are at the end.
pub mod Delivery
pub mod Wakeup
mod Examples
use hwnet.Prelude.{
  ℕ, zero, suc, ◌+◌, ◌-◌, Bool, true, false, List, [], ◌∷◌, ◌++◌, Option, none, some, map, ltb, leb,
  ◌==◌, if◌then◌else◌,
}

-- `sleeping` and `woken` belong to the condition variable `cv`: the threads that block in wait, and
-- those that were notified and have not locked the mutex again. `watting` is the field of the code.
pub record TaskQueue : Type 0 where
  pub closed : Bool
  pub watting : ℕ
  pub tasks : List ℕ
  pub sleeping : ℕ
  pub woken : ℕ

-- TaskQueue()
unfoldable pub new_queue : TaskQueue
new_queue = record { closed = false; watting = 0; tasks = []; sleeping = 0; woken = 0 }

-- cv.notify_one() and cv.notify_all()
unfoldable pub notify_one : TaskQueue → TaskQueue
notify_one q =
    if ltb 0 q.sleeping then record q { sleeping = q.sleeping - 1; woken = q.woken + 1 } else q

unfoldable pub notify_all : TaskQueue → TaskQueue
notify_all q = record q { sleeping = 0; woken = q.woken + q.sleeping }

-- PostTask
unfoldable pub post_task : ℕ → TaskQueue → TaskQueue
unfolding notify_one
post_task t q =
    let posted = record q { tasks = q.tasks ++ t ∷ [] } in
    if q.closed then q else if ltb 0 q.watting then notify_one posted else posted

-- Close
unfoldable pub close : TaskQueue → TaskQueue
unfolding notify_all
close q = if q.closed then q else notify_all (record q { closed = true })

-- How one pass of the loop of Get ends: the null pointer, a task, a batch, or a wait. `destroyed` is
-- what is read through a reference to an element that pop_front has destroyed: nothing is known of it.
pub data Got : Type 0 where
  null : Got
  task : ℕ → Got
  destroyed : Got
  batch : List ℕ → Got
  waits : Got

unfoldable pub block : TaskQueue → TaskQueue
block q = record q { watting = q.watting + 1; sleeping = q.sleeping + 1 }

get_from : List ℕ → TaskQueue → Got × TaskQueue
unfolding block
get_from [] q = if q.closed then (null, q) else (waits, block q)
get_from (t ∷ ts) q = (if q.closed then destroyed else task t, record q { tasks = ts })

-- One pass of Get()
unfoldable pub get : TaskQueue → Got × TaskQueue
unfolding get_from
get q = get_from q.tasks q

get_all_from : List ℕ → TaskQueue → Got × TaskQueue
unfolding block
get_all_from [] q = if q.closed then (null, q) else (waits, block q)
get_all_from (t ∷ ts) q = (batch (t ∷ ts), record q { tasks = [] })

-- One pass of Get(out), where `out` is empty.
unfoldable pub get_all : TaskQueue → Got × TaskQueue
unfolding get_all_from
get_all q = get_all_from q.tasks q

-- A thread that was notified holds the mutex again.
unfoldable pub wake : TaskQueue → TaskQueue
wake q = record q { watting = q.watting - 1; woken = q.woken - 1 }

-- A wakeup that nobody asked for.
unfoldable pub wake_spuriously : TaskQueue → TaskQueue
unfolding notify_one
wake_spuriously q = notify_one q

-- The number of threads that Init starts: it is one if the caller asks for none, and a second call
-- starts none.
unfoldable pub init : Bool → ℕ → ℕ
init inited thread_count = if inited then 0 else if thread_count == 0 then 1 else thread_count

-- What threadFunc and threadFuncSwap run after a pass of Get, and whether the thread goes on; `none`
-- stands for an undefined task.
unfoldable pub runs : Got → List (Option ℕ) × Bool
runs null = ([], false)
runs (task t) = (some t ∷ [], true)
runs destroyed = (none ∷ [], true)
runs (batch ts) = (map some ts, true)
runs waits = ([], true)
