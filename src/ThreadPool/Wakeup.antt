-- ===== src/ThreadPool/Wakeup.antt =====
-- Why no thread of src/net/ThreadPool.cpp sleeps while there is work for it.
use hwnet.Prelude.{
  ℕ, ◌+◌, ◌≤◌, ◌<◌, ◌≡◌, refl, ap, true, List, [], ◌∷◌, Option, arith, length, length-append,
}
use hwnet.ThreadPool.{
  TaskQueue, Got, new_queue, post_task, close, get_from, get, get_all_from, get_all, wake,
  wake_spuriously,
}
use hwnet.ThreadPool.Delivery.{
  Pass, enters, enters_all, resumes, resumes_all, History, fresh, posted, closed_down, woken_up,
  passed,
}

-- `watting` counts the threads that wait; while one sleeps, as many others are on their way as there
-- are tasks; and nobody sleeps on a closed queue.
pub record IsAwake (q : TaskQueue) : Type 0 where
  pub counted : q.watting ≡ q.sleeping + q.woken
  pub served : 0 < q.sleeping → length q.tasks ≤ q.woken
  pub released : q.closed ≡ true → q.sleeping ≡ 0

post_task-IsAwake : (t : ℕ) (q : TaskQueue) → IsAwake q → IsAwake (post_task t q)
unfolding post_task
post_task-IsAwake t q h = ground (arith, length-append q.tasks (t ∷ []))

close-IsAwake : (q : TaskQueue) → IsAwake q → IsAwake (close q)
unfolding close
close-IsAwake q h = ground arith

wake_spuriously-IsAwake : (q : TaskQueue) → IsAwake q → IsAwake (wake_spuriously q)
unfolding wake_spuriously
wake_spuriously-IsAwake q h = ground arith

-- A pass of Get, where `n` more threads are on their way than are woken.
record IsAwakeBut (q : TaskQueue) : Type 0 where
  counted : q.watting ≡ q.sleeping + q.woken
  served : 0 < q.sleeping → length q.tasks ≤ q.woken + 1
  released : q.closed ≡ true → q.sleeping ≡ 0

IsAwake-IsAwakeBut : {q : TaskQueue} → IsAwake q → IsAwakeBut q
IsAwake-IsAwakeBut h = ground arith

wake-IsAwakeBut : (q : TaskQueue) → 0 < q.woken → IsAwake q → IsAwakeBut (wake q)
unfolding wake
wake-IsAwakeBut q pos h = ground arith

get_from-IsAwake :
    (ts : List ℕ) (q : TaskQueue) → q.tasks ≡ ts → IsAwakeBut q → IsAwake (get_from ts q).1
unfolding get_from
get_from-IsAwake [] q e h = ground (arith, ap length e)
get_from-IsAwake (t ∷ ts) q e h = ground (arith, ap length e)

get_all_from-IsAwake :
    (ts : List ℕ) (q : TaskQueue) → q.tasks ≡ ts → IsAwakeBut q → IsAwake (get_all_from ts q).1
unfolding get_all_from
get_all_from-IsAwake [] q e h = ground (arith, ap length e)
get_all_from-IsAwake (t ∷ ts) q e h = ground (arith, ap length e)

get-IsAwake : (q : TaskQueue) → IsAwakeBut q → IsAwake (get q).1
unfolding get
get-IsAwake q h = get_from-IsAwake q.tasks q refl h

get_all-IsAwake : (q : TaskQueue) → IsAwakeBut q → IsAwake (get_all q).1
unfolding get_all
get_all-IsAwake q h = get_all_from-IsAwake q.tasks q refl h

Pass-IsAwake : {q r : TaskQueue} {g : Got} → Pass q g r → IsAwake q → IsAwake r
Pass-IsAwake (enters q) h = get-IsAwake q (IsAwake-IsAwakeBut h)
Pass-IsAwake (enters_all q) h = get_all-IsAwake q (IsAwake-IsAwakeBut h)
Pass-IsAwake (resumes q w) h = get-IsAwake (wake q) (wake-IsAwakeBut q w h)
Pass-IsAwake (resumes_all q w) h = get_all-IsAwake (wake q) (wake-IsAwakeBut q w h)

-- However posts, passes of Get, wakeups and Close interleave: `watting` is the number of threads in
-- wait, a thread sleeps only while as many others are on their way to the queue as there are tasks
-- in it, and none sleeps once the queue is closed.
pub History-IsAwake :
    {q : TaskQueue} {accepted : List ℕ} {done : List (Option ℕ)}
    → History q accepted done
    → IsAwake q
unfolding new_queue
History-IsAwake fresh = ground arith
History-IsAwake (posted t h) = post_task-IsAwake t _ (History-IsAwake h)
History-IsAwake (closed_down h) = close-IsAwake _ (History-IsAwake h)
History-IsAwake (woken_up h) = wake_spuriously-IsAwake _ (History-IsAwake h)
History-IsAwake (passed h p) = Pass-IsAwake p (History-IsAwake h)
