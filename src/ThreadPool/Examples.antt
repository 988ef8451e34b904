-- ===== src/ThreadPool/Examples.antt =====
-- Runs of the task queue of src/net/ThreadPool.cpp.
use hwnet.Prelude.{arith, [], ◌∷◌, some}
use hwnet.ThreadPool.{TaskQueue, new_queue, post_task, close, get, wake, runs}
use hwnet.ThreadPool.Delivery.{
  enters, resumes, History, fresh, posted, closed_down, passed, History-IsInOrder, IsInOrder,
}
use hwnet.ThreadPool.Wakeup.{IsAwake, History-IsAwake}

-- A thread waits, two tasks come, it takes the first, and the queue is closed.
abbrev waited : TaskQueue
waited = (get new_queue).1

abbrev filled : TaskQueue
filled = post_task 8 (post_task 7 waited)

filled-History : History (close (get (wake filled)).1) (7 ∷ 8 ∷ []) (some 7 ∷ [])
unfolding get new_queue post_task wake runs
filled-History =
    closed_down (
      passed (posted 8 (posted 7 (passed fresh (enters new_queue)))) (resumes filled (omega arith)))

History-IsInOrder_example : IsInOrder (close (get (wake filled)).1) (7 ∷ 8 ∷ []) (some 7 ∷ [])
History-IsInOrder_example = History-IsInOrder filled-History

History-IsAwake_example : IsAwake (close (get (wake filled)).1)
History-IsAwake_example = History-IsAwake filled-History
