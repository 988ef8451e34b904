-- ===== src/Socket/Closing.antt =====
-- How a connection of src/net/TCPSocket.cpp is closed.
use hwnet.Prelude.{ℕ, zero, suc, ◌+◌, ◌≡◌, ap, ◌∙◌, true, false, List, [], ◌∷◌, none, some, arith}
use hwnet.Socket.SendList.{is_empty}
use hwnet.Socket.State.{Socket, Effect, on_close, can_read, can_write, wake}
use hwnet.Socket.Timeout.{drop_timer}
use hwnet.Socket.Api.{Activity, note, on_active, close}
use hwnet.Socket.Task.{Round, is_done, run_front, run_closure, rest, do_loop, run_task}

-- How often the close callback was called.
abbrev is_close : Effect → ℕ
is_close on_close = 1
is_close e = 0

abbrev pub closings : List Effect → ℕ
closings [] = 0
closings (e ∷ es) = is_close e + closings es

-- An idle, open connection with a close callback and no timer.
pub record IsIdle (s : Socket) : Type 0 where
  pub is_open : s.closed ≡ false
  pub is_free : s.doing ≡ false
  pub no_task : s.tasks ≡ 0
  pub watched : s.callbacks.close ≡ true
  pub no_closure : s.timeouts.closures ≡ []
  pub no_timer : s.timeouts.timer ≡ none

is_done-closed : (s : Socket) → s.closed ≡ true → is_done s ≡ true
is_done-closed s e = ground arith

-- A Do that finds the connection closed ends at once.
do_loop-closed :
    (k : ℕ) (rounds : ℕ → Round) (s : Socket)
    → s.closed ≡ true
    → s.timeouts.closures ≡ []
    → do_loop k rounds s ≡ some (rest s)
unfolding do_loop run_closure run_front can_read can_write
do_loop-closed zero rounds s e n = rw (n, run_front, is_done-closed s e)
do_loop-closed (suc k) rounds s e n = rw (n, run_front, is_done-closed s e)

run_task-closed :
    (rounds : ℕ → Round) (s : Socket)
    → s.closed ≡ true
    → s.timeouts.closures ≡ []
    → run_task rounds s ≡ some (rest s)
unfolding run_task
run_task-closed rounds s e n = do_loop-closed 10 rounds s e n

-- A closed connection with `n` tasks under way that has called its callback `k` times.
record IsClosed (n k : ℕ) (s : Socket) : Type 0 where
  closed : s.closed ≡ true
  tasks : s.tasks ≡ n
  called : closings s.trace ≡ k
  watched : s.callbacks.close ≡ true
  no_closure : s.timeouts.closures ≡ []

rest-IsClosed : {n k : ℕ} {s : Socket} → IsClosed (suc n) k s → IsClosed n (k + 1) (rest s)
unfolding rest
rest-IsClosed h = ground arith

close-IsClosed : {s : Socket} → IsIdle s → IsClosed 1 (closings s.trace) (close s)
unfolding close drop_timer
close-IsClosed h = ground arith

close-untouched :
    (s : Socket)
    → s.closed ≡ false
    → s.doing ≡ false
    → ((close s).doing ≡ false) × ((close s).recv_list ≡ s.recv_list)
unfolding close drop_timer
close-untouched s c e = ground arith

-- An event that finds a buffer to read into.
note-can_read :
    (a : Activity) (s : Socket)
    → a.read ≡ true
    → is_empty s.recv_list ≡ false
    → can_read (note a s) ≡ true
unfolding note can_read
note-can_read a s r e = ground arith

note-IsClosed :
    (a : Activity) {n k : ℕ} {s : Socket}
    → s.doing ≡ false
    → IsClosed n k s
    → IsClosed n k (note a s) × ((note a s).doing ≡ false)
unfolding note
note-IsClosed a d h = ground arith

wake-IsClosed :
    {n k : ℕ} {s : Socket} → s.doing ≡ false → IsClosed n k s → IsClosed (n + 1) k (wake true s)
unfolding wake
wake-IsClosed d h = ground arith

on_active-IsClosed :
    (a : Activity) {n k : ℕ} {s : Socket}
    → a.read ≡ true
    → is_empty s.recv_list ≡ false
    → s.doing ≡ false
    → IsClosed n k s
    → IsClosed (n + 1) k (on_active a s)
unfolding on_active
on_active-IsClosed a {s = s} r e d h =
    let (h', d') = note-IsClosed a d h in rw (note-can_read a s r e) (wake-IsClosed d' h')

-- The two tasks of a closed connection, one after the other.
two_tasks :
    (r1 r2 : ℕ → Round) {k : ℕ} {s : Socket}
    → IsClosed 2 k s
    → (t u : Socket) × (run_task r1 s ≡ some t)
      × (run_task r2 t ≡ some u)
      × (closings u.trace ≡ k + 2)
two_tasks r1 r2 {s = s} h =
    let first = rest-IsClosed h in
    let second = rest-IsClosed first in
    (
      rest s,
      rest (rest s),
      run_task-closed r1 s h.closed h.no_closure,
      run_task-closed r2 (rest s) first.closed first.no_closure,
      omega (arith, second.called),
    )

-- The header promises that the close callback is called once. It is called twice if Close comes
-- while no Do is under way, with the callback set, no timer and no closure, a buffer waits for data,
-- and an event that says readable is handled after it: each of the two has posted a Do, and each Do
-- calls the callback.
pub close_callback_twice :
    (s : Socket) (a : Activity) (r1 r2 : ℕ → Round)
    → IsIdle s
    → is_empty s.recv_list ≡ false
    → a.read ≡ true
    → (t u : Socket) × (run_task r1 (on_active a (close s)) ≡ some t)
      × (run_task r2 t ≡ some u)
      × (closings u.trace ≡ closings s.trace + 2)
close_callback_twice s a r1 r2 h e r =
    let (d, same) = close-untouched s h.is_open h.is_free in
    two_tasks r1 r2 (on_active-IsClosed a r (ap is_empty same ∙ e) d (close-IsClosed h))
