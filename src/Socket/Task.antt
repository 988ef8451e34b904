-- ===== src/Socket/Task.antt =====
-- src/net/TCPSocket.cpp: doClose and Do, the task that the thread pool runs for a connection.
use hwnet.Prelude.{
  ◌>>=◌, ℕ, zero, suc, ◌-◌, Bool, false, not, ◌||◌, List, [], ◌∷◌, Option, some, if◌then◌else◌,
}
use hwnet.Socket.State.{Socket, on_close, emit, can_read, can_write, post}
use hwnet.Socket.Timeout.{check_timeout}
use hwnet.Socket.Api.{Event, apply_all}
use hwnet.Socket.Worker.{Io, recv_in_worker, send_in_worker}

-- doClose
unfoldable pub do_close : Socket → Socket
do_close s =
    let cleared = record s { current = []; spare = [] } in
    if s.callbacks.close then emit on_close cleared else cleared

-- One round of Do: the clock and what the callbacks of a timeout do, and the two system calls.
pub record Round : Type 0 where
  pub now : ℕ
  pub in_send_timeout : List Event
  pub in_recv_timeout : List Event
  pub recv_io : Io
  pub send_io : Io

-- The closure at the front, which is always a checkTimeout, is taken off and run.
unfoldable pub run_front : List ℕ → Round → Socket → Socket
run_front [] r s = s
run_front (t ∷ ts) r s =
    check_timeout t r.now (apply_all r.in_send_timeout) (apply_all r.in_recv_timeout)
      (record s { timeouts = record (s.timeouts) { closures = ts } })

unfoldable pub run_closure : Round → Socket → Socket
unfolding run_front
run_closure r s = run_front s.timeouts.closures r s

-- The call of Do has returned.
abbrev pub leave : Socket → Socket
leave s = record s { tasks = s.tasks - 1 }

-- The region that ends each call of Do: idle, or the close callback.
unfoldable pub rest : Socket → Socket
unfolding do_close
rest s = if s.closed then leave (do_close s) else leave (record s { doing = false })

abbrev pub is_done : Socket → Bool
is_done s = not (can_read s || can_write s) || s.closed

-- The two workers, as canRead and canWrite said before either ran.
unfoldable pub work : Round → Socket → Option Socket
unfolding recv_in_worker send_in_worker
work r s =
    let s1 = if can_read s then recv_in_worker r.recv_io s else s in
    if can_write s then send_in_worker r.send_io s1 else some s1

-- maxLoop
abbrev pub max_loop : ℕ
max_loop = 10

-- The rounds of Do that are left; in the last one a task that is not done is posted again.
unfoldable pub do_loop : ℕ → (ℕ → Round) → Socket → Option Socket
unfolding run_closure rest post
do_loop zero rounds s =
    let s1 = run_closure (rounds zero) s in some (if is_done s1 then rest s1 else leave (post s1))
do_loop (suc k) rounds s =
    let s1 = run_closure (rounds (suc k)) s in
    let more : Option Socket = work (rounds (suc k)) s1 >>= do_loop k rounds in
    if is_done s1 then some (rest s1) else more

-- Do
unfoldable pub run_task : (ℕ → Round) → Socket → Option Socket
unfolding do_loop
run_task rounds s = do_loop max_loop rounds s
