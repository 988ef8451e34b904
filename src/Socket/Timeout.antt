-- ===== src/Socket/Timeout.antt =====
-- src/net/TCPSocket.cpp: registerTimer, checkTimeout, onTimer and the setters of the two timeouts.
-- A call is given the time and, for addTimer, the timer that the poller will return.
use hwnet.Prelude.{
  ℕ, ◌-◌, ◌*◌, Bool, true, false, not, ◌&&◌, ◌||◌, [], ◌∷◌, ◌++◌, Option, none, some, ltb, ◌==◌,
  if◌then◌else◌,
}
use hwnet.Socket.SendList.{is_empty}
use hwnet.Socket.State.{
  Socket, add_timer, cancel_timer, on_send_timeout, on_recv_timeout, emit, wake,
}

pub record Clock : Type 0 where
  pub now : ℕ
  pub fresh : ℕ

abbrev is_live : Option ℕ → Bool
is_live none = false
is_live (some t) = true

abbrev is_timer : ℕ → Option ℕ → Bool
is_timer t none = false
is_timer t (some u) = t == u

unfoldable pub register_send_timer : Clock → Socket → Socket
register_send_timer c s =
    if not (is_empty s.current) && not (is_live s.timeouts.timer)
    then emit (add_timer c.fresh) (record s {
      timeouts = record (s.timeouts) { last_send_time = c.now; timer = some c.fresh };
    })
    else s

unfoldable pub register_recv_timer : Clock → Socket → Socket
register_recv_timer c s =
    if not (is_empty s.recv_list) && not (is_live s.timeouts.timer)
    then emit (add_timer c.fresh) (record s {
      timeouts = record (s.timeouts) { last_recv_time = c.now; timer = some c.fresh };
    })
    else s

-- sp->cancel() and timer.reset(), where the timer is still there.
unfoldable pub drop_timer : Socket → Socket
drop_timer s = elim s.timeouts.timer [
  | none ↦ s
  | some t ↦ emit (cancel_timer t) (record s { timeouts = record (s.timeouts) { timer = none } })
]

unfoldable pub send_overdue : ℕ → Socket → Bool
send_overdue now s =
    ltb 0 s.timeouts.send_timeout
    && s.timeouts.send_timeout_callback
    && not (is_empty s.current)
    && ltb (s.timeouts.send_timeout * 1000000) (now - s.timeouts.last_send_time)

unfoldable pub recv_overdue : ℕ → Socket → Bool
recv_overdue now s =
    ltb 0 s.timeouts.recv_timeout
    && s.timeouts.recv_timeout_callback
    && not (is_empty s.recv_list)
    && ltb (s.timeouts.recv_timeout * 1000000) (now - s.timeouts.last_recv_time)

-- checkTimeout, with what the two callbacks and other threads do while each callback runs.
unfoldable pub check_send : ℕ → (Socket → Socket) → Socket → Socket
check_send now callback s =
    if not s.closed && send_overdue now s
    then callback (
        emit on_send_timeout (record s {
          timeouts = record (s.timeouts) { send_timeout = 0; send_timeout_callback = false };
        }))
    else s

unfoldable pub check_recv : ℕ → (Socket → Socket) → Socket → Socket
check_recv now callback s =
    if not s.closed && recv_overdue now s
    then callback (
        emit on_recv_timeout (record s {
          timeouts = record (s.timeouts) { recv_timeout = 0; recv_timeout_callback = false };
        }))
    else s

unfoldable pub check_idle : ℕ → Socket → Socket
check_idle t s =
    if s.timeouts.send_timeout == 0 && s.timeouts.recv_timeout == 0
    then emit (cancel_timer t) (record s { timeouts = record (s.timeouts) { timer = none } })
    else s

unfoldable pub check_timeout : ℕ → ℕ → (Socket → Socket) → (Socket → Socket) → Socket → Socket
check_timeout t now in_send in_recv s =
    if is_timer t s.timeouts.timer
    then check_idle t (check_recv now in_recv (check_send now in_send s))
    else s

-- onTimer: a closure for each side that is overdue, and one post for both.
push_closure : ℕ → Bool → Socket → Socket
push_closure t overdue s =
    if overdue
    then record s { timeouts = record (s.timeouts) { closures = s.timeouts.closures ++ t ∷ [] } }
    else s

unfoldable pub push_closures : ℕ → ℕ → Socket → Socket
unfolding push_closure
push_closures t now s = push_closure t (recv_overdue now s) (push_closure t (send_overdue now s) s)

unfoldable pub on_timer : ℕ → ℕ → Socket → Socket
on_timer t now s = wake (send_overdue now s || recv_overdue now s) (push_closures t now s)

unfoldable pub set_send_timeout : Clock → ℕ → Bool → Socket → Socket
unfolding register_send_timer drop_timer
set_send_timeout c timeout callback s =
    let cleared = record s {
      timeouts = record (s.timeouts) { send_timeout = 0; send_timeout_callback = false };
    } in
    if s.closed
    then s
    else if ltb 0 timeout && callback
    then register_send_timer c (record s {
      timeouts = record (s.timeouts) { send_timeout = timeout; send_timeout_callback = true };
    })
    else if s.timeouts.recv_timeout == 0
    then drop_timer cleared
    else cleared

unfoldable pub set_recv_timeout : Clock → ℕ → Bool → Socket → Socket
unfolding register_recv_timer drop_timer
set_recv_timeout c timeout callback s =
    let cleared = record s {
      timeouts = record (s.timeouts) { recv_timeout = 0; recv_timeout_callback = false };
    } in
    if s.closed
    then s
    else if ltb 0 timeout && callback
    then register_recv_timer c (record s {
      timeouts = record (s.timeouts) { recv_timeout = timeout; recv_timeout_callback = true };
    })
    else if s.timeouts.send_timeout == 0
    then drop_timer cleared
    else cleared
