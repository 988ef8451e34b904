-- ===== src/Connector.antt =====
-- src/net/TCPConnector.h and src/net/TCPConnector.cpp: one attempt to connect. What the kernel says
-- is an argument.
pub mod Once
mod Examples
use hwnet.Prelude.{
  ℕ, ◌+◌, ◌-◌, Bool, true, false, not, ◌&&◌, List, [], ◌∷◌, Option, none, some, ltb, ◌==◌,
  if◌then◌else◌,
}

pub data Effect : Type 0 where
  poller_add poller_remove close_fd : Effect
  add_timer cancel_timer : ℕ → Effect
  on_connect : Option ℕ → Effect
  on_error : ℕ → Effect

-- `timer` is connectTimer.lock(), `tasks` counts the calls of Do that were posted and have not
-- returned, and `trace` holds the effects, the newest first.
pub record Connector : Type 0 where
  pub valid_addr : Bool
  pub fd : Option ℕ
  pub connect_callback : Bool
  pub error_callback : Bool
  pub started : Bool
  pub timer : Option ℕ
  pub doing : Bool
  pub got_error : Bool
  pub err : ℕ
  pub tasks : ℕ
  pub trace : List Effect

-- TCPConnector(poller_,remote,local)
unfoldable pub new_connector : Bool → Connector
new_connector valid = record {
  valid_addr = valid;
  fd = none;
  connect_callback = false;
  error_callback = false;
  started = false;
  timer = none;
  doing = false;
  got_error = false;
  err = 0;
  tasks = 0;
  trace = [];
}

abbrev emit : Effect → Connector → Connector
emit e c = record c { trace = e ∷ c.trace }

-- What socket answers, none for a negative descriptor, and whether connect succeeded or is in
-- progress.
pub record Setup : Type 0 where
  pub socket : Option ℕ
  pub connecting : Bool

open_socket : Setup → Connector → Bool × Connector
open_socket s c = elim s.socket [
  | none ↦ (false, record c { fd = none })
  | some fd ↦
      if s.connecting
      then (true, emit poller_add (record c { fd = some fd }))
      else (false, emit close_fd (record c { fd = none }))
]

-- Connect, given whether the callbacks are set.
unfoldable pub connect : Setup → Bool → Bool → Connector → Bool × Connector
unfolding open_socket
connect s callback handler c =
    let c' = record c { started = true; connect_callback = callback; error_callback = handler } in
    if c.started
    then (false, c)
    else if not callback
    then (false, c')
    else if not c.valid_addr
    then (false, c')
    else open_socket s c'

-- ConnectWithTimeout, with the timer that the poller will return.
unfoldable pub connect_with_timeout : Setup → Bool → Bool → ℕ → ℕ → Connector → Bool × Connector
unfolding connect
connect_with_timeout s callback handler timeout fresh c =
    let (ok, c') = connect s callback handler c in
    if ok && ltb 0 timeout
    then (ok, emit (add_timer fresh) (record c' { timer = some fresh }))
    else (ok, c')

abbrev is_timer : ℕ → Option ℕ → Bool
is_timer t none = false
is_timer t (some u) = t == u

abbrev pub start_doing : Connector → Connector
start_doing c = record c { doing = true; tasks = c.tasks + 1 }

-- connectTimeout; `timed_out` is the platform's ETIMEDOUT.
unfoldable pub connect_timeout : ℕ → ℕ → Connector → Connector
connect_timeout timed_out t c =
    if is_timer t c.timer && not c.doing
    then start_doing (record c { timer = none; got_error = true; err = timed_out })
    else c

-- checkError: `reason` is what getsockopt wrote, or errno where it failed; 0 is no error.
unfoldable pub check_error : ℕ → Connector → Connector
check_error reason c = record c { got_error = not (reason == 0); err = reason }

drop_timer : Connector → Connector
drop_timer c = elim c.timer [
  | none ↦ c
  | some t ↦ emit (cancel_timer t) (record c { timer = none })
]

-- OnActive up to the lock, and from the lock on.
unfoldable pub active_begin : ℕ → Connector → Connector
unfolding check_error drop_timer
active_begin reason c = drop_timer (emit poller_remove (check_error reason c))

unfoldable pub active_end : Connector → Connector
active_end c = if c.doing then c else start_doing c

leave : Connector → Connector
leave c = record c { tasks = c.tasks - 1 }

-- Do
unfoldable pub run_task : Connector → Connector
unfolding leave
run_task c =
    let failed = emit close_fd c in
    let handed = record c { fd = none } in
    if c.got_error
    then (if c.error_callback then leave (emit (on_error c.err) failed) else leave failed)
    else (if c.connect_callback then leave (emit (on_connect c.fd) handed) else leave handed)
