-- ===== src/Listener.antt =====
-- src/net/TCPListener.h and src/net/TCPListener.cpp: the listening socket. The calls of the kernel
-- are arguments: what socket, bind and listen say, and the answers of accept.
pub mod Events
pub mod Starting
mod Examples
use hwnet.Prelude.{
  ℕ, zero, suc, ◌+◌, ◌-◌, Bool, true, false, not, ◌&&◌, ◌||◌, List, [], ◌∷◌, Option, none, some,
  ◌==◌, if◌then◌else◌,
}

pub data Effect : Type 0 where
  poller_add poller_remove close_fd : Effect
  on_new_conn on_error : ℕ → Effect

-- `tasks` counts the calls of Do that were posted and have not returned; `handler` says whether
-- onError is set, and `callback` whether onNewConn is; `trace` holds the effects, the newest first.
pub record Listener : Type 0 where
  pub valid_addr : Bool
  pub fd : Option ℕ
  pub callback : Bool
  pub handler : Bool
  pub started : Bool
  pub stopped : Bool
  pub readable_ver : ℕ
  pub doing : Bool
  pub tasks : ℕ
  pub trace : List Effect

-- TCPListener(poller_,addr)
unfoldable pub new_listener : Bool → Listener
new_listener valid = record {
  valid_addr = valid;
  fd = none;
  callback = false;
  handler = false;
  started = false;
  stopped = false;
  readable_ver = 0;
  doing = false;
  tasks = 0;
  trace = [];
}

abbrev emit : Effect → Listener → Listener
emit e l = record l { trace = e ∷ l.trace }

-- OnActive, given whether the event has the read flag.
unfoldable pub on_active : Bool → Listener → Listener
on_active read l =
    let seen = if read then record l { readable_ver = l.readable_ver + 1 } else l in
    if l.doing then seen else record seen { doing = true; tasks = l.tasks + 1 }

-- What one call of accept answers. `aborted` is ECONNABORTED, or EPROTO where there is one.
pub data Answer : Type 0 where
  conn : ℕ → Answer
  aborted : Answer
  again : Answer
  failed : ℕ → Answer

-- The loop of TCPListener::accept over the answers of the system call: it goes on while connections
-- were aborted. `none` means that the answers ran out.
unfoldable pub accept : List Answer → Option Answer
accept [] = none
accept (aborted ∷ rest) = accept rest
accept (a ∷ rest) = some a

-- How a round of Do ends: the loop goes on, or the task is left.
pub data Outcome : Type 0 where
  goes_on leaves : Outcome

-- Between the rounds: `stop` ends the loop.
unfoldable pub check_stop : Listener → Outcome × Listener
check_stop l = if l.stopped then (leaves, record l { tasks = l.tasks - 1 }) else (goes_on, l)

-- One round of Do after its call of accept, with the version that was read before it.
unfoldable pub do_round : ℕ → Answer → Listener → Outcome × Listener
unfolding check_stop
do_round ver (conn fd) l = check_stop (emit (on_new_conn fd) l)
do_round ver aborted l = check_stop l
do_round ver again l =
    if ver == l.readable_ver
    then (leaves, record l { doing = false; tasks = l.tasks - 1 })
    else check_stop l
do_round ver (failed err) l =
    if l.handler
    then (leaves, emit (on_error err) (record l { tasks = l.tasks - 1 }))
    else check_stop l

-- Stop
unfoldable pub stop : Listener → Listener
stop l =
    if not l.started
    then l
    else if l.stopped
    then l
    else emit close_fd (emit poller_remove (record l { stopped = true }))

-- What socket, bind and listen answer: `none` is a negative file descriptor.
pub record Setup : Type 0 where
  pub socket : Option ℕ
  pub bind_ok : Bool
  pub listen_ok : Bool

-- _start, once there is a socket.
start_on : ℕ → Setup → Bool → Listener → Bool × Listener
start_on fd s handler l =
    let opened = record l { fd = some fd } in
    let dropped = emit close_fd (record l { fd = none }) in
    if not s.bind_ok
    then (false, dropped)
    else if not s.listen_ok
    then (false, dropped)
    else (false, emit poller_add (record opened { callback = true; handler = handler }))

-- _start
unfoldable pub start_socket : Setup → Bool → Listener → Bool × Listener
unfolding start_on
start_socket s handler l = elim s.socket [
  | none ↦ (false, record l { fd = none })
  | some fd ↦ start_on fd s handler l
]

-- Start up to _start: whether it goes on, which sets `started`.
unfoldable pub start_begin : Bool → Listener → Bool × Listener
start_begin callback l =
    if not callback || not l.valid_addr || l.started
    then (false, l)
    else (true, record l { started = true })

-- Start from _start on.
unfoldable pub start_end : Setup → Bool → Listener → Bool × Listener
unfolding start_socket
start_end s handler l =
    let (ok, l') = start_socket s handler l in
    if ok then (true, l') else (false, record l' { started = false })

-- Start, given whether the two callbacks are set.
unfoldable pub start : Setup → Bool → Bool → Listener → Bool × Listener
unfolding start_begin start_end
start s callback handler l =
    let (goes, l') = start_begin callback l in if goes then start_end s handler l' else (false, l')
