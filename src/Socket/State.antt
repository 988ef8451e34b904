-- ===== src/Socket/State.antt =====
-- src/net/TCPSocket.h, class TCPSocket: the state of a connection, and what it asks of others.
use hwnet.Prelude.{
  ℕ, ◌+◌, Bool, true, false, not, ◌&&◌, ◌||◌, List, [], ◌∷◌, Option, none, ltb, if◌then◌else◌,
}
use hwnet.Socket.SendList.{SendContext, is_empty}

-- A buffer given to Recv: which one, and its Len().
pub record RecvBuffer : Type 0 where
  pub id : ℕ
  pub len : ℕ

-- Calls to the poller, the kernel and the timers, and the callbacks that are made.
pub data Effect : Type 0 where
  post_task enable_write disable_write poller_add poller_remove shutdown_wr shutdown_rdwr : Effect
  add_timer cancel_timer : ℕ → Effect
  on_flush on_close on_send_timeout on_recv_timeout : Effect
  on_error on_high_water : ℕ → Effect
  on_recv : RecvBuffer → ℕ → Effect

-- Which callbacks are set.
pub record Callbacks : Type 0 where
  pub flush : Bool
  pub error : Bool
  pub close : Bool
  pub high_water : Bool
  pub recv : Bool

-- Times in nanoseconds of the steady clock, timeouts in milliseconds. `timer` is timer.lock().
pub record Timeouts : Type 0 where
  pub timer : Option ℕ
  pub recv_timeout : ℕ
  pub recv_timeout_callback : Bool
  pub last_recv_time : ℕ
  pub send_timeout : ℕ
  pub send_timeout_callback : Bool
  pub last_send_time : ℕ
  pub closures : List ℕ

-- `current` is *ptrSendlist and `spare` the other one of sendLists. `tasks` counts the calls of Do
-- that were posted and have not returned, and `trace` holds the effects, the newest first.
pub record Socket : Type 0 where
  pub callbacks : Callbacks
  pub timeouts : Timeouts
  pub recv_list : List RecvBuffer
  pub current : List SendContext
  pub spare : List SendContext
  pub err : ℕ
  pub readable : Bool
  pub readable_ver : ℕ
  pub writeable : Bool
  pub writeable_ver : ℕ
  pub closed : Bool
  pub closed_on_flush : Bool
  pub shutdown : Bool
  pub doing : Bool
  pub socket_error : Bool
  pub started : Bool
  pub bytes_for_send : ℕ
  pub high_water_size : ℕ
  pub tasks : ℕ
  pub trace : List Effect

-- The constructor.
unfoldable pub new_socket : ℕ → Socket
new_socket now = record {
  callbacks = record {
    flush = false;
    error = false;
    close = false;
    high_water = false;
    recv = false;
  };
  timeouts = record {
    timer = none;
    recv_timeout = 0;
    recv_timeout_callback = false;
    last_recv_time = now;
    send_timeout = 0;
    send_timeout_callback = false;
    last_send_time = now;
    closures = [];
  };
  recv_list = [];
  current = [];
  spare = [];
  err = 0;
  readable = false;
  readable_ver = 0;
  writeable = false;
  writeable_ver = 0;
  closed = false;
  closed_on_flush = false;
  shutdown = false;
  doing = false;
  socket_error = false;
  started = false;
  bytes_for_send = 0;
  high_water_size = 0;
  tasks = 0;
  trace = [];
}

abbrev pub emit : Effect → Socket → Socket
emit e s = record s { trace = e ∷ s.trace }

-- poller_->PostTask(shared_from_this(),pool_)
unfoldable pub post : Socket → Socket
post s = emit post_task (record s { tasks = s.tasks + 1 })

unfoldable pub high_water : Socket → Bool
high_water s = ltb 0 s.high_water_size && ltb s.high_water_size s.bytes_for_send

unfoldable pub can_read : Socket → Bool
can_read s = s.readable && not (is_empty s.recv_list) || s.socket_error

unfoldable pub can_write : Socket → Bool
unfolding high_water
can_write s =
    not s.shutdown
    && not s.closed
    && not s.socket_error
    && (s.writeable && not (is_empty s.current) || high_water s)

-- `doing` is set, and Do is posted once the lock is released.
unfoldable pub start_doing : Socket → Socket
unfolding post
start_doing s = post (record s { doing = true })

-- Every operation that may give the worker something to do ends so.
unfoldable pub wake : Bool → Socket → Socket
unfolding start_doing
wake ready s = if not s.doing && ready then start_doing s else s
