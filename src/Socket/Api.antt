-- ===== src/Socket/Api.antt =====
-- src/net/TCPSocket.h and src/net/TCPSocket.cpp: the operations that users and the poller call.
-- Each is one region under the lock, with the post that follows it.
use hwnet.Prelude.{
  ℕ, ◌+◌, Bool, true, false, not, ◌&&◌, ◌||◌, List, [], ◌∷◌, ◌++◌, length, ltb, ◌==◌, if◌then◌else◌,
  add_size,
}
use hwnet.Socket.SendList.{new_context, push_back, is_empty}
use hwnet.Socket.State.{
  Socket, RecvBuffer, disable_write, poller_add, poller_remove, shutdown_wr, shutdown_rdwr, emit,
  high_water, can_read, can_write, post, wake,
}
use hwnet.Socket.Timeout.{
  Clock, register_send_timer, register_recv_timer, drop_timer, on_timer, set_send_timeout,
  set_recv_timeout,
}

-- _recv
unfoldable pub recv_locked : Clock → RecvBuffer → Socket → Socket
unfolding register_recv_timer wake
recv_locked c buff s =
    let queued = record s { recv_list = s.recv_list ++ buff ∷ [] } in
    let timed = if ltb 0 s.timeouts.recv_timeout then register_recv_timer c queued else queued in
    if s.closed || not s.callbacks.recv then s else wake s.readable timed

-- Recv: a null buffer is not modelled, an empty one is refused.
unfoldable pub recv : Clock → RecvBuffer → Socket → Socket
unfolding recv_locked
recv c buff s = if buff.len == 0 then s else recv_locked c buff s

-- What _send writes before it looks at the worker.
unfoldable pub queue_send : Clock → List ℕ → ℕ → Bool → Socket → Socket
queue_send c buff len closing s =
    let queued = record s {
      closed_on_flush = closing;
      current = push_back (new_context buff len) s.current;
      bytes_for_send = add_size s.bytes_for_send len;
    } in
    if ltb 0 s.timeouts.send_timeout then register_send_timer c queued else queued

-- _send
unfoldable pub send_locked : Clock → List ℕ → ℕ → Bool → Socket → Socket
send_locked c buff len closing s =
    let queued = queue_send c buff len closing s in
    if s.closed || s.shutdown || s.closed_on_flush
    then s
    else wake (s.writeable || high_water queued) queued

-- The length that Send and SendAndClose use: 0 stands for all of the buffer.
unfoldable pub send_length : List ℕ → ℕ → ℕ
send_length buff len = if len == 0 then length buff else len

-- Send (closing = false) and SendAndClose (closing = true).
unfoldable pub send : Clock → List ℕ → ℕ → Bool → Socket → Socket
send c buff len closing s =
    if send_length buff len == 0 then s else send_locked c buff (send_length buff len) closing s

-- The flags of an event of the poller, and what getsockopt says of an error.
pub record Activity : Type 0 where
  pub read : Bool
  pub write : Bool
  pub error : Bool
  pub reason : ℕ

note_read : Bool → Socket → Socket
note_read flag s =
    if flag then record s { readable_ver = s.readable_ver + 1; readable = true } else s

note_write : Bool → Socket → Socket
note_write flag s =
    if flag then record s { writeable_ver = s.writeable_ver + 1; writeable = true } else s

note_error : Bool → ℕ → Socket → Socket
note_error flag reason s = if flag then record s { err = reason; socket_error = true } else s

note_disable : Bool → Socket → Socket
note_disable flag s = if flag then emit disable_write s else s

-- What OnActive writes before it looks at the worker.
unfoldable pub note : Activity → Socket → Socket
unfolding note_read note_write note_error note_disable
note a s =
    note_error a.error a.reason (note_write a.write (note_read a.read (note_disable a.write s)))

-- OnActive
unfoldable pub on_active : Activity → Socket → Socket
on_active a s = let noted = note a s in wake (can_read noted || can_write noted) noted

-- Shutdown
unfoldable pub shut_down : Socket → Socket
shut_down s =
    let marked = record s { shutdown = true } in
    if s.closed || s.shutdown
    then s
    else if is_empty s.current
    then emit shutdown_wr marked
    else marked

-- The fields that Close writes.
unfoldable pub close_fields : Socket → Socket
unfolding drop_timer
close_fields s =
    let d = drop_timer s in
    record d {
      timeouts = record (d.timeouts) {
        recv_timeout = 0;
        recv_timeout_callback = false;
        send_timeout = 0;
        send_timeout_callback = false;
      };
      closed = true;
    }

-- Close
unfoldable pub close : Socket → Socket
unfolding close_fields post
close s =
    let done = emit poller_remove (emit shutdown_rdwr (close_fields s)) in
    if s.closed then s else if s.callbacks.close && not s.doing then post done else done

-- Start
unfoldable pub start : Socket → Socket
start s = if s.started then s else emit poller_add (record s { started = true })

-- One call of a user, of the poller or of a timer.
pub data Event : Type 0 where
  sends : Clock → List ℕ → ℕ → Bool → Event
  recvs : Clock → RecvBuffer → Event
  activates : Activity → Event
  shuts closes starts : Event
  ticks : ℕ → ℕ → Event
  sets_flush sets_error sets_close sets_recv : Bool → Event
  sets_high_water : Bool → ℕ → Event
  sets_send_timeout sets_recv_timeout : Clock → ℕ → Bool → Event

-- SetFlushCallback, SetErrorCallback, SetCloseCallback and SetRecvCallback, given whether the
-- callback is a function or null.
unfoldable pub set_flush_callback : Bool → Socket → Socket
set_flush_callback given s = record s { callbacks = record (s.callbacks) { flush = given } }

unfoldable pub set_error_callback : Bool → Socket → Socket
set_error_callback given s = record s { callbacks = record (s.callbacks) { error = given } }

unfoldable pub set_close_callback : Bool → Socket → Socket
set_close_callback given s = record s { callbacks = record (s.callbacks) { close = given } }

unfoldable pub set_recv_callback : Bool → Socket → Socket
set_recv_callback given s = record s { callbacks = record (s.callbacks) { recv = given } }

-- SetHighWater
unfoldable pub set_high_water : Bool → ℕ → Socket → Socket
set_high_water given size s = record s {
  high_water_size = size;
  callbacks = record (s.callbacks) { high_water = given };
}

unfoldable pub apply : Event → Socket → Socket
apply (sends c buff len closing) s = send c buff len closing s
apply (recvs c buff) s = recv c buff s
apply (activates a) s = on_active a s
apply shuts s = shut_down s
apply closes s = close s
apply starts s = start s
apply (ticks t now) s = on_timer t now s
apply (sets_flush given) s = set_flush_callback given s
apply (sets_error given) s = set_error_callback given s
apply (sets_close given) s = set_close_callback given s
apply (sets_recv given) s = set_recv_callback given s
apply (sets_high_water given size) s = set_high_water given size s
apply (sets_send_timeout c timeout callback) s = set_send_timeout c timeout callback s
apply (sets_recv_timeout c timeout callback) s = set_recv_timeout c timeout callback s

unfoldable pub apply_all : List Event → Socket → Socket
apply_all [] s = s
apply_all (e ∷ es) s = apply_all es (apply e s)
