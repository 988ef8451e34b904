-- ===== src/Socket/Broken.antt =====
-- A connection of src/net/TCPSocket.cpp that is closed or had an error: no call of another thread
-- or of a callback undoes it, and sendInWorker writes no more.
use hwnet.Prelude.{
  ◌≡◌, ◌∙◌, ℕ, List, [], ◌∷◌, Bool, true, false, some, ◌||◌, arith, inl, inr, ltb, Bool-cases,
}
use hwnet.Socket.State.{Socket, RecvBuffer, can_read, can_write, wake, post}
use hwnet.Socket.Timeout.{
  Clock, register_send_timer, register_recv_timer, push_closures, on_timer, set_send_timeout,
  set_recv_timeout,
}
use hwnet.Socket.Frame.{send_state}
use hwnet.Socket.Worker.{Io, After, write, failed, send_begin, send_end}
use hwnet.Socket.Api.{
  Event, Activity, sends, recvs, activates, shuts, closes, starts, ticks, sets_flush, sets_error,
  sets_close, sets_recv, sets_high_water, sets_send_timeout, sets_recv_timeout, queue_send,
  send_locked, send, recv_locked, recv, note, on_active, shut_down, close, close_fields, start,
  apply, apply_all, set_flush_callback, set_error_callback, set_close_callback, set_recv_callback,
  set_high_water,
}

abbrev pub is_broken : Socket → Bool
is_broken s = s.closed || s.socket_error

is_broken-wake : (ready : Bool) (s : Socket) → is_broken (wake ready s) ≡ is_broken s
unfolding wake
is_broken-wake ready s = ground arith

is_broken-register_send_timer :
    (c : Clock) (s : Socket) → is_broken (register_send_timer c s) ≡ is_broken s
unfolding register_send_timer
is_broken-register_send_timer c s = ground arith

is_broken-register_recv_timer :
    (c : Clock) (s : Socket) → is_broken (register_recv_timer c s) ≡ is_broken s
unfolding register_recv_timer
is_broken-register_recv_timer c s = ground arith

is_broken-queue_send :
    (c : Clock) (buff : List ℕ) (len : ℕ) (closing : Bool) (s : Socket)
    → is_broken (queue_send c buff len closing s) ≡ is_broken s
unfolding queue_send
is_broken-queue_send c buff len closing s = elim (Bool-cases (ltb 0 s.timeouts.send_timeout)) [
  | inl t ↦ rw t (is_broken-register_send_timer c _)
  | inr t ↦ rw t
]

is_broken-send :
    (c : Clock) (buff : List ℕ) (len : ℕ) (closing : Bool) (s : Socket)
    → is_broken (send c buff len closing s) ≡ is_broken s
unfolding send send_locked
is_broken-send c buff len closing s = grind (arith, is_broken-wake, is_broken-queue_send c buff)

is_broken-recv :
    (c : Clock) (buff : RecvBuffer) (s : Socket) → is_broken (recv c buff s) ≡ is_broken s
unfolding recv recv_locked
is_broken-recv c buff s = grind (arith, is_broken-wake, is_broken-register_recv_timer c)

note-is_broken : (a : Activity) (s : Socket) → is_broken s ≡ true → is_broken (note a s) ≡ true
unfolding note
note-is_broken a s e = ground arith

on_active-is_broken :
    (a : Activity) (s : Socket) → is_broken s ≡ true → is_broken (on_active a s) ≡ true
unfolding on_active
on_active-is_broken a s e =
    is_broken-wake (can_read (note a s) || can_write (note a s)) (note a s) ∙ note-is_broken a s e

is_broken-shut_down : (s : Socket) → is_broken (shut_down s) ≡ is_broken s
unfolding shut_down
is_broken-shut_down s = ground arith

close-is_broken : (s : Socket) → is_broken s ≡ true → is_broken (close s) ≡ true
unfolding close close_fields post
close-is_broken s e = ground arith

is_broken-start : (s : Socket) → is_broken (start s) ≡ is_broken s
unfolding start
is_broken-start s = ground arith

is_broken-push_closures : (t now : ℕ) (s : Socket) → is_broken (push_closures t now s) ≡ is_broken s
unfolding push_closures
is_broken-push_closures t now s = ground arith

is_broken-on_timer : (t now : ℕ) (s : Socket) → is_broken (on_timer t now s) ≡ is_broken s
unfolding on_timer
is_broken-on_timer t now s =
    is_broken-wake _ (push_closures t now s) ∙ is_broken-push_closures t now s

is_broken-set_send_timeout :
    (c : Clock) (timeout : ℕ) (callback : Bool) (s : Socket)
    → is_broken (set_send_timeout c timeout callback s) ≡ is_broken s
unfolding set_send_timeout
is_broken-set_send_timeout c timeout callback s = ground arith

is_broken-set_recv_timeout :
    (c : Clock) (timeout : ℕ) (callback : Bool) (s : Socket)
    → is_broken (set_recv_timeout c timeout callback s) ≡ is_broken s
unfolding set_recv_timeout
is_broken-set_recv_timeout c timeout callback s = ground arith

-- No call makes a broken connection whole.
pub apply-is_broken : (e : Event) (s : Socket) → is_broken s ≡ true → is_broken (apply e s) ≡ true
unfolding apply set_flush_callback set_error_callback set_close_callback set_recv_callback
    set_high_water
apply-is_broken (sends c buff len closing) s h = is_broken-send c buff len closing s ∙ h
apply-is_broken (recvs c buff) s h = is_broken-recv c buff s ∙ h
apply-is_broken (activates a) s h = on_active-is_broken a s h
apply-is_broken shuts s h = is_broken-shut_down s ∙ h
apply-is_broken closes s h = close-is_broken s h
apply-is_broken starts s h = is_broken-start s ∙ h
apply-is_broken (ticks t now) s h = is_broken-on_timer t now s ∙ h
apply-is_broken (sets_flush given) s h = h
apply-is_broken (sets_error given) s h = h
apply-is_broken (sets_close given) s h = h
apply-is_broken (sets_recv given) s h = h
apply-is_broken (sets_high_water given size) s h = h
apply-is_broken (sets_send_timeout c timeout callback) s h =
    is_broken-set_send_timeout c timeout callback s ∙ h
apply-is_broken (sets_recv_timeout c timeout callback) s h =
    is_broken-set_recv_timeout c timeout callback s ∙ h

-- Nor do the calls of a sequence.
pub apply_all-is_broken :
    (es : List Event) (s : Socket) → is_broken s ≡ true → is_broken (apply_all es s) ≡ true
unfolding apply_all
apply_all-is_broken [] s h = h
apply_all-is_broken (e ∷ es) s h = apply_all-is_broken es (apply e s) (apply-is_broken e s h)

-- sendInWorker takes no list of such a connection.
pub send_begin-whole :
    (s t : Socket) (ver : ℕ) → send_begin s ≡ (write ver, t) → is_broken s ≡ false
unfolding send_begin can_write
send_begin-whole s t ver e = ground arith

-- A writev that fails leaves the lists and the count as they are, and the connection broken.
pub send_end-failed :
    (ver : ℕ) (io : Io) (s v : Socket) (a : After)
    → io.result ≡ failed
    → send_end ver io s ≡ some (a, v)
    → (send_state v ≡ send_state s) × (is_broken v ≡ true)
unfolding send_end
send_end-failed ver io s v a f e = ground arith
