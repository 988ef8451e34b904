-- ===== src/Socket/Frame.antt =====
-- What the calls of src/net/TCPSocket.cpp other than Send leave alone: the two send lists and
-- bytes4Send.
use hwnet.Prelude.{ℕ, ◌≡◌, ◌∙◌, List, arith, Bool, ◌||◌}
use hwnet.Socket.SendList.{SendContext}
use hwnet.Socket.State.{Socket, RecvBuffer, can_read, can_write, wake}
use hwnet.Socket.Timeout.{
  Clock, register_send_timer, register_recv_timer, drop_timer, push_closures, on_timer,
  set_send_timeout, set_recv_timeout,
}
use hwnet.Socket.Api.{Activity, note, recv, on_active, shut_down, close, start}

pub record SendState : Type 0 where
  pub spare : List SendContext
  pub current : List SendContext
  pub count : ℕ

abbrev pub send_state : Socket → SendState
send_state s = record { spare = s.spare; current = s.current; count = s.bytes_for_send }

pub send_state-wake : (ready : Bool) (s : Socket) → send_state (wake ready s) ≡ send_state s
unfolding wake
send_state-wake ready s = ground arith

pub send_state-register_send_timer :
    (c : Clock) (s : Socket) → send_state (register_send_timer c s) ≡ send_state s
unfolding register_send_timer
send_state-register_send_timer c s = ground arith

send_state-register_recv_timer :
    (c : Clock) (s : Socket) → send_state (register_recv_timer c s) ≡ send_state s
unfolding register_recv_timer
send_state-register_recv_timer c s = ground arith

send_state-drop_timer : (s : Socket) → send_state (drop_timer s) ≡ send_state s
unfolding drop_timer
send_state-drop_timer s = ground arith

pub send_state-recv :
    (c : Clock) (buff : RecvBuffer) (s : Socket) → send_state (recv c buff s) ≡ send_state s
unfolding recv
send_state-recv c buff s = ground arith

send_state-note : (a : Activity) (s : Socket) → send_state (note a s) ≡ send_state s
unfolding note
send_state-note a s = ground arith

pub send_state-on_active : (a : Activity) (s : Socket) → send_state (on_active a s) ≡ send_state s
unfolding on_active
send_state-on_active a s =
    send_state-wake (can_read (note a s) || can_write (note a s)) (note a s) ∙ send_state-note a s

pub send_state-shut_down : (s : Socket) → send_state (shut_down s) ≡ send_state s
unfolding shut_down
send_state-shut_down s = ground arith

pub send_state-close : (s : Socket) → send_state (close s) ≡ send_state s
unfolding close
send_state-close s = ground arith

pub send_state-start : (s : Socket) → send_state (start s) ≡ send_state s
unfolding start
send_state-start s = ground arith

send_state-push_closures :
    (t now : ℕ) (s : Socket) → send_state (push_closures t now s) ≡ send_state s
unfolding push_closures
send_state-push_closures t now s = ground arith

pub send_state-on_timer : (t now : ℕ) (s : Socket) → send_state (on_timer t now s) ≡ send_state s
unfolding on_timer
send_state-on_timer t now s =
    send_state-wake _ (push_closures t now s) ∙ send_state-push_closures t now s

pub send_state-set_send_timeout :
    (c : Clock) (timeout : ℕ) (callback : Bool) (s : Socket)
    → send_state (set_send_timeout c timeout callback s) ≡ send_state s
unfolding set_send_timeout
send_state-set_send_timeout c timeout callback s = ground arith

pub send_state-set_recv_timeout :
    (c : Clock) (timeout : ℕ) (callback : Bool) (s : Socket)
    → send_state (set_recv_timeout c timeout callback s) ≡ send_state s
unfolding set_recv_timeout
send_state-set_recv_timeout c timeout callback s = ground arith
