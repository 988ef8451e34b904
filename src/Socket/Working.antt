-- ===== src/Socket/Working.antt =====
-- What stays while a Do of src/net/TCPSocket.cpp is under way, whatever is called meanwhile.
use hwnet.Prelude.{
  ℕ, ◌≡◌, refl, sym, ◌∙◌, ◌==◌, Bool, true, false, ◌||◌, List, [], ◌∷◌, arith, Bool-cases, inl, inr,
}
use hwnet.Socket.State.{Socket, RecvBuffer, Effect, emit, wake}
use hwnet.Socket.Timeout.{
  Clock, register_send_timer, push_closures, on_timer, set_send_timeout, set_recv_timeout,
}
use hwnet.Socket.Api.{
  Event, Activity, sends, recvs, activates, shuts, closes, starts, ticks, sets_flush, sets_error,
  sets_close, sets_recv, sets_high_water, sets_send_timeout, sets_recv_timeout, queue_send,
  send_length, send_locked, send, recv, note, on_active, shut_down, close, start, apply, apply_all,
  set_flush_callback, set_error_callback, set_close_callback, set_recv_callback, set_high_water,
}

-- The flag stays set, nobody posts a second task, and a closed connection is not opened again.
pub record Working (s t : Socket) : Type 0 where
  pub doing : s.doing ≡ true → t.doing ≡ true
  pub tasks : s.doing ≡ true → t.tasks ≡ s.tasks
  pub open_before : t.closed ≡ false → s.closed ≡ false

pub Working-refl : (s : Socket) → Working s s
Working-refl s = record { doing = λ e. e; tasks = λ e. refl; open_before = λ e. e }

pub Working-trans : {s t u : Socket} → Working s t → Working t u → Working s u
Working-trans w v = record {
  doing = λ e. v.doing (w.doing e);
  tasks = λ e. v.tasks (w.doing e) ∙ w.tasks e;
  open_before = λ e. w.open_before (v.open_before e);
}

-- A change of other fields.
pub quiet_change :
    (t s : Socket) → t.doing ≡ s.doing → t.tasks ≡ s.tasks → t.closed ≡ s.closed → Working s t
quiet_change t s d n c = record { doing = λ e. d ∙ e; tasks = λ e. n; open_before = λ e. sym c ∙ e }

pub emit-Working : (x : Effect) (s : Socket) → Working s (emit x s)
emit-Working x s = quiet_change _ s refl refl refl

wake-Working : (ready : Bool) (s : Socket) → Working s (wake ready s)
unfolding wake
wake-Working ready s = ground arith

recv-Working : (c : Clock) (buff : RecvBuffer) (s : Socket) → Working s (recv c buff s)
unfolding recv
recv-Working c buff s = ground arith

queue_send-Working :
    (c : Clock) (buff : List ℕ) (len : ℕ) (closing : Bool) (s : Socket)
    → Working s (queue_send c buff len closing s)
unfolding queue_send register_send_timer
queue_send-Working c buff len closing s = ground arith

send-Working :
    (c : Clock) (buff : List ℕ) (len : ℕ) (closing : Bool) (s : Socket)
    → Working s (send c buff len closing s)
unfolding send send_locked
send-Working c buff len closing s =
    let t = queue_send c buff (send_length buff len) closing s in
    elim (Bool-cases (send_length buff len == 0)) [
      | inl z ↦ rw z (Working-refl s)
      | inr z ↦ elim (Bool-cases (s.closed || s.shutdown || s.closed_on_flush)) [
        | inl r ↦ rw (z, r) (Working-refl s)
        | inr r ↦
            rw (z, r)
              (Working-trans (queue_send-Working c buff (send_length buff len) closing s)
                (wake-Working _ t))
      ]
    ]

note-Working : (a : Activity) (s : Socket) → Working s (note a s)
unfolding note
note-Working a s = ground arith

on_active-Working : (a : Activity) (s : Socket) → Working s (on_active a s)
unfolding on_active
on_active-Working a s = Working-trans (note-Working a s) (wake-Working _ (note a s))

shut_down-Working : (s : Socket) → Working s (shut_down s)
unfolding shut_down
shut_down-Working s = ground arith

pub close-Working : (s : Socket) → Working s (close s)
unfolding close
close-Working s = ground arith

start-Working : (s : Socket) → Working s (start s)
unfolding start
start-Working s = ground arith

push_closures-Working : (t now : ℕ) (s : Socket) → Working s (push_closures t now s)
unfolding push_closures
push_closures-Working t now s = ground arith

on_timer-Working : (t now : ℕ) (s : Socket) → Working s (on_timer t now s)
unfolding on_timer
on_timer-Working t now s =
    Working-trans (push_closures-Working t now s) (wake-Working _ (push_closures t now s))

set_send_timeout-Working :
    (c : Clock) (timeout : ℕ) (callback : Bool) (s : Socket)
    → Working s (set_send_timeout c timeout callback s)
unfolding set_send_timeout
set_send_timeout-Working c timeout callback s = ground arith

set_recv_timeout-Working :
    (c : Clock) (timeout : ℕ) (callback : Bool) (s : Socket)
    → Working s (set_recv_timeout c timeout callback s)
unfolding set_recv_timeout
set_recv_timeout-Working c timeout callback s = ground arith

pub apply-Working : (e : Event) (s : Socket) → Working s (apply e s)
unfolding apply set_flush_callback set_error_callback set_close_callback set_recv_callback
    set_high_water
apply-Working (sends c buff len closing) s = send-Working c buff len closing s
apply-Working (recvs c buff) s = recv-Working c buff s
apply-Working (activates a) s = on_active-Working a s
apply-Working shuts s = shut_down-Working s
apply-Working closes s = close-Working s
apply-Working starts s = start-Working s
apply-Working (ticks t now) s = on_timer-Working t now s
apply-Working (sets_flush given) s = ground arith
apply-Working (sets_error given) s = ground arith
apply-Working (sets_close given) s = ground arith
apply-Working (sets_recv given) s = ground arith
apply-Working (sets_high_water given size) s = ground arith
apply-Working (sets_send_timeout c timeout callback) s =
    set_send_timeout-Working c timeout callback s
apply-Working (sets_recv_timeout c timeout callback) s =
    set_recv_timeout-Working c timeout callback s

pub apply_all-Working : (es : List Event) (s : Socket) → Working s (apply_all es s)
unfolding apply_all
apply_all-Working [] s = Working-refl s
apply_all-Working (e ∷ es) s = Working-trans (apply-Working e s) (apply_all-Working es (apply e s))
