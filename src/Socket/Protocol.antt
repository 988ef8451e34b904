-- ===== src/Socket/Protocol.antt =====
-- The `doing` flag of src/net/TCPSocket.cpp: who runs Do, and why no event is missed.
use hwnet.Prelude.{
  ℕ, ◌≤◌, ◌⊎◌, ◌≡◌, ◌∙◌, Bool, true, false, ◌||◌, List, arith, Bool-cases, inl, inr,
}
use hwnet.Socket.State.{Socket, RecvBuffer, can_read, can_write, high_water, wake}
use hwnet.Socket.Timeout.{
  Clock, register_send_timer, push_closures, on_timer, set_send_timeout, set_recv_timeout,
}
use hwnet.Socket.Api.{
  Event, Activity, sends, recvs, activates, shuts, closes, starts, ticks, sets_flush, sets_error,
  sets_close, sets_recv, sets_high_water, sets_send_timeout, sets_recv_timeout, queue_send,
  send_length, send_locked, send, recv, note, on_active, shut_down, close, start, apply,
  set_flush_callback, set_error_callback, set_close_callback, set_recv_callback, set_high_water,
}

-- On an open connection one Do is under way while `doing` holds, and none otherwise; and then there
-- is nothing to read or write.
pub record InStep (s : Socket) : Type 0 where
  pub busy : s.closed ≡ false → s.doing ≡ true → s.tasks ≡ 1
  pub idle :
      s.closed ≡ false
      → s.doing ≡ false
      → (s.tasks ≡ 0) × (can_read s ≡ false) × (can_write s ≡ false)

-- Where `closed`, `doing` and `tasks` are as they were, it is enough to say whether work is seen.
abbrev SameStatus : Socket → Socket → Type 0
SameStatus t s = (t.closed ≡ s.closed) × (t.doing ≡ s.doing) × (t.tasks ≡ s.tasks)

-- `wake` is told of the work there is.
wake-InStep :
    (ready : Bool) (s t : Socket)
    → SameStatus t s
    → InStep s
    → (s.closed ≡ false
        → can_read s ≡ false
        → can_write s ≡ false
        → ready ≡ false
        → (can_read t ≡ false) × (can_write t ≡ false))
    → InStep (wake ready t)
unfolding wake can_read can_write
wake-InStep ready s t same h still = ground arith

note-SameStatus : (a : Activity) (s : Socket) → SameStatus (note a s) s
unfolding note
note-SameStatus a s = ground arith

or_false : (a b : Bool) → (a || b) ≡ false → (a ≡ false) × (b ≡ false)
or_false a b e = ground arith

on_active-InStep : (a : Activity) (s : Socket) → InStep s → InStep (on_active a s)
unfolding on_active
on_active-InStep a s h =
    wake-InStep (can_read (note a s) || can_write (note a s)) s (note a s) (note-SameStatus a s) h
      (λ _ _ _ e. or_false (can_read (note a s)) (can_write (note a s)) e)

recv-InStep : (c : Clock) (buff : RecvBuffer) (s : Socket) → InStep s → InStep (recv c buff s)
unfolding recv can_read can_write
recv-InStep c buff s h = ground arith

start-InStep : (s : Socket) → InStep s → InStep (start s)
unfolding start can_read can_write
start-InStep s h = ground arith

shut_down-InStep : (s : Socket) → InStep s → InStep (shut_down s)
unfolding shut_down can_read can_write
shut_down-InStep s h = ground arith

closed-InStep : {s : Socket} → s.closed ≡ true → InStep s
closed-InStep e = record { busy = λ f _. cc; idle = λ f _. cc }

pub close-closed : (s : Socket) → (close s).closed ≡ true
unfolding close
close-closed s = ground arith

register-SameStatus : (c : Clock) (s : Socket) → SameStatus (register_send_timer c s) s
unfolding register_send_timer
register-SameStatus c s = ground arith

queue_send-SameStatus :
    (c : Clock) (buff : List ℕ) (len : ℕ) (closing : Bool) (s : Socket)
    → SameStatus (queue_send c buff len closing s) s
unfolding queue_send register_send_timer
queue_send-SameStatus c buff len closing s = ground arith

-- Queueing bytes gives nothing to read, and something to write only where the test of _send sees it.
queue_send-work :
    (c : Clock) (buff : List ℕ) (len : ℕ) (closing : Bool) (s : Socket)
    → can_read s ≡ false
    → let t = queue_send c buff len closing s in
      (s.writeable || high_water t) ≡ false → (can_read t ≡ false) × (can_write t ≡ false)
unfolding queue_send register_send_timer can_read can_write
queue_send-work c buff len closing s r e = ground arith

send_locked-InStep :
    (c : Clock) (buff : List ℕ) (len : ℕ) (closing : Bool) (s : Socket)
    → InStep s
    → InStep (send_locked c buff len closing s)
unfolding send_locked
send_locked-InStep c buff len closing s h =
    let t = queue_send c buff len closing s in
    elim (Bool-cases (s.closed || s.shutdown || s.closed_on_flush)) [
      | inl refused ↦ rw refused h
      | inr goes ↦ rw goes (
          wake-InStep (s.writeable || high_water t) s t (queue_send-SameStatus c buff len closing s)
            h (λ _ r _ e. queue_send-work c buff len closing s r e))
    ]

send-InStep :
    (c : Clock) (buff : List ℕ) (len : ℕ) (closing : Bool) (s : Socket)
    → InStep s
    → InStep (send c buff len closing s)
unfolding send
send-InStep c buff len closing s h =
    ground (arith, send_locked-InStep c buff (send_length buff len) closing s h)

-- The closures are no work that canRead or canWrite see.
push_closures-same :
    (t now : ℕ) (s : Socket)
    → SameStatus (push_closures t now s) s
      × (can_read (push_closures t now s) ≡ can_read s)
      × (can_write (push_closures t now s) ≡ can_write s)
unfolding push_closures can_read can_write
push_closures-same t now s = ground arith

on_timer-InStep : (t now : ℕ) (s : Socket) → InStep s → InStep (on_timer t now s)
unfolding on_timer
on_timer-InStep t now s h =
    let (same, r, w) = push_closures-same t now s in
    wake-InStep _ s (push_closures t now s) same h (λ _ e f _. (r ∙ e, w ∙ f))

set_send_timeout-InStep :
    (c : Clock) (timeout : ℕ) (callback : Bool) (s : Socket)
    → InStep s
    → InStep (set_send_timeout c timeout callback s)
unfolding set_send_timeout can_read can_write
set_send_timeout-InStep c timeout callback s h = ground arith

set_recv_timeout-InStep :
    (c : Clock) (timeout : ℕ) (callback : Bool) (s : Socket)
    → InStep s
    → InStep (set_recv_timeout c timeout callback s)
unfolding set_recv_timeout can_read can_write
set_recv_timeout-InStep c timeout callback s h = ground arith

-- A new high water mark is not noticed by itself: it must not be passed already.
abbrev pub Noticed : Event → Socket → Type 0
Noticed (sets_high_water given size) s = (s.bytes_for_send ≤ size) ⊎ (s.doing ≡ true)
Noticed e s = Unit {0}

set_high_water-InStep :
    (given : Bool) (size : ℕ) (s : Socket)
    → Noticed (sets_high_water given size) s
    → InStep s
    → InStep (set_high_water given size s)
unfolding set_high_water can_read can_write
set_high_water-InStep given size s (inl low) h = ground arith
set_high_water-InStep given size s (inr busy) h = ground arith

-- Every call keeps the flag and the number of tasks in step with the work there is, but for
-- SetHighWater below the number of bytes that wait on an idle connection.
pub apply-InStep : (e : Event) (s : Socket) → Noticed e s → InStep s → InStep (apply e s)
unfolding apply set_flush_callback set_error_callback set_close_callback set_recv_callback can_read
    can_write
apply-InStep (sends c buff len closing) s n h = send-InStep c buff len closing s h
apply-InStep (recvs c buff) s n h = recv-InStep c buff s h
apply-InStep (activates a) s n h = on_active-InStep a s h
apply-InStep shuts s n h = shut_down-InStep s h
apply-InStep closes s n h = closed-InStep (close-closed s)
apply-InStep starts s n h = start-InStep s h
apply-InStep (ticks t now) s n h = on_timer-InStep t now s h
apply-InStep (sets_flush given) s n h = record { busy = h.busy; idle = h.idle }
apply-InStep (sets_error given) s n h = record { busy = h.busy; idle = h.idle }
apply-InStep (sets_close given) s n h = record { busy = h.busy; idle = h.idle }
apply-InStep (sets_recv given) s n h = record { busy = h.busy; idle = h.idle }
apply-InStep (sets_high_water given size) s n h = set_high_water-InStep given size s n h
apply-InStep (sets_send_timeout c timeout callback) s n h =
    set_send_timeout-InStep c timeout callback s h
apply-InStep (sets_recv_timeout c timeout callback) s n h =
    set_recv_timeout-InStep c timeout callback s h
