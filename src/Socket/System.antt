-- ===== src/Socket/System.antt =====
-- A connection of src/net/TCPSocket.cpp as a state machine: calls, and the regions of Do, in any
-- interleaving.
use mathlib.Core.Bool.{true≢false}
use hwnet.Prelude.{ℕ, ◌≡◌, refl, sym, ◌∙◌, Bool, true, List, ◌∷◌, some, arith}
use hwnet.Socket.State.{Socket, RecvBuffer, new_socket, post, can_read, can_write}
use hwnet.Socket.Api.{Event, apply}
use hwnet.Socket.Worker.{Io, SendPlan, After, send_begin, send_end, after_send, recv_end}
use hwnet.Socket.Task.{Round, run_closure, leave, rest, is_done}
use hwnet.Socket.Protocol.{InStep, Noticed, apply-InStep}
use hwnet.Socket.Working.{Working, quiet_change}
use hwnet.Socket.WorkerWorking.{
  send_begin-Working, send_end-Working, after_send-Working, recv_end-Working, run_closure-Working,
}

-- A region of a worker is a step of the thread that runs Do, so `doing` is set.
pub data Step : Socket → Socket → Type 0 where
  called : (s : Socket) (e : Event) → Noticed e s → Step s (apply e s)
  closure_ran : (s : Socket) (r : Round) → s.doing ≡ true → Step s (run_closure r s)
  read_began :
      (s : Socket) (buff : RecvBuffer) (buffs : List RecvBuffer)
      → s.doing ≡ true
      → s.recv_list ≡ buff ∷ buffs
      → Step s (record s { recv_list = buffs })
  read_ended :
      (s : Socket) (callback : Bool) (ver : ℕ) (buff : RecvBuffer) (io : Io)
      → s.doing ≡ true
      → Step s (recv_end callback ver buff io s)
  write_began :
      (s t : Socket) (plan : SendPlan) → s.doing ≡ true → send_begin s ≡ (plan, t) → Step s t
  write_ended :
      (s t : Socket) (ver : ℕ) (io : Io) (a : After)
      → s.doing ≡ true
      → send_end ver io s ≡ some (a, t)
      → Step s t
  write_followed :
      (s : Socket) (a : After) (closing handler : Bool) (io : Io)
      → s.doing ≡ true
      → Step s (after_send a closing handler io s)
  rested : (s : Socket) → s.doing ≡ true → is_done s ≡ true → Step s (rest s)
  reposted : (s : Socket) → s.doing ≡ true → Step s (leave (post s))

pub data Reach (s : Socket) : Socket → Type 0 where
  here : Reach s s
  next : {t u : Socket} → Reach s t → Step t u → Reach s u

Working-InStep : {s t : Socket} → s.doing ≡ true → Working s t → InStep s → InStep t
Working-InStep e w h = record {
  busy = λ c _. w.tasks e ∙ h.busy (w.open_before c) e;
  idle = λ c d. absurd (true≢false (sym (w.doing e) ∙ d));
}

rest-InStep : (s : Socket) → s.doing ≡ true → is_done s ≡ true → InStep s → InStep (rest s)
unfolding rest can_read can_write
rest-InStep s e d h = ground arith

reposted-InStep : (s : Socket) → InStep s → InStep (leave (post s))
unfolding post can_read can_write
reposted-InStep s h = ground arith

Step-InStep : {s t : Socket} → Step s t → InStep s → InStep t
Step-InStep (called s e n) h = apply-InStep e s n h
Step-InStep (closure_ran s r e) h = Working-InStep e (run_closure-Working r s) h
Step-InStep (read_began s buff buffs e l) h =
    Working-InStep e (quiet_change (record s { recv_list = buffs }) s refl refl refl) h
Step-InStep (read_ended s callback ver buff io e) h =
    Working-InStep e (recv_end-Working callback ver buff io s) h
Step-InStep (write_began s t plan e b) h = Working-InStep e (send_begin-Working s t plan b) h
Step-InStep (write_ended s t ver io a e b) h = Working-InStep e (send_end-Working ver io s t a b) h
Step-InStep (write_followed s a closing handler io e) h =
    Working-InStep e (after_send-Working a closing handler io s) h
Step-InStep (rested s e d) h = rest-InStep s e d h
Step-InStep (reposted s e) h = reposted-InStep s h

new_socket-InStep : (now : ℕ) → InStep (new_socket now)
unfolding new_socket can_read can_write
new_socket-InStep now = ground arith

Reach-InStep : {s t : Socket} → InStep s → Reach s t → InStep t
Reach-InStep h here = h
Reach-InStep h (next r x) = Step-InStep x (Reach-InStep h r)

-- From the constructor on, whatever calls are made and however they fall between the regions of Do:
-- while the connection is open, exactly one Do is posted or running if `doing` is set; if it is not,
-- none is, and there is nothing that could be read or written. Calls of SetHighWater are not below
-- what waits on an idle connection.
pub Reach-new_socket-InStep : (now : ℕ) {t : Socket} → Reach (new_socket now) t → InStep t
Reach-new_socket-InStep now r = Reach-InStep (new_socket-InStep now) r
