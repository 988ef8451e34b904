-- ===== src/Socket/WorkerWorking.antt =====
-- What the regions of sendInWorker, recvInWorker and Do of src/net/TCPSocket.cpp leave of the flag
-- and the number of tasks.
use hwnet.Prelude.{
  ℕ, zero, suc, ◌≡◌, refl, Bool, true, false, not, ◌&&◌, List, [], ◌∷◌, some, arith, Bool-cases,
  inl, inr,
}
use hwnet.Socket.State.{Socket, RecvBuffer}
use hwnet.Socket.Timeout.{
  send_overdue, recv_overdue, check_send, check_recv, check_idle, check_timeout,
}
use hwnet.Socket.Api.{Event, apply_all}
use hwnet.Socket.Worker.{
  Io, SysResult, SendPlan, After, moved, would_block, failed, quiet, call_enable, call_flush,
  call_error, report_error, recv_error, after_send, stamp_recv, recv_answer, send_begin, put_back,
  finish_write, stamp_send, send_end, recv_end,
}
use hwnet.Socket.Task.{Round, run_front, run_closure}
use hwnet.Socket.Working.{
  Working, Working-refl, Working-trans, quiet_change, emit-Working, close-Working,
  apply_all-Working,
}

-- The regions of the workers.
pub send_begin-Working : (s t : Socket) (plan : SendPlan) → send_begin s ≡ (plan, t) → Working s t
unfolding send_begin
send_begin-Working s t plan e = ground arith

pub send_end-Working :
    (ver : ℕ) (io : Io) (s t : Socket) (a : After) → send_end ver io s ≡ some (a, t) → Working s t
unfolding send_end put_back finish_write stamp_send
send_end-Working ver io s t a e = ground arith

report_error-Working :
    (handler : Bool) (io : Io) (s : Socket) → Working s (report_error handler io s)
unfolding report_error
report_error-Working true io s =
    Working-trans (emit-Working _ s) (apply_all-Working io.in_callback _)
report_error-Working false io s = close-Working s

recv_error-Working : (io : Io) (s : Socket) → Working s (recv_error io s)
unfolding recv_error
recv_error-Working io s =
    let t : Socket = record s { err = io.errno; socket_error = true } in
    let moved_on : Working s t = ground arith in
    Working-trans moved_on (report_error-Working s.callbacks.error io t)

pub after_send-Working :
    (a : After) (closing handler : Bool) (io : Io) (s : Socket)
    → Working s (after_send a closing handler io s)
unfolding after_send
after_send-Working quiet closing handler io s = Working-refl s
after_send-Working call_enable closing handler io s = emit-Working _ s
after_send-Working call_flush false handler io s =
    Working-trans (emit-Working _ s) (apply_all-Working io.in_callback _)
after_send-Working call_flush true handler io s =
    Working-trans (Working-trans (emit-Working _ s) (apply_all-Working io.in_callback _))
      (close-Working _)
after_send-Working call_error closing handler io s = report_error-Working handler io s

stamp_recv-Working : (now : ℕ) (s : Socket) → Working s (stamp_recv now s)
unfolding stamp_recv
stamp_recv-Working now s = ground arith

recv_answer-Working :
    (r : SysResult) (callback : Bool) (ver : ℕ) (buff : RecvBuffer) (io : Io) (s : Socket)
    → Working s (recv_answer r callback ver buff io s)
unfolding recv_answer
recv_answer-Working (moved zero) callback ver buff io s = recv_error-Working io s
recv_answer-Working (moved (suc n)) true ver buff io s =
    Working-trans (Working-trans (emit-Working _ s) (apply_all-Working io.in_callback _))
      (stamp_recv-Working io.now _)
recv_answer-Working (moved (suc n)) false ver buff io s = stamp_recv-Working io.now s
recv_answer-Working would_block callback ver buff io s = ground arith
recv_answer-Working failed callback ver buff io s = recv_error-Working io s

pub recv_end-Working :
    (callback : Bool) (ver : ℕ) (buff : RecvBuffer) (io : Io) (s : Socket)
    → Working s (recv_end callback ver buff io s)
unfolding recv_end
recv_end-Working callback ver buff io s = recv_answer-Working io.result callback ver buff io s

check_send-Working :
    (now : ℕ) (es : List Event) (s : Socket) → Working s (check_send now (apply_all es) s)
unfolding check_send
check_send-Working now es s = elim (Bool-cases (not s.closed && send_overdue now s)) [
  | inl late ↦ rw late (Working-trans (quiet_change _ s refl refl refl) (apply_all-Working es _))
  | inr timely ↦ rw timely (Working-refl s)
]

check_recv-Working :
    (now : ℕ) (es : List Event) (s : Socket) → Working s (check_recv now (apply_all es) s)
unfolding check_recv
check_recv-Working now es s = elim (Bool-cases (not s.closed && recv_overdue now s)) [
  | inl late ↦ rw late (Working-trans (quiet_change _ s refl refl refl) (apply_all-Working es _))
  | inr timely ↦ rw timely (Working-refl s)
]

check_idle-Working : (t : ℕ) (s : Socket) → Working s (check_idle t s)
unfolding check_idle
check_idle-Working t s = ground arith

check_timeout-Working :
    (t now : ℕ) (es fs : List Event) (s : Socket)
    → Working s (check_timeout t now (apply_all es) (apply_all fs) s)
unfolding check_timeout
check_timeout-Working t now es fs s =
    let checked =
      Working-trans (check_send-Working now es s)
        (Working-trans (check_recv-Working now fs _) (check_idle-Working t _)) in
    ground (arith, checked)

run_front-Working : (ts : List ℕ) (r : Round) (s : Socket) → Working s (run_front ts r s)
unfolding run_front
run_front-Working [] r s = Working-refl s
run_front-Working (t ∷ ts) r s =
    Working-trans (quiet_change _ s refl refl refl)
      (check_timeout-Working t r.now r.in_send_timeout r.in_recv_timeout _)

pub run_closure-Working : (r : Round) (s : Socket) → Working s (run_closure r s)
unfolding run_closure
run_closure-Working r s = run_front-Working s.timeouts.closures r s
