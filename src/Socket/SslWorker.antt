-- ===== src/Socket/SslWorker.antt =====
-- src/net/TCPSocket.cpp, built with USE_SSL: SSLwrite and SSLread, sendInWorkerSSL as a whole,
-- recvInWorker with SSLread, and Do with the two. What OpenSSL answers is an argument.
pub mod Stuck
mod Examples
use hwnet.Prelude.{
  ◌>>=◌, ℕ, zero, suc, Bool, true, false, not, ◌&&◌, ◌||◌, List, [], ◌∷◌, Option, none, some,
  if◌then◌else◌,
}
use hwnet.Socket.SendList.{SendContext}
use hwnet.Socket.State.{Socket, can_read, can_write, post}
use hwnet.Socket.Api.{apply_all}
use hwnet.Socket.Worker.{
  Io, SysResult, moved, would_block, failed, SendPlan, nothing, report, write, send_begin,
  send_in_worker, recv_in_worker, report_high_water, after_send,
}
use hwnet.Socket.Ssl.{ssl_send_end}
use hwnet.Socket.Task.{Round, run_closure, rest, leave, is_done, max_loop}

-- What SSL_write or SSL_read answers; with 0, whether SSL_get_error wants the call again, and with a
-- negative number, whether errno is EAGAIN in the end, as SSLwrite makes it in that case.
pub data SslResult : Type 0 where
  positive : ℕ → SslResult
  zero_or_again negative_or_again : Bool → SslResult

-- SSLwrite and SSLread
unfoldable pub ssl_call : SslResult → SysResult
ssl_call (positive n) = moved n
ssl_call (zero_or_again true) = would_block
ssl_call (zero_or_again false) = moved 0
ssl_call (negative_or_again true) = would_block
ssl_call (negative_or_again false) = failed

unfoldable pub with_answer : SslResult → Io → Io
unfolding ssl_call
with_answer r io = record io { result = ssl_call r }

-- From SSLwrite on; the list that was taken is in `spare`. `none` is cur->len of a null `cur`.
unfoldable pub ssl_write_front : List SendContext → ℕ → SslResult → Io → Socket → Option Socket
ssl_write_front [] ver r io s = none
ssl_write_front (c ∷ cs) ver r io s = do
  let s1 = apply_all io.meanwhile s
  t ← ssl_send_end ver (with_answer r io) s1
  some (after_send t.0 s1.closed_on_flush s1.callbacks.error io t.1)

-- sendInWorkerSSL; `ssl` says whether the connection has an SSL.
unfoldable pub send_in_worker_ssl : Bool → SslResult → Io → Socket → Option Socket
unfolding ssl_write_front
send_in_worker_ssl ssl r io s =
    let (plan, s') = send_begin s in
    let by_ssl : Option Socket = elim plan [
      | nothing ↦ some s'
      | report ↦ some (report_high_water io s')
      | write ver ↦ ssl_write_front s'.spare ver r io s'
    ] in
    if ssl then by_ssl else send_in_worker io s

-- recvInWorker
unfoldable pub recv_in_worker_ssl : Bool → SslResult → Io → Socket → Socket
recv_in_worker_ssl ssl r io s =
    if ssl then recv_in_worker (with_answer r io) s else recv_in_worker io s

-- One round of Do: that of the other build, and the answers of OpenSSL.
pub record SslRound : Type 0 where
  pub round : Round
  pub read : SslResult
  pub wrote : SslResult

unfoldable pub work_ssl : Bool → SslRound → Socket → Option Socket
unfolding recv_in_worker_ssl send_in_worker_ssl
work_ssl ssl r s =
    let s1 = if can_read s then recv_in_worker_ssl ssl r.read r.round.recv_io s else s in
    if can_write s then send_in_worker_ssl ssl r.wrote r.round.send_io s1 else some s1

-- The rounds of Do that are left.
unfoldable pub do_loop_ssl : Bool → ℕ → (ℕ → SslRound) → Socket → Option Socket
unfolding work_ssl
do_loop_ssl ssl zero rounds s =
    let s1 = run_closure (rounds zero).round s in
    some (if is_done s1 then rest s1 else leave (post s1))
do_loop_ssl ssl (suc k) rounds s =
    let s1 = run_closure (rounds (suc k)).round s in
    let more : Option Socket = work_ssl ssl (rounds (suc k)) s1 >>= do_loop_ssl ssl k rounds in
    if is_done s1 then some (rest s1) else more

-- Do
unfoldable pub run_task_ssl : Bool → (ℕ → SslRound) → Socket → Option Socket
unfolding do_loop_ssl
run_task_ssl ssl rounds s = do_loop_ssl ssl max_loop rounds s
