-- ===== src/Socket/Worker.antt =====
-- src/net/TCPSocket.cpp: sendInWorker and recvInWorker, which run on the thread pool.
-- A system call's result is an argument, and so are the calls that other threads and the callbacks
-- make while the lock is not held. `none` stands for the dereference of a null context.
use hwnet.Prelude.{
  ◌>>=◌, ℕ, zero, suc, Bool, true, false, not, ◌&&◌, ◌||◌, List, [], ◌∷◌, Option, some, ltb, leb,
  ◌==◌, if◌then◌else◌, sub_size,
}
use hwnet.Socket.SendList.{
  SendContext, is_empty, add_front, gathered, left_over, total_bytes, advance,
}
use hwnet.Socket.State.{
  Socket, RecvBuffer, enable_write, shutdown_wr, on_flush, on_error, on_high_water, on_recv, emit,
  high_water, can_read, can_write,
}
use hwnet.Socket.Api.{Event, apply_all, close}

-- What read and writev answer; a failure leaves its reason in errno.
pub data SysResult : Type 0 where
  moved : ℕ → SysResult
  would_block failed : SysResult

-- One system call: its result, errno after it, the clock, what others do meanwhile, and what is done
-- while a callback that follows it runs.
pub record Io : Type 0 where
  pub result : SysResult
  pub errno : ℕ
  pub now : ℕ
  pub meanwhile : List Event
  pub in_callback : List Event

-- The first region of sendInWorker: nothing to do, a report that the peer is slow, or a write with
-- the version that was seen.
pub data SendPlan : Type 0 where
  nothing report : SendPlan
  write : ℕ → SendPlan

unfoldable pub send_begin : Socket → SendPlan × Socket
send_begin s =
    if not (can_write s)
    then (nothing, s)
    else if not s.writeable && high_water s
    then (report, s)
    else (write s.writeable_ver, record s { current = s.spare; spare = s.current })

-- What follows the second region.
pub data After : Type 0 where
  quiet call_enable : After
  call_flush call_error : After

-- `n >= totalBytes && cur == nullptr`: the local list is cleared before the lock is taken again.
unfoldable pub drain_sent : ℕ → List SendContext → List SendContext
drain_sent n cs = if leb (total_bytes (gathered cs)) n && is_empty (left_over cs) then [] else cs

-- A partial send: what went out is removed, and the rest put in front.
unfoldable pub put_back : ℕ → List SendContext → Socket → Option Socket
put_back n cs s =
    if ltb 0 n && (ltb n (total_bytes (gathered cs)) || not (is_empty (left_over cs)))
    then (do
      rest ← advance n cs
      some (record s { current = add_front s.current rest; spare = [] }))
    else some (record s { spare = drain_sent n cs })

unfoldable pub finish_write : Socket → After × Socket
finish_write s =
    let s' = if is_empty s.current && s.shutdown then emit shutdown_wr s else s in
    if is_empty s.current && s.callbacks.flush then (call_flush, s') else (quiet, s')

unfoldable pub stamp_send : ℕ → Socket → Socket
stamp_send now s =
    if ltb 0 s.timeouts.send_timeout
    then record s { timeouts = record (s.timeouts) { last_send_time = now } }
    else s

-- The second region of sendInWorker.
unfoldable pub send_end : ℕ → Io → Socket → Option (After × Socket)
send_end ver io s = elim io.result [
  | moved n ↦ do
    s' ← put_back n s.spare (stamp_send io.now s)
    some (finish_write (record s' { bytes_for_send = sub_size s'.bytes_for_send n }))
  | would_block ↦
      let back = record s { current = add_front s.current s.spare; spare = [] } in
      some (
        if s.writeable_ver == ver
        then (call_enable, record back { writeable = false })
        else (quiet, back))
  | failed ↦ some (
      if s.closed
      then (quiet, s)
      else (call_error, record s { socket_error = true; err = io.errno }))
]

-- The end of a worker that met an error: the callback, or Close where none is set.
unfoldable pub report_error : Bool → Io → Socket → Socket
report_error handler io s =
    if handler then apply_all io.in_callback (emit (on_error s.err) s) else close s

-- The callbacks that follow. `closing` and `handler` were read under the lock.
unfoldable pub after_send : After → Bool → Bool → Io → Socket → Socket
after_send quiet closing handler io s = s
after_send call_enable closing handler io s = emit enable_write s
after_send call_flush closing handler io s =
    let s' = apply_all io.in_callback (emit on_flush s) in if closing then close s' else s'
after_send call_error closing handler io s = report_error handler io s

-- The lists swapped, the write, and the second region.
unfoldable pub send_write : ℕ → Io → Socket → Option Socket
send_write ver io s = do
  let s1 = apply_all io.meanwhile s
  r ← send_end ver io s1
  some (after_send r.0 s1.closed_on_flush s1.callbacks.error io r.1)

unfoldable pub report_high_water : Io → Socket → Socket
report_high_water io s =
    if s.callbacks.high_water
    then apply_all io.in_callback (emit (on_high_water s.bytes_for_send) s)
    else s

-- sendInWorker
unfoldable pub send_in_worker : Io → Socket → Option Socket
send_in_worker io s =
    let (plan, s') = send_begin s in
    elim plan [
      | nothing ↦ some s'
      | report ↦ some (report_high_water io s')
      | write ver ↦ send_write ver io s'
    ]

unfoldable pub stamp_recv : ℕ → Socket → Socket
stamp_recv now s =
    if ltb 0 s.timeouts.recv_timeout
    then record s { timeouts = record (s.timeouts) { last_recv_time = now } }
    else s

-- An error of read, or the end of the stream.
unfoldable pub recv_error : Io → Socket → Socket
recv_error io s =
    report_error s.callbacks.error io (record s { err = io.errno; socket_error = true })

-- recvInWorker from the end of read on, by what read said: `callback` and `ver` were read in the
-- first region.
unfoldable pub recv_answer : SysResult → Bool → ℕ → RecvBuffer → Io → Socket → Socket
recv_answer (moved zero) callback ver buff io s = recv_error io s
recv_answer (moved (suc n)) callback ver buff io s =
    stamp_recv io.now
      (if callback then apply_all io.in_callback (emit (on_recv buff (suc n)) s) else s)
recv_answer would_block callback ver buff io s =
    let back = record s { recv_list = buff ∷ s.recv_list } in
    if ver == s.readable_ver then record back { readable = false } else back
recv_answer failed callback ver buff io s = recv_error io s

unfoldable pub recv_end : Bool → ℕ → RecvBuffer → Io → Socket → Socket
unfolding recv_answer
recv_end callback ver buff io s = recv_answer io.result callback ver buff io s

recv_front : List RecvBuffer → Io → Socket → Socket
unfolding recv_end
recv_front [] io s = s
recv_front (buff ∷ rest) io s =
    recv_end s.callbacks.recv s.readable_ver buff io
      (apply_all io.meanwhile (record s { recv_list = rest }))

-- recvInWorker: `front` is there, since canRead holds without a socket error.
unfoldable pub recv_in_worker : Io → Socket → Socket
unfolding recv_front
recv_in_worker io s =
    if not (can_read s)
    then s
    else if s.socket_error
    then report_error s.callbacks.error io s
    else recv_front s.recv_list io s
