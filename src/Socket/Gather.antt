-- ===== src/Socket/Gather.antt =====
-- src/net/TCPSocket.cpp: recvInWorker of the build with GATHER_RECV, which reads into all buffers of
-- the list at once. `recv_list` of the socket is *ptrRecvlist; the other one of recvLists is empty
-- but while recvInWorker works on it.
pub mod Shares
pub mod Bounds
pub mod Delivers
mod Examples
use hwnet.Prelude.{
  ◌>>=◌, ℕ, zero, suc, ◌+◌, ◌-◌, Bool, true, false, not, ◌&&◌, List, [], ◌∷◌, Option, none, some,
  ltb, leb, length, ◌==◌, if◌then◌else◌,
}
use hwnet.Socket.State.{Socket, RecvBuffer, on_recv, emit, can_read}
use hwnet.Socket.Api.{Event, apply_all}
use hwnet.Socket.Worker.{
  Io, SysResult, moved, would_block, failed, stamp_recv, recv_error, report_error,
}

-- max_recv_iovec_size
abbrev pub max_recv_iovec_size : ℕ
max_recv_iovec_size = 128

-- The loop that fills recv_iovec, with `room` places left: the buffers it names to readv. `none` is a
-- write past the end of the array.
unfoldable pub fill_iovec : (room : ℕ) → List RecvBuffer → Option (List RecvBuffer)
fill_iovec room [] = some []
fill_iovec zero (b ∷ bs) = none
fill_iovec (suc room) (b ∷ bs) = do rest ← fill_iovec room bs; some (b ∷ rest)

-- How the loop over the answer of readv ends: whether the socket was closed by a callback, so that
-- recvInWorker returns; the calls of recvCallback in order; the buffers left; the socket.
pub record Delivery : Type 0 where
  pub stopped : Bool
  pub calls : List (RecvBuffer × ℕ)
  pub rest : List RecvBuffer
  pub socket : Socket

-- One call of recvCallback with `k` bytes, and what it does.
unfoldable pub call_recv : Bool → List Event → RecvBuffer → ℕ → Socket → Socket
call_recv callback events b k s = if callback then apply_all events (emit (on_recv b k) s) else s

with_call : Bool → RecvBuffer → ℕ → Delivery → Delivery
with_call callback b k d = if callback then record d { calls = (b, k) ∷ d.calls } else d

-- The loop over the bytes that readv gave; `events` is what the callbacks do, by the number of buffers
-- left then. `none` is a front of the list where there is none.
unfoldable pub deliver : Bool → (ℕ → List Event) → ℕ → List RecvBuffer → Socket → Option Delivery
unfolding call_recv with_call
deliver callback events zero bs s =
    some (record { stopped = false; calls = []; rest = bs; socket = s })
deliver callback events (suc n) [] s = none
deliver callback events (suc n) (b ∷ bs) s =
    let k = if leb b.len (suc n) then b.len else suc n in
    let s' = call_recv callback (events (length bs)) b k s in
    let go : Option Delivery = do
      d ← deliver callback events (suc n - k) bs s'
      some (with_call callback b k d)
    in if callback && s'.closed
      then some
          (with_call callback b k (record { stopped = true; calls = []; rest = bs; socket = s' }))
      else go

-- The loop that moves the buffers left in front of the list, the last one first.
unfoldable pub give_back : List RecvBuffer → List RecvBuffer → List RecvBuffer
give_back [] current = current
give_back (b ∷ bs) current = b ∷ give_back bs current

-- The rest of recvInWorker after the loop.
unfoldable pub after_delivery : Io → Delivery → Socket
unfolding give_back
after_delivery io d =
    let back = record (d.socket) { recv_list = give_back d.rest d.socket.recv_list } in
    if d.stopped then d.socket else stamp_recv io.now back

-- recvInWorker from the end of readv on, by what it said of the buffers `bs`.
unfoldable pub gather_answer :
    SysResult → Bool → ℕ → (ℕ → List Event) → List RecvBuffer → Io → Socket → Option Socket
unfolding deliver after_delivery
gather_answer (moved zero) callback ver events bs io s = some (recv_error io s)
gather_answer (moved (suc n)) callback ver events bs io s = do
  d ← deliver callback events (suc n) bs s
  some (after_delivery io d)
gather_answer would_block callback ver events bs io s =
    let back = record s { recv_list = give_back bs s.recv_list } in
    some (if ver == s.readable_ver then record back { readable = false } else back)
gather_answer failed callback ver events bs io s = some (recv_error io s)

-- recvInWorker with GATHER_RECV
unfoldable pub gather_in_worker : (ℕ → List Event) → Io → Socket → Option Socket
unfolding gather_answer fill_iovec
gather_in_worker events io s =
    let bs = s.recv_list in
    let read : Option Socket = do
      iovec ← fill_iovec max_recv_iovec_size bs
      gather_answer io.result s.callbacks.recv s.readable_ver events bs io
          (apply_all io.meanwhile (record s { recv_list = [] }))
    in if not (can_read s)
      then some s
      else if s.socket_error
      then some (report_error s.callbacks.error io s)
      else read
