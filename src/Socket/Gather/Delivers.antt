-- ===== src/Socket/Gather/Delivers.antt =====
-- What recvInWorker of src/net/TCPSocket.cpp, built with GATHER_RECV, makes of the answer of readv.
use hwnet.Prelude.{
  ◌>>=◌, ℕ, suc, ◌≤◌, ◌≡◌, refl, ap, ◌∙◌, Bool, true, false, List, [], ◌∷◌, ◌++◌, Option, some, leb,
  length, if◌then◌else◌,
}
use hwnet.Socket.State.{Socket, RecvBuffer, can_read}
use hwnet.Socket.Api.{Event, apply_all}
use hwnet.Socket.Worker.{Io, SysResult, moved, stamp_recv}
use hwnet.Socket.Gather.{
  Delivery, deliver, max_recv_iovec_size, fill_iovec, gather_answer, gather_in_worker,
  after_delivery, give_back,
}
use hwnet.Socket.Gather.Shares.{capacity, IsShared, deliver-IsShared}
use hwnet.Socket.Gather.Bounds.{ready, fill_iovec-room}

give_back-append : (bs cs : List RecvBuffer) → give_back bs cs ≡ bs ++ cs
unfolding give_back
give_back-append [] cs = refl
give_back-append (b ∷ bs) cs = ap (λ l. b ∷ l) (give_back-append bs cs)

-- What recvInWorker ends with, where the loop over the bytes ended with `d`.
abbrev pub left_as : Io → Delivery → Socket
left_as io d =
    if d.stopped
    then d.socket
    else stamp_recv io.now (record (d.socket) { recv_list = d.rest ++ d.socket.recv_list })

after_delivery_lem :
    (io : Io) (stopped : Bool) (d : Delivery)
    → d.stopped ≡ stopped
    → after_delivery io d ≡ left_as io d
unfolding after_delivery
after_delivery_lem io true d e = rw e refl
after_delivery_lem io false d e = rw (e, give_back-append d.rest d.socket.recv_list) refl

gather_answer-moved :
    (r : SysResult) (callback : Bool) (ver n : ℕ) (events : ℕ → List Event) (bs : List RecvBuffer)
    (io : Io) (s : Socket) (d : Delivery)
    → r ≡ moved (suc n)
    → callback ≡ true
    → deliver true events (suc n) bs s ≡ some d
    → gather_answer r callback ver events bs io s ≡ some (after_delivery io d)
unfolding gather_answer
gather_answer-moved r callback ver n events bs io s d gave heard done = rw (gave, heard, done) refl

-- A connection that can be read, with a recvCallback and at most max_recv_iovec_size buffers, gets
-- from readv some bytes, no more than the buffers have place for. Then recvInWorker makes these calls
-- of recvCallback and no other ones: with the buffers in order, each with all bytes that it has place
-- for, but the last one maybe with less. These are all bytes that readv gave, unless the connection is
-- closed after one of the calls: then recvInWorker returns at once. Otherwise the other buffers wait
-- again, in front of those that came meanwhile.
pub gather_in_worker-IsShared :
    (events : ℕ → List Event) (io : Io) (s : Socket) (n : ℕ)
    → can_read s ≡ true
    → s.socket_error ≡ false
    → s.callbacks.recv ≡ true
    → leb (length s.recv_list) max_recv_iovec_size ≡ true
    → io.result ≡ moved (suc n)
    → suc n ≤ capacity s.recv_list
    → (d : Delivery) × (t : Socket) × (gather_in_worker events io s ≡ some t)
      × IsShared events (suc n) s.recv_list (apply_all io.meanwhile (record s { recv_list = [] })) d
      × (t ≡ left_as io d)
unfolding gather_in_worker
gather_in_worker-IsShared events io s n can fine heard short gave fits =
    let bs = s.recv_list in
    let after = apply_all io.meanwhile (record s { recv_list = [] }) in
    let (d, done, h) = deliver-IsShared events (suc n) bs after fits in
    let k = λ (iovec : List RecvBuffer).
      gather_answer io.result s.callbacks.recv s.readable_ver events bs io after in
    let read : Option Socket = fill_iovec max_recv_iovec_size bs >>= k in
    let ends : k bs ≡ some (after_delivery io d) =
      gather_answer-moved io.result s.callbacks.recv s.readable_ver n events bs io after d gave
        heard done in
    let filled = fill_iovec-room max_recv_iovec_size bs in
    (
      d,
      after_delivery io d,
      ready (can_read s) s.socket_error (some s) _ read can fine ∙ rw (filled, short) ends,
      h,
      after_delivery_lem io d.stopped d refl,
    )
