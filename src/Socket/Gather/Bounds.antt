-- ===== src/Socket/Gather/Bounds.antt =====
-- When recvInWorker of src/net/TCPSocket.cpp, built with GATHER_RECV, writes past recv_iovec.
use hwnet.Prelude.{
  ◌>>=◌, ℕ, zero, suc, ◌-◌, ◌≤◌, ◌≡◌, refl, ap, ◌∙◌, Bool, true, false, not, List, [], ◌∷◌, Option,
  none, some, leb, arith, length, if◌then◌else◌,
}
use hwnet.Socket.State.{Socket, RecvBuffer, can_read}
use hwnet.Socket.Api.{Event, apply_all}
use hwnet.Socket.Worker.{Io, moved, SysResult, would_block, failed}
use hwnet.Socket.Gather.{
  Delivery, call_recv, with_call, max_recv_iovec_size, fill_iovec, deliver, gather_answer,
  gather_in_worker,
}
use hwnet.Socket.Gather.Shares.{capacity, deliver-IsShared}

abbrev pub has_result : Option Socket → Bool
has_result none = false
has_result (some s) = true

-- readv gives no more bytes than it was given place for.
abbrev pub may_answer : SysResult → List RecvBuffer → Bool
may_answer (moved n) bs = leb n (capacity bs)
may_answer would_block bs = true
may_answer failed bs = true

if_bind :
    (c : Bool) (b : RecvBuffer) (bs : List RecvBuffer)
    → ((if c then some bs else none) >>= λ rest. some (b ∷ rest))
      ≡ (if c then some (b ∷ bs) else none)
if_bind true b bs = refl
if_bind false b bs = refl

leb-suc : (m n : ℕ) → leb (suc m) (suc n) ≡ leb m n
leb-suc m n = ground arith

pub fill_iovec-room :
    (room : ℕ) (bs : List RecvBuffer)
    → fill_iovec room bs ≡ (if leb (length bs) room then some bs else none)
unfolding fill_iovec
fill_iovec-room room [] = ground arith
fill_iovec-room zero (b ∷ bs) = ground arith
fill_iovec-room (suc room) (b ∷ bs) =
    rw (fill_iovec-room room bs, leb-suc (length bs) room) (if_bind (leb (length bs) room) b bs)

pub ready :
    (a b : Bool) (x y z : Option Socket)
    → a ≡ true
    → b ≡ false
    → (if not a then x else if b then y else z) ≡ z
ready true false x y z e e' = refl
ready true true x y z e e' = absurd (ground (arith, e'))
ready false b x y z e e' = absurd (ground (arith, e))

deliver_unheard :
    (events : ℕ → List Event) (n : ℕ) (bs : List RecvBuffer) (s : Socket)
    → n ≤ capacity bs
    → (d : Delivery) × (deliver false events n bs s ≡ some d)
unfolding deliver capacity with_call
deliver_unheard events zero bs s fits = (_, refl)
deliver_unheard events (suc n) [] s fits = absurd (omega (arith, fits))
deliver_unheard events (suc n) (b ∷ bs) s fits =
    let k = if leb b.len (suc n) then b.len else suc n in
    let left : suc n - k ≤ capacity bs = ground (arith, fits) in
    let (d, done) =
      deliver_unheard events (suc n - k) bs (call_recv false (events (length bs)) b k s) left in
    (d, rw done refl)

deliver_any :
    (callback : Bool) (events : ℕ → List Event) (n : ℕ) (bs : List RecvBuffer) (s : Socket)
    → n ≤ capacity bs
    → (d : Delivery) × (deliver callback events n bs s ≡ some d)
deliver_any true events n bs s fits =
    let (d, done, h) = deliver-IsShared events n bs s fits in (d, done)
deliver_any false events n bs s fits = deliver_unheard events n bs s fits

gather_answer-result :
    (r : SysResult) (callback : Bool) (ver : ℕ) (events : ℕ → List Event) (bs : List RecvBuffer)
    (io : Io) (s : Socket)
    → may_answer r bs ≡ true
    → has_result (gather_answer r callback ver events bs io s) ≡ true
unfolding gather_answer
gather_answer-result (moved zero) callback ver events bs io s ok = refl
gather_answer-result (moved (suc n)) callback ver events bs io s ok =
    let (d, done) = deliver_any callback events (suc n) bs s (ground (arith, ok)) in rw done refl
gather_answer-result would_block callback ver events bs io s ok = refl
gather_answer-result failed callback ver events bs io s ok = refl

bounded-result :
    (c : Bool) (bs : List RecvBuffer) (k : List RecvBuffer → Option Socket)
    → has_result (k bs) ≡ true
    → has_result ((if c then some bs else none) >>= k) ≡ c
bounded-result true bs k h = h
bounded-result false bs k h = refl

-- For a connection that can be read, has no error and has buffers for it, whatever readv answers
-- within the place that it was given: recvInWorker stays within recv_iovec and comes to an end just
-- if no more than max_recv_iovec_size buffers wait. Recv puts no bound on them.
pub gather_in_worker-bounds :
    (events : ℕ → List Event) (io : Io) (s : Socket)
    → can_read s ≡ true
    → s.socket_error ≡ false
    → may_answer io.result s.recv_list ≡ true
    → has_result (gather_in_worker events io s) ≡ leb (length s.recv_list) max_recv_iovec_size
unfolding gather_in_worker
gather_in_worker-bounds events io s can fine ok =
    let bs = s.recv_list in
    let after = apply_all io.meanwhile (record s { recv_list = [] }) in
    let k = λ (iovec : List RecvBuffer).
      gather_answer io.result s.callbacks.recv s.readable_ver events bs io after in
    let read : Option Socket = fill_iovec max_recv_iovec_size bs >>= k in
    let filled = fill_iovec-room max_recv_iovec_size bs in
    ap has_result (ready (can_read s) s.socket_error (some s) _ read can fine)
    ∙ rw filled (
        bounded-result (leb (length bs) max_recv_iovec_size) bs k
          (gather_answer-result io.result s.callbacks.recv s.readable_ver events bs io after ok))
