-- ===== src/Socket/CloseOnFlush.antt =====
-- SendAndClose of src/net/TCPSocket.cpp, which is to close the connection once all is sent.
use hwnet.Prelude.{
  ℕ, ◌≤◌, ◌<◌, ◌≡◌, ap, ◌∙◌, Bool, false, List, Option, some, arith, subst, sym, sub_size,
}
use hwnet.Socket.SendList.{SendContext, total_bytes, gathered}
use hwnet.Socket.State.{Socket}
use hwnet.Socket.Frame.{send_state}
use hwnet.Socket.Delivery.{IsCounted}
use hwnet.Socket.PutBack.{put_back-Restored}
use hwnet.Socket.Turn.{settle, stamp_send-settle, send_state-stamp_send}
use hwnet.Socket.Api.{apply_all}
use hwnet.Socket.Worker.{
  Io, After, quiet, moved, finish_write, stamp_send, put_back, after_send, send_write,
}

-- Without a flush callback a turn that writes all there is ends quietly.
finish_write-quiet : (s : Socket) → s.callbacks.flush ≡ false → (finish_write s).0 ≡ quiet
unfolding finish_write
finish_write-quiet s e = ground arith

finish_write-closed : (s : Socket) → (finish_write s).1.closed ≡ s.closed
unfolding finish_write
finish_write-closed s = ground arith

put_back-keeps :
    (n : ℕ) (cs : List SendContext) (s t : Socket)
    → put_back n cs s ≡ some t
    → (t.callbacks ≡ s.callbacks) × (t.closed ≡ s.closed)
unfolding put_back
put_back-keeps n cs s t e = ground arith

stamp_send-keeps :
    (now : ℕ) (s : Socket)
    → ((stamp_send now s).callbacks ≡ s.callbacks) × ((stamp_send now s).closed ≡ s.closed)
unfolding stamp_send
stamp_send-keeps now s = ground arith

-- Where the second region ends quietly, and what it leaves.
abbrev EndsQuietly : Bool → Option (After × Socket) → Type 0
EndsQuietly closed r = (t : Socket) × (r ≡ some (quiet, t)) × (t.closed ≡ closed)

settle-quiet :
    (n : ℕ) (s : Socket)
    → IsCounted (send_state s)
    → 0 < n
    → n ≤ total_bytes (gathered s.spare)
    → s.callbacks.flush ≡ false
    → EndsQuietly s.closed (settle n s)
unfolding settle
settle-quiet n s h pos le f =
    let (t, back, _, _, _, _, _) =
      put_back-Restored n s.spare s h.spare_whole h.current_whole pos le in
    let (same, open') = put_back-keeps n s.spare s t back in
    let t' : Socket = record t { bytes_for_send = sub_size t.bytes_for_send n } in
    (
      (finish_write t').1,
      rw back (ground (arith, finish_write-quiet t', ap (λ c. c.flush) same)),
      finish_write-closed t' ∙ open',
    )

-- Without a flush callback sendInWorker closes nothing, also when SendAndClose has set
-- closedOnFlush and the write took every byte: Close is called in the branch of the flush callback.
send_write-leaves_open :
    (ver n : ℕ) (io : Io) (s : Socket)
    → let u = apply_all io.meanwhile s in
      IsCounted (send_state u)
      → io.result ≡ moved n
      → 0 < n
      → n ≤ total_bytes (gathered u.spare)
      → u.callbacks.flush ≡ false
      → (t : Socket) × (send_write ver io s ≡ some t) × (t.closed ≡ u.closed)
unfolding send_write after_send
send_write-leaves_open ver n io s h e pos le f =
    let u = apply_all io.meanwhile s in
    let v = stamp_send io.now u in
    let same : send_state v ≡ send_state u = send_state-stamp_send io.now u in
    let (callbacks, closed) = stamp_send-keeps io.now u in
    let (t, end', open') =
      settle-quiet n v (subst IsCounted (sym same) h) pos
        (subst (λ x. n ≤ total_bytes (gathered x.spare)) (sym same) le)
        (ap (λ c. c.flush) callbacks ∙ f) in
    (t, rw (stamp_send-settle ver io u e, end'), open' ∙ closed)
