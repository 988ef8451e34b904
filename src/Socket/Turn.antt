-- ===== src/Socket/Turn.antt =====
-- One turn of sendInWorker of src/net/TCPSocket.cpp: the bytes that writev took, and the others.
use hwnet.Prelude.{
  ◌>>=◌, ℕ, ◌-◌, ◌≤◌, ◌<◌, ◌≡◌, refl, sym, ap, ◌∙◌, subst, false, ◌==◌, List, [], Option, some,
  arith, drop, ltb, sub_size, sub_size_lem, Bool-cases, inl, inr,
}
use hwnet.Socket.SendList.{add_front, gathered, total_bytes}
use hwnet.Socket.State.{Socket}
use hwnet.Socket.Stream.{stream, stream-add_front, add_front-AllWhole, total_bytes-add_front}
use hwnet.Socket.Frame.{send_state}
use hwnet.Socket.Delivery.{waiting, IsCounted}
use hwnet.Socket.Worker.{
  Io, After, write, moved, would_block, call_enable, quiet, send_begin, put_back, finish_write,
  stamp_send, send_end,
}
use hwnet.Socket.PutBack.{total_bytes-gathered, total_bytes-nil, put_back-Restored}

-- The first region moves the whole list out of the way of Send.
pub send_begin-swaps :
    (s s1 : Socket) (ver : ℕ)
    → send_begin s ≡ (write ver, s1)
    → s1 ≡ record s { current = s.spare; spare = s.current }
unfolding send_begin
send_begin-swaps s s1 ver e = ground arith

-- The state that a turn leaves, by what writev said.
abbrev pub Delivers : ℕ → List ℕ → Option (After × Socket) → Type 0
Delivers n bytes r =
    (a : After) × (t : Socket) × (r ≡ some (a, t))
    × (t.spare ≡ [])
    × (waiting (send_state t) ≡ drop n bytes)
    × IsCounted (send_state t)

pub finish_write-send_state : (s : Socket) → send_state (finish_write s).1 ≡ send_state s
unfolding finish_write
finish_write-send_state s = ground arith

-- The second region after a write of `n` bytes, once the time is noted.
unfoldable pub settle : ℕ → Socket → Option (After × Socket)
settle n s = do
  t ← put_back n s.spare s
  some (finish_write (record t { bytes_for_send = sub_size t.bytes_for_send n }))

settle-Delivers :
    (n : ℕ) (s : Socket)
    → IsCounted (send_state s)
    → 0 < n
    → n ≤ total_bytes (gathered s.spare)
    → Delivers n (waiting (send_state s)) (settle n s)
unfolding settle stream
settle-Delivers n s h pos le =
    let (t, back, empty, cut, whole, total, same) =
      put_back-Restored n s.spare s h.spare_whole h.current_whole pos le in
    let t' : Socket = record t { bytes_for_send = sub_size t.bytes_for_send n } in
    let e = finish_write-send_state t' in
    let less : n ≤ s.bytes_for_send = omega (arith, h.total, total_bytes-gathered s.spare) in
    let left : sub_size t.bytes_for_send n ≡ s.bytes_for_send - n =
      rw same (sub_size_lem s.bytes_for_send n h.fits less) in
    (
      (finish_write t').0,
      (finish_write t').1,
      rw back,
      ap (λ v. v.spare) e ∙ empty,
      ap waiting e ∙ rw empty cut,
      subst IsCounted (sym e) (record {
        spare_whole = rw empty tt;
        current_whole = whole;
        total = rw empty (omega (arith, left, total, h.total, total_bytes-nil));
        fits = omega (arith, left, h.fits);
      }),
    )

pub stamp_send-settle :
    (ver : ℕ) (io : Io) (s : Socket) {n : ℕ}
    → io.result ≡ moved n
    → send_end ver io s ≡ settle n (stamp_send io.now s)
unfolding send_end settle stamp_send
stamp_send-settle ver io s e = elim (Bool-cases (ltb 0 s.timeouts.send_timeout)) [
  | inl timed ↦ rw (e, timed)
  | inr untimed ↦ rw (e, untimed)
]

pub send_state-stamp_send : (now : ℕ) (s : Socket) → send_state (stamp_send now s) ≡ send_state s
unfolding stamp_send
send_state-stamp_send now s = ground arith

pub send_end-moved :
    (ver : ℕ) (io : Io) (s : Socket) (n : ℕ)
    → IsCounted (send_state s)
    → io.result ≡ moved n
    → 0 < n
    → n ≤ total_bytes (gathered s.spare)
    → Delivers n (waiting (send_state s)) (send_end ver io s)
send_end-moved ver io s n h e pos le =
    let u : Socket = stamp_send io.now s in
    let same : send_state u ≡ send_state s = send_state-stamp_send io.now s in
    subst (Delivers n (waiting (send_state s))) (sym (stamp_send-settle ver io s e)) (
      subst (λ v. Delivers n (waiting v) (settle n u)) same
        (settle-Delivers n u (subst IsCounted (sym same) h) pos
          (subst (λ v. n ≤ total_bytes (gathered v.spare)) (sym same) le)))

-- The second region after a write that would block: the list is put back whole.
pub send_end-would_block :
    (ver : ℕ) (io : Io) (s : Socket)
    → IsCounted (send_state s)
    → io.result ≡ would_block
    → Delivers 0 (waiting (send_state s)) (send_end ver io s)
unfolding send_end stream
send_end-would_block ver io s h e = elim (Bool-cases (s.writeable_ver == ver)) [
  | inl seen ↦ (
    call_enable,
    record s { current = add_front s.current s.spare; spare = []; writeable = false },
    rw (e, seen),
    refl,
    stream-add_front s.current s.spare,
    restored,
  )
  | inr newer ↦ (
    quiet,
    record s { current = add_front s.current s.spare; spare = [] },
    rw (e, newer),
    refl,
    stream-add_front s.current s.spare,
    restored,
  )
]
  where
    restored :
        IsCounted
          (record { spare = []; current = add_front s.current s.spare; count = s.bytes_for_send })
    restored = record {
      spare_whole = tt;
      current_whole = add_front-AllWhole s.current s.spare h.current_whole h.spare_whole;
      total = omega (arith, h.total, total_bytes-add_front s.current s.spare, total_bytes-nil);
      fits = h.fits;
    }
