-- ===== src/Socket/Ssl.antt =====
-- src/net/TCPSocket.cpp: sendInWorkerSSL, which is built with USE_SSL. It begins and goes on like
-- sendInWorker; between, it hands one context to SSL_write, whose answer is an argument.
mod Examples
use hwnet.Prelude.{
  ◌>>=◌, ℕ, ◌+◌, ◌≤◌, ◌<◌, ◌≡◌, refl, sym, ap, ◌∙◌, subst, false, List, [], ◌∷◌, ◌++◌, Option, none,
  some, arith, leb, if◌then◌else◌, sub_size, sub_size_lem,
}
use hwnet.Socket.SendList.{SendContext, add_front, total_bytes}
use hwnet.Socket.State.{Socket}
use hwnet.Socket.Stream.{stream, stream-add_front, total_bytes-add_front}
use hwnet.Socket.Frame.{send_state}
use hwnet.Socket.Delivery.{waiting, IsCounted}
use hwnet.Socket.PutBack.{total_bytes-nil}
use hwnet.Socket.Turn.{finish_write-send_state}
use hwnet.Socket.Worker.{Io, After, moved, would_block, failed, finish_write, stamp_send, send_end}

-- The list after SSL_write took `n` bytes of its first context: the context is popped if it went out
-- whole; otherwise its `ptr` goes forth and back.
unfoldable pub ssl_advance : ℕ → List SendContext → Option (List SendContext)
ssl_advance n [] = none
ssl_advance n (c ∷ cs) = some (if leb c.len n then cs else c ∷ cs)

-- The second region of sendInWorkerSSL; without an answer of bytes it is that of sendInWorker.
unfoldable pub ssl_settle : ℕ → Socket → Option (After × Socket)
ssl_settle n s = do
  rest ← ssl_advance n s.spare
  some (
      finish_write (record s {
        current = add_front s.current rest;
        spare = [];
        bytes_for_send = sub_size s.bytes_for_send n;
      }))

unfoldable pub ssl_send_end : ℕ → Io → Socket → Option (After × Socket)
ssl_send_end ver io s = elim io.result [
  | moved n ↦ ssl_settle n (stamp_send io.now s)
  | would_block ↦ send_end ver io s
  | failed ↦ send_end ver io s
]

settled : List SendContext → ℕ → Socket → Socket
settled rest n s = record s {
  current = add_front s.current rest;
  spare = [];
  bytes_for_send = sub_size s.bytes_for_send n;
}

waiting-settled :
    (rest : List SendContext) (n : ℕ) (s : Socket)
    → waiting (send_state (settled rest n s)) ≡ stream rest ++ stream s.current
unfolding settled stream
waiting-settled rest n s = stream-add_front s.current rest

total_bytes-cons :
    (c : SendContext) (cs : List SendContext) → total_bytes (c ∷ cs) ≡ c.len + total_bytes cs
unfolding total_bytes
total_bytes-cons c cs = refl

settled-not-IsCounted :
    (rest : List SendContext) (n : ℕ) (s : Socket)
    → IsCounted (send_state s)
    → 0 < n
    → n ≤ s.bytes_for_send
    → total_bytes rest ≡ total_bytes s.spare
    → ¬ IsCounted (send_state (settled rest n s))
unfolding settled
settled-not-IsCounted rest n s h pos le same k = omega (
  arith,
  k.total,
  same,
  h.total,
  sub_size_lem s.bytes_for_send n h.fits le,
  total_bytes-add_front s.current rest,
  total_bytes-nil,
)

leb-false : (n k : ℕ) → n < k → leb k n ≡ false
leb-false n k less = ground arith

-- SSL_write may take a part of a context (SSL_MODE_ENABLE_PARTIAL_WRITE). Then nothing is cut off: the
-- bytes that went out wait still, and will be written again, while bytes4Send has dropped by them
-- and no longer counts what waits.
pub ssl_settle-resends :
    (n : ℕ) (s : Socket) (c : SendContext) (cs : List SendContext)
    → IsCounted (send_state s)
    → s.spare ≡ c ∷ cs
    → 0 < n
    → n < c.len
    → (a : After) × (t : Socket) × (ssl_settle n s ≡ some (a, t))
      × (waiting (send_state t) ≡ waiting (send_state s))
      × (¬ IsCounted (send_state t))
unfolding ssl_settle settled ssl_advance finish_write
ssl_settle-resends n s c cs h e pos less =
    let t' = settled (c ∷ cs) n s in
    let same = finish_write-send_state t' in
    let total : total_bytes s.spare ≡ total_bytes (c ∷ cs) = ap total_bytes e in
    (
      (finish_write t').0,
      (finish_write t').1,
      rw (e, leb-false n c.len less) refl,
      ap waiting same
          ∙ waiting-settled (c ∷ cs) n s
          ∙ ap (λ l. stream l ++ stream s.current) (sym e),
      λ k.
          settled-not-IsCounted (c ∷ cs) n s h pos
            (omega (arith, total, h.total, total_bytes-cons c cs)) (sym total)
            (subst IsCounted same k),
    )
