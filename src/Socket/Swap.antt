-- ===== src/Socket/Swap.antt =====
-- The first region of sendInWorker of src/net/TCPSocket.cpp, which swaps the two lists, when no write
-- is under way.
use hwnet.Prelude.{◌≡◌, ap, ◌∙◌, [], arith, append-nil, ℕ}
use hwnet.Socket.SendList.{total_bytes}
use hwnet.Socket.State.{Socket}
use hwnet.Socket.Stream.{stream}
use hwnet.Socket.Frame.{send_state, SendState}
use hwnet.Socket.Delivery.{waiting, IsCounted}
use hwnet.Socket.Worker.{write, send_begin}
use hwnet.Socket.PutBack.{total_bytes-nil}
use hwnet.Socket.Turn.{send_begin-swaps}

-- The send state between the two regions, where no call came in between.
abbrev pub swapped : Socket → SendState
swapped s = record { spare = s.current; current = []; count = s.bytes_for_send }

pub send_state-send_begin :
    (s t : Socket) (ver : ℕ)
    → send_begin s ≡ (write ver, t)
    → s.spare ≡ []
    → send_state t ≡ swapped s
send_state-send_begin s t ver e empty =
    ap send_state (send_begin-swaps s t ver e)
    ∙ ap (λ x. record { spare = s.current; current = x; count = s.bytes_for_send }) empty

pub swapped-IsCounted :
    (s : Socket) → s.spare ≡ [] → IsCounted (send_state s) → IsCounted (swapped s)
swapped-IsCounted s empty h = record {
  spare_whole = h.current_whole;
  current_whole = tt;
  total = omega (arith, h.total, ap total_bytes empty, total_bytes-nil);
  fits = h.fits;
}

pub waiting-idle : (s : Socket) → s.spare ≡ [] → waiting (send_state s) ≡ stream s.current
unfolding stream
waiting-idle s empty = rw empty

pub waiting-swapped : (s : Socket) → s.spare ≡ [] → waiting (swapped s) ≡ waiting (send_state s)
unfolding stream
waiting-swapped s empty = append-nil (stream s.current) ∙ rw empty
