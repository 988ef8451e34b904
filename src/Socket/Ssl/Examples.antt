-- ===== src/Socket/Ssl/Examples.antt =====
-- Runs of the model of sendInWorkerSSL of src/net/TCPSocket.cpp.
use hwnet.Prelude.{◌≡◌, refl, true, [], ◌∷◌, some, arith}
use hwnet.Socket.SendList.{SendContext, total_bytes}
use hwnet.Socket.State.{Socket, new_socket}
use hwnet.Socket.Frame.{send_state}
use hwnet.Socket.Delivery.{IsCounted, waiting}
use hwnet.Socket.Worker.{Io, After, moved}
use hwnet.Socket.Ssl.{ssl_settle, ssl_settle-resends}

abbrev three : SendContext
three = record { buff = 1 ∷ 2 ∷ 3 ∷ []; ptr = 0; len = 3 }

-- A turn that has taken the list, with four bytes to send in two contexts.
abbrev begun : Socket
begun = record (new_socket 0) {
  spare = three ∷ record { buff = 9 ∷ 4 ∷ []; ptr = 1; len = 1 } ∷ [];
  writeable = true;
  bytes_for_send = 4;
}

abbrev io : Io
io = record { result = moved 3; errno = 0; now = 8; meanwhile = []; in_callback = [] }

begun-IsCounted : IsCounted (send_state begun)
unfolding new_socket total_bytes
begun-IsCounted = record {
  spare_whole = omega arith;
  current_whole = tt;
  total = refl;
  fits = omega arith;
}

-- SSL_write took two of the three bytes of the first context; all four wait still.
ssl_settle-resends_example :
    (a : After) × (t : Socket) × (ssl_settle 2 begun ≡ some (a, t))
    × (waiting (send_state t) ≡ waiting (send_state begun))
    × (¬ IsCounted (send_state t))
unfolding new_socket
ssl_settle-resends_example =
    ssl_settle-resends 2 begun three _ begun-IsCounted refl (omega arith) (omega arith)
