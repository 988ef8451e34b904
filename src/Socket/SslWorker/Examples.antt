-- ===== src/Socket/SslWorker/Examples.antt =====
-- Runs of the model of Do of src/net/TCPSocket.cpp, built with USE_SSL.
use hwnet.Prelude.{ℕ, ◌≡◌, refl, true, false, List, [], ◌∷◌, some, arith}
use hwnet.Socket.SendList.{SendContext}
use hwnet.Socket.State.{Socket, new_socket}
use hwnet.Socket.Worker.{Io, failed}
use hwnet.Socket.SslWorker.{SslResult, SslRound, zero_or_again, negative_or_again}
use hwnet.Socket.SslWorker.Stuck.{
  pending, run_tasks_ssl, posted_again, last_sent, run_tasks_ssl-stuck,
}

abbrev three : SendContext
three = record { buff = 1 ∷ 2 ∷ 3 ∷ []; ptr = 0; len = 3 }

abbrev counted : Socket
counted = record (new_socket 0) { bytes_for_send = 3; doing = true; tasks = 1 }

abbrev io : Io
io = record { result = failed; errno = 32; now = 8; meanwhile = []; in_callback = [] }

-- Each round the same answer of SSL_write.
abbrev rounds : SslResult → ℕ → SslRound
rounds r k = record {
  round = record {
    now = 0;
    in_send_timeout = [];
    in_recv_timeout = [];
    recv_io = io;
    send_io = io;
  };
  read = negative_or_again true;
  wrote = r;
}

abbrev zeros : List (ℕ → SslRound)
zeros = rounds (zero_or_again false) ∷ rounds (zero_or_again false) ∷ []

-- Two calls of Do, and the connection is where it was.
run_tasks_ssl-stuck_example :
    run_tasks_ssl zeros (pending counted three [] 0)
    ≡ some (
        pending
          (record counted { trace = posted_again zeros counted.trace })
          three
          []
          (last_sent counted zeros 0))
unfolding new_socket
run_tasks_ssl-stuck_example =
    run_tasks_ssl-stuck counted three [] zeros 0 (omega arith) (omega arith)
      ((λ i. (refl, refl)), ((λ i. (refl, refl)), tt))
