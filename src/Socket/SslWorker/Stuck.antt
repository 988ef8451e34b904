-- ===== src/Socket/SslWorker/Stuck.antt =====
-- What becomes of a connection of src/net/TCPSocket.cpp, built with USE_SSL, when SSL_write answers 0.
use hwnet.Prelude.{
  ◌>>=◌, ◌-◌, ℕ, zero, suc, ◌+◌, ◌<◌, ◌≡◌, refl, ap, ◌∙◌, Bool, true, false, List, [], ◌∷◌, Option,
  some, leb, ltb, arith, sub_size, size_mod, sub_size_lem, if◌then◌else◌,
}
use hwnet.Socket.SendList.{SendContext, add_front}
use hwnet.Socket.State.{Socket, can_read, can_write, post, post_task, Effect}
use hwnet.Socket.Api.{apply_all}
use hwnet.Socket.Worker.{Io, quiet, send_begin, finish_write, stamp_send, after_send}
use hwnet.Socket.Ssl.{ssl_send_end, ssl_settle, ssl_advance}
use hwnet.Socket.Task.{run_closure, run_front, leave, rest, max_loop}
use hwnet.Socket.SslWorker.{
  SslResult, SslRound, zero_or_again, ssl_call, ssl_write_front, with_answer, send_in_worker_ssl,
  work_ssl, do_loop_ssl, run_task_ssl,
}

-- The connection `s` where it is open, can be written and has the contexts `c ∷ cs` to send, there is
-- nothing else for Do, and the last send was at `n`.
abbrev pub pending : Socket → SendContext → List SendContext → ℕ → Socket
pending s c cs n = record s {
  readable = false;
  closed = false;
  shutdown = false;
  socket_error = false;
  writeable = true;
  current = c ∷ cs;
  spare = [];
  timeouts = record (s.timeouts) { closures = []; last_send_time = n };
}

-- In each round SSL_write answers 0, and nobody does anything to the connection meanwhile.
abbrev AnswersZero : SslRound → Type 0
AnswersZero r = (r.wrote ≡ zero_or_again false) × (r.round.send_io.meanwhile ≡ [])

swapped : Socket → SendContext → List SendContext → ℕ → Socket
swapped s c cs n = record (pending s c cs n) { current = []; spare = c ∷ cs }

module _ (s : Socket) (c : SendContext) (cs : List SendContext) (some_len : 0 < c.len)
    (fits : s.bytes_for_send < size_mod) where
  ssl_settle-zero : (n : ℕ) → ssl_settle 0 (swapped s c cs n) ≡ some (quiet, pending s c cs n)
  unfolding ssl_settle ssl_advance finish_write add_front swapped
  ssl_settle-zero n =
      let more : leb c.len 0 ≡ false = ground (arith, some_len) in
      let kept : sub_size s.bytes_for_send 0 ≡ s.bytes_for_send =
        omega (arith, sub_size_lem s.bytes_for_send 0 fits (ground arith)) in
      rw (more, kept) refl

abbrev sent_at : Socket → ℕ → ℕ → ℕ
sent_at s now n = if ltb 0 s.timeouts.send_timeout then now else n

-- The time of the last send after the rounds from the `k`th down to the first.
abbrev sent_by : Socket → (ℕ → SslRound) → ℕ → ℕ → ℕ
sent_by s rounds zero n = n
sent_by s rounds (suc k) n = sent_by s rounds k (sent_at s (rounds (suc k)).round.send_io.now n)

if_swapped :
    (b : Bool) (s : Socket) (c : SendContext) (cs : List SendContext) (now n : ℕ)
    → (if b
        then record (swapped s c cs n) {
          timeouts = record (s.timeouts) { closures = []; last_send_time = now };
        }
        else swapped s c cs n)
      ≡ swapped s c cs (if b then now else n)
unfolding swapped
if_swapped true s c cs now n = refl
if_swapped false s c cs now n = refl

stamp_send-swapped :
    (s : Socket) (c : SendContext) (cs : List SendContext) (now n : ℕ)
    → stamp_send now (swapped s c cs n) ≡ swapped s c cs (sent_at s now n)
unfolding stamp_send swapped
stamp_send-swapped s c cs now n = if_swapped (ltb 0 s.timeouts.send_timeout) s c cs now n

module _ (s : Socket) (c : SendContext) (cs : List SendContext) (some_len : 0 < c.len)
    (fits : s.bytes_for_send < size_mod) where
  ssl_write_front-zero :
      (ver : ℕ) (r : SslResult) (io : Io) (n : ℕ)
      → r ≡ zero_or_again false
      → io.meanwhile ≡ []
      → ssl_write_front (c ∷ cs) ver r io (swapped s c cs n)
        ≡ some (pending s c cs (sent_at s io.now n))
  unfolding ssl_write_front apply_all ssl_send_end with_answer ssl_call after_send
  ssl_write_front-zero ver r io n e e' =
      rw (e, e')
        (rw (stamp_send-swapped s c cs io.now n)
          (rw (ssl_settle-zero s c cs some_len fits (sent_at s io.now n)) refl))

  work_ssl-zero :
      (r : SslRound) (n : ℕ)
      → AnswersZero r
      → work_ssl true r (pending s c cs n) ≡ some (pending s c cs (sent_at s r.round.send_io.now n))
  unfolding work_ssl send_in_worker_ssl send_begin can_read can_write swapped
  work_ssl-zero r n (e, e') = ssl_write_front-zero s.writeable_ver r.wrote r.round.send_io n e e'

  do_loop_ssl-zero :
      (rounds : ℕ → SslRound) (k n : ℕ)
      → ((i : ℕ) → AnswersZero (rounds i))
      → do_loop_ssl true k rounds (pending s c cs n)
        ≡ some (leave (post (pending s c cs (sent_by s rounds k n))))
  unfolding do_loop_ssl run_closure run_front can_read can_write
  do_loop_ssl-zero rounds zero n zeros = refl
  do_loop_ssl-zero rounds (suc k) n zeros =
      rw (work_ssl-zero (rounds (suc k)) n (zeros (suc k)))
        (do_loop_ssl-zero rounds k (sent_at s (rounds (suc k)).round.send_io.now n) zeros)

leave-post :
    (s : Socket) (c : SendContext) (cs : List SendContext) (n : ℕ)
    → leave (post (pending s c cs n)) ≡ pending (record s { trace = post_task ∷ s.trace }) c cs n
unfolding post
leave-post s c cs n = let back : s.tasks + 1 - 1 ≡ s.tasks = omega arith in rw back refl

run_task_ssl-zero :
    (s : Socket) (c : SendContext) (cs : List SendContext) (rounds : ℕ → SslRound) (n : ℕ)
    → 0 < c.len
    → s.bytes_for_send < size_mod
    → ((i : ℕ) → AnswersZero (rounds i))
    → run_task_ssl true rounds (pending s c cs n)
      ≡ some (pending (record s { trace = post_task ∷ s.trace }) c cs (sent_by s rounds max_loop n))
unfolding run_task_ssl
run_task_ssl-zero s c cs rounds n some_len fits zeros =
    do_loop_ssl-zero s c cs some_len fits rounds max_loop n zeros
    ∙ ap some (leave-post s c cs (sent_by s rounds max_loop n))

-- Calls of Do one after the other.
abbrev pub run_tasks_ssl : List (ℕ → SslRound) → Socket → Option Socket
run_tasks_ssl [] s = some s
run_tasks_ssl (rounds ∷ more) s = run_task_ssl true rounds s >>= run_tasks_ssl more

abbrev AllZero : List (ℕ → SslRound) → Type 0
AllZero [] = Unit
AllZero (rounds ∷ more) = ((i : ℕ) → AnswersZero (rounds i)) × AllZero more

abbrev pub posted_again : List (ℕ → SslRound) → List Effect → List Effect
posted_again [] trace = trace
posted_again (rounds ∷ more) trace = posted_again more (post_task ∷ trace)

abbrev pub last_sent : Socket → List (ℕ → SslRound) → ℕ → ℕ
last_sent s [] n = n
last_sent s (rounds ∷ more) n = last_sent s more (sent_by s rounds max_loop n)

-- Where the first context has bytes and the counter is below 2 ^ 64: as long as SSL_write answers 0,
-- not to be called again, and nobody else calls the connection, each call of Do posts the next one; it
-- reports nothing and sends nothing, and only the time of the last send changes.
pub run_tasks_ssl-stuck :
    (s : Socket) (c : SendContext) (cs : List SendContext) (tasks : List (ℕ → SslRound)) (n : ℕ)
    → 0 < c.len
    → s.bytes_for_send < size_mod
    → AllZero tasks
    → run_tasks_ssl tasks (pending s c cs n)
      ≡ some (pending (record s { trace = posted_again tasks s.trace }) c cs (last_sent s tasks n))
run_tasks_ssl-stuck s c cs [] n some_len fits zeros = refl
run_tasks_ssl-stuck s c cs (rounds ∷ more) n some_len fits (zeros, rest) =
    let posted = record s { trace = post_task ∷ s.trace } in
    rw (run_task_ssl-zero s c cs rounds n some_len fits zeros)
      (run_tasks_ssl-stuck posted c cs more (sent_by s rounds max_loop n) some_len fits rest)
