-- ===== src/Socket/Examples.antt =====
-- Runs of the model of src/net/TCPSocket.cpp.
use hwnet.Prelude.{
  ℕ, ◌+◌, ◌≡◌, refl, true, false, List, [], ◌∷◌, ◌++◌, some, arith, take, inl, add_size, sub_size,
}
use hwnet.Socket.SendList.{
  SendContext, push_back, new_context, add_front, total_bytes, gathered, advance, left_over,
}
use hwnet.Socket.State.{Socket, new_socket, can_read, can_write, high_water, wake}
use hwnet.Socket.Timeout.{Clock, register_recv_timer, register_send_timer}
use hwnet.Socket.Stream.{stream}
use hwnet.Socket.Frame.{send_state}
use hwnet.Socket.Delivery.{IsCounted, AllFit, waiting, all_accepted}
use hwnet.Socket.Turn.{Delivers}
use hwnet.Socket.Balance.{Writes}
use hwnet.Socket.InOrder.{History, turn, fails, History-Settled, Settled, turn-Delivers}
use hwnet.Socket.System.{Reach, next, called, Reach-new_socket-InStep}
use hwnet.Socket.Protocol.{InStep}
use hwnet.Socket.Closing.{IsIdle, closings, close_callback_twice}
use hwnet.Socket.Api.{
  recv, recv_locked, note, Event, Activity, sends, recvs, activates, sets_recv, apply, apply_all,
  on_active, close, send, send_locked, send_length, queue_send, set_recv_callback,
}
use hwnet.Socket.Worker.{
  Io, quiet, call_error, failed, write, moved, send_begin, send_end, put_back, drain_sent,
  finish_write, stamp_send,
}
use hwnet.Socket.Task.{Round, run_task}

abbrev three : SendContext
three = record { buff = 1 ∷ 2 ∷ 3 ∷ []; ptr = 0; len = 3 }

abbrev two : SendContext
two = record { buff = 9 ∷ 4 ∷ 5 ∷ []; ptr = 1; len = 2 }

-- A connection with five bytes to send, and one that waits for data.
abbrev sender : Socket
sender = record (new_socket 0) {
  current = three ∷ two ∷ [];
  writeable = true;
  writeable_ver = 1;
  doing = true;
  bytes_for_send = 5;
  tasks = 1;
}

abbrev clock : Clock
clock = record { now = 7; fresh = 1 }

-- writev takes four bytes while another thread sends one more.
abbrev io : Io
io = record {
  result = moved 4;
  errno = 0;
  now = 8;
  meanwhile = sends clock (6 ∷ []) 0 false ∷ [];
  in_callback = [];
}

abbrev begun : Socket
begun = record sender { current = []; spare = three ∷ two ∷ [] }

abbrev sixth : SendContext
sixth = record { buff = 6 ∷ []; ptr = 0; len = 1 }

abbrev ended : Socket
ended = record sender {
  current = record { buff = 9 ∷ 4 ∷ 5 ∷ []; ptr = 2; len = 1 } ∷ sixth ∷ [];
  bytes_for_send = 2;
}

sender-IsCounted : IsCounted (send_state sender)
unfolding new_socket total_bytes
sender-IsCounted = record {
  spare_whole = tt;
  current_whole = omega arith;
  total = refl;
  fits = omega arith;
}

begins : send_begin sender ≡ (write 1, begun)
unfolding new_socket send_begin can_write high_water
begins = refl

ends : send_end 1 io (apply_all io.meanwhile begun) ≡ some (quiet, ended)
unfolding new_socket send_end put_back drain_sent finish_write stamp_send apply_all apply send
    send_locked send_length queue_send push_back new_context add_front gathered left_over
    total_bytes advance wake high_water register_send_timer add_size sub_size
ends = refl

meanwhile_fits : AllFit io.meanwhile begun
unfolding new_socket send_length
meanwhile_fits = omega arith

four_taken : Writes 4 io.result sender.current
unfolding gathered total_bytes
four_taken = inl (refl, omega arith, omega arith)

-- Four bytes go out, one waits behind the fifth.
one_turn :
    History sender ended
      (take 4 (stream (gathered sender.current)))
      (all_accepted io.meanwhile begun)
one_turn = turn History.here begun 1 4 io quiet begins meanwhile_fits four_taken ends

-- The next writev fails, while a byte more is sent.
abbrev reset : Io
reset = record {
  result = failed;
  errno = 104;
  now = 9;
  meanwhile = sends clock (7 ∷ []) 0 false ∷ [];
  in_callback = [];
}

abbrev begun_again : Socket
begun_again = record ended { current = []; spare = ended.current }

abbrev broken : Socket
broken = record begun_again {
  current = record { buff = 7 ∷ []; ptr = 0; len = 1 } ∷ [];
  bytes_for_send = 3;
  socket_error = true;
  err = 104;
}

begins_again : send_begin ended ≡ (write 1, begun_again)
unfolding new_socket send_begin can_write high_water
begins_again = refl

breaks : send_end 1 reset (apply_all reset.meanwhile begun_again) ≡ some (call_error, broken)
unfolding new_socket send_end apply_all apply send send_locked send_length queue_send push_back
    new_context wake high_water register_send_timer add_size
breaks = refl

seventh_fits : AllFit reset.meanwhile begun_again
unfolding new_socket send_length
seventh_fits = omega arith

History-Settled_example :
    Settled sender broken
      (take 4 (stream (gathered sender.current)))
      (all_accepted io.meanwhile begun ++ all_accepted reset.meanwhile begun_again)
unfolding new_socket
History-Settled_example =
    History-Settled refl sender-IsCounted
      (fails one_turn begun_again 1 reset call_error begins_again seventh_fits refl breaks)

turn-Delivers_example :
    Delivers 4
      (waiting (send_state sender) ++ all_accepted io.meanwhile begun)
      (send_end 1 io (apply_all io.meanwhile begun))
unfolding new_socket
turn-Delivers_example =
    turn-Delivers sender begun 1 4 io begins refl sender-IsCounted meanwhile_fits four_taken

advance_run :
    advance 4 (three ∷ two ∷ []) ≡ some (record { buff = 9 ∷ 4 ∷ 5 ∷ []; ptr = 2; len = 1 } ∷ [])
unfolding advance
advance_run = refl

-- A receive callback is set, a buffer is queued, and data arrives.
abbrev arrivals : List Event
arrivals =
    sets_recv true
    ∷ recvs clock (record { id = 3; len = 16 })
    ∷ activates (record { read = true; write = false; error = false; reason = 0 })
    ∷ []

Reach-new_socket-InStep_example : InStep (apply_all arrivals (new_socket 7))
unfolding apply_all
Reach-new_socket-InStep_example =
    Reach-new_socket-InStep 7
      (next (next (next Reach.here (called _ _ tt)) (called _ _ tt)) (called _ _ tt))

-- The task is posted.
arrivals_post : (apply_all arrivals (new_socket 7)).tasks ≡ 1
unfolding apply_all apply set_recv_callback recv recv_locked register_recv_timer on_active note wake
    can_read can_write high_water new_socket
arrivals_post = refl

abbrev watched : Socket
watched = record (new_socket 0) {
  recv_list = record { id = 3; len = 16 } ∷ [];
  callbacks = record {
    flush = false;
    error = false;
    close = true;
    high_water = false;
    recv = true;
  };
}

watched-IsIdle : IsIdle watched
unfolding new_socket
watched-IsIdle = record {
  is_open = refl;
  is_free = refl;
  no_task = refl;
  watched = refl;
  no_closure = refl;
  no_timer = refl;
}

abbrev readable_now : Activity
readable_now = record { read = true; write = false; error = false; reason = 0 }

abbrev calm : ℕ → Round
calm k = record { now = 9; in_send_timeout = []; in_recv_timeout = []; recv_io = io; send_io = io }

close_callback_twice_example :
    (t u : Socket) × (run_task calm (on_active readable_now (close watched)) ≡ some t)
    × (run_task calm t ≡ some u)
    × (closings u.trace ≡ closings watched.trace + 2)
close_callback_twice_example =
    close_callback_twice watched readable_now calm calm watched-IsIdle refl refl
