-- ===== src/SslHandshake/Examples.antt =====
-- Runs of the model of src/net/SSLHandshake.cpp.
use hwnet.Prelude.{◌≡◌, refl, true, false, [], ◌∷◌, arith}
use hwnet.SslHandshake.{
  Handshake, made, refused, leaves, done, undone, ready, broken, optval, want_read, other, new,
  on_active, check_error, check_answer, destroy, ssl_again, error_of, set_no_block, poller_add,
  poller_remove, close_fd, bad_function_call, on_ok,
}
use hwnet.SslHandshake.Outcomes.{
  IsSettled, Reach-IsSettled, error_event-missed, here, next, activated, entered, looked, answered,
  absent,
}

-- The handshake of descriptor 7, with no onError_.
abbrev fresh : Handshake
fresh = record {
  fd = 7;
  ssl = true;
  handler = false;
  ver = 0;
  doing = false;
  socket_error = false;
  err = 0;
  tasks = 0;
  trace = poller_add ∷ set_no_block ∷ [];
}

new_run : new true true true false true true 7 ≡ made fresh
unfolding new
new_run = refl

no_ssl_run : new true true true false false true 7 ≡ refused (set_no_block ∷ [])
unfolding new
no_ssl_run = refl

-- One event, and the handshake is done at the first call.
abbrev finished : Handshake
finished = record fresh {
  ssl = false;
  ver = 1;
  doing = true;
  trace = on_ok 7 ∷ poller_remove ∷ poller_add ∷ set_no_block ∷ [];
}

finished_run : (check_answer 1 done (on_active ready fresh)).1 ≡ finished
unfolding check_answer on_active
finished_run = refl

destroy_run : destroy finished ≡ finished.trace
unfolding destroy
destroy_run = refl

Reach-IsSettled_example : IsSettled (record {
  hand = (check_answer 1 done (check_error (on_active ready fresh)).1).1;
  phase = absent;
  waited = 0;
})
unfolding new on_active check_error check_answer
Reach-IsSettled_example = Reach-IsSettled true true true false true true 7 fresh refl (
    next
      (next (next (next here (activated _ ready)) (entered _ refl (omega arith))) (looked _ refl))
      (answered _ 1 done refl))

-- A refusal of OpenSSL, with no onError_ to call.
failed_run :
    (check_answer 1 (undone (other 1) 1) (on_active ready fresh)).1.trace
    ≡ bad_function_call ∷ poller_remove ∷ close_fd ∷ poller_add ∷ set_no_block ∷ []
unfolding check_answer on_active
failed_run = refl

-- The peer resets the connection during the first call of `handshake`.
abbrev shaken : Handshake
shaken = record fresh { ver = 1; doing = true; tasks = 1 }

error_event-missed_example :
    check_answer 1 (undone want_read 2) (on_active (broken (optval 104)) shaken)
    ≡ (leaves, record shaken { socket_error = true; err = 104; doing = false; tasks = 0 })
unfolding ssl_again error_of
error_event-missed_example = error_event-missed (optval 104) want_read 2 shaken refl refl refl
