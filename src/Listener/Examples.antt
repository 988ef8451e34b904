-- ===== src/Listener/Examples.antt =====
-- Runs of the model of src/net/TCPListener.cpp.
use hwnet.Prelude.{◌≡◌, refl, true, false, [], ◌∷◌, some, arith}
use hwnet.Listener.{
  Listener, Setup, conn, aborted, accept, new_listener, on_active, start, start_begin, start_end,
  stop, failed, do_round,
}
use hwnet.Listener.Starting.{stop-start}
use hwnet.Listener.Events.{
  here, next, activated, entered, start_begins, start_ends, stopped_by, IsCurrent, Reach-IsCurrent,
  all_active, failed-deaf, head,
}

abbrev fine : Setup
fine = record { socket = some 5; bind_ok = true; listen_ok = true }

-- All went well with the kernel: the listener has its descriptor.
start_run : (start fine true true (new_listener true)).1.fd ≡ some 5
unfolding new_listener start
start_run = refl

stop-start_example :
    ((start fine true true (new_listener true)).0 ≡ false)
    × (stop (start fine true true (new_listener true)).1
        ≡ (start fine true true (new_listener true)).1)
unfolding new_listener
stop-start_example = stop-start fine true true (new_listener true) refl

accept_run : accept (aborted ∷ aborted ∷ conn 7 ∷ []) ≡ some (conn 7)
unfolding accept
accept_run = refl

-- Start gives the listener to the poller, Stop comes before Start returns, an event comes, and Do enters
-- its loop.
abbrev begun : Listener
begun = (start_begin true (new_listener true)).1

abbrev listening : Listener
listening = (start_end fine true (stop begun)).1

Reach-IsCurrent_example :
    IsCurrent
      (record { listener = on_active true listening; phase = head; drained = 0; starting = false })
unfolding new_listener on_active start_begin start_end stop
Reach-IsCurrent_example = Reach-IsCurrent true (
    next
      (next
        (next (next (next here (start_begins _ true refl)) (stopped_by _))
          (start_ends _ fine true refl))
        (activated _ true))
      (entered _ refl (omega arith)))

abbrev busy : Listener
busy = record (new_listener true) { handler = true; doing = true; tasks = 1 }

failed-deaf_example : (all_active (true ∷ true ∷ []) (do_round 1 (failed 24) busy).1).tasks ≡ 0
unfolding new_listener
failed-deaf_example = failed-deaf 1 24 busy (true ∷ true ∷ []) refl refl refl
