-- ===== src/Kqueue/Examples.antt =====
-- Runs of the model of src/net/mac/Kqueue.cpp.
use hwnet.Prelude.{◌≡◌, refl, true, false, List, [], ◌∷◌, none, some}
use hwnet.Poller.{Channel, Flags}
use hwnet.Poller.Interest.{Call, adds, enables, disables, removes, replay, run}
use hwnet.Poller.Epoll
use hwnet.Poller
use hwnet.Kqueue.{new_poller, add, grow}
use hwnet.Kqueue.Rows.{call, interest}
use hwnet.Kqueue.Interest.{run-interest}

abbrev seven : Channel
seven = record { self = 7; fd = 7 }

abbrev read_only : Flags
read_only = record { read = true; write = false; edge = true }

abbrev write_only : Flags
write_only = record { read = false; write = true; edge = true }

abbrev calls : List Call
calls =
    adds seven read_only
    ∷ enables seven write_only
    ∷ disables seven read_only
    ∷ removes seven
    ∷ adds seven write_only
    ∷ []

run-interest_example :
    (Epoll.interest (run Epoll.call calls Poller.new_poller) 7
      ≡ interest (run call calls new_poller) 7)
    × (interest (run call calls new_poller) 7 ≡ replay calls (λ k. none) 7)
run-interest_example =
    run-interest (λ fd. fd) calls 7 (λ i j e. e) (refl, (refl, (refl, (refl, (refl, tt)))))

-- kevent refuses both filters, and Add answers that all is well.
refused : (add false seven read_only new_poller).0 ≡ true
unfolding add new_poller
refused = refl

refused_but_known : (add false seven read_only new_poller).1.channels 7 ≡ some 7
unfolding add new_poller
refused_but_known = refl

four_times : (grow 64 true new_poller).1.max_events ≡ 256
unfolding grow new_poller
four_times = refl
