-- ===== src/Listener/Starting.antt =====
-- Start and Stop of src/net/TCPListener.cpp.
use hwnet.Prelude.{◌≡◌, refl, Bool, false}
use hwnet.Prelude.{arith}
use hwnet.Listener.{Listener, Setup, start, stop}

start-refuses :
    (s : Setup) (callback handler : Bool) (l : Listener)
    → l.started ≡ false
    → ((start s callback handler l).0 ≡ false) × ((start s callback handler l).1.started ≡ false)
unfolding start
start-refuses s callback handler l e = ground arith

-- Start of a listener that is not started answers false whatever the kernel says, also when the
-- listener has been given to the poller and accepts connections; and a Stop after it changes nothing, so
-- the listener stays with the poller and its descriptor open.
pub stop-start :
    (s : Setup) (callback handler : Bool) (l : Listener)
    → l.started ≡ false
    → let (answer, l') = start s callback handler l in (answer ≡ false) × (stop l' ≡ l')
unfolding stop
stop-start s callback handler l e =
    let (refused, same) = start-refuses s callback handler l e in (refused, rw same refl)
