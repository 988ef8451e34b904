-- ===== src/SendPool/Examples.antt =====
-- Runs of the pool of send contexts of src/net/TCPSocket.cpp.
use hwnet.Prelude.{◌≡◌, refl, List, [], ◌∷◌}
use hwnet.SendPool.{Call, gets, puts, empty_pool, step, run}
use hwnet.SendPool.Reuse.{IsShort, run-empty_pool-IsShort}

-- Three contexts come back, and one goes out again.
abbrev calls : List Call
calls = puts 10 ∷ puts 20 ∷ puts 30 ∷ gets ∷ []

run-empty_pool-IsShort_example : IsShort (run calls empty_pool)
run-empty_pool-IsShort_example = run-empty_pool-IsShort calls

-- The other two are lost.
run-calls : run calls empty_pool ≡ record { count = 2; chain = [] }
unfolding run step empty_pool
run-calls = refl
