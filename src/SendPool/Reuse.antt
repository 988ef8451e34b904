-- ===== src/SendPool/Reuse.antt =====
-- What the pool of src/net/TCPSocket.cpp reuses.
use hwnet.Prelude.{ℕ, ◌≤◌, ◌<◌, ◌≡◌, List, [], ◌∷◌, some, arith, length}
use hwnet.SendPool.{Pool, Call, gets, puts, empty_pool, item_count, get, put, step, run}

-- The chain has one context at most, which is counted, and the counter is in bounds.
pub record IsShort (p : Pool) : Type 0 where
  pub short : length p.chain ≤ 1
  pub counted : length p.chain ≤ p.count
  pub bounded : p.count ≤ item_count

step-IsShort : (c : Call) (p : Pool) → IsShort p → IsShort (step c p)
unfolding step
step-IsShort gets p h = ground arith
step-IsShort (puts s) p h = ground arith

run-IsShort : (cs : List Call) (p : Pool) → IsShort p → IsShort (run cs p)
unfolding run
run-IsShort [] p h = h
run-IsShort (c ∷ cs) p h = run-IsShort cs (step c p) (step-IsShort c p h)

-- Whatever calls of get and put a pool has served, its chain holds one context at most, though its
-- counter may be anything up to the limit: a put on a pool that is not empty loses the context at
-- the head of the chain. The counter is never below the length of the chain.
pub run-empty_pool-IsShort : (cs : List Call) → IsShort (run cs empty_pool)
unfolding empty_pool
run-empty_pool-IsShort cs = run-IsShort cs empty_pool (omega arith)

-- A put below the limit is answered by the next get with that very context, and the counter is
-- restored.
get-put :
    (s : ℕ) (p : Pool)
    → p.count < item_count
    → ((get (put s p)).0 ≡ some s) × ((get (put s p)).1.count ≡ p.count)
unfolding get put
get-put s p h = ground arith
