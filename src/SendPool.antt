-- ===== src/SendPool.antt =====
-- src/net/TCPSocket.cpp, class sendContextPool: the free lists that keep released send contexts.
pub mod Reuse
mod Examples
use hwnet.Prelude.{ℕ, suc, ◌+◌, ◌-◌, List, [], ◌∷◌, Option, none, some, ltb, if◌then◌else◌}

-- itemCount
abbrev pub item_count : ℕ
item_count = 10000

-- One `pool`: its counter, and the chain that starts at `head`, a context being named by its
-- address.
pub record Pool : Type 0 where
  pub count : ℕ
  pub chain : List ℕ

-- Pool()
unfoldable pub empty_pool : Pool
empty_pool = record { count = 0; chain = [] }

-- get: the context that is reused, or none where the code calls malloc.
unfoldable pub get : Pool → Option ℕ × Pool
get p = elim p.chain [
  | [] ↦ (none, p)
  | head ∷ next ↦ (some head, record { count = p.count - 1; chain = next })
]

-- The link that put writes. The destructor has cleared `s->next`; where there is a head, its
-- successor is stored, and not the head itself.
abbrev link : ℕ → List ℕ → List ℕ
link s [] = s ∷ []
link s (head ∷ next) = s ∷ next

-- put: the context goes to the pool, or to free() where the pool is full.
unfoldable pub put : ℕ → Pool → Pool
put s p =
    if ltb p.count item_count then record { count = p.count + 1; chain = link s p.chain } else p

pub data Call : Type 0 where
  gets : Call
  puts : ℕ → Call

unfoldable pub step : Call → Pool → Pool
unfolding get put
step gets p = (get p).1
step (puts s) p = put s p

unfoldable pub run : List Call → Pool → Pool
run [] p = p
run (c ∷ cs) p = run cs (step c p)
