-- ===== src/Socket/Memory.antt =====
-- src/net/TCPSocket.h, classes sendContext and linklist, and src/net/TCPSocket.cpp, class
-- sendContextPool, in memory: contexts at addresses, linked by `next`. malloc is an argument.
pub mod Linked
pub mod Nodes
pub mod Lists
pub mod Calls
pub mod Refines
mod Examples
use hwnet.Prelude.{
  ◌>>=◌, ℕ, zero, suc, ◌+◌, ◌-◌, Bool, true, false, not, List, [], Option, none, some, put, ltb,
  if◌then◌else◌,
}
use hwnet.Socket.SendList.{SendContext, new_context}
use hwnet.SendPool.{item_count}

-- A sendContext in memory.
pub record Node : Type 0 where
  pub content : SendContext
  pub next : Option ℕ

-- The memory: the contexts, which of the addresses malloc has given out, and how often it did; and
-- one `pool`.
pub record Memory : Type 0 where
  pub nodes : ℕ → Node
  pub allocated : ℕ → Bool
  pub made : ℕ
  pub count : ℕ
  pub pool_head : Option ℕ

-- ~sendContext
abbrev pub destroyed : Node
destroyed = record { content = record { buff = []; ptr = 0; len = 0 }; next = none }

-- The context becomes the head of the pool. Where there is a head, its successor is stored as `next`.
unfoldable pub keep_node : Option ℕ → ℕ → Memory → Memory
keep_node none s m = record m {
  nodes = put s destroyed m.nodes;
  count = m.count + 1;
  pool_head = some s;
}
keep_node (some head) s m = record m {
  nodes = put s (record destroyed { next = (put s destroyed m.nodes head).next }) m.nodes;
  count = m.count + 1;
  pool_head = some s;
}

-- free
unfoldable pub free_node : ℕ → Memory → Memory
free_node s m = record m { nodes = put s destroyed m.nodes; allocated = put s false m.allocated }

-- sendContextPool::put
unfoldable pub put_node : ℕ → Memory → Memory
put_node s m = if ltb m.count item_count then keep_node m.pool_head s m else free_node s m

abbrev pub made_node : List ℕ → ℕ → Node
made_node buff len = record { content = new_context buff len; next = none }

-- get by the head of the pool; malloc gives `fresh`.
unfoldable pub get_at : Option ℕ → List ℕ → ℕ → ℕ → Memory → ℕ × Memory
get_at none buff len fresh m = (
  fresh,
  record m {
    nodes = put fresh (made_node buff len) m.nodes;
    allocated = put fresh true m.allocated;
    made = m.made + 1;
  },
)
get_at (some head) buff len fresh m = (
  head,
  record m {
    nodes = put head (made_node buff len) m.nodes;
    count = m.count - 1;
    pool_head = (m.nodes head).next;
  },
)

-- sendContextPool::get
unfoldable pub get_node : List ℕ → ℕ → ℕ → Memory → ℕ × Memory
get_node buff len fresh m = get_at m.pool_head buff len fresh m

-- linklist
pub record LinkList : Type 0 where
  pub head : Option ℕ
  pub tail : Option ℕ

-- linklist()
abbrev pub no_list : LinkList
no_list = record { head = none; tail = none }

-- p->next = q; `none` is a write through a null pointer.
unfoldable pub set_next : Option ℕ → Option ℕ → Memory → Option Memory
set_next none q m = none
set_next (some p) q m = some (record m { nodes = put p (record (m.nodes p) { next = q }) m.nodes })

-- push_back, by the head of the list.
unfoldable pub push_back_at : Option ℕ → ℕ → LinkList → Memory → Option (LinkList × Memory)
push_back_at none s l m = some (record { head = some s; tail = some s }, m)
push_back_at (some head) s l m = do
  m' ← set_next l.tail (some s) m
  some (record l { tail = some s }, m')

-- pop_front, by the head of the list.
unfoldable pub pop_front_at : Option ℕ → LinkList → Memory → LinkList × Memory
pop_front_at none l m = (l, m)
pop_front_at (some s) l m =
    let next = (m.nodes s).next in
    let tail : Option ℕ = elim next [ none ↦ none | some t ↦ l.tail ] in
    (record { head = next; tail = tail }, put_node s m)

-- add_front, by the heads of the two lists: what they become.
unfoldable pub add_front_at :
    Option ℕ → Option ℕ → LinkList → LinkList → Memory → Option (LinkList × LinkList × Memory)
add_front_at self none l o m = some (l, o, m)
add_front_at none (some b) l o m = some (o, no_list, m)
add_front_at (some a) (some b) l o m = do
  m' ← set_next o.tail l.head m
  some (record l { head = o.head }, no_list, m')

-- The loop of clear, on fuel.
unfoldable pub clear_loop : ℕ → Option ℕ → Memory → Option Memory
clear_loop zero cur m = none
clear_loop (suc k) none m = some m
clear_loop (suc k) (some c) m = clear_loop k (m.nodes c).next (put_node c m)

-- clear by the head of the list, with fuel for every context that malloc has given out.
unfoldable pub clear_at : Option ℕ → LinkList → Memory → Option (LinkList × Memory)
clear_at none l m = some (l, m)
clear_at (some a) l m = do m' ← clear_loop (suc m.made) (some a) m; some (no_list, m')

-- The memory with the lists of one socket: *ptrSendlist and the other one of sendLists.
pub record Store : Type 0 where
  pub memory : Memory
  pub current : LinkList
  pub spare : LinkList

-- A pool that is empty, and two empty lists.
unfoldable pub new_store : Store
new_store = record {
  memory = record {
    nodes = λ a. destroyed;
    allocated = λ a. false;
    made = 0;
    count = 0;
    pool_head = none;
  };
  current = no_list;
  spare = no_list;
}

-- What the socket does to its lists: _send, the swap of sendInWorker, pop_front and the change of
-- `ptr` and `len` in the loop over a partial send, add_front, and clear of both in doClose.
pub data Call : Type 0 where
  sends : List ℕ → ℕ → ℕ → Call
  swaps pops restores clears : Call
  cuts : ℕ → Call

-- cur->ptr += n; cur->len -= n
unfoldable pub cut : ℕ → SendContext → SendContext
cut n c = record c { ptr = c.ptr + n; len = c.len - n }

unfoldable pub cut_at : ℕ → Option ℕ → Memory → Memory
unfolding cut
cut_at n none m = m
cut_at n (some a) m = record m {
  nodes = put a (record (m.nodes a) { content = cut n (m.nodes a).content }) m.nodes;
}

unfoldable pub run_call : Call → Store → Option Store
unfolding cut_at
run_call (sends buff len fresh) s =
    let (a, m) = get_node buff len fresh s.memory in
    do
      (l, m') ← push_back_at s.current.head a s.current m
      some (record s { memory = m'; current = l })
run_call swaps s = some (record s { current = s.spare; spare = s.current })
run_call pops s =
    let (l, m) = pop_front_at s.spare.head s.spare s.memory in
    some (record s { memory = m; spare = l })
run_call (cuts n) s = some (record s { memory = cut_at n s.spare.head s.memory })
run_call restores s = do
  (l, o, m) ← add_front_at s.current.head s.spare.head s.current s.spare s.memory
  some (record { memory = m; current = l; spare = o })
run_call clears s = do
  (l, m) ← clear_at s.current.head s.current s.memory
  (o, m') ← clear_at s.spare.head s.spare m
  some (record { memory = m'; current = l; spare = o })
