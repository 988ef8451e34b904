-- ===== src/Socket/Memory/Examples.antt =====
-- Runs of the model of the send lists of src/net/TCPSocket.h in memory.
use hwnet.Prelude.{◌≡◌, refl, List, [], ◌∷◌, Option, none, some}
use hwnet.Socket.SendList.{new_context}
use hwnet.Socket.Memory.{
  Store, Call, sends, swaps, pops, run_call, new_store, get_node, get_at, keep_node, put_node,
  push_back_at, pop_front_at, set_next,
}
use hwnet.Socket.Memory.Calls.{replay, may, IsStore}
use hwnet.Socket.Memory.Refines.{fresh, called, History-Refines}

-- What is left of a store after some calls, the first of them first.
unfoldable run : List Call → Store → Option Store
run [] s = some s
run (c ∷ cs) s = elim (run_call c s) [ none ↦ none | some s' ↦ run cs s' ]

abbrev first : List Call
first = sends (1 ∷ 2 ∷ []) 0 40 ∷ []

abbrev sent : Store
unfolding new_store get_node get_at new_context
sent = record new_store {
  memory = (get_node (1 ∷ 2 ∷ []) 0 40 new_store.memory).1;
  current = record { head = some 40; tail = some 40 };
}

-- One context is queued, and the worker takes the list.
History-Refines_example :
    (s' : Store) × (run_call swaps sent ≡ some s')
    × IsStore s' (replay swaps (replay (sends (1 ∷ 2 ∷ []) 0 40) ([], [])))
unfolding run_call new_store get_node get_at push_back_at may sent
History-Refines_example =
    History-Refines swaps (called (sends (1 ∷ 2 ∷ []) 0 40) fresh refl refl) refl

-- Two contexts are sent and given back; the pool keeps the second only, and get hands it out again.
abbrev two_calls : List Call
two_calls =
    sends (1 ∷ []) 0 40 ∷ sends (2 ∷ []) 0 41 ∷ swaps ∷ pops ∷ pops ∷ sends (3 ∷ []) 0 42 ∷ []

reused_run : elim (run two_calls new_store) [ none ↦ none | some s ↦ s.current.head ] ≡ some 41
unfolding run run_call new_store get_node get_at push_back_at pop_front_at put_node keep_node
    set_next
reused_run = refl
