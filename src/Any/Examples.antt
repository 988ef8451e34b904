-- ===== src/Any/Examples.antt =====
-- Runs of the model of src/net/any.h.
use hwnet.Prelude.{◌≡◌, refl, [], ◌∷◌, none, some, put}
use hwnet.Any.{Any, World, makes, copies, drops, run_call, new_any, share_at, retain_at}
use hwnet.Any.Values.{replay, may, IsWorld}
use hwnet.Any.History.{History, new_world, start, called, History-IsWorld}

abbrev held : Any
held = record { content = some 1; counter = some 1 }

-- One object, with the value 5.
abbrev one : World
one = record {
  vars = held ∷ [];
  heap = record { contents = put 1 (some 5) (λ a. none); counts = put 1 (some 1) (λ a. none) };
}

-- And its copy.
abbrev two : World
two = record {
  vars = held ∷ held ∷ [];
  heap = record (one.heap) { counts = put 1 (some 2) one.heap.counts };
}

one-History : History one (some 5 ∷ [])
unfolding new_world run_call replay may new_any
one-History = called (makes 5 1) start refl refl refl

two-History : History two (some 5 ∷ some 5 ∷ [])
unfolding run_call replay may share_at retain_at
two-History = called (copies 0) one-History refl refl refl

-- The copy goes, and the first one still has the value.
History-IsWorld_example : (w : World) × (run_call (drops 0) two ≡ some w) × IsWorld w (some 5 ∷ [])
unfolding replay may
History-IsWorld_example = History-IsWorld (drops 0) two-History refl refl
