-- ===== src/Any.antt =====
-- src/net/any.h, the holder of a value that its copies share, as it is built before C++17. Where `new`
-- puts a holder is an argument; its counter, in a memory of its own, has the same number.
pub mod Vars
pub mod Counts
pub mod Values
pub mod Shared
pub mod Refines
pub mod History
mod Examples
use hwnet.Prelude.{
  ◌>>=◌, ℕ, zero, suc, ◌+◌, ◌-◌, List, [], ◌∷◌, Option, none, some, put, leb, ◌==◌, if◌then◌else◌,
}

-- An object: `content` and `counter`.
pub record Any : Type 0 where
  pub content : Option ℕ
  pub counter : Option ℕ

-- The holders with their values, and the counters; `none` is memory that is free.
pub record Heap : Type 0 where
  pub contents : ℕ → Option ℕ
  pub counts : ℕ → Option ℕ

-- any()
abbrev pub empty_any : Any
empty_any = record { content = none; counter = none }

-- any(value)
unfoldable pub new_any : ℕ → ℕ → Heap → Any × Heap
new_any value a h = (
  record { content = some a; counter = some a },
  record { contents = put a (some value) h.contents; counts = put a (some 1) h.counts },
)

-- ++*counter; `none` is a counter that is free.
unfoldable pub retain_at : Option ℕ → ℕ → Heap → Option Heap
retain_at none c h = none
retain_at (some n) c h = some (record h { counts = put c (some (n + 1)) h.counts })

-- any(other), by the other's pointers.
unfoldable pub share_at : Option ℕ → Option ℕ → Heap → Option (Any × Heap)
unfolding retain_at
share_at (some p) (some c) h = do
  h' ← retain_at (h.counts c) c h
  some (record { content = some p; counter = some c }, h')
share_at none c h = some (empty_any, h)
share_at (some p) none h = some (empty_any, h)

-- delete counter; delete content. `none` is a holder that is free.
unfoldable pub delete_at : Option ℕ → ℕ → ℕ → Heap → Option Heap
delete_at none p c h = none
delete_at (some value) p c h =
    some (record { contents = put p none h.contents; counts = put c none h.counts })

-- --*counter, and the end of _destroy.
unfoldable pub count_down : Option ℕ → ℕ → ℕ → Heap → Option Heap
unfolding delete_at
count_down none p c h = none
count_down (some n) p c h =
    if leb n 1
    then delete_at (h.contents p) p c h
    else some (record h { counts = put c (some (n - 1)) h.counts })

-- _destroy, by the pointers.
unfoldable pub destroy_at : Option ℕ → Option ℕ → Heap → Option Heap
unfolding count_down
destroy_at (some p) (some c) h = count_down (h.counts c) p c h
destroy_at none c h = some h
destroy_at (some p) none h = some h

unfoldable pub destroy : Any → Heap → Option Heap
unfolding destroy_at
destroy v h = destroy_at v.content v.counter h

-- operator= after _destroy, by the pointers of `rhs`.
unfoldable pub assign_at : Option ℕ → Option ℕ → Any → Heap → Option (Any × Heap)
unfolding retain_at
assign_at (some p) (some c) v h = do
  h' ← retain_at (h.counts c) c h
  some (record { content = some p; counter = some c }, h')
assign_at none c v h = some (record v { content = none }, h)
assign_at (some p) none v h = some (record v { content = none }, h)

-- operator= from another object; the same one is left as it is.
unfoldable pub assign : Any → Any → Heap → Option (Any × Heap)
unfolding assign_at
assign v rhs h = do h' ← destroy v h; assign_at rhs.content rhs.counter v h'

-- any_cast; `none` is an empty object, or a holder that is free.
unfoldable pub cast_at : Option ℕ → Heap → Option ℕ
cast_at none h = none
cast_at (some p) h = h.contents p

unfoldable pub cast : Heap → Any → Option ℕ
unfolding cast_at
cast h v = cast_at v.content h

module _ {ℓ} {A : Type ℓ} where
  abbrev pub at : ℕ → List A → Option A
  at i [] = none
  at zero (v ∷ vs) = some v
  at (suc i) (v ∷ vs) = at i vs

  abbrev pub set : ℕ → A → List A → List A
  set i x [] = []
  set zero x (v ∷ vs) = x ∷ vs
  set (suc i) x (v ∷ vs) = v ∷ set i x vs

  abbrev pub without : ℕ → List A → List A
  without i [] = []
  without zero (v ∷ vs) = vs
  without (suc i) (v ∷ vs) = v ∷ without i vs

-- The objects of a program, and the heap.
pub record World : Type 0 where
  pub vars : List Any
  pub heap : Heap

-- What a program does with them: a new object that is empty, has a value, or is made of the `i`th one
-- by a copy or a move; the assignment of the `j`th to the `i`th; the end of the `i`th.
pub data Call : Type 0 where
  declares : Call
  makes : ℕ → ℕ → Call
  copies moves drops : ℕ → Call
  assigns : ℕ → ℕ → Call

unfoldable pub run_call : Call → World → Option World
run_call declares w = some (record w { vars = empty_any ∷ w.vars })
run_call (makes value a) w =
    let (v, h) = new_any value a w.heap in some (record { vars = v ∷ w.vars; heap = h })
run_call (copies i) w = do
  v ← at i w.vars
  (v', h) ← share_at v.content v.counter w.heap
  some (record { vars = v' ∷ w.vars; heap = h })
run_call (moves i) w = do v ← at i w.vars; some (record w { vars = v ∷ set i empty_any w.vars })
run_call (assigns i j) w = do
  v ← at i w.vars
  rhs ← at j w.vars
  let assigned : Option World = do
    (v', h) ← assign v rhs w.heap
    some (record { vars = set i v' w.vars; heap = h })
  if i == j then some w else assigned
run_call (drops i) w = do
  v ← at i w.vars
  h ← destroy v w.heap
  some (record { vars = without i w.vars; heap = h })
