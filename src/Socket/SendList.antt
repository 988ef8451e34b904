-- ===== src/Socket/SendList.antt =====
-- src/net/TCPSocket.h, classes sendContext and linklist. A chain of contexts from `head` to `tail`
-- is a list; the context's memory and its pool are those of SendPool.
use hwnet.Prelude.{
  ℕ, ◌+◌, ◌-◌, Bool, true, false, List, [], ◌∷◌, ◌++◌, Option, none, some, length, take, drop, ltb,
  leb, if◌then◌else◌,
}

-- `buff` is what the shared buffer holds from BuffPtr() on, and `ptr` an offset into it.
pub record SendContext : Type 0 where
  pub buff : List ℕ
  pub ptr : ℕ
  pub len : ℕ

-- sendContext(buff,len)
unfoldable pub new_context : List ℕ → ℕ → SendContext
new_context buff len = record { buff = buff; ptr = 0; len = if ltb 0 len then len else length buff }

-- The bytes that a context still has to send.
abbrev pub bytes : SendContext → List ℕ
bytes c = take c.len (drop c.ptr c.buff)

unfoldable pub front : List SendContext → Option SendContext
front [] = none
front (c ∷ cs) = some c

unfoldable pub pop_front : List SendContext → List SendContext
pop_front [] = []
pop_front (c ∷ cs) = cs

unfoldable pub push_back : SendContext → List SendContext → List SendContext
push_back c [] = c ∷ []
push_back c (d ∷ ds) = d ∷ ds ++ c ∷ []

abbrev pub is_empty {ℓ} : {A : Type ℓ} → List A → Bool
is_empty [] = true
is_empty (x ∷ xs) = false

-- add_front: the list that the other one is put in front of; the other one is left empty.
unfoldable pub add_front : List SendContext → List SendContext → List SendContext
add_front self [] = self
add_front [] (d ∷ ds) = d ∷ ds
add_front (c ∷ cs) (d ∷ ds) = (d ∷ ds) ++ c ∷ cs

-- max_send_iovec_size
abbrev pub max_send_iovec_size : ℕ
max_send_iovec_size = 128

-- The contexts that one writev takes, from the head on, and those from `cur` on that it leaves.
unfoldable pub gathered : List SendContext → List SendContext
gathered cs = take max_send_iovec_size cs

unfoldable pub left_over : List SendContext → List SendContext
left_over cs = drop max_send_iovec_size cs

-- totalBytes
unfoldable pub total_bytes : List SendContext → ℕ
total_bytes [] = 0
total_bytes (c ∷ cs) = c.len + total_bytes cs

-- The loop over a partial send: contexts that went out whole are popped, the next one is cut.
-- `none` is the dereference of a null `front`.
unfoldable pub advance : ℕ → List SendContext → Option (List SendContext)
advance nn [] = none
advance nn (c ∷ cs) =
    if leb c.len nn
    then advance (nn - c.len) cs
    else some (record c { ptr = c.ptr + nn; len = c.len - nn } ∷ cs)
