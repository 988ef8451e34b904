-- ===== src/Socket/Stream.antt =====
-- The bytes that a send list stands for, under the loop that src/net/TCPSocket.cpp runs after a
-- partial send.
use hwnet.Prelude.{
  ℕ, ◌+◌, ◌-◌, ◌≤◌, ◌<◌, ◌≡◌, refl, sym, ap, ◌∙◌, List, [], ◌∷◌, ◌++◌, some, arith, append-nil,
  append_assoc, length, take, drop, leb, length-append, length-take, length-drop, drop-take,
  drop-drop, drop-append_le, drop-append_ge, Bool-cases, inl, inr,
}
use hwnet.Socket.SendList.{SendContext, bytes, push_back, add_front, total_bytes, advance}

-- A context that lies within its buffer and is not used up.
abbrev pub IsWhole : SendContext → Type 0
IsWhole c = (0 < c.len) × (c.ptr + c.len ≤ length c.buff)

abbrev pub AllWhole : List SendContext → Type 0
AllWhole [] = Unit {0}
AllWhole (c ∷ cs) = IsWhole c × AllWhole cs

-- What is still to be sent, in order.
unfoldable pub stream : List SendContext → List ℕ
stream [] = []
stream (c ∷ cs) = bytes c ++ stream cs

pub stream-append : (cs ds : List SendContext) → stream (cs ++ ds) ≡ stream cs ++ stream ds
unfolding stream
stream-append [] ds = refl
stream-append (c ∷ cs) ds =
    ap (◌++◌ (bytes c)) (stream-append cs ds) ∙ sym (append_assoc (bytes c) (stream cs) (stream ds))

pub stream-push_back :
    (c : SendContext) (cs : List SendContext) → stream (push_back c cs) ≡ stream cs ++ bytes c
unfolding stream push_back
stream-push_back c [] = append-nil (bytes c)
stream-push_back c (d ∷ ds) =
    stream-append (d ∷ ds) (c ∷ []) ∙ ap (◌++◌ (stream (d ∷ ds))) (append-nil (bytes c))

pub stream-add_front :
    (cs ds : List SendContext) → stream (add_front cs ds) ≡ stream ds ++ stream cs
unfolding stream add_front
stream-add_front cs [] = refl
stream-add_front [] (d ∷ ds) = sym (append-nil _)
stream-add_front (c ∷ cs) (d ∷ ds) = stream-append (d ∷ ds) (c ∷ cs)

pub AllWhole-append : (cs ds : List SendContext) → AllWhole cs → AllWhole ds → AllWhole (cs ++ ds)
AllWhole-append [] ds h k = k
AllWhole-append (c ∷ cs) ds h k = (h.0, AllWhole-append cs ds h.1 k)

pub push_back-AllWhole :
    (c : SendContext) (cs : List SendContext) → IsWhole c → AllWhole cs → AllWhole (push_back c cs)
unfolding push_back
push_back-AllWhole c [] h k = (h, tt)
push_back-AllWhole c (d ∷ ds) h k = (k.0, AllWhole-append ds (c ∷ []) k.1 (h, tt))

pub add_front-AllWhole :
    (cs ds : List SendContext) → AllWhole cs → AllWhole ds → AllWhole (add_front cs ds)
unfolding add_front
add_front-AllWhole cs [] h k = h
add_front-AllWhole [] (d ∷ ds) h k = k
add_front-AllWhole (c ∷ cs) (d ∷ ds) h k = AllWhole-append (d ∷ ds) (c ∷ cs) k h

pub length-bytes : (c : SendContext) → IsWhole c → length (bytes c) ≡ c.len
length-bytes c h = omega (arith, length-take c.len (drop c.ptr c.buff), length-drop c.ptr c.buff, h)

pub length-stream : (cs : List SendContext) → AllWhole cs → length (stream cs) ≡ total_bytes cs
unfolding stream total_bytes
length-stream [] h = refl
length-stream (c ∷ cs) h =
    omega (arith, length-append (bytes c) (stream cs), length-bytes c h.0, length-stream cs h.1)

pub total_bytes-append :
    (cs ds : List SendContext) → total_bytes (cs ++ ds) ≡ total_bytes cs + total_bytes ds
unfolding total_bytes
total_bytes-append [] ds = omega arith
total_bytes-append (c ∷ cs) ds = omega (arith, total_bytes-append cs ds)

pub total_bytes-push_back :
    (c : SendContext) (cs : List SendContext)
    → total_bytes (push_back c cs) ≡ total_bytes cs + c.len
unfolding total_bytes push_back
total_bytes-push_back c [] = omega arith
total_bytes-push_back c (d ∷ ds) = omega (arith, total_bytes-append ds (c ∷ []))

pub total_bytes-add_front :
    (cs ds : List SendContext) → total_bytes (add_front cs ds) ≡ total_bytes ds + total_bytes cs
unfolding total_bytes add_front
total_bytes-add_front cs [] = omega arith
total_bytes-add_front [] (d ∷ ds) = omega arith
total_bytes-add_front (c ∷ cs) (d ∷ ds) = omega (arith, total_bytes-append ds (c ∷ cs))

-- One context cut by `nn` bytes.
bytes-cut :
    (nn : ℕ) (c : SendContext) → take (c.len - nn) (drop (c.ptr + nn) c.buff) ≡ drop nn (bytes c)
bytes-cut nn c =
    sym
      (drop-take nn c.len (drop c.ptr c.buff) ∙ ap (take (c.len - nn)) (drop-drop nn c.ptr c.buff))

-- The outcome of a partial send of `nn` bytes over `cs`.
abbrev pub Advanced : ℕ → List SendContext → Type 0
Advanced nn cs =
    (rest : List SendContext) × (advance nn cs ≡ some rest)
    × (stream rest ≡ drop nn (stream cs))
    × AllWhole rest
    × (total_bytes rest + nn ≡ total_bytes cs)

advance_whole :
    (nn : ℕ) (c : SendContext) (cs : List SendContext)
    → IsWhole c
    → c.len ≤ nn
    → Advanced (nn - c.len) cs
    → Advanced nn (c ∷ cs)
unfolding advance stream total_bytes
advance_whole nn c cs w h (rest, e, s, a, t) =
    (rest, ground (arith, e), s ∙ sym (rw (length-bytes c w) at cut), a, omega (arith, t))
  where
    cut : drop nn (bytes c ++ stream cs) ≡ drop (nn - length (bytes c)) (stream cs)
    cut = drop-append_ge nn (bytes c) (stream cs) (omega (arith, length-bytes c w))

-- A send of fewer bytes than there are finds a context to cut, and leaves what was not sent.
pub advance-Advanced :
    (nn : ℕ) (cs : List SendContext) → AllWhole cs → nn < total_bytes cs → Advanced nn cs
unfolding advance stream total_bytes
advance-Advanced nn [] w h = absurd (omega arith)
advance-Advanced nn (c ∷ cs) w h = elim (Bool-cases (leb c.len nn)) [
  | inl out ↦
      advance_whole nn c cs w.0 (ground arith) (advance-Advanced (nn - c.len) cs w.1 (ground arith))
  | inr part ↦ (
    record c { ptr = c.ptr + nn; len = c.len - nn } ∷ cs,
    rw part,
    ap (λ x. x ++ stream cs) (bytes-cut nn c)
        ∙ sym (drop-append_le nn (bytes c) (stream cs) (ground (arith, length-bytes c w.0))),
    (ground arith, w.1),
    ground arith,
  )
]
