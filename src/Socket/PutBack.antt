-- ===== src/Socket/PutBack.antt =====
-- What put_back of src/net/TCPSocket.cpp leaves of the send list.
use hwnet.Prelude.{
  ℕ, zero, suc, ◌+◌, ◌-◌, ◌≤◌, ◌<◌, ◌≡◌, refl, sym, ap, ◌∙◌, true, false, not, ◌&&◌, ◌||◌, List, [],
  ◌∷◌, ◌++◌, some, arith, length, take, drop, ltb, Bool-cases, inl, inr, drop-append_le,
  drop-append_ge, take-append-drop,
}
use hwnet.Socket.SendList.{
  SendContext, is_empty, add_front, gathered, left_over, total_bytes, max_send_iovec_size,
}
use hwnet.Socket.State.{Socket}
use hwnet.Socket.Stream.{
  AllWhole, stream, stream-add_front, add_front-AllWhole, length-stream, total_bytes-append,
  total_bytes-add_front, advance-Advanced,
}
use hwnet.Socket.Worker.{drain_sent, put_back}

AllWhole-drop : (k : ℕ) (cs : List SendContext) → AllWhole cs → AllWhole (drop k cs)
AllWhole-drop zero cs h = h
AllWhole-drop (suc k) [] h = h
AllWhole-drop (suc k) (c ∷ cs) h = AllWhole-drop k cs h.1

pub AllWhole-take : (k : ℕ) (cs : List SendContext) → AllWhole cs → AllWhole (take k cs)
AllWhole-take zero cs h = tt
AllWhole-take (suc k) [] h = h
AllWhole-take (suc k) (c ∷ cs) h = (h.0, AllWhole-take k cs h.1)

total_bytes-pos : (cs : List SendContext) → AllWhole cs → is_empty cs ≡ false → 0 < total_bytes cs
unfolding total_bytes
total_bytes-pos [] h e = absurd (ground arith)
total_bytes-pos (c ∷ cs) h e = omega (arith, h.0)

-- What one writev is given, and the rest.
pub total_bytes-gathered :
    (cs : List SendContext)
    → total_bytes (gathered cs) + total_bytes (left_over cs) ≡ total_bytes cs
unfolding gathered left_over
total_bytes-gathered cs =
    sym (total_bytes-append (take max_send_iovec_size cs) (drop max_send_iovec_size cs))
    ∙ ap total_bytes (take-append-drop max_send_iovec_size cs)

left_over-pos :
    (cs : List SendContext)
    → AllWhole cs
    → is_empty (left_over cs) ≡ false
    → 0 < total_bytes (left_over cs)
unfolding left_over
left_over-pos cs h e = total_bytes-pos _ (AllWhole-drop max_send_iovec_size cs h) e

is_empty-total_bytes : (cs : List SendContext) → is_empty cs ≡ true → total_bytes cs ≡ 0
unfolding total_bytes
is_empty-total_bytes [] e = refl
is_empty-total_bytes (c ∷ cs) e = cc

pub total_bytes-nil : total_bytes [] ≡ 0
unfolding total_bytes
total_bytes-nil = refl

-- The state after `n` of the bytes of `cs` went out.
abbrev Restored : ℕ → List SendContext → Socket → Type 0
Restored n cs s =
    (t : Socket) × (put_back n cs s ≡ some t)
    × (t.spare ≡ [])
    × (stream t.current ≡ drop n (stream cs ++ stream s.current))
    × AllWhole t.current
    × (total_bytes t.current + n ≡ total_bytes cs + total_bytes s.current)
    × (t.bytes_for_send ≡ s.bytes_for_send)

-- All of the list went out.
put_back-Restored_all :
    (n : ℕ) (cs : List SendContext) (s : Socket)
    → AllWhole cs
    → AllWhole s.current
    → is_empty (left_over cs) ≡ true
    → n ≡ total_bytes (gathered cs)
    → Restored n cs s
unfolding put_back drain_sent
put_back-Restored_all n cs s w v none_left all = (
  record s { spare = [] },
  ground arith,
  refl,
  sym (
      drop-append_ge n (stream cs) (stream s.current) (omega (arith, same, length-stream cs w))
      ∙ (let e : n - length (stream cs) ≡ 0 = omega (arith, same, length-stream cs w) in rw e)),
  v,
  omega (arith, same),
  refl,
)
  where
    same : n ≡ total_bytes cs
    same = omega (arith, total_bytes-gathered cs, is_empty-total_bytes (left_over cs) none_left)

-- A part of it did.
put_back-Restored_part :
    (n : ℕ) (cs : List SendContext) (s : Socket)
    → AllWhole cs
    → AllWhole s.current
    → (ltb 0 n && (ltb n (total_bytes (gathered cs)) || not (is_empty (left_over cs)))) ≡ true
    → n < total_bytes cs
    → Restored n cs s
unfolding put_back
put_back-Restored_part n cs s w v test less =
    let (rest, e, cut, whole, total) = advance-Advanced n cs w less in
    (
      record s { current = add_front s.current rest; spare = [] },
      rw (test, e),
      refl,
      stream-add_front s.current rest
          ∙ ap (λ x. x ++ stream s.current) cut
          ∙ sym
              (drop-append_le n (stream cs) (stream s.current) (omega (arith, length-stream cs w))),
      add_front-AllWhole s.current rest v whole,
      omega (arith, total, total_bytes-add_front s.current rest),
      refl,
    )

pub put_back-Restored :
    (n : ℕ) (cs : List SendContext) (s : Socket)
    → AllWhole cs
    → AllWhole s.current
    → 0 < n
    → n ≤ total_bytes (gathered cs)
    → Restored n cs s
put_back-Restored n cs s w v pos le = elim (Bool-cases (is_empty (left_over cs))) [
  | inl none_left ↦ elim (Bool-cases (ltb n (total_bytes (gathered cs)))) [
    | inl less ↦
        put_back-Restored_part n cs s w v (ground arith) (ground (arith, total_bytes-gathered cs))
    | inr more ↦ put_back-Restored_all n cs s w v none_left (ground arith)
  ]
  | inr some_left ↦
      put_back-Restored_part n cs s w v (ground arith)
        (omega (arith, total_bytes-gathered cs, left_over-pos cs w some_left))
]
