-- ===== src/Socket/Balance.antt =====
-- The bytes that one writev of src/net/TCPSocket.cpp takes, and those that are left.
use hwnet.Prelude.{
  ℕ, ◌≤◌, ◌<◌, ◌≡◌, sym, ap, ◌∙◌, List, ◌++◌, arith, append_assoc, take, drop, ◌⊎◌, inl, inr,
  take-append-drop, take-append_le,
}
use hwnet.Socket.SendList.{SendContext, gathered, total_bytes, max_send_iovec_size}
use hwnet.Socket.Stream.{AllWhole, stream, stream-append, length-stream}
use hwnet.Socket.Worker.{SysResult, moved, would_block}
use hwnet.Socket.PutBack.{AllWhole-take}

-- writev takes `n` of the bytes that it is given, or none.
abbrev pub Writes : ℕ → SysResult → List SendContext → Type 0
Writes n r cs =
    ((r ≡ moved n) × (0 < n) × (n ≤ total_bytes (gathered cs))) ⊎ ((r ≡ would_block) × (n ≡ 0))

-- What writev took is the beginning of what waited, whatever was added behind.
pub taken :
    (n : ℕ) (r : SysResult) (cs : List SendContext) (added : List ℕ)
    → AllWhole cs
    → Writes n r cs
    → take n (stream (gathered cs)) ≡ take n (stream cs ++ added)
unfolding gathered
taken n r cs added h (inr (e, none_sent)) = rw none_sent
taken n r cs added h (inl (e, pos, le)) =
    let first = take max_send_iovec_size cs in
    let later = drop max_send_iovec_size cs in
    let parts : stream cs ++ added ≡ stream first ++ (stream later ++ added) =
      ap (λ ds. stream ds ++ added) (sym (take-append-drop max_send_iovec_size cs))
      ∙ ap (λ x. x ++ added) (stream-append first later)
      ∙ append_assoc (stream first) (stream later) added in
    let whole = length-stream first (AllWhole-take max_send_iovec_size cs h) in
    sym (
      ap (take n) parts
      ∙ take-append_le n (stream first) (stream later ++ added) (omega (arith, whole)))

-- The bytes move along, where `n` of them are sent and `more` are added.
pub balance :
    (sent now old granted more next took : List ℕ) (n : ℕ)
    → sent ++ now ≡ old ++ granted
    → took ≡ take n (now ++ more)
    → next ≡ drop n (now ++ more)
    → (sent ++ took) ++ next ≡ old ++ (granted ++ more)
balance sent now old granted more next took n e t d =
    append_assoc sent took next
    ∙ ap (◌++◌ sent) (rw (t, d) (take-append-drop n (now ++ more)))
    ∙ sym (append_assoc sent now more)
    ∙ ap (λ x. x ++ more) e
    ∙ append_assoc old granted more
