-- ===== src/Socket/Gather/Shares.antt =====
-- How the bytes that readv gave are shared among the buffers by src/net/TCPSocket.cpp with GATHER_RECV.
use mathlib.Core.Bool.{or-true}
use hwnet.Prelude.{
  ℕ, zero, suc, ◌+◌, ◌-◌, ◌≤◌, ◌<◌, ◌≡◌, refl, sym, ap, ◌∙◌, Bool, true, false, ◌||◌, ◌==◌, List,
  [], ◌∷◌, ◌++◌, some, leb, arith, length, map, Bool-cases, inl, inr, ==_refl,
}
use hwnet.Socket.State.{Socket, RecvBuffer}
use hwnet.Socket.Api.{Event, apply_all}
use hwnet.Socket.Gather.{Delivery, deliver, call_recv, with_call}

-- The bytes that the buffers have place for.
unfoldable pub capacity : List RecvBuffer → ℕ
capacity [] = 0
capacity (b ∷ bs) = b.len + capacity bs

unfoldable pub given : List (RecvBuffer × ℕ) → ℕ
given [] = 0
given ((b, k) ∷ rest) = k + given rest

abbrev is_last : List (RecvBuffer × ℕ) → Bool
is_last [] = true
is_last (c ∷ cs) = false

-- Each buffer gets what it has place for, but the last one may get less.
abbrev pub IsPacked : List (RecvBuffer × ℕ) → Type 0
IsPacked [] = Unit
IsPacked ((b, k) ∷ rest) = (k ≤ b.len) × ((is_last rest || (k == b.len)) ≡ true) × IsPacked rest

-- The state after these calls of recvCallback, one after the other, from the state `s`, where `left`
-- buffers are left; `events` is what the callbacks do.
unfoldable pub after_calls : (ℕ → List Event) → List (RecvBuffer × ℕ) → ℕ → Socket → Socket
unfolding call_recv
after_calls events [] left s = s
after_calls events (c ∷ cs) zero s = s
after_calls events ((b, k) ∷ cs) (suc left) s =
    after_calls events cs left (call_recv true (events left) b k s)

-- The connection is open after each of these calls, but after the last one just if `stopped` is not set.
abbrev pub IsOpenTill : (ℕ → List Event) → Bool → List (RecvBuffer × ℕ) → ℕ → Socket → Type 0
IsOpenTill events stopped [] left s = stopped ≡ false
IsOpenTill events stopped (c ∷ cs) zero s = ⊥
IsOpenTill events stopped ((b, k) ∷ []) (suc left) s =
    (call_recv true (events left) b k s).closed ≡ stopped
IsOpenTill events stopped ((b, k) ∷ c ∷ cs) (suc left) s =
    ((call_recv true (events left) b k s).closed ≡ false)
    × IsOpenTill events stopped (c ∷ cs) left (call_recv true (events left) b k s)

IsOpenTill-more :
    (events : ℕ → List Event) (stopped : Bool) (b : RecvBuffer) (k left : ℕ)
    (cs : List (RecvBuffer × ℕ)) (s : Socket)
    → (call_recv true (events left) b k s).closed ≡ false
    → IsOpenTill events stopped cs left (call_recv true (events left) b k s)
    → IsOpenTill events stopped ((b, k) ∷ cs) (suc left) s
IsOpenTill-more events stopped b k left [] s e h = e ∙ sym h
IsOpenTill-more events stopped b k left (c ∷ cs) s e h = (e, h)

-- readv gave `n` bytes for the buffers `bs`, where the state is `s`. The calls of recvCallback are
-- those that were made from `s` on, and the loop stops early just after the first that left the socket
-- closed.
pub record IsShared (events : ℕ → List Event) (n : ℕ) (bs : List RecvBuffer) (s : Socket)
    (d : Delivery) : Type 0 where
  pub made : d.socket ≡ after_calls events d.calls (length bs) s
  pub open_till : IsOpenTill events d.stopped d.calls (length bs) s
  pub order : map (λ (b, k). b) d.calls ++ d.rest ≡ bs
  pub packed : IsPacked d.calls
  pub most : given d.calls ≤ n
  pub all : d.stopped ≡ false → given d.calls ≡ n

stopped-IsShared :
    (events : ℕ → List Event) (b : RecvBuffer) (k n : ℕ) (bs : List RecvBuffer) (s s' : Socket)
    → k ≤ b.len
    → k ≤ n
    → s' ≡ call_recv true (events (length bs)) b k s
    → s'.closed ≡ true
    → IsShared events n
        (b ∷ bs)
        s
        (record { stopped = true; calls = (b, k) ∷ []; rest = bs; socket = s' })
unfolding given after_calls
stopped-IsShared events b k n bs s s' le le' made shut = record {
  made = made;
  open_till = ap (λ x. x.closed) (sym made) ∙ shut;
  order = refl;
  packed = (le, refl, tt);
  most = omega (arith, le');
  all = λ e. absurd (ground (arith, e));
}

full-IsShared :
    (events : ℕ → List Event) (b : RecvBuffer) (n : ℕ) (bs : List RecvBuffer) (s : Socket)
    (d : Delivery)
    → b.len ≤ n
    → (call_recv true (events (length bs)) b b.len s).closed ≡ false
    → IsShared events (n - b.len) bs (call_recv true (events (length bs)) b b.len s) d
    → IsShared events n (b ∷ bs) s (record d { calls = (b, b.len) ∷ d.calls })
unfolding given after_calls
full-IsShared events b n bs s d le open' h = record {
  made = h.made;
  open_till = IsOpenTill-more events d.stopped b b.len (length bs) d.calls s open' h.open_till;
  order = ap (λ l. b ∷ l) h.order;
  packed = (omega arith, rw (==_refl b.len) (or-true (is_last d.calls)), h.packed);
  most = omega (arith, h.most, le);
  all = λ e. omega (arith, h.all e, le);
}

-- readv gave no more bytes than the buffers have place for: the loop ends with a result, whatever the
-- callbacks do.
pub deliver-IsShared :
    (events : ℕ → List Event) (n : ℕ) (bs : List RecvBuffer) (s : Socket)
    → n ≤ capacity bs
    → (d : Delivery) × (deliver true events n bs s ≡ some d) × IsShared events n bs s d
unfolding deliver capacity given with_call after_calls apply_all
deliver-IsShared events zero bs s fits = (
  record { stopped = false; calls = []; rest = bs; socket = s },
  refl,
  record {
    made = refl;
    open_till = refl;
    order = refl;
    packed = tt;
    most = omega arith;
    all = λ e. refl;
  },
)
deliver-IsShared events (suc n) [] s fits = absurd (omega (arith, fits))
deliver-IsShared events (suc n) (b ∷ bs) s fits = elim (Bool-cases (leb b.len (suc n))) [
  | inl e ↦
      let le : b.len ≤ suc n = ground (arith, e) in
      let s' = call_recv true (events (length bs)) b b.len s in
      let (d, done, h) = deliver-IsShared events (suc n - b.len) bs s' (omega (arith, fits)) in
      elim (Bool-cases s'.closed) [
        | inl shut ↦ (
          _,
          rw (e, shut) refl,
          stopped-IsShared events b b.len (suc n) bs s s' (omega arith) le refl shut,
        )
        | inr open' ↦
            (_, rw (e, open', done) refl, full-IsShared events b (suc n) bs s d le open' h)
      ]
  | inr e ↦
      let less : suc n < b.len = ground (arith, e) in
      let s' = call_recv true (events (length bs)) b (suc n) s in
      let none_left : suc n - suc n ≡ 0 = omega arith in
      elim (Bool-cases s'.closed) [
        | inl shut ↦ (
          _,
          rw (e, shut) refl,
          stopped-IsShared events b (suc n) (suc n) bs s s' (omega (arith, less)) (omega arith) refl
              shut,
        )
        | inr open' ↦ (
          record { stopped = false; calls = (b, suc n) ∷ []; rest = bs; socket = s' },
          rw (e, open', none_left) refl,
          record {
            made = refl;
            open_till = open';
            order = refl;
            packed = (omega (arith, less), refl, tt);
            most = omega arith;
            all = λ x. omega arith;
          },
        )
      ]
]
