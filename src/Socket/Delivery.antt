-- ===== src/Socket/Delivery.antt =====
-- The order and the number of the bytes that the Send calls of src/net/TCPSocket.cpp queue and
-- sendInWorker writes, with other calls coming between its two regions.
use hwnet.Prelude.{
  ℕ, ◌+◌, ◌≤◌, ◌<◌, ◌≡◌, refl, sym, ap, ◌∙◌, subst, Bool, true, false, ◌||◌, List, [], ◌∷◌, ◌++◌,
  arith, append-nil, append_assoc, length, take, ltb, ◌==◌, if◌then◌else◌, size_mod, add_size,
  add_size_lem, add_size-lt, Bool-cases, inl, inr,
}
use hwnet.Socket.SendList.{SendContext, new_context, push_back, total_bytes}
use hwnet.Socket.State.{Socket}
use hwnet.Socket.Timeout.{Clock}
use hwnet.Socket.Stream.{
  AllWhole, stream, stream-push_back, push_back-AllWhole, total_bytes-push_back,
}
use hwnet.Socket.Frame.{
  send_state, send_state-wake, send_state-register_send_timer, send_state-recv,
  send_state-on_active, send_state-shut_down, send_state-close, send_state-start,
  send_state-on_timer, send_state-set_send_timeout, send_state-set_recv_timeout, SendState,
}
use hwnet.Socket.Api.{
  Event, sends, recvs, activates, shuts, closes, starts, ticks, sets_flush, sets_error, sets_close,
  sets_recv, sets_high_water, sets_send_timeout, sets_recv_timeout, send_length, queue_send,
  send_locked, send, apply, apply_all, set_flush_callback, set_error_callback, set_close_callback,
  set_recv_callback, set_high_water,
}

-- The bytes that a connection has accepted and not written, in the order in which they will go out.
abbrev pub waiting : SendState → List ℕ
waiting v = stream v.spare ++ stream v.current

-- Every context lies in its buffer, and bytes4Send is the number of bytes that wait.
pub record IsCounted (v : SendState) : Type 0 where
  pub spare_whole : AllWhole v.spare
  pub current_whole : AllWhole v.current
  pub total : v.count ≡ total_bytes v.spare + total_bytes v.current
  pub fits : v.count < size_mod

abbrev refuses : Socket → Bool
refuses s = s.closed || s.shutdown || s.closed_on_flush

-- The bytes that one call adds to those that wait.
abbrev pub accepted : Event → Socket → List ℕ
accepted (sends c buff len closing) s =
    if send_length buff len == 0 || refuses s then [] else take (send_length buff len) buff
accepted e s = []

abbrev pub all_accepted : List Event → Socket → List ℕ
all_accepted [] s = []
all_accepted (e ∷ es) s = accepted e s ++ all_accepted es (apply e s)

-- A call that sends no more than its buffer holds, and no more than size_t can count.
abbrev pub Fits : Event → Socket → Type 0
Fits (sends c buff len closing) s =
    (len ≤ length buff) × (s.bytes_for_send + send_length buff len < size_mod)
Fits e s = Unit {0}

abbrev pub AllFit : List Event → Socket → Type 0
AllFit [] s = Unit {0}
AllFit (e ∷ es) s = Fits e s × AllFit es (apply e s)

-- The send state after a call of Send.
abbrev pushed : List ℕ → ℕ → SendState → SendState
pushed buff len v = record v {
  current = push_back (new_context buff len) v.current;
  count = add_size v.count len;
}

send_state-queue_send :
    (c : Clock) (buff : List ℕ) (len : ℕ) (closing : Bool) (s : Socket)
    → send_state (queue_send c buff len closing s) ≡ pushed buff len (send_state s)
unfolding queue_send
send_state-queue_send c buff len closing s = elim (Bool-cases (ltb 0 s.timeouts.send_timeout)) [
  | inl t ↦ rw t (send_state-register_send_timer c _)
  | inr t ↦ rw t
]

send_state-send :
    (c : Clock) (buff : List ℕ) (len : ℕ) (closing : Bool) (s : Socket)
    → send_state (send c buff len closing s) ≡ (
        if send_length buff len == 0 || refuses s
        then send_state s
        else pushed buff (send_length buff len) (send_state s))
unfolding send send_locked
send_state-send c buff len closing s =
    let len' = send_length buff len in
    let queued = queue_send c buff len' closing s in
    elim (Bool-cases (len' == 0)) [
      | inl z ↦ rw z
      | inr z ↦ elim (Bool-cases (refuses s)) [
        | inl r ↦ rw (z, r)
        | inr r ↦ rw (z, r) (send_state-wake _ queued ∙ send_state-queue_send c buff len' closing s)
      ]
    ]

send_length-le : (buff : List ℕ) (len : ℕ) → len ≤ length buff → send_length buff len ≤ length buff
unfolding send_length
send_length-le buff len h = ground arith

-- What a call does to the bytes that wait.
abbrev pub Grows : List ℕ → SendState → SendState → Type 0
Grows extra v w = (w.spare ≡ v.spare) × (waiting w ≡ waiting v ++ extra) × IsCounted w

Grows-same : {v w : SendState} → w ≡ v → IsCounted v → Grows [] v w
Grows-same {v} e h = rw e (refl, sym (append-nil (waiting v)), h)

new_context_lem :
    (buff : List ℕ) (len : ℕ)
    → 0 < len
    → new_context buff len ≡ record { buff = buff; ptr = 0; len = len }
unfolding new_context
new_context_lem buff len h = ground arith

Grows-pushed :
    (buff : List ℕ) (len : ℕ) (v : SendState)
    → 0 < len
    → len ≤ length buff
    → v.count + len < size_mod
    → IsCounted v
    → Grows (take len buff) v (pushed buff len v)
Grows-pushed buff len v pos le fits h = rw (new_context_lem buff len pos) (
  refl,
  ap (◌++◌ (stream v.spare)) (stream-push_back new v.current)
      ∙ sym (append_assoc (stream v.spare) (stream v.current) (take len buff)),
  record {
    spare_whole = h.spare_whole;
    current_whole = push_back-AllWhole new v.current (pos, omega arith) h.current_whole;
    total = omega (arith, add_size_lem v.count len fits, total_bytes-push_back new v.current);
    fits = add_size-lt v.count len;
  },
)
  where
    new : SendContext
    new = record { buff = buff; ptr = 0; len = len }

-- A call of Send that is refused, or not.
Grows-split :
    (refused : Bool) (buff : List ℕ) (len : ℕ) (v : SendState) {w : SendState}
    → w ≡ (if refused then v else pushed buff len v)
    → (refused ≡ false → 0 < len)
    → len ≤ length buff
    → v.count + len < size_mod
    → IsCounted v
    → Grows (if refused then [] else take len buff) v w
Grows-split true buff len v e pos le fits h = Grows-same e h
Grows-split false buff len v e pos le fits h =
    subst (Grows (take len buff) v) (sym e) (Grows-pushed buff len v (pos refl) le fits h)

Grows-send :
    (c : Clock) (buff : List ℕ) (len : ℕ) (closing : Bool) (s : Socket)
    → Fits (sends c buff len closing) s
    → IsCounted (send_state s)
    → Grows
        (accepted (sends c buff len closing) s)
        (send_state s)
        (send_state (send c buff len closing s))
Grows-send c buff len closing s f h =
    Grows-split (send_length buff len == 0 || refuses s) buff (send_length buff len) (send_state s)
      (send_state-send c buff len closing s) (λ e. ground arith) (send_length-le buff len f.0) f.1 h

-- Whatever call is made, the bytes that wait grow at their end by those that the call accepts, and
-- the list under way is not touched.
pub apply-Grows :
    (e : Event) (s : Socket)
    → Fits e s
    → IsCounted (send_state s)
    → Grows (accepted e s) (send_state s) (send_state (apply e s))
unfolding apply set_flush_callback set_error_callback set_close_callback set_recv_callback
    set_high_water
apply-Grows (sends c buff len closing) s f h = Grows-send c buff len closing s f h
apply-Grows (recvs c buff) s f h = Grows-same (send_state-recv c buff s) h
apply-Grows (activates a) s f h = Grows-same (send_state-on_active a s) h
apply-Grows shuts s f h = Grows-same (send_state-shut_down s) h
apply-Grows closes s f h = Grows-same (send_state-close s) h
apply-Grows starts s f h = Grows-same (send_state-start s) h
apply-Grows (ticks t now) s f h = Grows-same (send_state-on_timer t now s) h
apply-Grows (sets_flush given) s f h = Grows-same refl h
apply-Grows (sets_error given) s f h = Grows-same refl h
apply-Grows (sets_close given) s f h = Grows-same refl h
apply-Grows (sets_recv given) s f h = Grows-same refl h
apply-Grows (sets_high_water given size) s f h = Grows-same refl h
apply-Grows (sets_send_timeout c timeout callback) s f h =
    Grows-same (send_state-set_send_timeout c timeout callback s) h
apply-Grows (sets_recv_timeout c timeout callback) s f h =
    Grows-same (send_state-set_recv_timeout c timeout callback s) h

-- So do the calls of a whole sequence, in its order.
pub apply_all-Grows :
    (es : List Event) (s : Socket)
    → AllFit es s
    → IsCounted (send_state s)
    → Grows (all_accepted es s) (send_state s) (send_state (apply_all es s))
unfolding apply_all
apply_all-Grows [] s f h = Grows-same refl h
apply_all-Grows (e ∷ es) s f h =
    let first = apply-Grows e s f.0 h in
    let later = apply_all-Grows es (apply e s) f.1 first.2 in
    (
      later.0 ∙ first.0,
      later.1
          ∙ ap (λ w. w ++ all_accepted es (apply e s)) first.1
          ∙ append_assoc (waiting (send_state s)) (accepted e s) (all_accepted es (apply e s)),
      later.2,
    )
